-- ===== src/Floats.antt =====
-- The floating-point numbers of Python, NumPy and C: a `Double` is Python's float and C's double, a
-- `Single` NumPy's float32 and C's float. The package computes with them only through these
-- operations, so they are an interface: the operations here, and what IEEE 754 says of them in
-- `IsLawful`. Arithmetic (`add` to `abs`) has no law, since no proof opens a rounding.
pub mod Laws
use skip_zfp.Prelude.{ℕ, ◌≡◌, Bool, true, false, List, not}

pub record Floats : Type 1 where
  pub Double : Type 0
  pub Single : Type 0
  -- `a < b` and `a <= b`, false at NaN
  pub lt : Double → Double → Bool
  pub le : Double → Double → Bool
  pub is_nan : Double → Bool
  pub neg_inf : Double
  pub inf : Double
  -- `float(f)`, `(double)f`
  pub widen : Single → Double
  -- `np.float32(x)`, `(float)x`: to the nearest
  pub narrow : Double → Single
  -- `np.nextafter(f, -inf)`, `nextafterf(f, -INFINITY)`
  pub prev : Single → Single
  -- `nextafterf(f, INFINITY)`
  pub next : Single → Single
  pub add : Double → Double → Double
  pub sub : Double → Double → Double
  pub mul : Double → Double → Double
  pub div : Double → Double → Double
  pub abs : Double → Double
  pub of_ℕ : ℕ → Double
  -- four bytes in memory read as a float
  pub read_single : List ℕ → Single

-- The order is that of numbers with two infinities, and NaN is outside it. `narrow` rounds
-- monotonically and keeps every float32, and `prev` is the float32 just below, with -inf its own.
pub record IsLawful (F : Floats) : Type 0 where
  pub le_or_lt :
      (a b : F.Double) → F.is_nan a ≡ false → F.is_nan b ≡ false → F.le a b ≡ not (F.lt b a)
  pub lt-le_trans : (a b c : F.Double) → F.lt a b ≡ true → F.le b c ≡ true → F.lt a c ≡ true
  pub le-lt_trans : (a b c : F.Double) → F.le a b ≡ true → F.lt b c ≡ true → F.lt a c ≡ true
  pub le_trans : (a b c : F.Double) → F.le a b ≡ true → F.le b c ≡ true → F.le a c ≡ true
  pub lt_irrefl : (a : F.Double) → F.lt a a ≡ false
  pub lt_left : (a b : F.Double) → F.lt a b ≡ true → F.is_nan a ≡ false
  pub le_of_lt : (a b : F.Double) → F.lt a b ≡ true → F.le a b ≡ true
  pub le_left : (a b : F.Double) → F.le a b ≡ true → F.is_nan a ≡ false
  pub le_right : (a b : F.Double) → F.le a b ≡ true → F.is_nan b ≡ false
  pub lt_right : (a b : F.Double) → F.lt a b ≡ true → F.is_nan b ≡ false
  pub le-inf : (a : F.Double) → F.is_nan a ≡ false → F.le a F.inf ≡ true
  pub neg_inf-le : (a : F.Double) → F.is_nan a ≡ false → F.le F.neg_inf a ≡ true
  pub narrow-num : (x : F.Double) → F.is_nan x ≡ false → F.is_nan (F.widen (F.narrow x)) ≡ false
  pub le-narrow :
      (x : F.Double) (t : F.Single)
      → F.le (F.widen t) x ≡ true
      → F.le (F.widen t) (F.widen (F.narrow x)) ≡ true
  pub narrow-le :
      (x : F.Double) (t : F.Single)
      → F.le x (F.widen t) ≡ true
      → F.le (F.widen (F.narrow x)) (F.widen t) ≡ true
  pub le-prev :
      (s t : F.Single)
      → F.lt F.neg_inf (F.widen s) ≡ true
      → F.is_nan (F.widen t) ≡ false
      → F.le (F.widen t) (F.widen (F.prev s)) ≡ F.lt (F.widen t) (F.widen s)
  pub prev-le :
      (s : F.Single) → F.is_nan (F.widen s) ≡ false → F.le (F.widen (F.prev s)) (F.widen s) ≡ true
