-- ===== src/Codec/ZoneMap/Bounds.antt =====
-- The extents and the largest error that the loops of szfp_meta in skipzfp/csrc/core.c find.
use skip_zfp.Prelude.{◌≡◌, Bool-cases, inl, inr, true, false, List, [], ◌∷◌, All, arith}
use skip_zfp.Floats.{Floats, IsLawful as FloatsAreLawful}
use skip_zfp.Codec.ZoneMap.{Extent, widen_to, larger_err, error_of, block_extent, block_max_error}

module _ (F : Floats) (law : FloatsAreLawful F) where
  abbrev pub Num : F.Double → Type 0
  Num x = F.is_nan x ≡ false

  pub le_refl : (a : F.Double) → Num a → F.le a a ≡ true
  le_refl a h = ground (arith, law.le_or_lt a a h h, law.lt_irrefl a)

  pub le_of_not_lt : (a b : F.Double) → Num a → Num b → F.lt b a ≡ false → F.le a b ≡ true
  le_of_not_lt a b h k e = ground (arith, law.le_or_lt a b h k)

  -- the larger of two numbers is a number, and at least both
  larger_err_lem :
      (acc e : F.Double)
      → Num acc
      → Num e
      → Num (larger_err F acc e)
        × (F.le acc (larger_err F acc e) ≡ true)
        × (F.le e (larger_err F acc e) ≡ true)
  larger_err_lem acc e h k = elim (Bool-cases (F.lt acc e)) [
    | inl up ↦ rw up (k, law.le_of_lt acc e up, le_refl e k)
    | inr down ↦ rw down (h, le_refl acc h, le_of_not_lt e acc k h down)
  ]

  -- an error that is a number below some other one
  abbrev pub BelowMax : F.Double → F.Single × F.Single → Type 0
  BelowMax m p = Num (error_of F p.0 p.1) × (F.le (error_of F p.0 p.1) m ≡ true)

  larger_err-le :
      (acc e m : F.Double)
      → F.le acc m ≡ true
      → F.le e m ≡ true
      → F.le (larger_err F acc e) m ≡ true
  larger_err-le acc e m h k = elim (Bool-cases (F.lt acc e)) [
    | inl up ↦ rw up k
    | inr down ↦ rw down h
  ]

  -- The largest error of a block is at least the one before it and each of the block, and at most
  -- what they all are.
  pub record Covered (b : List (F.Single × F.Single)) (acc m r : F.Double) : Type 0 where
    pub num : Num r
    pub from : F.le acc r ≡ true
    pub below : F.le r m ≡ true
    pub each : All (λ p. F.le (error_of F p.0 p.1) r ≡ true) b

  pub block_max_error-Covered :
      (b : List (F.Single × F.Single)) (acc m : F.Double)
      → Num acc
      → F.le acc m ≡ true
      → All (BelowMax m) b
      → Covered b acc m (block_max_error F b acc)
  unfolding block_max_error
  block_max_error-Covered [] acc m h le all' = record {
    num = h;
    from = le_refl acc h;
    below = le;
    each = tt;
  }
  block_max_error-Covered ((v, d) ∷ b) acc m h le ((num, small), all') =
      let (n, p, q) = larger_err_lem acc (error_of F v d) h num in
      let rest =
        block_max_error-Covered b (larger_err F acc (error_of F v d)) m n
          (larger_err-le acc (error_of F v d) m le small) all' in
      record {
        num = rest.num;
        from = law.le_trans acc _ _ p rest.from;
        below = rest.below;
        each = (law.le_trans (error_of F v d) _ _ q rest.from, rest.each);
      }

  -- both ends of an extent are numbers, and one extent lies within another
  abbrev pub IsExtent : Extent F → Type 0
  IsExtent e = Num (F.widen e.low) × Num (F.widen e.high)

  abbrev pub Contains : Extent F → Extent F → Type 0
  Contains a b =
      (F.le (F.widen a.low) (F.widen b.low) ≡ true)
      × (F.le (F.widen b.high) (F.widen a.high) ≡ true)

  abbrev pub point : F.Single → Extent F
  point v = record { low = v; high = v }

  pub Contains-trans : (a b c : Extent F) → Contains a b → Contains b c → Contains a c
  Contains-trans a b c (p, q) (r, s) = (law.le_trans _ _ _ p r, law.le_trans _ _ _ s q)

  widen_to_low :
      (acc e : Extent F)
      → IsExtent acc
      → IsExtent e
      → Num (F.widen (widen_to F acc e).low)
        × (F.le (F.widen (widen_to F acc e).low) (F.widen acc.low) ≡ true)
        × (F.le (F.widen (widen_to F acc e).low) (F.widen e.low) ≡ true)
  widen_to_low acc e (a, b) (c, d) = elim (Bool-cases (F.lt (F.widen e.low) (F.widen acc.low))) [
    | inl down ↦ rw down (c, law.le_of_lt _ _ down, le_refl _ c)
    | inr up ↦ rw up (a, le_refl _ a, le_of_not_lt _ _ a c up)
  ]

  widen_to_high :
      (acc e : Extent F)
      → IsExtent acc
      → IsExtent e
      → Num (F.widen (widen_to F acc e).high)
        × (F.le (F.widen acc.high) (F.widen (widen_to F acc e).high) ≡ true)
        × (F.le (F.widen e.high) (F.widen (widen_to F acc e).high) ≡ true)
  widen_to_high acc e (a, b) (c, d) = elim (Bool-cases (F.lt (F.widen acc.high) (F.widen e.high))) [
    | inl up ↦ rw up (d, law.le_of_lt _ _ up, le_refl _ d)
    | inr down ↦ rw down (b, le_refl _ b, le_of_not_lt _ _ d b down)
  ]

  pub widen_to_lem :
      (acc e : Extent F)
      → IsExtent acc
      → IsExtent e
      → IsExtent (widen_to F acc e)
        × Contains (widen_to F acc e) acc
        × Contains (widen_to F acc e) e
  widen_to_lem acc e h k =
      let (n, p, q) = widen_to_low acc e h k in
      let (m, r, s) = widen_to_high acc e h k in ((n, m), (p, r), (q, s))

  pub block_extent_lem :
      (vs : List F.Single) (acc : Extent F)
      → IsExtent acc
      → All (λ v. Num (F.widen v)) vs
      → IsExtent (block_extent F vs acc)
        × Contains (block_extent F vs acc) acc
        × All (λ v. Contains (block_extent F vs acc) (point v)) vs
  unfolding block_extent
  block_extent_lem [] acc h k = (h, (le_refl _ h.0, le_refl _ h.1), tt)
  block_extent_lem (v ∷ vs) acc h (n, k) =
      let (w, a, b) = widen_to_lem acc (point v) h (n, n) in
      let (e, c, all') = block_extent_lem vs (widen_to F acc (point v)) w k in
      (e, Contains-trans _ _ _ c a, (Contains-trans _ _ _ c b, all'))
