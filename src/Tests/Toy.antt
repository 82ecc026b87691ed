-- ===== src/Tests/Toy.antt =====
-- Floats for the tests: doubles are the natural numbers, infinity and NaN, with -inf as 0, and the
-- single numbers are the doubles 0, 2 and 4, infinity and NaN.
pub mod Laws
use skip_zfp.Prelude.{
  ℕ, zero, suc, ◌+◌, ◌-◌, ◌*◌, ◌/◌, ◌≡◌, refl, Bool, true, false, not, ltb, leb, get_or, arith,
}
use skip_zfp.Floats.{Floats, IsLawful}

pub data Double : Type 0 where
  nan : Double
  fin : ℕ → Double
  top : Double

pub data Single : Type 0 where
  no_number : Single
  zero_s two_s four_s top_s : Single

abbrev pub lt : Double → Double → Bool
lt (fin a) (fin b) = ltb a b
lt (fin a) top = true
lt (fin a) nan = false
lt top b = false
lt nan b = false

abbrev pub le : Double → Double → Bool
le (fin a) (fin b) = leb a b
le (fin a) top = true
le (fin a) nan = false
le top (fin b) = false
le top top = true
le top nan = false
le nan b = false

abbrev pub is_nan : Double → Bool
is_nan nan = true
is_nan (fin a) = false
is_nan top = false

abbrev pub widen : Single → Double
widen no_number = nan
widen zero_s = fin 0
widen two_s = fin 2
widen four_s = fin 4
widen top_s = top

abbrev pub narrow : Double → Single
narrow nan = no_number
narrow (fin zero) = zero_s
narrow (fin (suc zero)) = two_s
narrow (fin (suc (suc zero))) = two_s
narrow (fin (suc (suc (suc zero)))) = four_s
narrow (fin (suc (suc (suc (suc zero))))) = four_s
narrow (fin (suc (suc (suc (suc (suc n)))))) = top_s
narrow top = top_s

abbrev pub prev : Single → Single
prev no_number = no_number
prev zero_s = zero_s
prev two_s = zero_s
prev four_s = two_s
prev top_s = four_s

abbrev next : Single → Single
next no_number = no_number
next zero_s = two_s
next two_s = four_s
next four_s = top_s
next top_s = top_s

abbrev lift : (ℕ → ℕ → ℕ) → Double → Double → Double
lift f (fin a) (fin b) = fin (f a b)
lift f (fin a) top = top
lift f (fin a) nan = nan
lift f top b = top
lift f nan b = nan

-- a float32 of the tests is told by its first byte
abbrev pub single_of : ℕ → Single
single_of zero = zero_s
single_of (suc zero) = two_s
single_of (suc (suc zero)) = four_s
single_of (suc (suc (suc n))) = top_s

abbrev pub toy : Floats
toy = record {
  Double = Double;
  Single = Single;
  lt = lt;
  le = le;
  is_nan = is_nan;
  neg_inf = fin 0;
  inf = top;
  widen = widen;
  narrow = narrow;
  prev = prev;
  next = next;
  add = lift ◌+◌;
  sub = lift ◌-◌;
  mul = lift ◌*◌;
  div = lift ◌/◌;
  abs = λ a. a;
  of_ℕ = fin;
  read_single = λ bytes. single_of (get_or bytes 0 0);
}
