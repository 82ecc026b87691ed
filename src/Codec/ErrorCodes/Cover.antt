-- ===== src/Codec/ErrorCodes/Cover.antt =====
-- The codes of block_error_codes cover the errors of their blocks, as the planner reads them.
use skip_zfp.Prelude.{
  ℕ, ◌<◌, ◌≡◌, subst, Bool, true, false, List, [], ◌∷◌, map, any, zip, if◌then◌else◌, All, ok,
  raise_if-ok, value_error, arith,
}
use skip_zfp.Floats.{Floats, IsLawful as FloatsAreLawful}
use skip_zfp.Codec.ErrorCodes.{Ceiling, is_zero_bound, code_bound, code_of, bad_code, codes_of}

-- IEEE 754 of whole numbers: a ceiling is one, and so is one more, the quotient of an error by a bound
-- that is finite and above 0 is not negative, and the byte of a whole number from 0 to 15 is that number.
pub record IsLawful (F : Floats) (C : Ceiling F) : Type 1 where
  pub IsWhole : F.Double → Type 0
  pub of_ℕ-IsWhole : (n : ℕ) → IsWhole (F.of_ℕ n)
  pub ceil-IsWhole : (x : F.Double) → IsWhole (C.ceil x)
  pub next-IsWhole : (x : F.Double) → IsWhole x → IsWhole (F.add x (F.of_ℕ 1))
  pub of_ℕ_nonneg : (n : ℕ) → F.le (F.of_ℕ 0) (F.of_ℕ n) ≡ true
  pub ceil_nonneg :
      (x e : F.Double)
      → F.le (F.of_ℕ 0) x ≡ true
      → F.lt (F.of_ℕ 0) e ≡ true
      → F.lt e F.inf ≡ true
      → F.le (F.of_ℕ 0) (C.ceil (F.div (F.mul (F.of_ℕ 15) x) e)) ≡ true
  pub next_nonneg :
      (x : F.Double) → F.le (F.of_ℕ 0) x ≡ true → F.le (F.of_ℕ 0) (F.add x (F.of_ℕ 1)) ≡ true
  pub to_byte_small :
      (x : F.Double)
      → IsWhole x
      → F.le (F.of_ℕ 0) x ≡ true
      → F.lt (F.of_ℕ 15) x ≡ false
      → C.to_byte x < 16
  pub code_bound-to_byte :
      (e x : F.Double)
      → F.lt (F.of_ℕ 0) e ≡ true
      → F.lt e F.inf ≡ true
      → IsWhole x
      → F.le (F.of_ℕ 0) x ≡ true
      → F.lt (F.of_ℕ 15) x ≡ false
      → F.le (code_bound F e x) (code_bound F e (F.of_ℕ (C.to_byte x))) ≡ true

module _ (F : Floats) (law : FloatsAreLawful F) (C : Ceiling F) (whole : IsLawful F C)
    (e : F.Double) (positive : F.lt (F.of_ℕ 0) e ≡ true) (finite : F.lt e F.inf ≡ true) where
  abbrev IsGood : F.Double → Type 0
  IsGood q = whole.IsWhole q × (F.le (F.of_ℕ 0) q ≡ true)

  if_both : (P : F.Double → Type 0) (b : Bool) (x y : F.Double) → P x → P y → P (if b then x else y)
  if_both P true x y h k = h
  if_both P false x y h k = k

  code_of-IsGood : (x : F.Double) → F.le (F.of_ℕ 0) x ≡ true → IsGood (code_of F C e x)
  unfolding code_of
  code_of-IsGood x h =
      let ratio = C.ceil (F.div (F.mul (F.of_ℕ 15) x) e) in
      let q : F.Double = if F.lt (F.of_ℕ 15) ratio then F.of_ℕ 15 else ratio in
      let good : IsGood q =
        if_both IsGood (F.lt (F.of_ℕ 15) ratio) (F.of_ℕ 15) ratio
          (whole.of_ℕ-IsWhole 15, whole.of_ℕ_nonneg 15)
          (whole.ceil-IsWhole _, whole.ceil_nonneg x e h positive finite) in
      if_both IsGood (F.lt (code_bound F e q) x) (F.add q (F.of_ℕ 1)) q
        (whole.next-IsWhole q good.0, whole.next_nonneg q good.1) good

  -- A code that the checks accept is below 16 and covers the error.
  accepted :
      (x q : F.Double)
      → IsGood q
      → F.is_nan x ≡ false
      → bad_code F C e (x, q) ≡ false
      → (C.to_byte q < 16) × (F.le x (code_bound F e (F.of_ℕ (C.to_byte q))) ≡ true)
  accepted x q (w, n) num fine =
      let small : F.lt (F.of_ℕ 15) q ≡ false = ground arith in
      let short : F.lt (code_bound F e q) x ≡ false = ground arith in
      let more = whole.code_bound-to_byte e q positive finite w n small in
      let covers : F.le x (code_bound F e q) ≡ true =
        ground (arith, law.le_or_lt x (code_bound F e q) num (law.le_left _ _ more), short) in
      (whole.to_byte_small q w n small, law.le_trans _ _ _ covers more)

  all_accepted :
      (errors : List F.Double)
      → All (λ x. F.le (F.of_ℕ 0) x ≡ true) errors
      → any (bad_code F C e) (zip errors (map (code_of F C e) errors)) ≡ false
      → All
          (λ p. (p.1 < 16) × (F.le p.0 (code_bound F e (F.of_ℕ p.1)) ≡ true))
          (zip errors (map C.to_byte (map (code_of F C e) errors)))
  all_accepted [] h fine = tt
  all_accepted (x ∷ xs) (h, hs) fine =
      let here : bad_code F C e (x, code_of F C e x) ≡ false = ground arith in
      let rest : any (bad_code F C e) (zip xs (map (code_of F C e) xs)) ≡ false = ground arith in
      (
        accepted x (code_of F C e x) (code_of-IsGood x h) (law.le_right _ _ h) here,
        all_accepted xs hs rest,
      )

module _ (F : Floats) (law : FloatsAreLawful F) (C : Ceiling F) (whole : IsLawful F C) where
  not_zero : (e : F.Double) → F.lt (F.of_ℕ 0) e ≡ true → is_zero_bound F e ≡ false
  not_zero e h = ground (arith, law.le_or_lt e (F.of_ℕ 0) (law.lt_right _ _ h) (law.lt_left _ _ h))

  -- Where the floats and their whole numbers are lawful, the error bound of a unit is above 0 and
  -- finite and no error is negative: when block_error_codes returns codes for the largest errors of
  -- the blocks, each code is below 16, and the error of its block is at most the bound that the
  -- planner computes from the code.
  pub codes_of_cover :
      (errors : List F.Double) (eps : F.Double) (codes : List ℕ)
      → F.lt (F.of_ℕ 0) (F.widen (F.narrow eps)) ≡ true
      → F.lt (F.widen (F.narrow eps)) F.inf ≡ true
      → All (λ x. F.le (F.of_ℕ 0) x ≡ true) errors
      → codes_of F C errors eps ≡ ok codes
      → All
          (λ p. (p.1 < 16) × (F.le p.0 (code_bound F (F.widen (F.narrow eps)) (F.of_ℕ p.1)) ≡ true))
          (zip errors codes)
  unfolding codes_of
  codes_of_cover errors eps codes positive finite h done =
      let e = F.widen (F.narrow eps) in
      let checked = rw (not_zero e positive) at done in
      let (fine, same) =
        raise_if-ok (any (bad_code F C e) (zip errors (map (code_of F C e) errors)))
          (value_error "the unit's error bound does not cover a block")
          (ok (map C.to_byte (map (code_of F C e) errors))) checked in
      let codes_are : map C.to_byte (map (code_of F C e) errors) ≡ codes = ground arith in
      subst
        (λ t.
          All (λ p. (p.1 < 16) × (F.le p.0 (code_bound F e (F.of_ℕ p.1)) ≡ true)) (zip errors t))
        codes_are (all_accepted F law C whole e positive finite errors h fine)
