-- ===== src/Codec/ErrorCodes.antt =====
-- skipzfp/codec.py: block_error_codes, the 4-bit code of the largest error of each block.
pub mod Cover
use skip_zfp.Prelude.{
  ℕ, ◌+◌, ◌*◌, ◌/◌, Bool, not, ◌&&◌, ◌||◌, List, [], ◌∷◌, map, any, length, if◌then◌else◌,
  replicate, zip, Result, ok, err, ◌>>=◌, ◌>>◌, raise_if, value_error,
}
use skip_zfp.Floats.{Floats}
use skip_zfp.Codec.ZoneMap.{larger_err, error_of}

-- `np.ceil`, and `astype(np.uint8)` of a number from 0 to 255
pub record Ceiling (F : Floats) : Type 0 where
  pub ceil : F.Double → F.Double
  pub to_byte : F.Double → ℕ

module _ (F : Floats) where
  -- `err.max(...)` of a block, whose errors are numbers
  unfoldable pub max_from : F.Double → List F.Double → F.Double
  max_from acc [] = acc
  max_from acc (e ∷ es) = max_from (larger_err F acc e) es

  unfoldable pub block_max : List (F.Single × F.Single) → F.Double
  unfolding max_from
  block_max [] = F.of_ℕ 0
  block_max ((v, d) ∷ ps) = max_from (error_of F v d) (map (λ p. error_of F p.0 p.1) ps)

  abbrev pub is_zero_bound : F.Double → Bool
  is_zero_bound x = F.le x (F.of_ℕ 0) && F.le (F.of_ℕ 0) x

  -- `e * q / 15.0`, as the planner computes it
  abbrev pub code_bound : F.Double → F.Double → F.Double
  code_bound e q = F.div (F.mul e q) (F.of_ℕ 15)

module _ (F : Floats) (C : Ceiling F) where
  -- the code of an error, before the checks: rounded up, at most 15, and one more where it falls short
  unfoldable pub code_of : F.Double → F.Double → F.Double
  code_of e x =
      let ratio = C.ceil (F.div (F.mul (F.of_ℕ 15) x) e) in
      let q = if F.lt (F.of_ℕ 15) ratio then F.of_ℕ 15 else ratio in
      if F.lt (code_bound F e q) x then F.add q (F.of_ℕ 1) else q

  -- a code that the checks refuse
  abbrev pub bad_code : F.Double → F.Double × F.Double → Bool
  bad_code e (x, q) = F.lt (F.of_ℕ 15) q || F.lt (code_bound F e q) x

  -- from the largest error of each block; `eps` passes through a float32
  unfoldable pub codes_of : List F.Double → F.Double → Result (List ℕ)
  unfolding code_of
  codes_of errors eps =
      let e = F.widen (F.narrow eps) in
      let q = map (code_of e) errors in
      if is_zero_bound F e
      then raise_if (any (λ x. not (is_zero_bound F x)) errors)
          (value_error "a block has an error but the unit's bound is 0")
        >> ok (replicate (length errors) 0)
      else raise_if (any (bad_code e) (zip errors q))
          (value_error "the unit's error bound does not cover a block")
        >> ok (map C.to_byte q)

  -- block_error_codes, from the values of each block beside the decoded ones
  unfoldable pub block_error_codes :
      List (List (F.Single × F.Single)) → (eps : F.Double) → Result (List ℕ)
  unfolding block_max codes_of
  block_error_codes blocks eps = codes_of (map (block_max F) blocks) eps
