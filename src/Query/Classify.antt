-- ===== src/Query/Classify.antt =====
-- skipzfp/csrc/query.c: classify_unit, which decides from a zone map record whether a block's
-- values all match (IN), none match (OUT) or some may (MAYBE).
pub mod Sound
use skip_zfp.Prelude.{
  ℕ, ◌+◌, ◌*◌, ◌/◌, ◌%◌, ◌^◌, ◌≡◌, Bool, true, false, ◌&&◌, ◌||◌, Option, none, some, List, [], ◌∷◌,
  map, if◌then◌else◌, get_or, drop, slice, range, All, arith,
}
use skip_zfp.Floats.{Floats}

-- the `state` of a block: 0, 1 and 2
pub data State : Type 0 where
  out in' maybe : State

module _ (F : Floats) where
  -- block_error: the unit's bound, or its share by the block's 4-bit code, low nibble first
  unfoldable pub block_error : F.Single → Option (List ℕ) → ℕ → F.Double
  block_error eps none bid = F.widen eps
  block_error eps (some codes) bid =
      F.div (F.mul (F.widen eps) (F.of_ℕ (get_or codes (bid / 2) 0 / 2 ^ (4 * (bid % 2)) % 16)))
        (F.of_ℕ 15)

  -- the three floats at the head of a record
  abbrev pub unit_min : List ℕ → F.Double
  unit_min cm = F.widen (F.read_single (slice cm 0 4))

  abbrev pub unit_max : List ℕ → F.Double
  unit_max cm = F.widen (F.read_single (slice cm 4 8))

  abbrev pub unit_eps : List ℕ → F.Single
  unit_eps cm = F.read_single (slice cm 8 12)

  abbrev pub unit_codes : List ℕ → ℕ → Bool → Option (List ℕ)
  unit_codes cm n_block has_codes = if has_codes then some (drop (12 + 2 * n_block) cm) else none

  -- 8.0 * DBL_EPSILON * (fabs(cmin) + fabs(cmax))
  abbrev pub unit_slack : List ℕ → F.Double
  unit_slack cm =
      F.mul (F.mul (F.of_ℕ 8) (F.div (F.of_ℕ 1) (F.of_ℕ (2 ^ 52))))
        (F.add (F.abs (unit_min cm)) (F.abs (unit_max cm)))

  abbrev pub unit_span : List ℕ → F.Double
  unit_span cm = F.sub (unit_max cm) (unit_min cm)

  -- `span == 0.0`
  abbrev pub is_flat : List ℕ → Bool
  is_flat cm = F.le (unit_span cm) (F.of_ℕ 0) && F.le (F.of_ℕ 0) (unit_span cm)

  -- cmin + (offs[i] / 255.0) * span
  abbrev pub dequantized : List ℕ → ℕ → F.Double
  dequantized cm i =
      F.add (unit_min cm)
        (F.mul (F.div (F.of_ℕ (get_or (drop 12 cm) i 0)) (F.of_ℕ 255)) (unit_span cm))

  -- bmin - e and bmax + e, the bounds of the block's values as the loop computes them
  unfoldable pub low_bound : List ℕ → ℕ → Bool → ℕ → F.Double
  unfolding block_error
  low_bound cm n_block has_codes bid =
      F.sub (if is_flat cm then unit_min cm else F.sub (dequantized cm (bid * 2)) (unit_slack cm))
        (block_error (unit_eps cm) (unit_codes cm n_block has_codes) bid)

  unfoldable pub high_bound : List ℕ → ℕ → Bool → ℕ → F.Double
  unfolding block_error
  high_bound cm n_block has_codes bid =
      F.add
        (if is_flat cm then unit_max cm else F.add (dequantized cm (bid * 2 + 1)) (unit_slack cm))
        (block_error (unit_eps cm) (unit_codes cm n_block has_codes) bid)

  -- the predicate lo < x <= hi on the bounds of a block
  unfoldable pub decide : F.Double → F.Double → F.Double → F.Double → State
  decide low high lo hi =
      if F.lt lo low && F.le high hi
      then in'
      else if F.le high lo || F.lt hi low
      then out
      else maybe

  -- one round of classify_unit
  unfoldable pub classify_block : List ℕ → ℕ → Bool → F.Double → F.Double → ℕ → State
  unfolding low_bound high_bound decide
  classify_block cm n_block has_codes lo hi bid =
      decide (low_bound cm n_block has_codes bid) (high_bound cm n_block has_codes bid) lo hi

  unfoldable pub classify_unit : List ℕ → ℕ → Bool → F.Double → F.Double → List State
  unfolding classify_block
  classify_unit cm n_block has_codes lo hi =
      map (classify_block cm n_block has_codes lo hi) (range n_block)

  -- listed_error: a block's bound as a float32 rounded up
  unfoldable pub listed_error : List ℕ → ℕ → Bool → ℕ → F.Single
  unfolding block_error
  listed_error cm n_block has_codes bid =
      let e = block_error (unit_eps cm) (unit_codes cm n_block has_codes) bid in
      let f = F.narrow e in if F.lt (F.widen f) e then F.next f else f
