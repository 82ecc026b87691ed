-- ===== src/Aggregate/Kernel/Original.antt =====
-- What aggregate_block of skipzfp/csrc/query.c says of the original values, each of which lies within
-- its unit's error bound of its decoded value.
use skip_zfp.Prelude.{
  ℕ, ◌+◌, ◌≤◌, ◌≡◌, Bool, true, ◌&&◌, not, List, [], ◌∷◌, map, if◌then◌else◌, All, arith,
}
use skip_zfp.Floats.{Floats, IsLawful}
use skip_zfp.Query.Count.{in_range, count_if}
use skip_zfp.Aggregate.Kernel.{Aggregate, is_sure, is_possible, matches, add_value, aggregate_block}

abbrev pub one_if : Bool → ℕ
one_if b = if b then 1 else 0

module _ (F : Floats) (eps : F.Double) (in_block : Bool) (lo hi : F.Double) where
  -- a value that is counted as one that may match
  abbrev pub is_unsure : F.Single → Bool
  is_unsure v = not (is_sure F eps in_block lo hi v) && is_possible F eps lo hi v

  rec_count-add_value :
      (acc : Aggregate F) (v : F.Single)
      → (add_value F eps in_block lo hi acc v).rec_count
        ≡ acc.rec_count + one_if (matches F in_block lo hi v)
  unfolding add_value in_range
  rec_count-add_value acc v = ground arith

  sure_count-add_value :
      (acc : Aggregate F) (v : F.Single)
      → (add_value F eps in_block lo hi acc v).sure_count
        ≡ acc.sure_count + one_if (is_sure F eps in_block lo hi v)
  unfolding add_value in_range
  sure_count-add_value acc v = ground arith

  maybe_count-add_value :
      (acc : Aggregate F) (v : F.Single)
      → (add_value F eps in_block lo hi acc v).maybe_count ≡ acc.maybe_count + one_if (is_unsure v)
  unfolding add_value in_range
  maybe_count-add_value acc v = ground arith

  pub rec_count-aggregate_block :
      (vs : List F.Single) (acc : Aggregate F)
      → (aggregate_block F vs eps in_block lo hi acc).rec_count
        ≡ acc.rec_count + count_if F (matches F in_block lo hi) vs
  unfolding aggregate_block
  rec_count-aggregate_block [] acc = omega arith
  rec_count-aggregate_block (v ∷ vs) acc = omega (
    arith,
    rec_count-aggregate_block vs (add_value F eps in_block lo hi acc v),
    rec_count-add_value acc v,
  )

  pub sure_count-aggregate_block :
      (vs : List F.Single) (acc : Aggregate F)
      → (aggregate_block F vs eps in_block lo hi acc).sure_count
        ≡ acc.sure_count + count_if F (is_sure F eps in_block lo hi) vs
  unfolding aggregate_block
  sure_count-aggregate_block [] acc = omega arith
  sure_count-aggregate_block (v ∷ vs) acc = omega (
    arith,
    sure_count-aggregate_block vs (add_value F eps in_block lo hi acc v),
    sure_count-add_value acc v,
  )

  pub maybe_count-aggregate_block :
      (vs : List F.Single) (acc : Aggregate F)
      → (aggregate_block F vs eps in_block lo hi acc).maybe_count
        ≡ acc.maybe_count + count_if F is_unsure vs
  unfolding aggregate_block
  maybe_count-aggregate_block [] acc = omega arith
  maybe_count-aggregate_block (v ∷ vs) acc = omega (
    arith,
    maybe_count-aggregate_block vs (add_value F eps in_block lo hi acc v),
    maybe_count-add_value acc v,
  )

  -- The original value of a decoded one lies within the error bound, and in the range when the block
  -- is IN.
  abbrev pub IsOriginal : F.Single × F.Single → Type 0
  IsOriginal (v, x) =
      (F.le (F.sub (F.widen v) eps) (F.widen x) ≡ true)
      × (F.le (F.widen x) (F.add (F.widen v) eps) ≡ true)
      × (in_block ≡ true → in_range F x lo hi ≡ true)

  module _ (law : IsLawful F) where
    sure-in_range :
        (v x : F.Single)
        → IsOriginal (v, x)
        → is_sure F eps in_block lo hi v ≡ true
        → in_range F x lo hi ≡ true
    unfolding in_range
    sure-in_range v x (low, high, inside) h =
        let above = law.lt-le_trans lo (F.sub (F.widen v) eps) (F.widen x) in
        let below = law.le_trans (F.widen x) (F.add (F.widen v) eps) hi in
        ground (arith, above, below, low, high, inside, h)

    in_range-possible :
        (v x : F.Single)
        → IsOriginal (v, x)
        → in_range F x lo hi ≡ true
        → is_possible F eps lo hi v ≡ true
    unfolding in_range
    in_range-possible v x (low, high, inside) h =
        let a = law.lt-le_trans lo (F.widen x) (F.add (F.widen v) eps) in
        let b = law.lt-le_trans lo (F.add (F.widen v) eps) lo in
        let c = law.lt-le_trans hi (F.sub (F.widen v) eps) (F.widen x) in
        let d = law.lt-le_trans hi (F.widen x) hi in
        ground (arith, a, b, c, d, law.lt_irrefl lo, law.lt_irrefl hi, low, high, h)

    pub sure-le :
        (ps : List (F.Single × F.Single))
        → All IsOriginal ps
        → count_if F (is_sure F eps in_block lo hi) (map (λ p. p.0) ps)
          ≤ count_if F (λ x. in_range F x lo hi) (map (λ p. p.1) ps)
    sure-le [] h = omega arith
    sure-le ((v, x) ∷ ps) (h, hs) = ground (arith, sure-le ps hs, sure-in_range v x h)

    pub le-possible :
        (ps : List (F.Single × F.Single))
        → All IsOriginal ps
        → count_if F (λ x. in_range F x lo hi) (map (λ p. p.1) ps)
          ≤ count_if F (is_sure F eps in_block lo hi) (map (λ p. p.0) ps)
            + count_if F is_unsure (map (λ p. p.0) ps)
    le-possible [] h = omega arith
    le-possible ((v, x) ∷ ps) (h, hs) = ground (arith, le-possible ps hs, in_range-possible v x h)
