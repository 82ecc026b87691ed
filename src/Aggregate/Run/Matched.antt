-- ===== src/Aggregate/Run/Matched.antt =====
-- The number of decoded values that the reads of an aggregate of skipzfp/aggregate.py match.
use skip_zfp.Prelude.{
  ℕ, ◌+◌, ◌-◌, ◌≡◌, refl, sym, ap, ◌∙◌, List, [], ◌∷◌, map, map-append, length, flat_map, sum,
  sum-append, arith,
}
use skip_zfp.Floats.{Floats}
use skip_zfp.Query.Merge.{BlockId, Ids}
use skip_zfp.Query.Count.{in_range, count_if}
use skip_zfp.Query.Classify.{State, in', out, maybe}
use skip_zfp.Query.Plan.Counts.{StateOk}
use skip_zfp.Query.Run.Shift.{shift_id}
use skip_zfp.Aggregate.Kernel.{Aggregate, Listed, empty, matches, aggregate_block, aggregate_blocks}
use skip_zfp.Aggregate.Kernel.Original.{rec_count-aggregate_block}
use skip_zfp.Aggregate.Stream.{is_in}

-- the lists beside the planner's ids, found by the ids that were moved by `k` chunks
pub map-unshift :
    {A : Type 0} (f : BlockId → A) (k : ℕ) (ids : Ids)
    → map f ids ≡ map (λ x. f (x.0 - k, x.1)) (map (shift_id k) ids)
map-unshift f k [] = refl
map-unshift f k ((c, b) ∷ ids) =
    let e : c ≡ c + k - k = omega arith in
    ap (λ (t : ℕ). f (t, b) ∷ map f ids) e ∙ ap (λ t. f (c + k - k, b) ∷ t) (map-unshift f k ids)

module _ (F : Floats) (lo hi : F.Double) where
  -- how many values of a listed block match
  abbrev pub matched : Listed F → ℕ
  matched l = count_if F (matches F l.in_block lo hi) l.values

  rec_count-aggregate_blocks :
      (xs : List (Listed F)) (acc : Aggregate F)
      → (aggregate_blocks F lo hi xs acc).rec_count ≡ acc.rec_count + sum (map matched xs)
  unfolding aggregate_blocks sum
  rec_count-aggregate_blocks [] acc = omega arith
  rec_count-aggregate_blocks (x ∷ xs) acc = omega (
    arith,
    rec_count-aggregate_blocks xs (aggregate_block F x.values (F.widen x.eps) x.in_block lo hi acc),
    rec_count-aggregate_block F (F.widen x.eps) x.in_block lo hi x.values acc,
  )

  module _ (item : BlockId → Listed F) where
    map-matched : (g : Ids) → map matched (map item g) ≡ map (λ x. matched (item x)) g
    map-matched [] = refl
    map-matched (x ∷ g) = ap (λ (t : List ℕ). matched (item x) ∷ t) (map-matched g)

    -- The parts together count the listed blocks, however they are grouped.
    pub rec_count_groups :
        (groups : List (Ids × ℕ))
        → sum (
            map
              (λ p. p.0.rec_count)
              (map
                (λ q.
                  let part : Aggregate F × ℕ =
                    (aggregate_blocks F lo hi (map item q.0) (empty F), q.1) in
                  part)
                groups))
          ≡ sum (map (λ x. matched (item x)) (flat_map (λ q. q.0) groups))
    unfolding sum
    rec_count_groups [] = refl
    rec_count_groups ((g, n) ∷ groups) = omega (
      arith,
      rec_count_groups groups,
      rec_count-aggregate_blocks (map item g) (empty F),
      ap sum (map-matched g),
      ap sum (map-append (λ x. matched (item x)) g (flat_map (λ q. q.0) groups)),
      sum-append (map (λ x. matched (item x)) g)
          (map (λ x. matched (item x)) (flat_map (λ q. q.0) groups)),
    )

  all_matched : (vs : List F.Single) → count_if F (matches F (is_in in') lo hi) vs ≡ length vs
  all_matched [] = refl
  all_matched (v ∷ vs) = omega (arith, all_matched vs)

  -- The values that a block matches are those in the range, when its state says so.
  pub matched_state :
      (s : State) (vs : List F.Single) (n : ℕ)
      → length vs ≡ n
      → StateOk n s (count_if F (λ v. in_range F v lo hi) vs)
      → count_if F (matches F (is_in s) lo hi) vs ≡ count_if F (λ v. in_range F v lo hi) vs
  matched_state in' vs n len h = all_matched vs ∙ len ∙ sym h
  matched_state out vs n len h = refl
  matched_state maybe vs n len h = refl
