-- ===== src/Aggregate/Combine/Original.antt =====
-- combine of skipzfp/aggregate.py and the original values: what it says of their number.
use skip_zfp.Prelude.{ℕ, ◌+◌, ◌≤◌, ◌≡◌, Bool, none, List, [], ◌∷◌, map, All, sum, arith}
use skip_zfp.Floats.{Floats, IsLawful}
use skip_zfp.Query.Count.{in_range, count_if}
use skip_zfp.Aggregate.Kernel.{Sums, Aggregate, Listed, empty, aggregate_block, aggregate_blocks}
use skip_zfp.Aggregate.Kernel.Original.{
  IsOriginal, sure_count-aggregate_block, maybe_count-aggregate_block, sure-le, le-possible,
}
use skip_zfp.Aggregate.Combine.{original_mean_of, combine}

-- a listed block whose decoded values stand beside the original ones
pub record Paired (F : Floats) : Type 0 where
  pub pairs : List (F.Single × F.Single)
  pub eps : F.Single
  pub in_block : Bool

module _ (F : Floats) (lo hi : F.Double) where
  abbrev pub listed_of : Paired F → Listed F
  listed_of b = record { values = map (λ p. p.0) b.pairs; eps = b.eps; in_block = b.in_block }

  -- the original values lie within the error bound, and in the range in an IN block
  abbrev pub IsHonest : Paired F → Type 0
  IsHonest b = All (IsOriginal F (F.widen b.eps) b.in_block lo hi) b.pairs

  -- how many of the original values lie in the range
  abbrev pub originals_in : List (Paired F) → ℕ
  originals_in bs =
      sum (map (λ b. count_if F (λ x. in_range F x lo hi) (map (λ p. p.1) b.pairs)) bs)

  -- a read of these blocks, and the part that it contributes
  abbrev pub part_of : List (Paired F) × ℕ → Aggregate F × ℕ
  part_of (bs, n) = (aggregate_blocks F lo hi (map listed_of bs) (empty F), n)

  module _ (law : IsLawful F) where
    sure_step :
        (b : Paired F) (acc : Aggregate F)
        → IsHonest b
        → (aggregate_block F
            (map (λ p. p.0) b.pairs)
            (F.widen b.eps)
            b.in_block
            lo
            hi
            acc).sure_count
          ≤ acc.sure_count + count_if F (λ x. in_range F x lo hi) (map (λ p. p.1) b.pairs)
    sure_step b acc h = omega (
      arith,
      sure_count-aggregate_block F (F.widen b.eps) b.in_block lo hi (map (λ p. p.0) b.pairs) acc,
      sure-le F (F.widen b.eps) b.in_block lo hi law b.pairs h,
    )

    possible_step :
        (b : Paired F) (acc : Aggregate F)
        → IsHonest b
        → let r = aggregate_block F (map (λ p. p.0) b.pairs) (F.widen b.eps) b.in_block lo hi acc in
          acc.sure_count
            + acc.maybe_count
            + count_if F (λ x. in_range F x lo hi) (map (λ p. p.1) b.pairs)
          ≤ r.sure_count + r.maybe_count
    possible_step b acc h = omega (
      arith,
      sure_count-aggregate_block F (F.widen b.eps) b.in_block lo hi (map (λ p. p.0) b.pairs) acc,
      maybe_count-aggregate_block F (F.widen b.eps) b.in_block lo hi (map (λ p. p.0) b.pairs) acc,
      le-possible F (F.widen b.eps) b.in_block lo hi law b.pairs h,
    )

    sure_blocks :
        (bs : List (Paired F)) (acc : Aggregate F)
        → All IsHonest bs
        → (aggregate_blocks F lo hi (map listed_of bs) acc).sure_count
          ≤ acc.sure_count + originals_in bs
    unfolding aggregate_blocks sum
    sure_blocks [] acc h = omega arith
    sure_blocks (b ∷ bs) acc (h, hs) =
        let next =
          aggregate_block F (map (λ p. p.0) b.pairs) (F.widen b.eps) b.in_block lo hi acc in
        omega (arith, sure_step b acc h, sure_blocks bs next hs)

    possible_blocks :
        (bs : List (Paired F)) (acc : Aggregate F)
        → All IsHonest bs
        → let r = aggregate_blocks F lo hi (map listed_of bs) acc in
          acc.sure_count + acc.maybe_count + originals_in bs ≤ r.sure_count + r.maybe_count
    unfolding aggregate_blocks sum
    possible_blocks [] acc h = omega arith
    possible_blocks (b ∷ bs) acc (h, hs) =
        let next =
          aggregate_block F (map (λ p. p.0) b.pairs) (F.widen b.eps) b.in_block lo hi acc in
        omega (arith, possible_step b acc h, possible_blocks bs next hs)

    sure_parts :
        (reads : List (List (Paired F) × ℕ))
        → All (λ r. All IsHonest r.0) reads
        → sum (map (λ p. p.0.sure_count) (map part_of reads))
          ≤ sum (map (λ r. originals_in r.0) reads)
    unfolding sum
    sure_parts [] h = omega arith
    sure_parts ((bs, n) ∷ rs) (h, hs) = omega (arith, sure_parts rs hs, sure_blocks bs (empty F) h)

    possible_parts :
        (reads : List (List (Paired F) × ℕ))
        → All (λ r. All IsHonest r.0) reads
        → sum (map (λ r. originals_in r.0) reads)
          ≤ sum (map (λ p. p.0.sure_count) (map part_of reads))
            + sum (map (λ p. p.0.maybe_count) (map part_of reads))
    unfolding sum
    possible_parts [] h = omega arith
    possible_parts ((bs, n) ∷ rs) (h, hs) =
        omega (arith, possible_parts rs hs, possible_blocks bs (empty F) h)

    -- Where the floats are lawful, and every original value lies between its decoded value minus
    -- and plus the error bound of its block, as computed, and in the range when the block is IN:
    -- when combine merges what aggregate_blocks gives of the reads, the number of original values
    -- in the range lies between the two bounds of original_count.
    pub combine-original_count :
        (S : Sums F) (reads : List (List (Paired F) × ℕ)) (values_per_block : ℕ)
        → All (λ r. All IsHonest r.0) reads
        → ((combine F S (map part_of reads) values_per_block).original_count.0
            ≤ sum (map (λ r. originals_in r.0) reads))
          × (sum (map (λ r. originals_in r.0) reads)
              ≤ (combine F S (map part_of reads) values_per_block).original_count.1)
    unfolding combine
    combine-original_count S reads n h = (sure_parts reads h, possible_parts reads h)

    mean_none :
        (S : Sums F) (sure maybe : ℕ) (a b c d : F.Double)
        → original_mean_of F S sure maybe a b c d ≡ none
        → sure + maybe ≡ 0
    unfolding original_mean_of
    mean_none S sure maybe a b c d h = ground arith

    -- Under the conditions of combine-original_count, when the original_mean of combine is None, no
    -- original value lies in the range.
    pub original_mean-none :
        (S : Sums F) (reads : List (List (Paired F) × ℕ)) (values_per_block : ℕ)
        → All (λ r. All IsHonest r.0) reads
        → (combine F S (map part_of reads) values_per_block).original_mean ≡ none
        → sum (map (λ r. originals_in r.0) reads) ≡ 0
    unfolding combine
    original_mean-none S reads n h e =
        let z : sum (map (λ p. p.0.sure_count) (map part_of reads))
              + sum (map (λ p. p.0.maybe_count) (map part_of reads))
            ≡ 0 =
          mean_none S _ _ _ _ _ _ e in
        omega (arith, possible_parts reads h, z)
