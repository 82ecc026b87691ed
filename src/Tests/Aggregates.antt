-- ===== src/Tests/Aggregates.antt =====
-- The theorems on aggregates, at the array of Tests/Example.
use skip_zfp.Prelude.{
  ℕ, zero, suc, ◌≤◌, ◌<◌, ◌≡◌, refl, Bool, true, false, none, some, List, [], ◌∷◌, ◌++◌, All, map,
  flat_map, sum, range, ok, pos, arith, prod, range_from,
}
use skip_zfp.Layout.{unit_grid_per_chunk}
use skip_zfp.Query.Merge.{BlockId, Ids, MergedRange, merge_ranges, is_ascending}
use skip_zfp.Query.Plan.{unit_id, block_eps}
use skip_zfp.Query.Stream.Reads.{read_bytes}
use skip_zfp.Query.Options.{default_options}
use skip_zfp.Query.Meta.{plan_meta, read_meta_object}
use skip_zfp.Query.Run.Step.{step_grid, values_in_range}
use skip_zfp.Query.Run.Whole.{object_values}
use skip_zfp.Query.Count.{in_range}
use skip_zfp.Aggregate.Kernel.{Sums, aggregate_blocks}
use skip_zfp.Aggregate.Combine.{combine, original_mean_of}
use skip_zfp.Aggregate.Combine.Original.{
  Paired, IsHonest, part_of, originals_in, combine-original_count, original_mean-none,
}
use skip_zfp.Aggregate.Stream.{stream_aggregate}
use skip_zfp.Aggregate.Stream.Total.{group_part, merged_aggregate}
use skip_zfp.Aggregate.Run.{
  AggregateResult, aggregate_async, aggregate_in_turn, aggregate_pipelined,
}
use skip_zfp.Aggregate.Run.Planned.{HasBounds}
use skip_zfp.Aggregate.Run.Exact.{ObjectSound, aggregate_in_turn_exact, aggregate_pipelined_exact}
use skip_zfp.Tests.Toy.Laws.{toy-IsLawful}
use skip_zfp.Tests.Toy.{toy, Single, Double, fin, top, zero_s, two_s}
use skip_zfp.Tests.Example.{
  array, store, store-IsLawful, decode, zstd, open_zarr, lt, keys, record0, record1,
}
use skip_zfp.Tests.Queries.{object, stored, valid, mo, ready, ready0, ready1, read_meta_test}

-- sums of the toy format, which are exact
abbrev add_up : List Double → Double
add_up [] = fin 0
add_up (x ∷ xs) = toy.add x (add_up xs)

abbrev pub sums : Sums toy
sums = record { down = λ x. x; up = λ x. x; fsum = add_up; is_finite = λ x. true }

-- values above 1: all 64 of the first block are 2, all 64 of the second are 4
aggregate_test :
    aggregate_async toy sums decode store zstd open_zarr array (fin 1) top default_options true
    ≡ ok (record {
      answer = record {
        count = 128;
        total = fin 384;
        mean = some (fin 3);
        original_count = (128, 128);
        original_sum = (fin 384, fin 384);
        original_mean = some (fin 3, fin 3);
      };
      in_blocks = 1;
      out_blocks = 0;
      maybe_blocks = pos 1;
      total_blocks = 2;
      metadata_bytes_read = 28;
      payload_bytes_read = 2;
      metadata_requests = 2;
      payload_requests = 2;
      useful_payload_bytes = 2;
      payload_overread_bytes = pos 0;
      read_blocks = some ((0, 0) ∷ (1, 0) ∷ []);
    })
unfolding aggregate_async prod range_from sum
aggregate_test = refl

pub bounds : HasBounds toy sums lt (2 ∷ 1 ∷ 1 ∷ []) (record0 ++ record1)
unfolding unit_grid_per_chunk plan_meta unit_id block_eps
bounds zero zero hc hb = (refl, refl)
bounds (suc zero) zero hc hb = (refl, refl)
bounds (suc (suc c)) b hc hb = absurd (omega arith)
bounds zero (suc b) hc hb = absurd (omega arith)
bounds (suc zero) (suc b) hc hb = absurd (omega arith)

aggregate_in_turn_exact_example :
    (r : AggregateResult toy) × (aggregate_in_turn toy sums decode store zstd open_zarr array lt
        (fin 1)
        top
        default_options
        keys
        false
      ≡ ok r)
    × (r.answer.count
        ≡ values_in_range toy decode object lt (step_grid lt (2 ∷ 1 ∷ 1 ∷ [])) 0 (fin 1) top)
aggregate_in_turn_exact_example =
    aggregate_in_turn_exact toy toy-IsLawful sums decode store store-IsLawful keys object 1 lt
      (fin 1) top zstd open_zarr array default_options false (record0 ++ record1) 28 2 0 refl
      read_meta_test ready bounds

bounds0 : HasBounds toy sums lt (1 ∷ 1 ∷ 1 ∷ []) record0
unfolding unit_grid_per_chunk plan_meta unit_id block_eps
bounds0 zero zero hc hb = (refl, refl)
bounds0 (suc c) b hc hb = absurd (omega arith)
bounds0 zero (suc b) hc hb = absurd (omega arith)

bounds1 : HasBounds toy sums lt (1 ∷ 1 ∷ 1 ∷ []) record1
unfolding unit_grid_per_chunk plan_meta unit_id block_eps
bounds1 zero zero hc hb = (refl, refl)
bounds1 (suc c) b hc hb = absurd (omega arith)
bounds1 zero (suc b) hc hb = absurd (omega arith)

objects_sound :
    (i : ℕ)
    → i < 2
    → ObjectSound toy toy-IsLawful sums decode store store-IsLawful keys object 1 lt
        (fin 1)
        top
        zstd
        mo
        i
unfolding unit_grid_per_chunk read_meta_object
objects_sound zero h = (
  record { bytes = record0; stored_size = 14; found = refl; ready = ready0 (fin 1) top refl refl },
  bounds0,
)
objects_sound (suc zero) h = (
  record { bytes = record1; stored_size = 14; found = refl; ready = ready1 (fin 1) top refl refl },
  bounds1,
)
objects_sound (suc (suc i)) h = absurd (omega arith)

aggregate_pipelined_exact_example :
    (r : AggregateResult toy) × (aggregate_pipelined toy sums decode store zstd lt mo
        (fin 1)
        top
        default_options
        keys
        true
      ≡ ok r)
    × (r.answer.count ≡ sum (map (object_values toy decode object lt (fin 1) top mo) (range 2)))
aggregate_pipelined_exact_example =
    aggregate_pipelined_exact toy toy-IsLawful sums decode store store-IsLawful keys object 1 lt
      (fin 1) top zstd mo default_options true 0 refl objects_sound

-- a value that matches for sure, and one that may
abbrev paired : List (List (Paired toy) × ℕ)
paired =
    (record { pairs = (two_s, two_s) ∷ []; eps = zero_s; in_block = false } ∷ [], 1)
    ∷ (record { pairs = (two_s, zero_s) ∷ []; eps = two_s; in_block = false } ∷ [], 1)
    ∷ []

paired-IsHonest : All (λ r. All (IsHonest toy (fin 1) top) r.0) paired
unfolding in_range
paired-IsHonest =
    ((((refl, refl, λ h. refl), tt), tt), ((((refl, refl, λ h. absurd cc), tt), tt), tt))

combine-original_count_example :
    ((combine toy sums (map (part_of toy (fin 1) top) paired) 1).original_count.0
      ≤ sum (map (λ r. originals_in toy (fin 1) top r.0) paired))
    × (sum (map (λ r. originals_in toy (fin 1) top r.0) paired)
        ≤ (combine toy sums (map (part_of toy (fin 1) top) paired) 1).original_count.1)
combine-original_count_example =
    combine-original_count toy (fin 1) top toy-IsLawful sums paired 1 paired-IsHonest

-- a value that cannot match
abbrev unmatched : List (List (Paired toy) × ℕ)
unmatched = (record { pairs = (zero_s, zero_s) ∷ []; eps = zero_s; in_block = false } ∷ [], 1) ∷ []

unmatched-IsHonest : All (λ r. All (IsHonest toy (fin 1) top) r.0) unmatched
unfolding in_range
unmatched-IsHonest = ((((refl, refl, λ h. absurd cc), tt), tt), tt)

no_mean : (combine toy sums (map (part_of toy (fin 1) top) unmatched) 1).original_mean ≡ none
unfolding combine original_mean_of aggregate_blocks sum
no_mean = refl

original_mean-none_example : sum (map (λ r. originals_in toy (fin 1) top r.0) unmatched) ≡ 0
original_mean-none_example =
    original_mean-none toy (fin 1) top toy-IsLawful sums unmatched 1 unmatched-IsHonest no_mean

abbrev ids : Ids
ids = (0, 0) ∷ (1, 0) ∷ []

-- the error bound 0, and only the first block IN
abbrev no_error : BlockId → Single
no_error x = zero_s

abbrev is_first : BlockId → Bool
is_first (zero, b) = true
is_first (suc c, b) = false

merged_aggregate_example :
    (groups : List (Ids × ℕ)) × (reads : List MergedRange) × (flat_map (λ g. g.0) groups ≡ ids)
    × (merge_ranges keys ids 1 (pos 0) 0 ≡ ok (reads, 0 ∷ 0 ∷ []))
    × (stream_aggregate toy sums decode store reads
          (0 ∷ 0 ∷ [])
          (zero_s ∷ zero_s ∷ [])
          (true ∷ false ∷ [])
          1
          8
          4
          (fin 1)
          top
        ≡ ok (
          map
              (group_part toy sums decode store store-IsLawful keys object 2 1 stored 0 1 8
                (fin 1)
                top
                valid
                no_error
                is_first)
              groups,
          read_bytes reads,
        ))
unfolding is_ascending
merged_aggregate_example =
    merged_aggregate toy sums decode store store-IsLawful keys object 2 1 stored 0 1 8 (fin 1) top
      valid no_error is_first ids 0 refl (omega arith, (omega arith, tt))
      ((omega arith, omega arith), ((omega arith, omega arith), tt))
      ((refl, refl), ((refl, refl), tt))
