-- ===== src/Tests/Originals.antt =====
-- The bounds on original values, at the array of Tests/Example.
use skip_zfp.Prelude.{
  ℕ, zero, suc, ap, ◌+◌, ◌*◌, get_or, slice, ◌≤◌, ◌<◌, ◌≡◌, refl, true, false, List, [], ◌∷◌, ◌++◌,
  All, map, replicate, ok, arith,
}
use skip_zfp.Layout.{unit_grid_per_chunk}
use skip_zfp.Query.Merge.{BlockId}
use skip_zfp.Query.Plan.{
  unit_id, block_eps, n_chunk, n_sub, blocks_per_chunk, unit_record, has_codes,
}
use skip_zfp.Query.Classify.{low_bound, high_bound}
use skip_zfp.Query.Options.{default_options}
use skip_zfp.Query.Meta.{plan_meta}
use skip_zfp.Query.Result.{single_size}
use skip_zfp.Query.Run.Step.{step_grid, block_values}
use skip_zfp.Aggregate.Run.{AggregateResult, aggregate_in_turn}
use skip_zfp.Aggregate.Run.Original.{IsClose}
use skip_zfp.Aggregate.Run.Encloses.{Originals, originals_in_range}
use skip_zfp.Aggregate.Run.Whole.{aggregate_in_turn_encloses}
use skip_zfp.Tests.Toy.Laws.{toy-IsLawful}
use skip_zfp.Tests.Toy.{toy, single_of, Single, Double, fin, top, two_s, four_s}
use skip_zfp.Tests.Example.{
  array, store, store-IsLawful, decode, zstd, open_zarr, lt, keys, record0, record1,
}
use skip_zfp.Tests.Queries.{object, ready, read_meta_test}
use skip_zfp.Tests.Aggregates.{sums, bounds}

-- each original value is the decoded one
abbrev pairs : BlockId → List (Single × Single)
pairs x = map (λ v. (v, v)) (block_values toy decode object 1 8 x)

same :
    (n : ℕ) (v : Single)
    → map (λ (p : Single × Single). p.0) (map (λ v. (v, v)) (replicate n v)) ≡ replicate n v
same zero v = refl
same (suc n) v = ap (λ vs. v ∷ vs) (same n v)

copies-IsClose :
    (e : Double) (n : ℕ) (v : Single)
    → toy.le (toy.sub (toy.widen v) e) (toy.widen v) ≡ true
    → toy.le (toy.widen v) (toy.add (toy.widen v) e) ≡ true
    → All (IsClose toy (fin 1) top e) (map (λ v. (v, v)) (replicate n v))
copies-IsClose e zero v h k = tt
copies-IsClose e (suc n) v h k = ((h, k), copies-IsClose e n v h k)

abbrev units : List ℕ
units = 2 ∷ 1 ∷ 1 ∷ []

abbrev meta : List ℕ
meta = record0 ++ record1

pairs-IsClose :
    (c b : ℕ)
    → c < n_chunk (step_grid lt units)
    → b < blocks_per_chunk (step_grid lt units)
    → All
        (IsClose toy (fin 1) top (
          toy.widen
            (block_eps toy (step_grid lt units) (plan_meta meta lt 0) (single_size lt) (c, b))))
        (pairs (c + 0, b))
unfolding unit_grid_per_chunk plan_meta unit_id block_eps
pairs-IsClose zero zero hc hb = copies-IsClose (fin 0) 64 two_s refl refl
pairs-IsClose (suc zero) zero hc hb = copies-IsClose (fin 0) 64 four_s refl refl
pairs-IsClose (suc (suc c)) b hc hb = absurd (omega arith)
pairs-IsClose zero (suc b) hc hb = absurd (omega arith)
pairs-IsClose (suc zero) (suc b) hc hb = absurd (omega arith)

within_all :
    (low high : Double) (n : ℕ) (v : Single)
    → toy.le low (toy.widen v) ≡ true
    → toy.le (toy.widen v) high ≡ true
    → All
        (λ x. (toy.le low (toy.widen x) ≡ true) × (toy.le (toy.widen x) high ≡ true))
        (map (λ (p : Single × Single). p.1) (map (λ v. (v, v)) (replicate n v)))
within_all low high zero v h k = tt
within_all low high (suc n) v h k = ((h, k), within_all low high n v h k)

within_of :
    (c sub b : ℕ)
    → c < n_chunk (step_grid lt units)
    → sub < n_sub (step_grid lt units)
    → b < 1
    → let g = step_grid lt units in
      let cm = unit_record toy g (plan_meta meta lt 0) (single_size lt) c sub in
      let codes = has_codes g (single_size lt) in
      All
        (λ v.
          (toy.le (low_bound toy cm 1 codes b) (toy.widen v) ≡ true)
          × (toy.le (toy.widen v) (high_bound toy cm 1 codes b) ≡ true))
        (map (λ p. p.1) (pairs (c + 0, sub * 1 + b)))
unfolding unit_grid_per_chunk plan_meta unit_id low_bound high_bound
within_of zero zero zero hc hs hb = within_all (fin 2) (fin 2) 64 two_s refl refl
within_of (suc zero) zero zero hc hs hb = within_all (fin 0) (fin 4) 64 four_s refl refl
within_of (suc (suc c)) sub b hc hs hb = absurd (omega arith)
within_of zero (suc sub) b hc hs hb = absurd (omega arith)
within_of (suc zero) (suc sub) b hc hs hb = absurd (omega arith)
within_of zero zero (suc b) hc hs hb = absurd (omega arith)
within_of (suc zero) zero (suc b) hc hs hb = absurd (omega arith)

originals :
    Originals toy toy-IsLawful sums decode object lt
      (2 ∷ 1 ∷ 1 ∷ [])
      (record0 ++ record1)
      0
      (fin 1)
      top
      pairs
unfolding unit_grid_per_chunk plan_meta unit_id block_eps low_bound high_bound
originals = record {
  decoded =
      λ x. same 64 (single_of (get_or (slice (object x.0) (0 + x.1 * 1) (0 + x.1 * 1 + 1)) 0 0));
  close = λ c b. pairs-IsClose c b;
  within = λ c sub b. within_of c sub b;
}

aggregate_in_turn_encloses_example :
    (r : AggregateResult toy) × (aggregate_in_turn toy sums decode store zstd open_zarr array lt
        (fin 1)
        top
        default_options
        keys
        false
      ≡ ok r)
    × (r.answer.original_count.0
        ≤ originals_in_range toy toy-IsLawful sums decode object lt units meta 0
            (fin 1)
            top
            store
            keys
            1
            ready
            pairs
            originals)
    × (originals_in_range toy toy-IsLawful sums decode object lt units meta 0
          (fin 1)
          top
          store
          keys
          1
          ready
          pairs
          originals
        ≤ r.answer.original_count.1)
aggregate_in_turn_encloses_example =
    aggregate_in_turn_encloses toy toy-IsLawful sums decode store store-IsLawful keys object 1 lt
      (fin 1) top zstd open_zarr array default_options false meta 28 2 0 pairs refl read_meta_test
      ready bounds originals
