-- ===== src/Tests/Steps.antt =====
-- The theorems on the steps of a query, at the blocks of Tests/Example.
use skip_zfp.Prelude.{
  ℕ, zero, suc, ◌+◌, ◌*◌, ◌≤◌, ◌<◌, ◌≡◌, refl, true, false, ◌&&◌, ◌↔◌, some, List, [], ◌∷◌, ◌++◌,
  All, length, replicate, map, sum, ok, pos, arith, is_err, ◌⊎◌,
}
use skip_zfp.Native.{sz_ok}
use skip_zfp.Query.Merge.{
  Ids, Run, MergedRange, merge_ranges, is_ascending, with_ends, szfp_merge_ranges,
}
use skip_zfp.Query.Merge.Covers.{Covers, szfp_merge_ranges-Covers}
use skip_zfp.Query.Merge.Order.{szfp_merge_ranges_total}
use skip_zfp.Query.Count.{count_block, count_if, in_range}
use skip_zfp.Query.Classify.{classify_block, low_bound, high_bound}
use skip_zfp.Query.Classify.Sound.{count_block_lem, StateOk-classify_block}
use skip_zfp.Query.Plan.{Grid, plan_of, unit_id}
use skip_zfp.Query.Plan.Counts.{StateOk}
use skip_zfp.Query.Plan.Worth.{Judged, array_sum, plan_counts, plan_worth, plan_listed}
use skip_zfp.Query.Plan.Kept.{plan_kept}
use skip_zfp.Query.Stream.{stream_count}
use skip_zfp.Query.Stream.Scan.{block_count}
use skip_zfp.Query.Stream.Reads.{read_bytes}
use skip_zfp.Query.Stream.Total.{merged_scan}
use skip_zfp.Query.Bounds.{range_bounds, range_bounds_select, range_bounds_refused, above, beneath}
use skip_zfp.Query.Budget.{
  Shared, new_budget, acquire, may_acquire, Removes, begin, Reachable, start, next,
}
use skip_zfp.Query.Budget.Bound.{Within, reachable_bound, acquire_progress}
use skip_zfp.Query.Merge.{BlockId}
use skip_zfp.Tests.Toy.Laws.{toy-IsLawful}
use skip_zfp.Tests.Toy.{toy, Single, Double, fin, top, two_s}
use skip_zfp.Tests.Example.{store, store-IsLawful, decode, keys, record0, record1}
use skip_zfp.Tests.Queries.{object, stored, valid, between}

abbrev ids : Ids
ids = (0, 0) ∷ (1, 0) ∷ []

merged_scan_example :
    (reads : List MergedRange) × (merge_ranges keys ids 1 (pos 0) 0 ≡ ok (reads, 0 ∷ 0 ∷ []))
    × (stream_count toy decode true store reads (0 ∷ 0 ∷ []) 1 8 4 (fin 1) top
        ≡ ok (
          sum (map (block_count toy decode true object 0 1 8 (fin 1) top) ids),
          read_bytes reads,
        ))
unfolding is_ascending
merged_scan_example =
    merged_scan toy decode true store store-IsLawful keys object 2 1 stored 0 1 8 (fin 1) top valid
      ids 0 refl (omega arith, (omega arith, tt))
      ((omega arith, omega arith), ((omega arith, omega arith), tt))

-- blocks 0, 1 and 3 of chunk 0 in one read, over the gap, and block 0 of chunk 1 in another
abbrev gap_ids : Ids
gap_ids = (0, 0) ∷ (0, 1) ∷ (0, 3) ∷ (1, 0) ∷ []

abbrev gap_runs : List Run
gap_runs =
    record { chunk = 0; first = 0; last = 3; item = 0 }
    ∷ record { chunk = 1; first = 0; last = 0; item = 3 }
    ∷ []

gap_test : szfp_merge_ranges gap_ids 1 ≡ sz_ok gap_runs
unfolding szfp_merge_ranges
gap_test = refl

szfp_merge_ranges-Covers_example : Covers (with_ends 4 gap_runs) 0 gap_ids
szfp_merge_ranges-Covers_example = szfp_merge_ranges-Covers gap_ids 1 gap_test

szfp_merge_ranges_total_example : (rs : List Run) × (szfp_merge_ranges gap_ids 1 ≡ sz_ok rs)
unfolding is_ascending
szfp_merge_ranges_total_example =
    szfp_merge_ranges_total gap_ids 1 (omega arith, (omega arith, (omega arith, (omega arith, tt))))
      refl

count_block_lem_example :
    count_block toy decode true 8 (fin 1) top (1 ∷ [])
    ≡ count_if toy (λ v. in_range toy v (fin 1) top) (decode 8 (1 ∷ []))
count_block_lem_example =
    count_block_lem toy toy-IsLawful decode true 8 (fin 1) top (1 ∷ []) refl refl
      (all_numbers 64 two_s refl)
  where
    all_numbers :
        (n : ℕ) (v : Single)
        → toy.is_nan (toy.widen v) ≡ false
        → All (λ x. toy.is_nan (toy.widen x) ≡ false) (replicate n v)
    all_numbers zero v h = tt
    all_numbers (suc n) v h = (h, all_numbers n v h)

StateOk-classify_block_example :
    StateOk 64
      (classify_block toy record0 1 false (fin 1) top 0)
      (count_block toy decode true 8 (fin 1) top (1 ∷ []))
unfolding low_bound high_bound
StateOk-classify_block_example =
    StateOk-classify_block toy toy-IsLawful decode true record0 1 false 8 (fin 1) top 0 (1 ∷ [])
      refl refl (between (fin 2) (fin 2) 64 two_s refl refl)

abbrev grid : Grid
grid = record { ux = 2; uy = 1; uz = 1; sx = 1; sy = 1; sz = 1; blocks_per_unit = 1 }

abbrev meta : List ℕ
meta = record0 ++ record1

plan_counts_example :
    let p = plan_of toy grid meta 14 (fin 1) top false in p.n_in + p.n_out + length p.ids ≡ 2
plan_counts_example = plan_counts toy grid meta 14 (fin 1) top

-- the first block counts all 64 values, the second some of them
abbrev weight : BlockId → ℕ
weight (zero, b) = 64
weight (suc c, b) = 10

judged : Judged toy grid meta 14 (fin 1) top 64 weight
unfolding classify_block unit_id
judged zero zero zero hc hs hb = refl
judged (suc zero) zero zero hc hs hb = tt
judged (suc (suc c)) sub b hc hs hb = absurd (omega arith)
judged zero (suc sub) b hc hs hb = absurd (omega arith)
judged (suc zero) (suc sub) b hc hs hb = absurd (omega arith)
judged zero zero (suc b) hc hs hb = absurd (omega arith)
judged (suc zero) zero (suc b) hc hs hb = absurd (omega arith)

plan_worth_example :
    let p = plan_of toy grid meta 14 (fin 1) top false in
    array_sum weight 2 1 ≡ p.n_in * 64 + sum (map weight p.ids)
plan_worth_example = plan_worth toy grid meta 14 (fin 1) top 64 weight judged

plan_kept_example :
    let p = plan_of toy grid meta 14 (fin 1) top true in
    array_sum weight 2 1 ≡ sum (map weight p.ids)
plan_kept_example = plan_kept toy grid meta 14 (fin 1) top 64 weight judged

plan_listed_example :
    let p = plan_of toy grid meta 14 (fin 1) top true in
    (is_ascending p.ids ≡ true) × All (λ x. (x.0 < 2) × (x.1 < 1)) p.ids
plan_listed_example = plan_listed toy grid meta 14 (fin 1) top true (omega arith)

-- 1 is no float32 of the toy format, and 2 <= x < 4 becomes 0 < x <= 2
range_bounds_test : range_bounds toy (some (fin 2)) (some (fin 4)) true false ≡ ok (fin 0, fin 2)
unfolding range_bounds
range_bounds_test = refl

range_bounds_select_example :
    (toy.lt (fin 0) (fin 2) && toy.le (fin 2) (fin 2))
    ≡ (above toy (some (fin 2)) true (fin 2) && beneath toy (some (fin 4)) false (fin 2))
range_bounds_select_example =
    range_bounds_select toy toy-IsLawful (some (fin 2)) (some (fin 4)) true false (fin 0) (fin 2)
      range_bounds_test two_s refl

range_bounds_refused_example :
    (is_err (range_bounds toy (some (fin 4)) (some (fin 2)) true false) ≡ true) ↔ (
      (x : Double) → (above toy (some (fin 4)) true x && beneath toy (some (fin 2)) true x) ≡ false)
range_bounds_refused_example =
    range_bounds_refused toy toy-IsLawful (some (fin 4)) (some (fin 2)) true false

-- a read of 9 bytes over a limit of 5, alone
abbrev shared : Shared
shared = record { budget = acquire (new_budget (some 5)) 9; held = 9 ∷ [] }

shared_reachable : Reachable (some 5) 9 shared
unfolding may_acquire
shared_reachable = next start (begin _ 9 (omega arith) refl)

reachable_bound_example :
    (shared.budget.used ≡ sum shared.held)
    × (shared.budget.used ≤ shared.budget.peak)
    × Within (some 5) 9 shared.budget.peak
reachable_bound_example = reachable_bound (some 5) 9 shared shared_reachable

acquire_progress_example :
    (may_acquire shared.budget 3 ≡ true)
    ⊎ ((k : ℕ) × (rest : List ℕ) × Removes k shared.held rest × (0 < k))
acquire_progress_example = acquire_progress (some 5) 9 3 shared shared_reachable
