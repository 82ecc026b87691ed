-- ===== src/Tests/Queries.antt =====
-- The theorems on queries, at the array of Tests/Example.
use skip_zfp.Prelude.{
  ℕ, zero, suc, ◌+◌, ◌*◌, ◌<◌, ◌≡◌, refl, true, false, List, [], ◌∷◌, ◌++◌, All, replicate, map,
  sum, range, ok, arith, prod, range_from,
}
use skip_zfp.Query.Plan.{
  bad_plan, n_chunk, n_sub, blocks_per_chunk, unit_record, has_codes, unit_id,
}
use skip_zfp.Layout.{unit_grid_per_chunk}
use skip_zfp.Query.Classify.{low_bound, high_bound}
use skip_zfp.Query.Stream.Scan.{Stored, IsRate}
use skip_zfp.Query.Options.{default_options}
use skip_zfp.Query.Meta.{MetaObjects, plan_meta, read_meta_object, read_meta}
use skip_zfp.Query.Result.{QueryResult, single_size}
use skip_zfp.Query.Run.{query_pipelined, query_in_turn}
use skip_zfp.Query.Run.Step.{Ready, step_grid, values_in_range, block_values}
use skip_zfp.Query.Run.Whole.{
  ObjectReady, object_values, object_blocks, query_pipelined_exact, query_in_turn_exact,
}
use skip_zfp.Tests.Toy.Laws.{toy-IsLawful}
use skip_zfp.Tests.Toy.{toy, Single, Double, fin, top, two_s, four_s}
use skip_zfp.Tests.Example.{
  array, store, store-IsLawful, decode, zstd, open_zarr, lt, keys, record0, record1,
}

-- the object of each chunk
abbrev pub object : ℕ → List ℕ
object zero = 1 ∷ []
object (suc c) = 2 ∷ []

abbrev pub mo : MetaObjects
mo = record { prefix = "g/a_meta"; t_chunk = 1; rows = 14; count = 2; packed = false; units = 2 }

-- all values of a block that are the same one between two doubles
pub between :
    (low high : Double) (n : ℕ) (v : Single)
    → toy.le low (toy.widen v) ≡ true
    → toy.le (toy.widen v) high ≡ true
    → All
        (λ x. (toy.le low (toy.widen x) ≡ true) × (toy.le (toy.widen x) high ≡ true))
        (replicate n v)
between low high zero v h k = tt
between low high (suc n) v h k = ((h, k), between low high n v h k)

pub stored : Stored store keys object 2 1
stored zero h = ("g/a/c/0/0/0", refl, refl, refl)
stored (suc zero) h = ("g/a/c/1/0/0", refl, refl, refl)
stored (suc (suc c)) h = absurd (omega arith)

pub valid : IsRate 1 8
valid = (refl, omega arith)

holds_one : Stored store keys object 1 1
holds_one c h = stored c (omega arith)

-- the bounds of a zone map on the values of the array's blocks, as Ready states them
abbrev Bounds : List ℕ → List ℕ → ℕ → Type 0
Bounds units meta k =
    (c sub b : ℕ)
    → c < n_chunk (step_grid lt units)
    → sub < n_sub (step_grid lt units)
    → b < 1
    → let g = step_grid lt units in
      let cm = unit_record toy g (plan_meta meta lt 0) (single_size lt) c sub in
      let codes = has_codes g (single_size lt) in
      All
        (λ v.
          (toy.le (low_bound toy cm 1 codes b) (toy.widen v) ≡ true)
          × (toy.le (toy.widen v) (high_bound toy cm 1 codes b) ≡ true))
        (block_values toy decode object 1 8 (c + k, sub * 1 + b))

bounds0 : Bounds (1 ∷ 1 ∷ 1 ∷ []) record0 0
unfolding unit_grid_per_chunk plan_meta unit_id low_bound high_bound
bounds0 zero zero zero hc hs hb = between (fin 2) (fin 2) 64 two_s refl refl
bounds0 (suc c) sub b hc hs hb = absurd (omega arith)
bounds0 zero (suc sub) b hc hs hb = absurd (omega arith)
bounds0 zero zero (suc b) hc hs hb = absurd (omega arith)

bounds1 : Bounds (1 ∷ 1 ∷ 1 ∷ []) record1 1
unfolding unit_grid_per_chunk plan_meta unit_id low_bound high_bound
bounds1 zero zero zero hc hs hb = between (fin 0) (fin 4) 64 four_s refl refl
bounds1 (suc c) sub b hc hs hb = absurd (omega arith)
bounds1 zero (suc sub) b hc hs hb = absurd (omega arith)
bounds1 zero zero (suc b) hc hs hb = absurd (omega arith)

-- the step of the first object, and of the second one, for the values above 1
pub ready0 :
    (lo hi : Double)
    → toy.is_nan lo ≡ false
    → toy.is_nan hi ≡ false
    → Ready toy decode store keys object 1 lt (1 ∷ 1 ∷ 1 ∷ []) record0 0 lo hi
unfolding unit_grid_per_chunk bad_plan prod
ready0 lo hi nl nh = record {
  accepted = refl;
  dim = refl;
  valid = valid;
  stored = holds_one;
  room = omega arith;
  small = omega arith;
  lo_num = nl;
  hi_num = nh;
  bounded = bounds0;
  full = λ c b. refl;
}

pub ready1 :
    (lo hi : Double)
    → toy.is_nan lo ≡ false
    → toy.is_nan hi ≡ false
    → Ready toy decode store keys object 1 lt (1 ∷ 1 ∷ 1 ∷ []) record1 1 lo hi
unfolding unit_grid_per_chunk bad_plan prod
ready1 lo hi nl nh = record {
  accepted = refl;
  dim = refl;
  valid = valid;
  stored = stored;
  room = omega arith;
  small = omega arith;
  lo_num = nl;
  hi_num = nh;
  bounded = bounds1;
  full = λ c b. refl;
}

-- the whole zone map in one step
bounds : Bounds (2 ∷ 1 ∷ 1 ∷ []) (record0 ++ record1) 0
unfolding unit_grid_per_chunk plan_meta unit_id low_bound high_bound
bounds zero zero zero hc hs hb = between (fin 2) (fin 2) 64 two_s refl refl
bounds (suc zero) zero zero hc hs hb = between (fin 0) (fin 4) 64 four_s refl refl
bounds (suc (suc c)) sub b hc hs hb = absurd (omega arith)
bounds zero (suc sub) b hc hs hb = absurd (omega arith)
bounds (suc zero) (suc sub) b hc hs hb = absurd (omega arith)
bounds zero zero (suc b) hc hs hb = absurd (omega arith)
bounds (suc zero) zero (suc b) hc hs hb = absurd (omega arith)

pub ready :
    Ready toy decode store keys object 1 lt (2 ∷ 1 ∷ 1 ∷ []) (record0 ++ record1) 0 (fin 1) top
unfolding unit_grid_per_chunk bad_plan prod
ready = record {
  accepted = refl;
  dim = refl;
  valid = valid;
  stored = stored;
  room = omega arith;
  small = omega arith;
  lo_num = refl;
  hi_num = refl;
  bounded = bounds;
  full = λ c b. refl;
}

pub read_meta_test : read_meta open_zarr store zstd array lt true ≡ ok (record0 ++ record1, 28, 2)
unfolding read_meta prod range_from sum
read_meta_test = refl

query_in_turn_exact_example :
    (r : QueryResult) × (query_in_turn toy decode true 0 store zstd open_zarr array lt 0
        (fin 1)
        top
        default_options
        keys
      ≡ ok r)
    × (r.count ≡ values_in_range toy decode object lt (step_grid lt (2 ∷ 1 ∷ 1 ∷ [])) 0 (fin 1) top)
    × (r.in_blocks + r.out_blocks + r.maybe_blocks
        ≡ n_chunk (step_grid lt (2 ∷ 1 ∷ 1 ∷ []))
          * blocks_per_chunk (step_grid lt (2 ∷ 1 ∷ 1 ∷ [])))
query_in_turn_exact_example =
    query_in_turn_exact toy toy-IsLawful decode true store store-IsLawful zstd keys object 1 lt
      (fin 1) top 0 open_zarr array default_options (record0 ++ record1) 28 2 0 refl read_meta_test
      ready

pub objects_ready :
    (lo hi : Double)
    → toy.is_nan lo ≡ false
    → toy.is_nan hi ≡ false
    → (i : ℕ) → i < 2
    → ObjectReady toy decode object lt lo hi store zstd keys 1 mo i
unfolding unit_grid_per_chunk read_meta_object
objects_ready lo hi nl nh zero h = record {
  bytes = record0;
  stored_size = 14;
  found = refl;
  ready = ready0 lo hi nl nh;
}
objects_ready lo hi nl nh (suc zero) h = record {
  bytes = record1;
  stored_size = 14;
  found = refl;
  ready = ready1 lo hi nl nh;
}
objects_ready lo hi nl nh (suc (suc i)) h = absurd (omega arith)

query_pipelined_exact_example :
    (r : QueryResult) × (query_pipelined toy decode true store zstd lt mo
        (fin 1)
        top
        default_options
        keys
      ≡ ok r)
    × (r.count ≡ sum (map (object_values toy decode object lt (fin 1) top mo) (range 2)))
    × (r.in_blocks + r.out_blocks + r.maybe_blocks ≡ sum (map (object_blocks lt mo) (range 2)))
query_pipelined_exact_example =
    query_pipelined_exact toy toy-IsLawful decode true store store-IsLawful zstd keys object 1 lt
      (fin 1) top mo default_options 0 refl (objects_ready (fin 1) top refl refl)
