-- ===== src/Tests/Bounds.antt =====
-- The theorems on queries as users state them, at the array of Tests/Example.
use skip_zfp.Prelude.{
  ℕ, zero, suc, ◌<◌, ◌≡◌, refl, sym, subst, true, false, some, none, All, replicate, ok, arith,
  prod,
}
use skip_zfp.Layout.{unit_grid_per_chunk}
use skip_zfp.Query.Bounds.{range_bounds}
use skip_zfp.Query.Options.{default_options, pick_layer}
use skip_zfp.Query.Meta.{meta_objects}
use skip_zfp.Query.Result.{QueryResult}
use skip_zfp.Query.Run.{query_gt_async, query_lt_async, query_range_async}
use skip_zfp.Query.Run.Bounds.{
  Finite, Pipelined, all_selected, selects, query_gt_exact, query_lt_exact, query_range_exact,
}
use skip_zfp.Query.Run.Whole.{ObjectReady}
use skip_zfp.Tests.Toy.Laws.{toy-IsLawful}
use skip_zfp.Tests.Toy.{toy, Single, Double, fin, top, two_s, four_s}
use skip_zfp.Tests.Example.{
  array, get_layout_test, chunk_keys_test, store, store-IsLawful, decode, zstd, open_zarr, lt,
}
use skip_zfp.Tests.Queries.{object, mo, objects_ready}

one_value :
    (n : ℕ) (v : Single)
    → toy.lt toy.neg_inf (toy.widen v) ≡ true
    → All (λ x. toy.lt toy.neg_inf (toy.widen x) ≡ true) (replicate n v)
one_value zero v h = tt
one_value (suc n) v h = (h, one_value n v h)

finite : (i : ℕ) → i < 2 → Finite toy decode object lt mo i
unfolding unit_grid_per_chunk
finite zero h zero zero hc hb = one_value 64 two_s refl
finite zero h zero (suc b) hc hb = absurd (omega arith)
finite zero h (suc c) b hc hb = absurd (omega arith)
finite (suc zero) h zero zero hc hb = one_value 64 four_s refl
finite (suc zero) h zero (suc b) hc hb = absurd (omega arith)
finite (suc zero) h (suc c) b hc hb = absurd (omega arith)
finite (suc (suc i)) h c b hc hb = absurd (omega arith)

pipelined :
    (lo hi : Double)
    → toy.is_nan lo ≡ false
    → toy.is_nan hi ≡ false
    → Pipelined toy toy-IsLawful decode true 0 store store-IsLawful zstd open_zarr object 1 array
        default_options lt mo lo hi
unfolding pick_layer meta_objects unit_grid_per_chunk prod
pipelined lo hi nl nh = record {
  laid_out = get_layout_test;
  layer = refl;
  located = refl;
  allowed = refl;
  gap = 0;
  gap_given = refl;
  objects =
      subst (λ ks. (i : ℕ) → i < 2 → ObjectReady toy decode object lt lo hi store zstd ks 1 mo i)
        (sym chunk_keys_test) (objects_ready lo hi nl nh);
  finite = finite;
}

query_gt_exact_example :
    (r : QueryResult) × (query_gt_async toy decode true 0 store zstd open_zarr array
        (fin 1)
        false
        default_options
      ≡ ok r)
    × (r.count
        ≡ all_selected toy decode object lt
            (selects toy decode object lt (some (fin 1)) none false true)
            mo)
unfolding range_bounds
query_gt_exact_example =
    query_gt_exact toy toy-IsLawful decode true 0 store store-IsLawful zstd open_zarr object 1 array
      default_options lt mo (fin 1) false (fin 1) top refl (pipelined (fin 1) top refl refl)

-- x < 3, where 3 is no float32 of the toy format and becomes x <= 2
query_lt_exact_example :
    (r : QueryResult) × (query_lt_async toy decode true 0 store zstd open_zarr array
        (fin 3)
        false
        default_options
      ≡ ok r)
    × (r.count
        ≡ all_selected toy decode object lt
            (selects toy decode object lt none (some (fin 3)) false false)
            mo)
unfolding range_bounds
query_lt_exact_example =
    query_lt_exact toy toy-IsLawful decode true 0 store store-IsLawful zstd open_zarr object 1 array
      default_options lt mo (fin 3) false (fin 0) (fin 2) refl (pipelined (fin 0) (fin 2) refl refl)

-- 2 <= x < 4
query_range_exact_example :
    (r : QueryResult) × (query_range_async toy decode true 0 store zstd open_zarr array
        (some (fin 2))
        (some (fin 4))
        true
        false
        default_options
      ≡ ok r)
    × (r.count
        ≡ all_selected toy decode object lt
            (selects toy decode object lt (some (fin 2)) (some (fin 4)) true false)
            mo)
unfolding range_bounds
query_range_exact_example =
    query_range_exact toy toy-IsLawful decode true 0 store store-IsLawful zstd open_zarr object 1
      array default_options lt mo (fin 2) (fin 4) true false (fin 0) (fin 2) refl
      (pipelined (fin 0) (fin 2) refl refl)
