-- ===== src/Query/Run/Bounds.antt =====
-- Queries as users state them: the count of a pipelined query is the number of decoded values that
-- the inclusive or exclusive bounds of the caller select.
use Prim.Native.String.{String}
use skip_zfp.Prelude.{
  ℕ, ◌+◌, ◌<◌, ◌≡◌, ◌∙◌, Bool, true, false, ◌&&◌, Option, none, some, List, map, All, All-map, ok,
  pos, sum, length, range, All-range, Result,
}
use skip_zfp.Floats.{Floats, IsLawful as FloatsAreLawful}
use skip_zfp.Layout.{Array, Layout, get_layout, chunk_keys}
use skip_zfp.Query.Read.{Store, IsLawful}
use skip_zfp.Query.Count.{in_range, count_if}
use skip_zfp.Query.Bounds.{range_bounds, range_bounds_select, above, beneath}
use skip_zfp.Query.Classify.Sound.{count_if_ext}
use skip_zfp.Query.Plan.{Grid, n_chunk, blocks_per_chunk}
use skip_zfp.Query.Plan.Worth.{array_sum}
use skip_zfp.Query.Options.{QueryOptions, pick_layer}
use skip_zfp.Query.Meta.{ZarrMeta, MetaObjects, meta_objects}
use skip_zfp.Query.Result.{QueryResult}
use skip_zfp.Query.Run.{
  can_pipeline, query_async, query_gt_async, query_lt_async, query_range_async,
}
use skip_zfp.Query.Run.Shift.{shift_id}
use skip_zfp.Query.Run.Step.{
  array_sum_ext, sum-map_ext, step_size, step_rate, step_grid, block_values,
}
use skip_zfp.Query.Run.Whole.{
  ObjectReady, object_units, first_chunk, object_values, query_pipelined_exact,
}

module _ (F : Floats) (decode : ℕ → List ℕ → List F.Single) (object : ℕ → List ℕ)
    (lt : Layout) where
  -- the test that the caller's bounds make
  abbrev pub selects :
      (lo hi : Option F.Double) (lo_inclusive hi_inclusive : Bool) → F.Single → Bool
  selects lo hi li hi' v = above F lo li (F.widen v) && beneath F hi hi' (F.widen v)

  -- how many values of the chunks of a grid pass a test, the first of them being chunk `k`
  abbrev pub values_selected : (F.Single → Bool) → Grid → ℕ → ℕ
  values_selected test g k =
      array_sum
        (λ x.
          count_if F test
            (block_values F decode object (step_size lt) (step_rate lt) (shift_id k x)))
        (n_chunk g) (blocks_per_chunk g)

  -- the same for the chunks that object `i` of the zone map stands for, and for all objects
  abbrev pub object_selected : (F.Single → Bool) → MetaObjects → ℕ → ℕ
  object_selected test mo i =
      values_selected test (step_grid lt (object_units lt mo i)) (first_chunk lt mo i)

  abbrev pub all_selected : (F.Single → Bool) → MetaObjects → ℕ
  all_selected test mo = sum (map (object_selected test mo) (range mo.count))

  -- No decoded value of object `i` is -inf or NaN, as the codec encodes finite values only.
  abbrev pub Finite : MetaObjects → ℕ → Type 0
  Finite mo i =
      let g = step_grid lt (object_units lt mo i) in
      (c b : ℕ)
      → c < n_chunk g
      → b < blocks_per_chunk g
      → All (λ v. F.lt F.neg_inf (F.widen v) ≡ true)
          (block_values F decode object (step_size lt) (step_rate lt) (c + first_chunk lt mo i, b))

  object-selected :
      FloatsAreLawful F
      → (lo hi : Option F.Double) (li hi' : Bool) (a b : F.Double)
      → range_bounds F lo hi li hi' ≡ ok (a, b)
      → (mo : MetaObjects) (i : ℕ) → Finite mo i
      → object_values F decode object lt a b mo i ≡ object_selected (selects lo hi li hi') mo i
  unfolding in_range
  object-selected law lo hi li hi' a b e mo i fin = array_sum_ext _ _ _ _ (λ c d hc hd.
      count_if_ext F law _ _ _
        (All-map _ _ (λ v h. range_bounds_select F law lo hi li hi' a b e v h) _ (fin c d hc hd)))

module _ (F : Floats) (law : FloatsAreLawful F) (decode : ℕ → List ℕ → List F.Single)
    (avx512 : Bool) (blank : ℕ) (store : Store) (store_law : IsLawful store)
    (zstd : List ℕ → Result (List ℕ)) (open_zarr : String → Result ZarrMeta) (object : ℕ → List ℕ)
    (size : ℕ) (arr : Array) (opts : QueryOptions) (lt : Layout) (mo : MetaObjects) where
  -- The array is laid out as `lt` with the zone map `mo`, the options choose layer 0 and the pipeline,
  -- and every object is ready for the planner's range.
  pub record Pipelined (a b : F.Double) : Type 0 where
    pub laid_out : get_layout arr ≡ ok lt
    pub layer : pick_layer opts.layer (length lt.layers) ≡ ok 0
    pub located : meta_objects arr lt ≡ ok (some mo)
    pub allowed : can_pipeline lt opts 0 (some mo) ≡ true
    pub gap : ℕ
    pub gap_given : opts.merge_gap_blocks ≡ pos gap
    pub objects :
        (i : ℕ)
        → i < mo.count
        → ObjectReady F decode object lt a b store zstd (chunk_keys arr lt) size mo i
    pub finite : (i : ℕ) → i < mo.count → Finite F decode object lt mo i

  -- the query returns, and its count is the number of values that the bounds select
  abbrev pub Counts : Result QueryResult → (lo hi : Option F.Double) → (li hi' : Bool) → Type 0
  Counts run lo hi li hi' =
      (r : QueryResult) × (run ≡ ok r)
      × (r.count ≡ all_selected F decode object lt (selects F decode object lt lo hi li hi') mo)

  query_async_exact :
      (lo hi : Option F.Double) (li hi' : Bool) (a b : F.Double)
      → range_bounds F lo hi li hi' ≡ ok (a, b)
      → Pipelined a b
      → Counts (query_async F decode avx512 blank store zstd open_zarr arr a b opts) lo hi li hi'
  unfolding query_async
  query_async_exact lo hi li hi' a b e p =
      let (r, done, count, blocks) =
        query_pipelined_exact F law decode avx512 store store_law zstd (chunk_keys arr lt) object
          size lt a b mo opts p.gap p.gap_given p.objects in
      (
        r,
        rw (p.laid_out, p.layer, p.located, p.allowed) done,
        count
            ∙ sum-map_ext _ _ (range mo.count) (
                All-range
                  (λ i.
                    object_values F decode object lt a b mo i
                    ≡ object_selected F decode object lt (selects F decode object lt lo hi li hi')
                        mo i)
                  mo.count
                  (λ i h.
                    object-selected F decode object lt law lo hi li hi' a b e mo i (p.finite i h))),
      )

  -- Under the conditions of query_range_exact on the array, the zone map and the options, and with
  -- the threshold accepted by range_bounds, query_gt_async returns a result whose count is the
  -- number of decoded values above the threshold, or at least at it when `inclusive` is set.
  pub query_gt_exact :
      (threshold : F.Double) (inclusive : Bool) (a b : F.Double)
      → range_bounds F (some threshold) none inclusive true ≡ ok (a, b)
      → Pipelined a b
      → Counts
          (query_gt_async F decode avx512 blank store zstd open_zarr arr threshold inclusive opts)
          (some threshold)
          none
          inclusive
          true
  unfolding query_gt_async
  query_gt_exact threshold inclusive a b e p =
      let (r, done, count) = query_async_exact (some threshold) none inclusive true a b e p in
      (r, rw (e) done, count)

  -- Under the conditions of query_range_exact on the array, the zone map and the options, and with
  -- the threshold accepted by range_bounds, query_lt_async returns a result whose count is the
  -- number of decoded values below the threshold, or at most at it when `inclusive` is set.
  pub query_lt_exact :
      (threshold : F.Double) (inclusive : Bool) (a b : F.Double)
      → range_bounds F none (some threshold) false inclusive ≡ ok (a, b)
      → Pipelined a b
      → Counts
          (query_lt_async F decode avx512 blank store zstd open_zarr arr threshold inclusive opts)
          none
          (some threshold)
          false
          inclusive
  unfolding query_lt_async
  query_lt_exact threshold inclusive a b e p =
      let (r, done, count) = query_async_exact none (some threshold) false inclusive a b e p in
      (r, rw (e) done, count)

  -- Where the floats and the store are lawful, range_bounds accepts the bounds of the caller and
  -- the query is pipelined, as Pipelined says (the array is laid out, layer 0 and the pipeline are
  -- chosen, every zone map object is ready for the range and the decoded values are finite),
  -- query_range_async returns a result whose count is the number of decoded values, over the chunks
  -- of all objects, that the inclusive or exclusive bounds of the caller select.
  pub query_range_exact :
      (lo hi : F.Double) (li hi' : Bool) (a b : F.Double)
      → range_bounds F (some lo) (some hi) li hi' ≡ ok (a, b)
      → Pipelined a b
      → Counts
          (query_range_async F decode avx512 blank store zstd open_zarr arr
            (some lo)
            (some hi)
            li
            hi'
            opts)
          (some lo)
          (some hi)
          li
          hi'
  unfolding query_range_async
  query_range_exact lo hi li hi' a b e p =
      let (r, done, count) = query_async_exact (some lo) (some hi) li hi' a b e p in
      (r, rw (e) done, count)
