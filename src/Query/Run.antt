-- ===== src/Query/Run.antt =====
-- skipzfp/query.py: _query_async and _query_pipelined, which put the steps together, and the
-- functions that users call. Times, traces and peak_inflight_bytes, which depend on the moment, are
-- left out. Sums that pass through float64 in the code are exact below 2^53.
pub mod Shift
pub mod Step
pub mod Exact
pub mod Whole
pub mod Bounds
pub mod Records
use Prim.Native.String.{String}
use skip_zfp.Prelude.{
  ℕ, ◌+◌, ◌-◌, ◌*◌, ◌/◌, ◌%◌, ◌^◌, Bool, true, false, not, ◌&&◌, Option, none, some, List, [], ◌∷◌,
  map, ◌==◌, leb, ltb, if◌then◌else◌, length, get_or, take, drop, sum, range, min, Result, ok, err,
  ◌>>=◌, ◌>>◌, raise_if, sequence, value_error, type_error, runtime_error, ℤ, pos, negsuc, pos_part,
  is_empty,
}
use skip_zfp.Floats.{Floats}
use skip_zfp.Layout.{Array, Layout, get_layout, chunk_keys, unit_grid_per_chunk}
use skip_zfp.Query.Merge.{BlockId, Ids, MergedRange, merge_ranges}
use skip_zfp.Query.Read.{Store}
use skip_zfp.Query.Plan.{Grid, plan_chunks}
use skip_zfp.Query.Stream.{stream_count}
use skip_zfp.Query.Options.{QueryOptions, batch_size, pick_layer}
use skip_zfp.Query.Meta.{
  MetaObjects, ZarrMeta, meta_objects, first_units, read_meta_object, read_meta, plan_meta,
}
use skip_zfp.Query.Layers.{per_layer, count_layers}
use skip_zfp.Query.Bounds.{range_bounds}
use skip_zfp.Query.Result.{
  int_sub, QueryResult, bytes_read, range_requests, grid_of, single_size, Tally, total_of,
  result_of, shift_ids,
}

-- the objects cover whole chunks, so each can be planned alone
abbrev pub can_pipeline : Layout → QueryOptions → ℕ → Option MetaObjects → Bool
can_pipeline lt opts layer none = false
can_pipeline lt opts layer (some mo) =
    opts.pipeline
    && opts.meta_by_key
    && layer == 0
    && mo.t_chunk % get_or (unit_grid_per_chunk lt) 0 0 == 0

abbrev pub is_limited : Option ℤ → Bool
is_limited none = false
is_limited (some n) = true

-- `F`, `decode` and `avx512` as in Query/Count, `blank` as in Query/Layers, `zstd` and `open_zarr` as
-- in Query/Meta.
module _ (F : Floats) (decode : ℕ → List ℕ → List F.Single) (avx512 : Bool) (store : Store) where
  -- steps 2 to 4 for layer 0: plan the records of `units`, merge the blocks and count them
  unfoldable pub count_layer0 :
      List String
      → Layout
      → (units : List ℕ) → (meta : List ℕ) → (shift : ℕ) → (gap : ℤ) → (lo hi : F.Double)
      → Result Tally
  unfolding plan_meta plan_chunks merge_ranges stream_count unit_grid_per_chunk
  count_layer0 keys lt units meta shift gap lo hi = do
    let bs = get_or lt.layer_bytes 0 0
    p ←
        plan_chunks F (plan_meta meta lt 0) (single_size lt)
          (grid_of units (unit_grid_per_chunk lt) lt.blocks_per_unit) lo hi
    m ← merge_ranges keys (shift_ids shift p.0) bs gap 0
    s ← stream_count F decode avx512 store m.0 m.1 bs (get_or lt.layers 0 0) lt.block_dim lo hi
    ok (record {
      n_in = p.1;
      n_out = p.2;
      n_maybe = length m.1;
      n_maybe_val = s.0;
      payload_bytes = s.1;
      n_reqs = length m.0;
    })

module _ (F : Floats) (decode : ℕ → List ℕ → List F.Single) (avx512 : Bool) (store : Store)
    (blank : ℕ) where
  -- steps 2 to 4 for a layer above 0
  unfoldable pub count_above0 :
      List String
      → Layout
      → (layer : ℕ) → (meta : List ℕ) → QueryOptions
      → (lo hi : F.Double) → Result Tally
  unfolding plan_meta plan_chunks per_layer count_layers unit_grid_per_chunk batch_size
  count_above0 keys lt layer meta opts lo hi = do
    p ←
        plan_chunks F (plan_meta meta lt layer) (single_size lt)
          (grid_of lt.unit_grid (unit_grid_per_chunk lt) lt.blocks_per_unit) lo hi
    layers ← per_layer keys p.0 lt opts.merge_gap_blocks layer
    c ←
        count_layers F decode avx512 store blank keys p.0 lt layer layers
          (pos_part opts.max_chunk_requests) opts.request_concurrency (pos (batch_size opts)) lo hi
    ok (record {
      n_in = p.1;
      n_out = p.2;
      n_maybe = length (get_or (map (λ q. q.1) layers) 0 []);
      n_maybe_val = c.0;
      payload_bytes = c.1;
      n_reqs = c.2;
    })

module _ (F : Floats) (decode : ℕ → List ℕ → List F.Single) (avx512 : Bool) (store : Store)
    (zstd : List ℕ → Result (List ℕ)) where
  -- `one(i)` inside _query_pipelined, and the stored size of the object
  unfoldable pub count_object :
      List String → Layout → MetaObjects → (gap : ℤ) → (lo hi : F.Double) → ℕ → Result (Tally × ℕ)
  unfolding read_meta_object count_layer0 unit_grid_per_chunk
  count_object keys lt mo gap lo hi i = do
    object ← read_meta_object store zstd mo lt i
    let u0 = i * mo.t_chunk
    let n_units = min mo.t_chunk (first_units lt - u0)
    let chunks_per_step = get_or lt.grid_shape 1 0 * get_or lt.grid_shape 2 0
    t ←
        count_layer0 F decode avx512 store keys lt (n_units ∷ drop 1 lt.unit_grid)
          (take (n_units * mo.rows) object.0)
          (u0 / get_or (unit_grid_per_chunk lt) 0 0 * chunks_per_step) gap lo hi
    ok (t, object.1)

  unfoldable pub query_pipelined :
      Layout → MetaObjects → (lo hi : F.Double) → QueryOptions → List String → Result QueryResult
  unfolding count_object total_of result_of
  query_pipelined lt mo lo hi opts keys = do
    parts ← sequence (map (count_object keys lt mo opts.merge_gap_blocks lo hi) (range mo.count))
    let t = total_of (map (λ p. p.0) parts)
    ok (
        result_of lt (length keys) (t.n_maybe * get_or lt.layer_bytes 0 0)
          (sum (map (λ p. p.1) parts)) mo.count t)

module _ (F : Floats) (decode : ℕ → List ℕ → List F.Single) (avx512 : Bool) (blank : ℕ)
    (store : Store) (zstd : List ℕ → Result (List ℕ)) (open_zarr : String → Result ZarrMeta) where
  -- the steps in turn
  unfoldable pub query_in_turn :
      Array
      → Layout
      → (layer : ℕ) → (lo hi : F.Double) → QueryOptions
      → List String
      → Result QueryResult
  unfolding read_meta count_layer0 count_above0 result_of
  query_in_turn arr lt layer lo hi opts keys = do
    m ← read_meta open_zarr store zstd arr lt opts.meta_by_key
    t ←
        (if layer == 0
          then count_layer0 F decode avx512 store keys lt lt.unit_grid m.0 0 opts.merge_gap_blocks
              lo hi
          else count_above0 F decode avx512 store blank keys lt layer m.0 opts lo hi)
    ok (result_of lt (length keys) (t.n_maybe * (get_or lt.layers layer 0 / 8)) m.1 m.2 t)

  -- _query_async; the type of the array rules out its TypeError
  unfoldable pub query_async : Array → (lo hi : F.Double) → QueryOptions → Result QueryResult
  unfolding get_layout pick_layer chunk_keys meta_objects unit_grid_per_chunk query_pipelined
      query_in_turn
  query_async arr lo hi opts = do
    lt ← get_layout arr
    layer ← pick_layer opts.layer (length lt.layers)
    let keys = chunk_keys arr lt
    raise_if (ltb 0 layer && is_limited opts.max_inflight_bytes)
        (value_error "max_inflight_bytes needs layer 0")
    mo ← meta_objects arr lt
    elim mo [
      | none ↦ query_in_turn arr lt layer lo hi opts keys
      | some objects ↦
          if can_pipeline lt opts layer (some objects)
          then query_pipelined F decode avx512 store zstd lt objects lo hi opts keys
          else query_in_turn arr lt layer lo hi opts keys
    ]

  -- query_gt_async, query_lt_async and query_range_async
  unfoldable pub query_gt_async :
      Array → F.Double → (inclusive : Bool) → QueryOptions → Result QueryResult
  unfolding range_bounds query_async
  query_gt_async arr threshold inclusive opts = do
    b ← range_bounds F (some threshold) none inclusive true
    query_async arr b.0 b.1 opts

  unfoldable pub query_lt_async :
      Array → F.Double → (inclusive : Bool) → QueryOptions → Result QueryResult
  unfolding range_bounds query_async
  query_lt_async arr threshold inclusive opts = do
    b ← range_bounds F none (some threshold) false inclusive
    query_async arr b.0 b.1 opts

  unfoldable pub query_range_async :
      Array
      → (lo hi : Option F.Double) → (lo_inclusive hi_inclusive : Bool) → QueryOptions
      → Result QueryResult
  unfolding range_bounds query_async
  query_range_async arr none hi li hi' opts =
      err (type_error "query_range needs both bounds; use query_gt or query_lt for one side")
  query_range_async arr (some lo) none li hi' opts =
      err (type_error "query_range needs both bounds; use query_gt or query_lt for one side")
  query_range_async arr (some lo) (some hi) li hi' opts = do
    b ← range_bounds F (some lo) (some hi) li hi'
    query_async arr b.0 b.1 opts
