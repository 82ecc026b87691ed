-- ===== src/Aggregate/Run.antt =====
-- skipzfp/aggregate.py: AggregateResult, _aggregate_async and _aggregate_pipelined, which put the steps
-- together, and the functions that users call. Times and peak_inflight_bytes, which depend on the
-- moment, are left out. Sums that pass through float64 in the code are exact below 2^53.
pub mod Matched
pub mod Planned
pub mod Parts
pub mod Exact
pub mod Original
pub mod Encloses
pub mod Whole
use Prim.Native.String.{String}
use skip_zfp.Prelude.{
  ℕ, ◌+◌, ◌-◌, ◌*◌, ◌/◌, Bool, true, false, not, Option, none, some, List, [], ◌∷◌, map, ltb, ◌==◌,
  if◌then◌else◌, length, get_or, take, drop, sum, range, min, flat_map, Result, ok, err, ◌>>=◌,
  ◌>>◌, raise_if, sequence, value_error, type_error, ℤ, pos, negsuc,
}
use skip_zfp.Floats.{Floats}
use skip_zfp.Layout.{Array, Layout, get_layout, chunk_keys, unit_grid_per_chunk}
use skip_zfp.Query.Merge.{Ids}
use skip_zfp.Query.Read.{Store}
use skip_zfp.Query.Plan.{plan_read}
use skip_zfp.Query.Options.{QueryOptions}
use skip_zfp.Query.Meta.{
  MetaObjects, ZarrMeta, meta_objects, first_units, read_meta_object, read_meta, plan_meta,
}
use skip_zfp.Query.Bounds.{range_bounds}
use skip_zfp.Query.Result.{int_sub, grid_of, single_size, shift_ids}
use skip_zfp.Query.Run.{can_pipeline}
use skip_zfp.Query.Api.{QuerySource, StorageOptions, Opening, open_skipzfp}
use skip_zfp.Aggregate.Kernel.{Sums, Aggregate}
use skip_zfp.Aggregate.Combine.{Combined, combine}
use skip_zfp.Aggregate.Stream.{read_listed}

-- `AggregateResult`, whose first six fields are those of combine
pub record AggregateResult (F : Floats) : Type 0 where
  pub answer : Combined F
  pub in_blocks : ℕ
  pub out_blocks : ℕ
  pub maybe_blocks : ℤ
  pub total_blocks : ℕ
  pub metadata_bytes_read : ℕ
  pub payload_bytes_read : ℕ
  pub metadata_requests : ℕ
  pub payload_requests : ℕ
  pub useful_payload_bytes : ℕ
  pub payload_overread_bytes : ℤ
  pub read_blocks : Option Ids

-- what one step adds to the answer: `one(i)` of _aggregate_pipelined returns it for an object
pub record AggregateStep (F : Floats) : Type 0 where
  pub parts : List (Aggregate F × ℕ)
  pub n_in : ℕ
  pub n_out : ℕ
  pub listed : Ids
  pub n_reqs : ℕ
  pub payload_bytes : ℕ

-- the layer that an aggregate refuses
abbrev pub other_layer : Option ℤ → ℕ → Bool
other_layer none n_layers = ltb 1 n_layers
other_layer (some (pos n)) n_layers = not (n == 0)
other_layer (some (negsuc n)) n_layers = true

module _ (F : Floats) where
  -- the properties bytes_read and range_requests
  unfoldable pub aggregate_bytes_read : AggregateResult F → ℕ
  aggregate_bytes_read r = r.metadata_bytes_read + r.payload_bytes_read

  unfoldable pub aggregate_range_requests : AggregateResult F → ℕ
  aggregate_range_requests r = r.metadata_requests + r.payload_requests

-- `F`, `S` and `decode` as in Aggregate/Kernel, `zstd` and `open_zarr` as in Query/Meta.
module _ (F : Floats) (S : Sums F) (decode : ℕ → List ℕ → List F.Single) (store : Store) where
  -- steps 2 and 3: plan the records of `units`, then read and aggregate the listed blocks
  unfoldable pub aggregate_units :
      List String
      → Layout
      → (units : List ℕ) → (meta : List ℕ) → (shift : ℕ) → (gap : ℤ) → (lo hi : F.Double)
      → Result (AggregateStep F)
  unfolding plan_meta plan_read read_listed unit_grid_per_chunk
  aggregate_units keys lt units meta shift gap lo hi = do
    p ←
        plan_read F (plan_meta meta lt 0) (single_size lt)
          (grid_of units (unit_grid_per_chunk lt) lt.blocks_per_unit) lo hi
    let ids = shift_ids shift p.ids
    r ← read_listed F S decode store keys lt ids p.states p.eps lo hi gap
    ok (record {
      parts = r.0;
      n_in = p.n_in;
      n_out = p.n_out;
      listed = ids;
      n_reqs = r.1;
      payload_bytes = r.2;
    })

  -- `AggregateResult(...)`
  unfoldable pub aggregate_result :
      Layout
      → (n_keys meta_bytes meta_requests : ℕ) → (return_blocks : Bool) → List (AggregateStep F)
      → AggregateResult F
  unfolding combine
  aggregate_result lt n_keys meta_bytes meta_requests return_blocks steps =
      let listed = flat_map (λ s. s.listed) steps in
      let n_in = sum (map (λ s. s.n_in) steps) in
      let useful = length listed * get_or lt.layer_bytes 0 0 in
      let payload = sum (map (λ s. s.payload_bytes) steps) in
      record {
        answer = combine F S (flat_map (λ s. s.parts) steps) lt.values_per_block;
        in_blocks = n_in;
        out_blocks = sum (map (λ s. s.n_out) steps);
        maybe_blocks = int_sub (length listed) n_in;
        total_blocks = n_keys * lt.blocks_per_chunk;
        metadata_bytes_read = meta_bytes;
        payload_bytes_read = payload;
        metadata_requests = meta_requests;
        payload_requests = sum (map (λ s. s.n_reqs) steps);
        useful_payload_bytes = useful;
        payload_overread_bytes = int_sub payload useful;
        read_blocks = if return_blocks then some listed else none;
      }

module _ (F : Floats) (S : Sums F) (decode : ℕ → List ℕ → List F.Single) (store : Store)
    (zstd : List ℕ → Result (List ℕ)) where
  -- `one(i)` inside _aggregate_pipelined, and the stored size of the object
  unfoldable pub aggregate_object :
      List String
      → Layout
      → MetaObjects
      → (gap : ℤ) → (lo hi : F.Double) → ℕ
      → Result (AggregateStep F × ℕ)
  unfolding read_meta_object aggregate_units unit_grid_per_chunk
  aggregate_object keys lt mo gap lo hi i = do
    object ← read_meta_object store zstd mo lt i
    let u0 = i * mo.t_chunk
    let n_units = min mo.t_chunk (first_units lt - u0)
    let chunks_per_step = get_or lt.grid_shape 1 0 * get_or lt.grid_shape 2 0
    s ←
        aggregate_units F S decode store keys lt (n_units ∷ drop 1 lt.unit_grid)
          (take (n_units * mo.rows) object.0)
          (u0 / get_or (unit_grid_per_chunk lt) 0 0 * chunks_per_step) gap lo hi
    ok (s, object.1)

  unfoldable pub aggregate_pipelined :
      Layout
      → MetaObjects
      → (lo hi : F.Double) → QueryOptions
      → List String
      → (return_blocks : Bool) → Result (AggregateResult F)
  unfolding aggregate_object aggregate_result
  aggregate_pipelined lt mo lo hi opts keys return_blocks = do
    outs ← sequence (map (aggregate_object keys lt mo opts.merge_gap_blocks lo hi) (range mo.count))
    ok (
        aggregate_result F S decode store lt (length keys) (sum (map (λ o. o.1) outs)) mo.count
          return_blocks (map (λ o. o.0) outs))

module _ (F : Floats) (S : Sums F) (decode : ℕ → List ℕ → List F.Single) (store : Store)
    (zstd : List ℕ → Result (List ℕ)) (open_zarr : String → Result ZarrMeta) where
  -- the steps in turn
  unfoldable pub aggregate_in_turn :
      Array
      → Layout
      → (lo hi : F.Double) → QueryOptions
      → List String
      → (return_blocks : Bool) → Result (AggregateResult F)
  unfolding read_meta aggregate_units aggregate_result
  aggregate_in_turn arr lt lo hi opts keys return_blocks = do
    m ← read_meta open_zarr store zstd arr lt opts.meta_by_key
    s ← aggregate_units F S decode store keys lt lt.unit_grid m.0 0 opts.merge_gap_blocks lo hi
    ok (aggregate_result F S decode store lt (length keys) m.1 m.2 return_blocks (s ∷ []))

  -- _aggregate_async; the type of the array rules out its TypeError
  unfoldable pub aggregate_async :
      Array
      → (lo hi : F.Double) → QueryOptions
      → (return_blocks : Bool) → Result (AggregateResult F)
  unfolding get_layout chunk_keys meta_objects unit_grid_per_chunk aggregate_pipelined
      aggregate_in_turn
  aggregate_async arr lo hi opts return_blocks = do
    lt ← get_layout arr
    raise_if (other_layer opts.layer (length lt.layers))
        (value_error "aggregates read layer 0 only; pass layer=0 for a layered array")
    let keys = chunk_keys arr lt
    mo ← meta_objects arr lt
    elim mo [
      | none ↦ aggregate_in_turn arr lt lo hi opts keys return_blocks
      | some objects ↦
          if can_pipeline lt opts 0 (some objects)
          then aggregate_pipelined F S decode store zstd lt objects lo hi opts keys return_blocks
          else aggregate_in_turn arr lt lo hi opts keys return_blocks
    ]

-- The other parameters as in Query/Api.
module _ (open_array : String → String → StorageOptions → Opening) (F : Floats) (S : Sums F)
    (decode : ℕ → List ℕ → List F.Single) (store_of : Array → Store)
    (zstd : List ℕ → Result (List ℕ)) (open_zarr : Array → String → Result ZarrMeta) where
  -- `_run` of aggregate.py, on the bounds that range_bounds gave
  unfoldable pub run_aggregate :
      QuerySource
      → (b : F.Double × F.Double) → String
      → Option StorageOptions
      → QueryOptions
      → (return_blocks : Bool) → Result (AggregateResult F)
  unfolding open_skipzfp aggregate_async
  run_aggregate source b array_path storage_options opts return_blocks = do
    arr ← open_skipzfp open_array source array_path storage_options
    aggregate_async F S decode (store_of arr) zstd (open_zarr arr) arr b.0 b.1 opts return_blocks

  unfoldable pub aggregate_gt :
      QuerySource
      → F.Double
      → (inclusive : Bool) → String
      → Option StorageOptions
      → QueryOptions
      → (return_blocks : Bool) → Result (AggregateResult F)
  unfolding range_bounds run_aggregate
  aggregate_gt source threshold inclusive array_path storage_options opts return_blocks = do
    b ← range_bounds F (some threshold) none inclusive true
    run_aggregate source b array_path storage_options opts return_blocks

  unfoldable pub aggregate_lt :
      QuerySource
      → F.Double
      → (inclusive : Bool) → String
      → Option StorageOptions
      → QueryOptions
      → (return_blocks : Bool) → Result (AggregateResult F)
  unfolding range_bounds run_aggregate
  aggregate_lt source threshold inclusive array_path storage_options opts return_blocks = do
    b ← range_bounds F none (some threshold) false inclusive
    run_aggregate source b array_path storage_options opts return_blocks

  unfoldable pub aggregate_range :
      QuerySource
      → (lo hi : Option F.Double) → (lo_inclusive hi_inclusive : Bool) → String
      → Option StorageOptions
      → QueryOptions
      → (return_blocks : Bool) → Result (AggregateResult F)
  unfolding range_bounds run_aggregate
  aggregate_range source (some lo) (some hi) li hi' array_path storage_options opts return_blocks =
      do
        b ← range_bounds F (some lo) (some hi) li hi'
        run_aggregate source b array_path storage_options opts return_blocks
  aggregate_range source _ _ li hi' array_path storage_options opts return_blocks =
      err (type_error "aggregate_range needs both bounds; use aggregate_gt or aggregate_lt")
