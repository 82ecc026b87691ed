-- ===== src/Query/Run/Whole.antt =====
-- Whole queries of layer 0: the steps in turn, and one zone map object at a time.
use Prim.Native.String.{String}
use skip_zfp.Prelude.{
  ℕ, ◌+◌, ◌-◌, ◌*◌, ◌/◌, ◌<◌, ◌≡◌, refl, Bool, List, [], ◌∷◌, map, All, All-range, arith, ok, pos,
  sum, length, take, drop, get_or, min, Result, sequence, sequence-cons, range,
}
use skip_zfp.Floats.{Floats, IsLawful as FloatsAreLawful}
use skip_zfp.Layout.{Array, Layout, unit_grid_per_chunk}
use skip_zfp.Query.Read.{Store, IsLawful}
use skip_zfp.Query.Plan.{n_chunk, blocks_per_chunk}
use skip_zfp.Query.Options.{QueryOptions}
use skip_zfp.Query.Meta.{ZarrMeta, MetaObjects, first_units, read_meta_object, read_meta}
use skip_zfp.Query.Result.{Tally, QueryResult, total_of, result_of}
use skip_zfp.Query.Run.{count_object, query_pipelined, query_in_turn}
use skip_zfp.Query.Run.Step.{Ready, step_grid, values_in_range}
use skip_zfp.Query.Run.Exact.{count_layer0_exact}

-- the units along the first axis of object `i`, and the first chunk that it stands for
abbrev pub object_units : Layout → MetaObjects → ℕ → List ℕ
object_units lt mo i = min mo.t_chunk (first_units lt - i * mo.t_chunk) ∷ drop 1 lt.unit_grid

abbrev pub first_chunk : Layout → MetaObjects → ℕ → ℕ
first_chunk lt mo i =
    i
    * mo.t_chunk
    / get_or (unit_grid_per_chunk lt) 0 0
    * (get_or lt.grid_shape 1 0 * get_or lt.grid_shape 2 0)

-- the number of blocks of the chunks that object `i` stands for
abbrev pub object_blocks : Layout → MetaObjects → ℕ → ℕ
object_blocks lt mo i =
    let g = step_grid lt (object_units lt mo i) in n_chunk g * blocks_per_chunk g

module _ (F : Floats) (decode : ℕ → List ℕ → List F.Single) (object : ℕ → List ℕ) (lt : Layout)
    (lo hi : F.Double) where
  -- how many of their values lie in the range
  abbrev pub object_values : MetaObjects → ℕ → ℕ
  object_values mo i =
      values_in_range F decode object lt (step_grid lt (object_units lt mo i)) (first_chunk lt mo i)
        lo hi

  -- Object `i` of the zone map is read and its step is ready.
  pub record ObjectReady (store : Store) (zstd : List ℕ → Result (List ℕ)) (keys : List String)
      (size : ℕ) (mo : MetaObjects) (i : ℕ) : Type 0 where
    pub bytes : List ℕ
    pub stored_size : ℕ
    pub found : read_meta_object store zstd mo lt i ≡ ok (bytes, stored_size)
    pub ready :
        Ready F decode store keys object size lt
          (object_units lt mo i)
          (take (min mo.t_chunk (first_units lt - i * mo.t_chunk) * mo.rows) bytes)
          (first_chunk lt mo i)
          lo
          hi

module _ (F : Floats) (law : FloatsAreLawful F) (decode : ℕ → List ℕ → List F.Single)
    (avx512 : Bool) (store : Store) (store_law : IsLawful store) (zstd : List ℕ → Result (List ℕ))
    (keys : List String) (object : ℕ → List ℕ) (size : ℕ) (lt : Layout) (lo hi : F.Double) where
  -- Where the floats and the store are lawful, the gap is a natural number, read_meta returns the
  -- zone map and the step of the whole array is ready, as Ready says, query_in_turn for layer 0
  -- returns a result. Its count is the number of decoded values in the range over all chunks, and
  -- its IN, OUT and MAYBE blocks together are all blocks.
  pub query_in_turn_exact :
      (blank : ℕ) (open_zarr : String → Result ZarrMeta) (arr : Array) (opts : QueryOptions)
      (meta : List ℕ) (meta_bytes n_objects gap : ℕ)
      → opts.merge_gap_blocks ≡ pos gap
      → read_meta open_zarr store zstd arr lt opts.meta_by_key ≡ ok (meta, meta_bytes, n_objects)
      → Ready F decode store keys object size lt lt.unit_grid meta 0 lo hi
      → let g = step_grid lt lt.unit_grid in
        (r : QueryResult) × (query_in_turn F decode avx512 blank store zstd open_zarr arr lt 0 lo hi
            opts keys
          ≡ ok r)
        × (r.count ≡ values_in_range F decode object lt g 0 lo hi)
        × (r.in_blocks + r.out_blocks + r.maybe_blocks ≡ n_chunk g * blocks_per_chunk g)
  unfolding query_in_turn result_of
  query_in_turn_exact blank open_zarr arr opts meta meta_bytes n_objects gap eg em ready =
      let (t, e, count, blocks) =
        count_layer0_exact F law decode avx512 store store_law keys object size lt lt.unit_grid meta
          0 lo hi ready gap in
      (
        result_of lt (length keys) (t.n_maybe * (get_or lt.layers 0 0 / 8)) meta_bytes n_objects t,
        rw (em, eg, e) refl,
        count,
        blocks,
      )

  -- the parts of the objects `is`
  record Parts (mo : MetaObjects) (gap : ℕ) (is : List ℕ) : Type 0 where
    pub parts : List (Tally × ℕ)
    pub done :
        sequence (map (count_object F decode avx512 store zstd keys lt mo (pos gap) lo hi) is)
        ≡ ok parts
    pub count :
        sum (map (λ t. t.n_in) (map (λ p. p.0) parts)) * lt.values_per_block
          + sum (map (λ t. t.n_maybe_val) (map (λ p. p.0) parts))
        ≡ sum (map (object_values F decode object lt lo hi mo) is)
    pub blocks :
        sum (map (λ t. t.n_in) (map (λ p. p.0) parts))
          + sum (map (λ t. t.n_out) (map (λ p. p.0) parts))
          + sum (map (λ t. t.n_maybe) (map (λ p. p.0) parts))
        ≡ sum (map (object_blocks lt mo) is)

  one_object :
      (mo : MetaObjects) (gap i : ℕ)
      → ObjectReady F decode object lt lo hi store zstd keys size mo i
      → (t : Tally) × (n : ℕ) × (count_object F decode avx512 store zstd keys lt mo
            (pos gap)
            lo
            hi
            i
          ≡ ok (t, n))
        × (t.n_in * lt.values_per_block + t.n_maybe_val
            ≡ object_values F decode object lt lo hi mo i)
        × (t.n_in + t.n_out + t.n_maybe ≡ object_blocks lt mo i)
  unfolding count_object
  one_object mo gap i r =
      let (t, e, count, blocks) =
        count_layer0_exact F law decode avx512 store store_law keys object size lt
          (object_units lt mo i) _ (first_chunk lt mo i) lo hi r.ready gap in
      (t, r.stored_size, rw (r.found, e) refl, count, blocks)

  gather_objects :
      (mo : MetaObjects) (gap : ℕ) (is : List ℕ)
      → All (ObjectReady F decode object lt lo hi store zstd keys size mo) is
      → Parts mo gap is
  unfolding sum
  gather_objects mo gap [] h = record {
    parts = [];
    done = refl;
    count = omega arith;
    blocks = omega arith;
  }
  gather_objects mo gap (i ∷ is) (h, hs) =
      let (t, n, e, count, blocks) = one_object mo gap i h in
      let rest = gather_objects mo gap is hs in
      record {
        parts = (t, n) ∷ rest.parts;
        done =
            sequence-cons _
              (map (count_object F decode avx512 store zstd keys lt mo (pos gap) lo hi) is) (t, n)
              rest.parts e rest.done;
        count = omega (arith, count, rest.count);
        blocks = omega (arith, blocks, rest.blocks);
      }

  -- Where the floats and the store are lawful, the gap is a natural number and every zone map
  -- object is read and its step is ready, as ObjectReady says (the planner accepts the grid, the
  -- chunks are stored, and the records bound the decoded values of every block), query_pipelined
  -- returns a result. Its count is the number of decoded values in the range over the chunks of all
  -- objects, and its IN, OUT and MAYBE blocks together are the blocks of these chunks.
  pub query_pipelined_exact :
      (mo : MetaObjects) (opts : QueryOptions) (gap : ℕ)
      → opts.merge_gap_blocks ≡ pos gap
      → ((i : ℕ) → i < mo.count → ObjectReady F decode object lt lo hi store zstd keys size mo i)
      → (r : QueryResult) × (query_pipelined F decode avx512 store zstd lt mo lo hi opts keys
          ≡ ok r)
        × (r.count ≡ sum (map (object_values F decode object lt lo hi mo) (range mo.count)))
        × (r.in_blocks + r.out_blocks + r.maybe_blocks
            ≡ sum (map (object_blocks lt mo) (range mo.count)))
  unfolding query_pipelined result_of total_of
  query_pipelined_exact mo opts gap eg h =
      let p =
        gather_objects mo gap (range mo.count)
          (All-range (ObjectReady F decode object lt lo hi store zstd keys size mo) mo.count h) in
      let t = total_of (map (λ q. q.0) p.parts) in
      (
        result_of lt (length keys) (t.n_maybe * get_or lt.layer_bytes 0 0)
            (sum (map (λ q. q.1) p.parts)) mo.count t,
        rw (eg, p.done) refl,
        p.count,
        p.blocks,
      )
