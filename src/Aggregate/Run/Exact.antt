-- ===== src/Aggregate/Run/Exact.antt =====
-- The count of an aggregate goes through the zone map, the merged reads and the decoder, and is the
-- number of the decoded values in the range.
use Prim.Native.String.{String}
use skip_zfp.Prelude.{
  ℕ, ◌+◌, ◌-◌, ◌*◌, ◌<◌, ◌≡◌, refl, ap, ap₂, ◌∙◌, Bool, List, [], ◌∷◌, ◌++◌, map, take, min, length,
  length-map, sum, flat_map, All, All-range, Result, ok, pos, sequence, sequence-cons, range, arith,
}
use skip_zfp.Floats.{Floats, IsLawful as FloatsAreLawful}
use skip_zfp.Layout.{Array, Layout}
use skip_zfp.Query.Read.{Store, IsLawful}
use skip_zfp.Query.Plan.{n_chunk, blocks_per_chunk}
use skip_zfp.Query.Plan.Kept.{plan_kept_counts}
use skip_zfp.Query.Options.{QueryOptions}
use skip_zfp.Query.Meta.{ZarrMeta, MetaObjects, first_units, plan_meta, read_meta}
use skip_zfp.Query.Result.{single_size}
use skip_zfp.Query.Run.Shift.{shift_id}
use skip_zfp.Query.Run.Step.{values_in_range, step_grid, Ready}
use skip_zfp.Query.Run.Whole.{ObjectReady, object_units, first_chunk, object_values}
use skip_zfp.Aggregate.Kernel.{Sums, Aggregate}
use skip_zfp.Aggregate.Combine.{combine}
use skip_zfp.Aggregate.Run.{
  AggregateResult, AggregateStep, aggregate_units, aggregate_result, aggregate_in_turn,
  aggregate_object, aggregate_pipelined,
}
use skip_zfp.Aggregate.Run.Planned.{HasBounds, the_plan}
use skip_zfp.Aggregate.Run.Parts.{aggregated, count_parts, shifted, the_step, aggregate_units_ok}

pub append_nil : {A : Type 0} (xs : List A) → xs ++ [] ≡ xs
append_nil [] = refl
append_nil (x ∷ xs) = ap (λ t. x ∷ t) (append_nil xs)

counts_append :
    {F : Floats} (xs ys : List (Aggregate F × ℕ))
    → sum (map (λ p. p.0.rec_count) (xs ++ ys))
      ≡ sum (map (λ p. p.0.rec_count) xs) + sum (map (λ p. p.0.rec_count) ys)
unfolding sum
counts_append [] ys = omega arith
counts_append (x ∷ xs) ys = omega (arith, counts_append xs ys)

module _ (F : Floats) (law : FloatsAreLawful F) (S : Sums F) (decode : ℕ → List ℕ → List F.Single)
    (store : Store) (store_law : IsLawful store) (keys : List String) (object : ℕ → List ℕ)
    (size : ℕ) (lt : Layout) (lo hi : F.Double) where
  module _ (units meta : List ℕ) (k : ℕ)
      (ready : Ready F decode store keys object size lt units meta k lo hi)
      (bounds : HasBounds F S lt units meta) where
    -- A step that is ready returns, and the parts of its reads count the decoded values in the range.
    -- Every block is OUT or listed.
    aggregate_units_exact :
        (gap : ℕ)
        → (s : AggregateStep F) × (aggregate_units F S decode store keys lt units meta k
              (pos gap)
              lo
              hi
            ≡ ok s)
          × (sum (map (λ p. p.0.rec_count) s.parts)
              ≡ values_in_range F decode object lt (step_grid lt units) k lo hi)
          × (s.n_out + length s.listed
              ≡ n_chunk (step_grid lt units) * blocks_per_chunk (step_grid lt units))
    aggregate_units_exact gap =
        let a =
          aggregated F law S decode store store_law keys object size lt units meta k lo hi ready
            bounds gap in
        let p = the_plan F lt units meta k lo hi in
        (
          the_step F law S decode store store_law keys object size lt units meta k lo hi ready
              bounds gap,
          aggregate_units_ok F law S decode store store_law keys object size lt units meta k lo hi
              ready bounds gap,
          count_parts F law S decode store store_law keys object size lt units meta k lo hi ready
              bounds a.groups a.whole,
          ap (λ (t : ℕ). p.n_out + t)
                (ap length (
                    shifted F law S decode store store_law keys object size lt units meta k lo hi
                      ready bounds)
                  ∙ length-map (shift_id k) p.ids)
              ∙ plan_kept_counts F (step_grid lt units) (plan_meta meta lt 0) (single_size lt) lo
                  hi,
        )

  -- Where the floats and the store are lawful, the gap is a natural number, read_meta returns the
  -- zone map, the step of the whole array is ready, as Ready says, and the error bounds of its
  -- blocks are finite and at least 0, aggregate_in_turn returns a result whose count is the number
  -- of decoded values in the range over all chunks.
  pub aggregate_in_turn_exact :
      (zstd : List ℕ → Result (List ℕ)) (open_zarr : String → Result ZarrMeta) (arr : Array)
      (opts : QueryOptions) (return_blocks : Bool) (meta : List ℕ) (meta_bytes n_objects gap : ℕ)
      → opts.merge_gap_blocks ≡ pos gap
      → read_meta open_zarr store zstd arr lt opts.meta_by_key ≡ ok (meta, meta_bytes, n_objects)
      → Ready F decode store keys object size lt lt.unit_grid meta 0 lo hi
      → HasBounds F S lt lt.unit_grid meta
      → (r : AggregateResult F) × (aggregate_in_turn F S decode store zstd open_zarr arr lt lo hi
            opts keys return_blocks
          ≡ ok r)
        × (r.answer.count ≡ values_in_range F decode object lt (step_grid lt lt.unit_grid) 0 lo hi)
  unfolding aggregate_in_turn aggregate_result combine
  aggregate_in_turn_exact zstd open_zarr arr opts rb meta meta_bytes n_objects gap eg em ready
        bounds =
      let (s, e, count, blocks) = aggregate_units_exact lt.unit_grid meta 0 ready bounds gap in
      (
        aggregate_result F S decode store lt (length keys) meta_bytes n_objects rb (s ∷ []),
        rw (em, eg, e) refl,
        rw (append_nil s.parts) count,
      )

  -- the parts of the objects `is`
  record Steps (zstd : List ℕ → Result (List ℕ)) (mo : MetaObjects) (gap : ℕ) (is : List ℕ)
      : Type 0 where
    pub steps : List (AggregateStep F × ℕ)
    pub done :
        sequence (map (aggregate_object F S decode store zstd keys lt mo (pos gap) lo hi) is)
        ≡ ok steps
    pub count :
        sum (map (λ p. p.0.rec_count) (flat_map (λ s. s.parts) (map (λ o. o.0) steps)))
        ≡ sum (map (object_values F decode object lt lo hi mo) is)

  -- object `i` of the zone map is read, its step is ready and its error bounds are accepted
  abbrev pub ObjectSound : (List ℕ → Result (List ℕ)) → MetaObjects → ℕ → Type 0
  ObjectSound zstd mo i =
      (r : ObjectReady F decode object lt lo hi store zstd keys size mo i) × HasBounds F S lt
        (object_units lt mo i)
        (take (min mo.t_chunk (first_units lt - i * mo.t_chunk) * mo.rows) r.bytes)

  one_object :
      (zstd : List ℕ → Result (List ℕ)) (mo : MetaObjects) (gap i : ℕ)
      → ObjectSound zstd mo i
      → (s : AggregateStep F) × (n : ℕ) × (aggregate_object F S decode store zstd keys lt mo
            (pos gap)
            lo
            hi
            i
          ≡ ok (s, n))
        × (sum (map (λ p. p.0.rec_count) s.parts) ≡ object_values F decode object lt lo hi mo i)
  unfolding aggregate_object
  one_object zstd mo gap i (r, bounds) =
      let (s, e, count, blocks) =
        aggregate_units_exact (object_units lt mo i) _ (first_chunk lt mo i) r.ready bounds gap in
      (s, r.stored_size, rw (r.found, e) refl, count)

  gather_objects :
      (zstd : List ℕ → Result (List ℕ)) (mo : MetaObjects) (gap : ℕ) (is : List ℕ)
      → All (ObjectSound zstd mo) is
      → Steps zstd mo gap is
  unfolding sum
  gather_objects zstd mo gap [] h = record { steps = []; done = refl; count = refl }
  gather_objects zstd mo gap (i ∷ is) (h, hs) =
      let (s, n, e, count) = one_object zstd mo gap i h in
      let rest = gather_objects zstd mo gap is hs in
      record {
        steps = (s, n) ∷ rest.steps;
        done =
            sequence-cons _
              (map (aggregate_object F S decode store zstd keys lt mo (pos gap) lo hi) is) (s, n)
              rest.steps e rest.done;
        count =
            counts_append s.parts (flat_map (λ s. s.parts) (map (λ o. o.0) rest.steps))
            ∙ ap₂ ◌+◌ count rest.count;
      }

  -- Where the floats and the store are lawful, the gap is a natural number and every zone map
  -- object is read, its step is ready and the error bounds of its blocks are finite and at least 0,
  -- as ObjectSound says, aggregate_pipelined returns a result whose count is the number of decoded
  -- values in the range over the chunks of all objects.
  pub aggregate_pipelined_exact :
      (zstd : List ℕ → Result (List ℕ)) (mo : MetaObjects) (opts : QueryOptions)
      (return_blocks : Bool) (gap : ℕ)
      → opts.merge_gap_blocks ≡ pos gap
      → ((i : ℕ) → i < mo.count → ObjectSound zstd mo i)
      → (r : AggregateResult F) × (aggregate_pipelined F S decode store zstd lt mo lo hi opts keys
            return_blocks
          ≡ ok r)
        × (r.answer.count ≡ sum (map (object_values F decode object lt lo hi mo) (range mo.count)))
  unfolding aggregate_pipelined aggregate_result combine
  aggregate_pipelined_exact zstd mo opts rb gap eg h =
      let p =
        gather_objects zstd mo gap (range mo.count) (All-range (ObjectSound zstd mo) mo.count h) in
      (
        aggregate_result F S decode store lt (length keys) (sum (map (λ o. o.1) p.steps)) mo.count
            rb (map (λ o. o.0) p.steps),
        rw (eg, p.done) refl,
        p.count,
      )
