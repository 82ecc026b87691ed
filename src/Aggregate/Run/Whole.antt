-- ===== src/Aggregate/Run/Whole.antt =====
-- An aggregate of the whole array bounds the number of original values in the range.
use Prim.Native.String.{String}
use skip_zfp.Prelude.{ℕ, ◌≤◌, ◌≡◌, refl, Bool, List, [], ◌∷◌, length, Result, ok, pos}
use skip_zfp.Floats.{Floats, IsLawful as FloatsAreLawful}
use skip_zfp.Layout.{Array, Layout}
use skip_zfp.Query.Merge.{BlockId}
use skip_zfp.Query.Read.{Store, IsLawful}
use skip_zfp.Query.Options.{QueryOptions}
use skip_zfp.Query.Meta.{ZarrMeta, read_meta}
use skip_zfp.Query.Run.Step.{Ready}
use skip_zfp.Aggregate.Kernel.{Sums}
use skip_zfp.Aggregate.Run.{AggregateResult, aggregate_result, aggregate_in_turn}
use skip_zfp.Aggregate.Run.Planned.{HasBounds}
use skip_zfp.Aggregate.Run.Parts.{aggregated, listed, the_step, aggregate_units_ok}
use skip_zfp.Aggregate.Run.Exact.{append_nil}
use skip_zfp.Aggregate.Run.Encloses.{Originals, originals_in_range, step_encloses}

module _ (F : Floats) (law : FloatsAreLawful F) (S : Sums F) (decode : ℕ → List ℕ → List F.Single)
    (store : Store) (store_law : IsLawful store) (keys : List String) (object : ℕ → List ℕ)
    (size : ℕ) (lt : Layout) (lo hi : F.Double) where
  -- Under the conditions of aggregate_in_turn_exact, and where each original value lies between its
  -- decoded value minus and plus the error bound of its block, as computed, and between the two
  -- bounds that the zone map gives for its block, as Originals says: aggregate_in_turn returns a
  -- result in which the number of original values in the range, over all blocks of all chunks, lies
  -- between the two bounds of original_count.
  pub aggregate_in_turn_encloses :
      (zstd : List ℕ → Result (List ℕ)) (open_zarr : String → Result ZarrMeta) (arr : Array)
      (opts : QueryOptions) (return_blocks : Bool) (meta : List ℕ) (meta_bytes n_objects gap : ℕ)
      (pairs : BlockId → List (F.Single × F.Single))
      → opts.merge_gap_blocks ≡ pos gap
      → read_meta open_zarr store zstd arr lt opts.meta_by_key ≡ ok (meta, meta_bytes, n_objects)
      → (ready : Ready F decode store keys object size lt lt.unit_grid meta 0 lo hi)
      → HasBounds F S lt lt.unit_grid meta
      → (originals : Originals F law S decode object lt lt.unit_grid meta 0 lo hi pairs)
      → let n =
          originals_in_range F law S decode object lt lt.unit_grid meta 0 lo hi store keys size
            ready pairs originals in
        (r : AggregateResult F) × (aggregate_in_turn F S decode store zstd open_zarr arr lt lo hi
            opts keys return_blocks
          ≡ ok r)
        × (r.answer.original_count.0 ≤ n)
        × (n ≤ r.answer.original_count.1)
  unfolding aggregate_in_turn aggregate_result
  aggregate_in_turn_encloses zstd open_zarr arr opts rb meta meta_bytes n_objects gap pairs eg em
        ready bounds originals =
      let a =
        aggregated F law S decode store store_law keys object size lt lt.unit_grid meta 0 lo hi
          ready bounds gap in
      let step =
        the_step F law S decode store store_law keys object size lt lt.unit_grid meta 0 lo hi ready
          bounds gap in
      let e =
        aggregate_units_ok F law S decode store store_law keys object size lt lt.unit_grid meta 0 lo
          hi ready bounds gap in
      let inside =
        listed F law S decode store store_law keys object size lt lt.unit_grid meta 0 lo hi ready
          bounds in
      let enclosed =
        step_encloses F law S decode object lt lt.unit_grid meta 0 lo hi store keys size ready pairs
          originals a.groups lt.values_per_block a.whole inside.1 in
      (
        aggregate_result F S decode store lt (length keys) meta_bytes n_objects rb (step ∷ []),
        rw (em, eg, e) refl,
        rw (append_nil step.parts) enclosed.0,
        rw (append_nil step.parts) enclosed.1,
      )
