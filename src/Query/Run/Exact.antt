-- ===== src/Query/Run/Exact.antt =====
-- A count that goes through the zone map, the merged reads and the decoder is the count of the
-- values themselves.
use Prim.Native.String.{String}
use skip_zfp.Prelude.{
  ℕ, ◌+◌, ◌*◌, ◌≡◌, refl, sym, ap, ◌∙◌, Bool, false, List, map, ok, pos, sum, length, Result,
  length-map,
}
use skip_zfp.Floats.{Floats, IsLawful as FloatsAreLawful}
use skip_zfp.Layout.{Layout}
use skip_zfp.Query.Merge.{BlockId, MergedRange, merge_ranges, block_of}
use skip_zfp.Query.Read.{Store, IsLawful}
use skip_zfp.Query.Plan.{Plan, n_chunk, blocks_per_chunk, plan_of, plan_blocks, plan_chunks}
use skip_zfp.Query.Plan.Worth.{plan_counts, plan_worth, plan_listed}
use skip_zfp.Query.Stream.{stream_count}
use skip_zfp.Query.Stream.Reads.{read_bytes}
use skip_zfp.Query.Stream.Total.{merged_scan}
use skip_zfp.Query.Meta.{plan_meta}
use skip_zfp.Query.Result.{single_size, shift_ids, Tally}
use skip_zfp.Query.Run.{count_layer0}
use skip_zfp.Query.Run.Shift.{
  shift_id, shift_ids_lem, shift-is_ascending, shift-Fits, shift-IsStoredBlock,
}
use skip_zfp.Query.Run.Step.{
  values_in_range, array_sum_ext, map-shift, few_blocks, step_grid, step_size, step_rate, Ready,
  judged, counted, truth, counted-truth,
}

module _ (F : Floats) (law : FloatsAreLawful F) (decode : ℕ → List ℕ → List F.Single)
    (avx512 : Bool) (store : Store) (store_law : IsLawful store) (keys : List String)
    (object : ℕ → List ℕ) (size : ℕ) (lt : Layout) (units meta : List ℕ) (k : ℕ) (lo hi : F.Double)
    (ready : Ready F decode store keys object size lt units meta k lo hi) where
  abbrev counted_here : BlockId → ℕ
  counted_here = counted F law decode avx512 store keys object size lt units meta k lo hi ready

  abbrev the_plan : Plan F.Single
  the_plan = plan_of F (step_grid lt units) (plan_meta meta lt 0) (single_size lt) lo hi false

  planned :
      plan_chunks F (plan_meta meta lt 0) (single_size lt) (step_grid lt units) lo hi
      ≡ ok (the_plan.ids, the_plan.n_in, the_plan.n_out)
  unfolding plan_chunks plan_blocks
  planned = rw (ready.accepted) refl

  -- the reads of the step, and what they count
  record Scanned (gap : ℕ) : Type 0 where
    pub reads : List MergedRange
    pub merged :
        merge_ranges keys (shift_ids k the_plan.ids) (step_size lt) (pos gap) 0
        ≡ ok (reads, map block_of (map (shift_id k) the_plan.ids))
    pub streamed :
        stream_count F decode avx512 store reads
          (map block_of (map (shift_id k) the_plan.ids))
          (step_size lt)
          (step_rate lt)
          lt.block_dim
          lo
          hi
        ≡ ok (sum (map counted_here the_plan.ids), read_bytes reads)

  scanned : (gap : ℕ) → Scanned gap
  scanned gap =
      let few = few_blocks (step_grid lt units) _ _ ready.accepted in
      let (asc, inside) =
        plan_listed F (step_grid lt units) (plan_meta meta lt 0) (single_size lt) lo hi false few in
      let ids = map (shift_id k) the_plan.ids in
      let n = n_chunk (step_grid lt units) in
      let m = blocks_per_chunk (step_grid lt units) in
      let (reads, made, counts) =
        merged_scan F decode avx512 store store_law keys object (n + k) size ready.stored 0
          (step_size lt) (step_rate lt) lo hi ready.valid ids gap
          (shift-is_ascending k n m ready.small the_plan.ids asc)
          (shift-Fits k n m ready.small the_plan.ids few inside)
          (shift-IsStoredBlock k n m (step_size lt) size the_plan.ids ready.room inside) in
      record {
        reads = reads;
        merged =
            ap (λ t. merge_ranges keys t (step_size lt) (pos gap) 0)
              (shift_ids_lem k n m ready.small the_plan.ids inside)
            ∙ made;
        streamed =
            ap
              (λ d.
                stream_count F decode avx512 store reads (map block_of ids) (step_size lt)
                  (step_rate lt) d lo hi)
              ready.dim
            ∙ counts
            ∙ ap (λ (t : List ℕ). let r : Result (ℕ × ℕ) = ok (sum t, read_bytes reads) in r)
                (map-shift _ k the_plan.ids);
      }

  -- the answer of the step
  abbrev answer : List MergedRange → Tally
  answer reads = record {
    n_in = the_plan.n_in;
    n_out = the_plan.n_out;
    n_maybe = length (map block_of (map (shift_id k) the_plan.ids));
    n_maybe_val = sum (map counted_here the_plan.ids);
    payload_bytes = read_bytes reads;
    n_reqs = length reads;
  }

  counts_values :
      the_plan.n_in * lt.values_per_block + sum (map counted_here the_plan.ids)
      ≡ values_in_range F decode object lt (step_grid lt units) k lo hi
  counts_values =
      sym (
        plan_worth F (step_grid lt units) (plan_meta meta lt 0) (single_size lt) lo hi
          lt.values_per_block counted_here
          (judged F law decode avx512 store keys object size lt units meta k lo hi ready))
      ∙ array_sum_ext counted_here
          (truth F law decode avx512 store keys object size lt units meta k lo hi ready) _ _
          (counted-truth F law decode avx512 store keys object size lt units meta k lo hi ready)

  -- A step that is ready returns, and its answer is exact: IN blocks at their full number of values
  -- and the values counted in the blocks that were read make up the number of decoded values in the
  -- range, and every block is IN, OUT or read.
  pub count_layer0_exact :
      (gap : ℕ)
      → (t : Tally) × (count_layer0 F decode avx512 store keys lt units meta k (pos gap) lo hi
          ≡ ok t)
        × (t.n_in * lt.values_per_block + t.n_maybe_val
            ≡ values_in_range F decode object lt (step_grid lt units) k lo hi)
        × (t.n_in + t.n_out + t.n_maybe
            ≡ n_chunk (step_grid lt units) * blocks_per_chunk (step_grid lt units))
  unfolding count_layer0
  count_layer0_exact gap =
      let s = scanned gap in
      (
        answer s.reads,
        rw (planned, s.merged, s.streamed) refl,
        counts_values,
        ap (λ (l : ℕ). the_plan.n_in + the_plan.n_out + l)
              (length-map block_of (map (shift_id k) the_plan.ids)
                ∙ length-map (shift_id k) the_plan.ids)
            ∙ plan_counts F (step_grid lt units) (plan_meta meta lt 0) (single_size lt) lo hi,
      )
