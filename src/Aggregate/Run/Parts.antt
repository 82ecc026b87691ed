-- ===== src/Aggregate/Run/Parts.antt =====
-- What one step of an aggregate relies on, beside what a step of a query does, and the parts that its
-- reads contribute.
use Prim.Native.String.{String}
use skip_zfp.Prelude.{
  ℕ, ◌+◌, ◌-◌, ◌^◌, ◌≤◌, ◌<◌, ◌≡◌, refl, sym, ap, ap₂, not, ◌&&◌, ltb, ℤ, ◌∙◌, subst, Bool, false,
  true, List, [], ◌∷◌, map, length, sum, flat_map, All, Result, ok, pos, arith,
}
use skip_zfp.Floats.{Floats, IsLawful as FloatsAreLawful}
use skip_zfp.Layout.{Layout}
use skip_zfp.Query.Merge.{BlockId, Ids, MergedRange, merge_ranges, block_of, is_ascending}
use skip_zfp.Query.Read.{Store, IsLawful}
use skip_zfp.Query.Count.{in_range, count_if}
use skip_zfp.Query.Classify.{State}
use skip_zfp.Query.Plan.{Plan, n_chunk, blocks_per_chunk, plan_blocks, plan_read, block_eps}
use skip_zfp.Query.Plan.Counts.{StateOk}
use skip_zfp.Query.Plan.Worth.{plan_listed}
use skip_zfp.Query.Plan.Kept.{state_at, state_at-StateOk, plan_kept}
use skip_zfp.Query.Stream.Reads.{read_bytes}
use skip_zfp.Query.Meta.{plan_meta}
use skip_zfp.Query.Result.{single_size, shift_ids}
use skip_zfp.Query.Run.Shift.{
  shift_id, shift_ids_lem, shift-is_ascending, shift-Fits, shift-IsStoredBlock,
}
use skip_zfp.Query.Run.Step.{
  values_in_range, array_sum_ext, sum-map_ext, map-shift, few_blocks, step_grid, step_size,
  step_rate, Ready, judged, counted, truth, counted-truth, block_values,
}
use skip_zfp.Aggregate.Kernel.{Sums, Aggregate, Listed, empty, matches, aggregate_blocks}
use skip_zfp.Aggregate.Stream.{is_in, stream_aggregate, read_listed}
use skip_zfp.Aggregate.Stream.Scan.{item_of}
use skip_zfp.Aggregate.Stream.Total.{merged_aggregate}
use skip_zfp.Aggregate.Run.{AggregateStep, aggregate_units}
use skip_zfp.Aggregate.Run.Planned.{
  GoodBound, HasBounds, the_plan, eps_of, in_of, moved, eps_lem, states_lem,
}
use skip_zfp.Aggregate.Run.Matched.{matched, matched_state, rec_count_groups}

not_refused : (b : Bool) → (b && not true) ≡ false
not_refused b = ground arith

module _ (F : Floats) (S : Sums F) (decode : ℕ → List ℕ → List F.Single) (store : Store)
    (keys : List String) (lt : Layout) (lo hi : F.Double) where
  read_listed-ok :
      (ids : Ids) (states : List State) (eps : List F.Single) (gap : ℤ) (reads : List MergedRange)
      (blocks : List ℕ) (parts : List (Aggregate F × ℕ)) (bytes : ℕ)
      → is_ascending ids ≡ true
      → merge_ranges keys ids (step_size lt) gap 0 ≡ ok (reads, blocks)
      → stream_aggregate F S decode store reads blocks eps
          (map is_in states)
          (step_size lt)
          (step_rate lt)
          lt.block_dim
          lo
          hi
        ≡ ok (parts, bytes)
      → read_listed F S decode store keys lt ids states eps lo hi gap
        ≡ ok (parts, length reads, bytes)
  unfolding read_listed
  read_listed-ok ids states eps gap reads blocks parts bytes asc m s =
      rw (m, asc, not_refused (ltb 0 (length blocks)), s) refl

module _ (F : Floats) (law : FloatsAreLawful F) (S : Sums F) (decode : ℕ → List ℕ → List F.Single)
    (store : Store) (store_law : IsLawful store) (keys : List String) (object : ℕ → List ℕ)
    (size : ℕ) (lt : Layout) (units meta : List ℕ) (k : ℕ) (lo hi : F.Double)
    (ready : Ready F decode store keys object size lt units meta k lo hi)
    (bounds : HasBounds F S lt units meta) where
  abbrev plan : Plan F.Single
  plan = the_plan F lt units meta k lo hi

  abbrev eps : BlockId → F.Single
  eps = eps_of F lt units meta k lo hi

  abbrev flag : BlockId → Bool
  flag = in_of F lt units meta k lo hi

  abbrev ids : Ids
  ids = moved F lt units meta k lo hi

  pub planned :
      plan_read F (plan_meta meta lt 0) (single_size lt) (step_grid lt units) lo hi ≡ ok plan
  unfolding plan_read plan_blocks
  planned = rw (ready.accepted) refl

  abbrev pub item : BlockId → Listed F
  item = item_of F S decode object 0 (step_size lt) (step_rate lt) eps flag

  abbrev counted_here : BlockId → ℕ
  counted_here = counted F law decode false store keys object size lt units meta k lo hi ready

  -- what a read of a group contributes
  abbrev pub part : Ids × ℕ → Aggregate F × ℕ
  part (g, n) = (aggregate_blocks F lo hi (map item g) (empty F), n)

  -- What a listed block matches is what the counting functions make of it.
  matched-counted :
      (c b : ℕ)
      → c < n_chunk (step_grid lt units)
      → b < blocks_per_chunk (step_grid lt units)
      → matched F lo hi (item (shift_id k (c, b))) ≡ counted_here (c, b)
  matched-counted c b hc hb =
      let same =
        counted-truth F law decode false store keys object size lt units meta k lo hi ready c b hc
          hb in
      let e : c ≡ c + k - k = omega arith in
      let vs = block_values F decode object (step_size lt) (step_rate lt) (c + k, b) in
      let fine =
        state_at-StateOk F (step_grid lt units) (plan_meta meta lt 0) (single_size lt) lo hi
          lt.values_per_block counted_here
          (judged F law decode false store keys object size lt units meta k lo hi ready) c b hc
          hb in
      let place = state_at F (step_grid lt units) (plan_meta meta lt 0) (single_size lt) lo hi in
      subst
        (λ (t : ℕ).
          count_if F (matches F (is_in (place (t, b))) lo hi) vs
          ≡ count_if F (λ v. in_range F v lo hi) vs)
        e
        (matched_state F lo hi (place (c, b)) vs lt.values_per_block (ready.full (c + k) b)
          (subst (StateOk lt.values_per_block (place (c, b))) same fine))
      ∙ sym same

  -- what the reads aggregate, and how they are grouped
  pub record Aggregated (gap : ℕ) : Type 0 where
    pub groups : List (Ids × ℕ)
    pub reads : List MergedRange
    pub whole : flat_map (λ g. g.0) groups ≡ ids
    pub merged :
        merge_ranges keys (shift_ids k plan.ids) (step_size lt) (pos gap) 0
        ≡ ok (reads, map block_of ids)
    pub streamed :
        stream_aggregate F S decode store reads
          (map block_of ids)
          (map eps ids)
          (map flag ids)
          (step_size lt)
          (step_rate lt)
          4
          lo
          hi
        ≡ ok (map part groups, read_bytes reads)

  few : blocks_per_chunk (step_grid lt units) ≤ 2 ^ 32
  few = few_blocks (step_grid lt units) _ _ ready.accepted

  abbrev Inside : BlockId → Type 0
  Inside x = (x.0 < n_chunk (step_grid lt units)) × (x.1 < blocks_per_chunk (step_grid lt units))

  pub listed : (is_ascending plan.ids ≡ true) × All Inside plan.ids
  listed = plan_listed F (step_grid lt units) (plan_meta meta lt 0) (single_size lt) lo hi true few

  moved_sound :
      (xs : Ids)
      → All Inside xs
      → All (λ x. GoodBound F S lt units meta (eps x)) (map (shift_id k) xs)
  moved_sound [] h = tt
  moved_sound ((c, b) ∷ xs) (h, hs) =
      let e : c ≡ c + k - k = omega arith in
      (
        subst
            (λ (t : ℕ).
              GoodBound F S lt units meta
                (block_eps F (step_grid lt units) (plan_meta meta lt 0) (single_size lt) (t, b)))
            e (bounds c b h.0 h.1),
        moved_sound xs hs,
      )

  pub shifted : shift_ids k plan.ids ≡ ids
  shifted =
      shift_ids_lem k (n_chunk (step_grid lt units)) (blocks_per_chunk (step_grid lt units))
        ready.small plan.ids listed.1

  pub aggregated : (gap : ℕ) → Aggregated gap
  aggregated gap =
      let n = n_chunk (step_grid lt units) in
      let m = blocks_per_chunk (step_grid lt units) in
      let (groups, reads, whole, made, got) =
        merged_aggregate F S decode store store_law keys object (n + k) size ready.stored 0
          (step_size lt) (step_rate lt) lo hi ready.valid eps flag ids gap
          (shift-is_ascending k n m ready.small plan.ids listed.0)
          (shift-Fits k n m ready.small plan.ids few listed.1)
          (shift-IsStoredBlock k n m (step_size lt) size plan.ids ready.room listed.1)
          (moved_sound plan.ids listed.1) in
      record {
        groups = groups;
        reads = reads;
        whole = whole;
        merged = ap (λ t. merge_ranges keys t (step_size lt) (pos gap) 0) shifted ∙ made;
        streamed = got;
      }

  matched_ids :
      (xs : Ids)
      → All Inside xs
      → All (λ x. matched F lo hi (item (shift_id k x)) ≡ counted_here x) xs
  matched_ids [] h = tt
  matched_ids ((c, b) ∷ xs) (h, hs) = (matched-counted c b h.0 h.1, matched_ids xs hs)

  -- The parts count the decoded values in the range.
  pub count_parts :
      (groups : List (Ids × ℕ))
      → flat_map (λ g. g.0) groups ≡ ids
      → sum (map (λ p. p.0.rec_count) (map part groups))
        ≡ values_in_range F decode object lt (step_grid lt units) k lo hi
  count_parts groups whole =
      rec_count_groups F lo hi item groups
      ∙ ap (λ t. sum (map (λ x. matched F lo hi (item x)) t)) whole
      ∙ ap sum (map-shift (λ x. matched F lo hi (item x)) k plan.ids)
      ∙ sum-map_ext _ counted_here plan.ids (matched_ids plan.ids listed.1)
      ∙ sym (
          plan_kept F (step_grid lt units) (plan_meta meta lt 0) (single_size lt) lo hi
            lt.values_per_block counted_here
            (judged F law decode false store keys object size lt units meta k lo hi ready))
      ∙ array_sum_ext counted_here
          (truth F law decode false store keys object size lt units meta k lo hi ready) _ _
          (counted-truth F law decode false store keys object size lt units meta k lo hi ready)

  -- What _read_listed returns: the parts of the groups, the number of reads and their bytes.
  pub read_step :
      (gap : ℕ)
      → read_listed F S decode store keys lt
          (shift_ids k plan.ids)
          plan.states
          plan.eps
          lo
          hi
          (pos gap)
        ≡ ok (
          map part (aggregated gap).groups,
          length (aggregated gap).reads,
          read_bytes (aggregated gap).reads,
        )
  read_step gap =
      read_listed-ok F S decode store keys lt lo hi (shift_ids k plan.ids) plan.states plan.eps
        (pos gap) (aggregated gap).reads (map block_of ids) _ _
        (ap is_ascending shifted
          ∙ shift-is_ascending k (n_chunk (step_grid lt units))
              (blocks_per_chunk (step_grid lt units)) ready.small plan.ids listed.0)
        (aggregated gap).merged
        (ap₂ (λ e s. streaming e s lt.block_dim) (eps_lem F lt units meta k lo hi)
            (states_lem F lt units meta k lo hi)
          ∙ ap (streaming (map eps ids) (map flag ids)) ready.dim
          ∙ (aggregated gap).streamed)
    where
      streaming : List F.Single → List Bool → ℕ → Result (List (Aggregate F × ℕ) × ℕ)
      streaming e s d =
          stream_aggregate F S decode store (aggregated gap).reads (map block_of ids) e s
            (step_size lt) (step_rate lt) d lo hi

  -- the step that the planner and the reads make
  abbrev pub the_step : ℕ → AggregateStep F
  the_step gap = record {
    parts = map part (aggregated gap).groups;
    n_in = plan.n_in;
    n_out = plan.n_out;
    listed = shift_ids k plan.ids;
    n_reqs = length (aggregated gap).reads;
    payload_bytes = read_bytes (aggregated gap).reads;
  }

  pub aggregate_units_ok :
      (gap : ℕ)
      → aggregate_units F S decode store keys lt units meta k (pos gap) lo hi ≡ ok (the_step gap)
  unfolding aggregate_units
  aggregate_units_ok gap = rw (planned, read_step gap) refl
