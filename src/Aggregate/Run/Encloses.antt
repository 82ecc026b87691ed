-- ===== src/Aggregate/Run/Encloses.antt =====
-- A step of an aggregate bounds the number of original values in the range.
use Prim.Native.String.{String}
use skip_zfp.Prelude.{
  ℕ, ◌+◌, ◌-◌, ◌*◌, ◌≤◌, ◌<◌, ◌≡◌, refl, sym, ap, ap₂, ◌∙◌, subst, List, [], ◌∷◌, ◌++◌, map,
  map-append, length, length-map, sum, sum-append, flat_map, All, arith,
}
use skip_zfp.Floats.{Floats, IsLawful as FloatsAreLawful}
use skip_zfp.Layout.{Layout}
use skip_zfp.Query.Merge.{BlockId, Ids}
use skip_zfp.Query.Read.{Store}
use skip_zfp.Query.Classify.{classify_block, low_bound, high_bound}
use skip_zfp.Query.Classify.Sound.{Between}
use skip_zfp.Query.Plan.{n_sub, n_chunk, blocks_per_chunk, has_codes, unit_record, block_eps}
use skip_zfp.Query.Plan.Counts.{StateOk}
use skip_zfp.Query.Plan.Worth.{Judged, array_sum}
use skip_zfp.Query.Plan.Kept.{state_at, state_at-StateOk, plan_kept}
use skip_zfp.Query.Meta.{plan_meta}
use skip_zfp.Query.Result.{single_size}
use skip_zfp.Query.Run.Shift.{shift_id}
use skip_zfp.Query.Run.Step.{step_grid, step_size, step_rate, Ready, block_values, map-shift}
use skip_zfp.Aggregate.Kernel.{Sums, Aggregate, Listed, empty, aggregate_blocks}
use skip_zfp.Aggregate.Combine.{combine}
use skip_zfp.Aggregate.Combine.Original.{
  Paired, listed_of, IsHonest, originals_in, part_of, combine-original_count,
}
use skip_zfp.Aggregate.Kernel.Original.{IsOriginal}
use skip_zfp.Aggregate.Stream.{is_in}
use skip_zfp.Aggregate.Stream.Scan.{item_of}
use skip_zfp.Aggregate.Run.Planned.{the_plan, eps_of, in_of, moved}
use skip_zfp.Aggregate.Run.Original.{truth_of, IsClose, state-IsOriginal, StateOk-original}

module _ (F : Floats) (law : FloatsAreLawful F) (S : Sums F) (decode : ℕ → List ℕ → List F.Single)
    (object : ℕ → List ℕ) (lt : Layout) (units meta : List ℕ) (k : ℕ) (lo hi : F.Double) where
  -- The original values, beside the decoded ones: within the error bound of their block, and between
  -- the bounds of the block's record.
  pub record Originals (pairs : BlockId → List (F.Single × F.Single)) : Type 0 where
    pub decoded :
        (x : BlockId)
        → map (λ p. p.0) (pairs x) ≡ block_values F decode object (step_size lt) (step_rate lt) x
    pub close :
        (c b : ℕ)
        → c < n_chunk (step_grid lt units)
        → b < blocks_per_chunk (step_grid lt units)
        → All
            (IsClose F lo hi (
              F.widen
                (block_eps F (step_grid lt units) (plan_meta meta lt 0) (single_size lt) (c, b))))
            (pairs (c + k, b))
    pub within :
        (c sub b : ℕ)
        → c < n_chunk (step_grid lt units)
        → sub < n_sub (step_grid lt units)
        → b < lt.blocks_per_unit
        → let g = step_grid lt units in
          let cm = unit_record F g (plan_meta meta lt 0) (single_size lt) c sub in
          let codes = has_codes g (single_size lt) in
          All
            (Between F law
              (low_bound F cm lt.blocks_per_unit codes b)
              (high_bound F cm lt.blocks_per_unit codes b))
            (map (λ p. p.1) (pairs (c + k, sub * lt.blocks_per_unit + b)))

  module _ (store : Store) (keys : List String) (size : ℕ)
      (ready : Ready F decode store keys object size lt units meta k lo hi)
      (pairs : BlockId → List (F.Single × F.Single)) (originals : Originals pairs) where
    -- how many original values of a block of the step are in the range
    abbrev pub original_truth : BlockId → ℕ
    original_truth x = truth_of F lo hi (pairs (shift_id k x))

    length-pairs : (c b : ℕ) → length (pairs (c, b)) ≡ lt.values_per_block
    length-pairs c b =
        sym (length-map (λ p. p.0) (pairs (c, b)))
        ∙ ap length (originals.decoded (c, b))
        ∙ ready.full c b

    original_truth-Judged :
        Judged F
          (step_grid lt units)
          (plan_meta meta lt 0)
          (single_size lt)
          lo
          hi
          lt.values_per_block
          original_truth
    original_truth-Judged c sub b hc hs hb =
        subst
          (λ (n : ℕ).
            StateOk n
              (classify_block F
                (unit_record F (step_grid lt units) (plan_meta meta lt 0) (single_size lt) c sub)
                lt.blocks_per_unit (has_codes (step_grid lt units) (single_size lt)) lo hi b)
              (original_truth (c, sub * lt.blocks_per_unit + b)))
          (length-pairs (c + k) (sub * lt.blocks_per_unit + b))
          (StateOk-original F lo hi law _ lt.blocks_per_unit _ b
            (pairs (c + k, sub * lt.blocks_per_unit + b)) ready.lo_num ready.hi_num
            (originals.within c sub b hc hs hb))

    -- a listed block with its original values
    abbrev paired : BlockId → Paired F
    paired x = record {
      pairs = pairs x;
      eps = eps_of F lt units meta k lo hi x;
      in_block = in_of F lt units meta k lo hi x;
    }

    abbrev item : BlockId → Listed F
    item =
        item_of F S decode object 0 (step_size lt) (step_rate lt) (eps_of F lt units meta k lo hi)
          (in_of F lt units meta k lo hi)

    listed_paired : (g : Ids) → map (listed_of F lo hi) (map paired g) ≡ map item g
    listed_paired [] = refl
    listed_paired (x ∷ g) =
        ap₂ ◌∷◌
          (ap
            (λ (vs : List F.Single).
              let l : Listed F = record {
                values = vs;
                eps = eps_of F lt units meta k lo hi x;
                in_block = in_of F lt units meta k lo hi x;
              } in
              l)
            (originals.decoded x))
          (listed_paired g)

    honest :
        (c b : ℕ)
        → c < n_chunk (step_grid lt units)
        → b < blocks_per_chunk (step_grid lt units)
        → IsHonest F lo hi (paired (shift_id k (c, b)))
    honest c b hc hb =
        let e : c ≡ c + k - k = omega arith in
        let g = step_grid lt units in
        let eps = block_eps F g (plan_meta meta lt 0) (single_size lt) in
        let state = state_at F g (plan_meta meta lt 0) (single_size lt) lo hi in
        subst
          (λ (t : ℕ).
            All (IsOriginal F (F.widen (eps (t, b))) (is_in (state (t, b))) lo hi)
              (pairs (c + k, b)))
          e
          (state-IsOriginal F lo hi (state (c, b)) (F.widen (eps (c, b))) (pairs (c + k, b))
            lt.values_per_block (length-pairs (c + k) b)
            (state_at-StateOk F g (plan_meta meta lt 0) (single_size lt) lo hi lt.values_per_block
              original_truth original_truth-Judged c b hc hb)
            (originals.close c b hc hb))

    abbrev Inside : BlockId → Type 0
    Inside x = (x.0 < n_chunk (step_grid lt units)) × (x.1 < blocks_per_chunk (step_grid lt units))

    ids-IsHonest :
        (xs : Ids) → All Inside xs → All (λ x. IsHonest F lo hi (paired x)) (map (shift_id k) xs)
    ids-IsHonest [] h = tt
    ids-IsHonest ((c, b) ∷ xs) (h, hs) = (honest c b h.0 h.1, ids-IsHonest xs hs)

    -- a group of ids as a read of blocks with their original values
    abbrev read_of : Ids × ℕ → List (Paired F) × ℕ
    read_of (g, n) = (map paired g, n)

    -- what the read contributes
    abbrev part : Ids × ℕ → Aggregate F × ℕ
    part (g, n) = (aggregate_blocks F lo hi (map item g) (empty F), n)

    parts_lem :
        (groups : List (Ids × ℕ)) → map (part_of F lo hi) (map read_of groups) ≡ map part groups
    parts_lem [] = refl
    parts_lem ((g, n) ∷ groups) =
        ap₂ ◌∷◌
          (ap (λ bs. let p : Aggregate F × ℕ = (aggregate_blocks F lo hi bs (empty F), n) in p)
            (listed_paired g))
          (parts_lem groups)

    group-IsHonest :
        (g rest : Ids)
        → All (λ x. IsHonest F lo hi (paired x)) (g ++ rest)
        → All (IsHonest F lo hi) (map paired g) × All (λ x. IsHonest F lo hi (paired x)) rest
    group-IsHonest [] rest h = (tt, h)
    group-IsHonest (x ∷ g) rest (h, hs) = let (a, b) = group-IsHonest g rest hs in ((h, a), b)

    groups-IsHonest :
        (groups : List (Ids × ℕ))
        → All (λ x. IsHonest F lo hi (paired x)) (flat_map (λ q. q.0) groups)
        → All (λ r. All (IsHonest F lo hi) r.0) (map read_of groups)
    groups-IsHonest [] h = tt
    groups-IsHonest ((g, n) ∷ groups) h =
        let (a, b) = group-IsHonest g (flat_map (λ q. q.0) groups) h in
        (a, groups-IsHonest groups b)

    group_originals :
        (g : Ids)
        → originals_in F lo hi (map paired g) ≡ sum (map (λ x. truth_of F lo hi (pairs x)) g)
    unfolding sum
    group_originals [] = refl
    group_originals (x ∷ g) = ap (λ (t : ℕ). truth_of F lo hi (pairs x) + t) (group_originals g)

    groups_originals :
        (groups : List (Ids × ℕ))
        → sum (map (λ r. originals_in F lo hi r.0) (map read_of groups))
          ≡ sum (map (λ x. truth_of F lo hi (pairs x)) (flat_map (λ q. q.0) groups))
    unfolding sum
    groups_originals [] = refl
    groups_originals ((g, n) ∷ groups) =
        ap₂ ◌+◌ (group_originals g) (groups_originals groups)
        ∙ sym (
            ap sum (map-append (λ x. truth_of F lo hi (pairs x)) g (flat_map (λ q. q.0) groups))
            ∙ sum-append (map (λ x. truth_of F lo hi (pairs x)) g)
                (map (λ x. truth_of F lo hi (pairs x)) (flat_map (λ q. q.0) groups)))

    -- all the original values of the step in the range
    abbrev pub originals_in_range : ℕ
    originals_in_range =
        array_sum original_truth (n_chunk (step_grid lt units))
          (blocks_per_chunk (step_grid lt units))

    all_originals :
        (groups : List (Ids × ℕ))
        → flat_map (λ q. q.0) groups ≡ moved F lt units meta k lo hi
        → sum (map (λ r. originals_in F lo hi r.0) (map read_of groups)) ≡ originals_in_range
    all_originals groups whole =
        groups_originals groups
        ∙ ap (λ t. sum (map (λ x. truth_of F lo hi (pairs x)) t)) whole
        ∙ ap sum
            (map-shift (λ x. truth_of F lo hi (pairs x)) k (the_plan F lt units meta k lo hi).ids)
        ∙ sym (
            plan_kept F (step_grid lt units) (plan_meta meta lt 0) (single_size lt) lo hi
              lt.values_per_block original_truth original_truth-Judged)

    pub step_encloses :
        (groups : List (Ids × ℕ)) (values_per_block : ℕ)
        → flat_map (λ q. q.0) groups ≡ moved F lt units meta k lo hi
        → All Inside (the_plan F lt units meta k lo hi).ids
        → ((combine F S (map part groups) values_per_block).original_count.0 ≤ originals_in_range)
          × (originals_in_range ≤ (combine F S (map part groups) values_per_block).original_count.1)
    step_encloses groups n whole inside =
        rw (all_originals groups whole, parts_lem groups) at
          (combine-original_count F lo hi law S (map read_of groups) n (
            groups-IsHonest groups (
              subst (All (λ x. IsHonest F lo hi (paired x))) (sym whole)
                (ids-IsHonest (the_plan F lt units meta k lo hi).ids inside))))
