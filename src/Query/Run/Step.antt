-- ===== src/Query/Run/Step.antt =====
-- What one step of a layer 0 query relies on, and what it makes of a block: the number of the
-- block's values in the range.
use Prim.Native.String.{String}
use skip_zfp.Prelude.{
  ℕ, ◌+◌, ◌*◌, ◌^◌, ◌≤◌, ◌<◌, ◌≡◌, refl, ap, ap₂, subst, Bool, true, false, List, [], ◌∷◌, map, All,
  arith, sum, length, slice, get_or, All-map, split_below, range, All-range,
}
use skip_zfp.Floats.{Floats, IsLawful as FloatsAreLawful}
use skip_zfp.Layout.{Layout, unit_grid_per_chunk}
use skip_zfp.Query.Merge.{BlockId, Ids}
use skip_zfp.Query.Read.{Store}
use skip_zfp.Query.Count.{in_range, count_if, count_at}
use skip_zfp.Query.Classify.{low_bound, high_bound, classify_block}
use skip_zfp.Query.Classify.Sound.{count_block_lem, StateOk-classify_block}
use skip_zfp.Query.Plan.{
  Grid, n_sub, n_chunk, blocks_per_chunk, bad_plan, has_codes, plan_cap, unit_record,
}
use skip_zfp.Query.Plan.Counts.{StateOk}
use skip_zfp.Query.Plan.Worth.{array_sum}
use skip_zfp.Query.Stream.Scan.{Stored, IsRate, block_count}
use skip_zfp.Query.Meta.{plan_meta}
use skip_zfp.Query.Result.{grid_of, single_size}
use skip_zfp.Query.Run.Shift.{shift_id}

-- the grid and the records that a step of a layer 0 query plans
abbrev pub step_grid : Layout → List ℕ → Grid
step_grid lt units = grid_of units (unit_grid_per_chunk lt) lt.blocks_per_unit

abbrev pub step_size : Layout → ℕ
step_size lt = get_or lt.layer_bytes 0 0

abbrev pub step_rate : Layout → ℕ
step_rate lt = get_or lt.layers 0 0

pub sum-map_ext :
    {A : Type 0} (f h : A → ℕ) (xs : List A)
    → All (λ x. f x ≡ h x) xs
    → sum (map f xs) ≡ sum (map h xs)
unfolding sum
sum-map_ext f h [] e = refl
sum-map_ext f h (x ∷ xs) (e, es) = ap₂ ◌+◌ e (sum-map_ext f h xs es)

pub array_sum_ext :
    (w v : BlockId → ℕ) (n m : ℕ)
    → ((c b : ℕ) → c < n → b < m → w (c, b) ≡ v (c, b))
    → array_sum w n m ≡ array_sum v n m
unfolding array_sum
array_sum_ext w v n m e = sum-map_ext _ _ (range n) (
    All-range (λ c. sum (map (λ b. w (c, b)) (range m)) ≡ sum (map (λ b. v (c, b)) (range m))) n
      (λ c hc.
        sum-map_ext _ _ (range m) (All-range (λ b. w (c, b) ≡ v (c, b)) m (λ b hb. e c b hc hb))))

pub map-shift :
    (f : BlockId → ℕ) (k : ℕ) (ids : Ids)
    → map f (map (shift_id k) ids) ≡ map (λ x. f (shift_id k x)) ids
map-shift f k [] = refl
map-shift f k (x ∷ ids) = ap (λ (t : List ℕ). f (shift_id k x) ∷ t) (map-shift f k ids)

pub few_blocks : (g : Grid) (s room : ℕ) → bad_plan g s room ≡ false → blocks_per_chunk g ≤ 2 ^ 32
unfolding bad_plan
few_blocks g s room h = ground arith

module _ (F : Floats) (decode : ℕ → List ℕ → List F.Single) where
  -- the values of a block, decoded
  abbrev pub block_values : (object : ℕ → List ℕ) (bs rate : ℕ) → BlockId → List F.Single
  block_values object bs rate x =
      decode rate (slice (object x.0) (0 + x.1 * bs) (0 + x.1 * bs + bs))

  -- how many values of a block lie in the range
  abbrev pub true_count : (object : ℕ → List ℕ) (bs rate : ℕ) (lo hi : F.Double) → BlockId → ℕ
  true_count object bs rate lo hi x =
      count_if F (λ v. in_range F v lo hi) (block_values object bs rate x)

  -- how many values of the chunks of a grid lie in the range, the first of them being chunk `k`
  abbrev pub values_in_range :
      (object : ℕ → List ℕ) → Layout → Grid → (k : ℕ) → (lo hi : F.Double) → ℕ
  values_in_range object lt g k lo hi =
      array_sum (λ x. true_count object (step_size lt) (step_rate lt) lo hi (shift_id k x))
        (n_chunk g) (blocks_per_chunk g)

  -- What a step relies on: the planner accepts the grid, the objects of the chunks from `k` on are
  -- stored, and the zone map bounds the values of every block, each of which decodes in full.
  pub record Ready (store : Store) (keys : List String) (object : ℕ → List ℕ) (size : ℕ)
      (lt : Layout) (units meta : List ℕ) (k : ℕ) (lo hi : F.Double) : Type 0 where
    pub accepted :
        bad_plan (step_grid lt units) (single_size lt) (plan_cap F (step_grid lt units)) ≡ false
    pub dim : lt.block_dim ≡ 4
    pub valid : IsRate (step_size lt) (step_rate lt)
    pub stored : Stored store keys object (n_chunk (step_grid lt units) + k) size
    pub room : blocks_per_chunk (step_grid lt units) * step_size lt ≤ size
    pub small : n_chunk (step_grid lt units) + k ≤ 2 ^ 32
    pub lo_num : F.is_nan lo ≡ false
    pub hi_num : F.is_nan hi ≡ false
    pub bounded :
        (c sub b : ℕ)
        → c < n_chunk (step_grid lt units)
        → sub < n_sub (step_grid lt units)
        → b < lt.blocks_per_unit
        → let g = step_grid lt units in
          let cm = unit_record F g (plan_meta meta lt 0) (single_size lt) c sub in
          let codes = has_codes g (single_size lt) in
          All
            (λ v.
              (F.le (low_bound F cm lt.blocks_per_unit codes b) (F.widen v) ≡ true)
              × (F.le (F.widen v) (high_bound F cm lt.blocks_per_unit codes b) ≡ true))
            (block_values object
              (step_size lt)
              (step_rate lt)
              (c + k, sub * lt.blocks_per_unit + b))
    pub full :
        (c b : ℕ)
        → length (block_values object (step_size lt) (step_rate lt) (c, b)) ≡ lt.values_per_block

module _ (F : Floats) (law : FloatsAreLawful F) (decode : ℕ → List ℕ → List F.Single)
    (avx512 : Bool) (store : Store) (keys : List String) (object : ℕ → List ℕ) (size : ℕ)
    (lt : Layout) (units meta : List ℕ) (k : ℕ) (lo hi : F.Double)
    (ready : Ready F decode store keys object size lt units meta k lo hi) where
  -- what the counting functions make of a block of the step
  abbrev pub counted : BlockId → ℕ
  counted x =
      block_count F decode avx512 object 0 (step_size lt) (step_rate lt) lo hi (shift_id k x)

  pub judged :
      (c sub b : ℕ)
      → c < n_chunk (step_grid lt units)
      → sub < n_sub (step_grid lt units)
      → b < lt.blocks_per_unit
      → StateOk lt.values_per_block
          (classify_block F
            (unit_record F (step_grid lt units) (plan_meta meta lt 0) (single_size lt) c sub)
            lt.blocks_per_unit
            (has_codes (step_grid lt units) (single_size lt))
            lo
            hi
            b)
          (counted (c, sub * lt.blocks_per_unit + b))
  unfolding count_at
  judged c sub b hc hs hb =
      subst
        (λ n.
          StateOk n
            (classify_block F
              (unit_record F (step_grid lt units) (plan_meta meta lt 0) (single_size lt) c sub)
              lt.blocks_per_unit (has_codes (step_grid lt units) (single_size lt)) lo hi b)
            (counted (c, sub * lt.blocks_per_unit + b)))
        (ready.full (c + k) (sub * lt.blocks_per_unit + b))
        (StateOk-classify_block F law decode avx512 _ lt.blocks_per_unit _ (step_rate lt) lo hi b _
          ready.lo_num ready.hi_num (ready.bounded c sub b hc hs hb))

  numbers :
      (c sub b : ℕ)
      → c < n_chunk (step_grid lt units)
      → sub < n_sub (step_grid lt units)
      → b < lt.blocks_per_unit
      → All
          (λ v. F.is_nan (F.widen v) ≡ false)
          (block_values F decode object
            (step_size lt)
            (step_rate lt)
            (c + k, sub * lt.blocks_per_unit + b))
  numbers c sub b hc hs hb =
      All-map _ (λ v. F.is_nan (F.widen v) ≡ false) (λ v h. law.le_right _ _ h.0) _
        (ready.bounded c sub b hc hs hb)

  abbrev pub truth : BlockId → ℕ
  truth x = true_count F decode object (step_size lt) (step_rate lt) lo hi (shift_id k x)

  pub counted-truth :
      (c b : ℕ)
      → c < n_chunk (step_grid lt units)
      → b < blocks_per_chunk (step_grid lt units)
      → counted (c, b) ≡ truth (c, b)
  unfolding count_at
  counted-truth c b hc hb =
      let (sub, r, hs, hr, e) = split_below b (n_sub (step_grid lt units)) lt.blocks_per_unit hb in
      count_block_lem F law decode avx512 (step_rate lt) lo hi _ ready.lo_num ready.hi_num (
        subst
          (λ t.
            All (λ v. F.is_nan (F.widen v) ≡ false)
              (block_values F decode object (step_size lt) (step_rate lt) (c + k, t)))
          e (numbers c sub r hc hs hr))
