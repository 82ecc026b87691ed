-- ===== src/Aggregate/Run/Planned.antt =====
-- What plan_read gives a step of an aggregate: the listed blocks, with the state and the error bound of
-- each, found by the id that was moved to the step's chunks.
use skip_zfp.Prelude.{ℕ, ◌-◌, ◌<◌, ◌≡◌, refl, ap, ◌∙◌, Bool, true, List, [], ◌∷◌, map}
use skip_zfp.Floats.{Floats}
use skip_zfp.Layout.{Layout}
use skip_zfp.Query.Merge.{BlockId, Ids}
use skip_zfp.Query.Classify.{State}
use skip_zfp.Query.Plan.{Plan, n_chunk, blocks_per_chunk, plan_of, block_eps}
use skip_zfp.Query.Plan.Kept.{state_at, plan_states}
use skip_zfp.Query.Meta.{plan_meta}
use skip_zfp.Query.Result.{single_size}
use skip_zfp.Query.Run.Shift.{shift_id}
use skip_zfp.Query.Run.Step.{step_grid}
use skip_zfp.Aggregate.Kernel.{Sums}
use skip_zfp.Aggregate.Stream.{is_in}
use skip_zfp.Aggregate.Run.Matched.{map-unshift}

module _ (F : Floats) (S : Sums F) (lt : Layout) (units meta : List ℕ) where
  -- an error bound that the C function accepts
  abbrev pub GoodBound : F.Single → Type 0
  GoodBound e = (F.le (F.of_ℕ 0) (F.widen e) ≡ true) × (S.is_finite e ≡ true)

  -- the error bounds of the blocks that a step plans are such
  abbrev pub HasBounds : Type 0
  HasBounds =
      (c b : ℕ)
      → c < n_chunk (step_grid lt units)
      → b < blocks_per_chunk (step_grid lt units)
      → GoodBound (block_eps F (step_grid lt units) (plan_meta meta lt 0) (single_size lt) (c, b))

module _ (F : Floats) (lt : Layout) (units meta : List ℕ) (k : ℕ) (lo hi : F.Double) where
  abbrev pub the_plan : Plan F.Single
  the_plan = plan_of F (step_grid lt units) (plan_meta meta lt 0) (single_size lt) lo hi true

  -- the state and the error bound of a block, by the id that was moved
  abbrev pub state_of : BlockId → State
  state_of x =
      state_at F (step_grid lt units) (plan_meta meta lt 0) (single_size lt) lo hi (x.0 - k, x.1)

  abbrev pub in_of : BlockId → Bool
  in_of x = is_in (state_of x)

  abbrev pub eps_of : BlockId → F.Single
  eps_of x = block_eps F (step_grid lt units) (plan_meta meta lt 0) (single_size lt) (x.0 - k, x.1)

  abbrev pub moved : Ids
  moved = map (shift_id k) the_plan.ids

  pub eps_lem : the_plan.eps ≡ map eps_of moved
  unfolding plan_of
  eps_lem =
      map-unshift (block_eps F (step_grid lt units) (plan_meta meta lt 0) (single_size lt)) k
        the_plan.ids

  map-is_in : (f : BlockId → State) (ids : Ids) → map is_in (map f ids) ≡ map (λ x. is_in (f x)) ids
  map-is_in f [] = refl
  map-is_in f (x ∷ ids) = ap (λ (t : List Bool). is_in (f x) ∷ t) (map-is_in f ids)

  pub states_lem : map is_in the_plan.states ≡ map in_of moved
  states_lem =
      ap (map is_in) (
        plan_states F (step_grid lt units) (plan_meta meta lt 0) (single_size lt) lo hi true
        ∙ map-unshift (state_at F (step_grid lt units) (plan_meta meta lt 0) (single_size lt) lo hi)
            k the_plan.ids)
      ∙ map-is_in state_of moved
