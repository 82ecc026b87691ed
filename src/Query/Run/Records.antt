-- ===== src/Query/Run/Records.antt =====
-- The zone map records that Python hands to the planner have a size that the planner knows.
use skip_zfp.Prelude.{ℕ, ◌<◌, ◌≡◌, List, ◌==◌, if◌then◌else◌, length, ok, arith}
use skip_zfp.Codec.Config.{Codec, post_init, meta_size}
use skip_zfp.Codec.Config.Valid.{post_init-IsValid}
use skip_zfp.Layout.{Layout, layout_of, unit_grid_per_chunk}
use skip_zfp.Query.Plan.{Grid, plain_size, coded_size}
use skip_zfp.Query.Result.{grid_of, single_size}

abbrev pub planned_grid : Layout → Grid
planned_grid lt = grid_of lt.unit_grid (unit_grid_per_chunk lt) lt.blocks_per_unit

-- For a codec that `__post_init__` accepts, the records with one error bound that Python hands to
-- the planner have the size that plan_blocks expects of the unit: that of records with error codes
-- when the codec has them, and that of records without when it has none.
pub single_size_lem :
    (c d : Codec) (shape chunk : List ℕ) (data_size : ℕ)
    → post_init c ≡ ok d
    → let lt = layout_of shape chunk d data_size in
      let g = planned_grid lt in
      single_size lt ≡ (if d.block_error_bits == 0 then plain_size g else coded_size g)
unfolding layout_of meta_size
single_size_lem c d shape chunk data_size h =
    let v = post_init-IsValid c d h in
    let n : 0 < length d.layers = v.some_layer in ground (arith, n)
