-- ===== src/Query/Plan.antt =====
-- skipzfp/csrc/query.c: plan_blocks, which classifies every block of the zone map and lists the
-- ones that a query reads, with its wrappers _Native.plan_chunks and _Native.plan_read of
-- skipzfp/query.py. The arrays that the caller passes are never NULL, memory is enough, and the
-- number of threads decides only the order of the work.
pub mod Counts
pub mod Worth
pub mod Listed
pub mod Kept
use skip_zfp.Prelude.{
  ℕ, zero, suc, ◌+◌, ◌-◌, ◌*◌, ◌/◌, ◌%◌, ◌^◌, Bool, true, false, not, ◌&&◌, ◌||◌, List, [], ◌∷◌,
  ◌++◌, map, ltb, leb, ◌==◌, if◌then◌else◌, slice, range, flat_map, sum, prod, Result, ok, err,
  ◌>>=◌, zip, length,
}
use skip_zfp.Floats.{Floats}
use skip_zfp.Native.{Outcome, sz_ok, sz_err, sz_err_arg, check}
use skip_zfp.Query.Merge.{Ids}
use skip_zfp.Query.Classify.{State, in', out, maybe, classify_unit, listed_error}

-- The units of the array and of a chunk along the three axes, and the blocks of a unit.
pub record Grid : Type 0 where
  pub ux : ℕ
  pub uy : ℕ
  pub uz : ℕ
  pub sx : ℕ
  pub sy : ℕ
  pub sz : ℕ
  pub blocks_per_unit : ℕ

-- a product of sizes in size_t
abbrev pub mul_mod : ℕ → ℕ → ℕ
mul_mod a b = a * b % 2 ^ 64

-- n_sub and n_chunk
abbrev pub n_sub : Grid → ℕ
n_sub g = mul_mod (mul_mod g.sx g.sy) g.sz

abbrev pub n_chunk : Grid → ℕ
n_chunk g = mul_mod (mul_mod (g.ux / g.sx) (g.uy / g.sy)) (g.uz / g.sz)

abbrev pub blocks_per_chunk : Grid → ℕ
blocks_per_chunk g = n_sub g * g.blocks_per_unit

abbrev pub code_bytes : ℕ → ℕ
code_bytes n = (n + 1) / 2

-- the bytes of a record without error codes, and with them
abbrev pub plain_size : Grid → ℕ
plain_size g = 12 + 2 * g.blocks_per_unit

abbrev pub coded_size : Grid → ℕ
coded_size g = 12 + 2 * g.blocks_per_unit + code_bytes g.blocks_per_unit

abbrev pub has_codes : Grid → ℕ → Bool
has_codes g meta_size = not (meta_size == plain_size g)

-- the arguments that plan_blocks refuses; mul_size fails where a product passes SIZE_MAX
unfoldable pub bad_plan : Grid → (meta_size room : ℕ) → Bool
bad_plan g meta_size room =
    g.sx == 0
    || g.sy == 0
    || g.sz == 0
    || not (g.ux % g.sx == 0)
    || not (g.uy % g.sy == 0)
    || not (g.uz % g.sz == 0)
    || g.blocks_per_unit == 0
    || (not (meta_size == plain_size g) && not (meta_size == coded_size g))
    || n_chunk g == 0
    || leb (2 ^ 64) (blocks_per_chunk g)
    || leb (2 ^ 64) (n_chunk g * blocks_per_chunk g)
    || ltb room (n_chunk g * blocks_per_chunk g)
    || ltb (2 ^ 32 - 1) (blocks_per_chunk g)
    || ltb (2 ^ 32 - 1) (n_chunk g)

-- uid: the unit `sub` of chunk `cid`, in the C order of all units
unfoldable pub unit_id : Grid → ℕ → ℕ → ℕ
unit_id g cid sub =
    let gy = g.uy / g.sy in
    let gz = g.uz / g.sz in
    let ix = cid / (gy * gz) * g.sx + sub / (g.sy * g.sz) in
    let iy = cid / gz % gy * g.sy + sub / g.sz % g.sy in
    let iz = cid % gz * g.sz + sub % g.sz in (ix * g.uy + iy) * g.uz + iz

abbrev pub is_listed : Bool → State → Bool
is_listed keep_in in' = keep_in
is_listed keep_in out = false
is_listed keep_in maybe = true

-- n_in and n_out of a list of states
unfoldable pub count_in : List State → ℕ
count_in [] = 0
count_in (in' ∷ ss) = suc (count_in ss)
count_in (_ ∷ ss) = count_in ss

unfoldable pub count_out : List State → ℕ
count_out [] = 0
count_out (out ∷ ss) = suc (count_out ss)
count_out (_ ∷ ss) = count_out ss

-- pass 2 for one chunk, from block `b` on
unfoldable pub list_blocks : Bool → ℕ → ℕ → List State → Ids
list_blocks keep_in cid b [] = []
list_blocks keep_in cid b (s ∷ ss) =
    let rest = list_blocks keep_in cid (b + 1) ss in
    if is_listed keep_in s then (cid, b) ∷ rest else rest

unfoldable pub list_states : Bool → List State → List State
list_states keep_in [] = []
list_states keep_in (s ∷ ss) =
    let rest = list_states keep_in ss in if is_listed keep_in s then s ∷ rest else rest

pub record Plan (S : Type 0) : Type 0 where
  pub ids : Ids
  pub states : List State
  pub eps : List S
  pub n_in : ℕ
  pub n_out : ℕ

module _ (F : Floats) where
  -- the record of a unit in the zone map
  abbrev pub unit_record : Grid → List ℕ → ℕ → ℕ → ℕ → List ℕ
  unit_record g meta meta_size cid sub =
      slice meta (unit_id g cid sub * meta_size) (unit_id g cid sub * meta_size + meta_size)

  -- pass 1 for one chunk: the states of its blocks, unit after unit
  unfoldable pub chunk_states : Grid → List ℕ → ℕ → F.Double → F.Double → ℕ → List State
  unfolding classify_unit unit_id
  chunk_states g meta meta_size lo hi cid =
      flat_map
        (λ sub.
          classify_unit F (unit_record g meta meta_size cid sub) g.blocks_per_unit
            (has_codes g meta_size) lo hi)
        (range (n_sub g))

  -- the error bound of a listed block
  unfoldable pub block_eps : Grid → List ℕ → ℕ → ℕ × ℕ → F.Single
  unfolding listed_error unit_id
  block_eps g meta meta_size (cid, b) =
      listed_error F (unit_record g meta meta_size cid (b / g.blocks_per_unit)) g.blocks_per_unit
        (has_codes g meta_size) (b % g.blocks_per_unit)

  -- the outputs of plan_blocks when its arguments are accepted
  unfoldable pub plan_of : Grid → List ℕ → ℕ → F.Double → F.Double → Bool → Plan F.Single
  unfolding chunk_states count_in count_out list_blocks list_states block_eps
  plan_of g meta meta_size lo hi keep_in =
      let states = chunk_states g meta meta_size lo hi in
      let ids = flat_map (λ c. list_blocks keep_in c 0 (states c)) (range (n_chunk g)) in
      record {
        ids = ids;
        states = flat_map (λ c. list_states keep_in (states c)) (range (n_chunk g));
        eps = map (block_eps g meta meta_size) ids;
        n_in = sum (map (λ c. count_in (states c)) (range (n_chunk g)));
        n_out = sum (map (λ c. count_out (states c)) (range (n_chunk g)));
      }

  unfoldable pub plan_blocks :
      Grid
      → List ℕ
      → (meta_size : ℕ) (lo hi : F.Double) (keep_in : Bool) (room : ℕ) → Outcome (Plan F.Single)
  unfolding plan_of bad_plan
  plan_blocks g meta meta_size lo hi keep_in room =
      if bad_plan g meta_size room
      then sz_err sz_err_arg
      else sz_ok (plan_of g meta meta_size lo hi keep_in)

  -- `int(np.prod(unit_grid)) * blocks_per_unit`
  abbrev pub plan_cap : Grid → ℕ
  plan_cap g = prod (g.ux ∷ g.uy ∷ g.uz ∷ []) * g.blocks_per_unit

  -- `_Native.plan_chunks`: szfp_plan_range_chunks lists the MAYBE blocks
  unfoldable pub plan_chunks :
      List ℕ → (meta_size : ℕ) → Grid → (th hi : F.Double) → Result (Ids × ℕ × ℕ)
  unfolding plan_blocks
  plan_chunks meta meta_size g th hi = do
    p ← check "szfp_plan_range_chunks" (plan_blocks g meta meta_size th hi false (plan_cap g))
    ok (p.ids, p.n_in, p.n_out)

  -- `_Native.plan_read` with `eps=True`: szfp_plan_read_chunks lists the IN blocks too
  unfoldable pub plan_read :
      List ℕ → (meta_size : ℕ) → Grid → (lo hi : F.Double) → Result (Plan F.Single)
  unfolding plan_blocks
  plan_read meta meta_size g lo hi =
      check "szfp_plan_read_chunks" (plan_blocks g meta meta_size lo hi true (plan_cap g))
