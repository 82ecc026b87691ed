-- ===== src/Query/Run/Shift.antt =====
-- The planner's ids, moved to the chunks that an object of the zone map stands for.
use skip_zfp.Prelude.{
  ℕ, ◌+◌, ◌-◌, ◌*◌, ◌%◌, ◌^◌, ◌≤◌, ◌<◌, ◌≡◌, refl, ap, ap₂, true, [], ◌∷◌, map, All, arith,
}
use skip_zfp.Query.Merge.{BlockId, Ids, is_ascending}
use skip_zfp.Query.Merge.Order.{Fits}
use skip_zfp.Query.Stream.Scan.{IsStoredBlock}
use skip_zfp.Query.Result.{shift_ids}

-- an id of a chunk below `n`, a block below `m`
abbrev pub InArray : ℕ → ℕ → BlockId → Type 0
InArray n m x = (x.0 < n) × (x.1 < m)

-- the id `k` chunks on, without the wrap of uint32
abbrev pub shift_id : ℕ → BlockId → BlockId
shift_id k x = (x.0 + k, x.1)

module _ (k n m : ℕ) (small : n + k ≤ 2 ^ 32) where
  pub shift_ids_lem : (ids : Ids) → All (InArray n m) ids → shift_ids k ids ≡ map (shift_id k) ids
  shift_ids_lem [] h = refl
  shift_ids_lem ((c, b) ∷ ids) (h, hs) =
      let e : (c + k) % 2 ^ 32 ≡ c + k = omega (arith, h.0) in
      ap₂ (λ (t : ℕ) r. let x : BlockId = (t, b) in x ∷ r) e (shift_ids_lem ids hs)

  pub shift-is_ascending :
      (ids : Ids) → is_ascending ids ≡ true → is_ascending (map (shift_id k) ids) ≡ true
  unfolding is_ascending
  shift-is_ascending [] h = refl
  shift-is_ascending (x ∷ []) h = refl
  shift-is_ascending ((c, b) ∷ (c', b') ∷ ids) h =
      let rest = shift-is_ascending ((c', b') ∷ ids) in ground (arith, rest)

  pub shift-Fits :
      (ids : Ids) → m ≤ 2 ^ 32 → All (InArray n m) ids → All Fits (map (shift_id k) ids)
  shift-Fits [] h hs = tt
  shift-Fits ((c, b) ∷ ids) h (hx, hs) = (omega (arith, hx.1), shift-Fits ids h hs)

block_end : (b m bs size : ℕ) → b < m → m * bs ≤ size → 0 + b * bs + bs ≤ size
block_end b m bs size h fit =
    let e : b + 1 + (m - b - 1) ≡ m = omega arith in omega (arith, ap (λ (t : ℕ). t * bs) e)

pub shift-IsStoredBlock :
    (k n m bs size : ℕ) (ids : Ids)
    → m * bs ≤ size
    → All (InArray n m) ids
    → All (IsStoredBlock (n + k) size 0 bs) (map (shift_id k) ids)
shift-IsStoredBlock k n m bs size [] fit hs = tt
shift-IsStoredBlock k n m bs size ((c, b) ∷ ids) fit (hx, hs) = (
  (omega (arith, hx.0), block_end b m bs size hx.1 fit),
  shift-IsStoredBlock k n m bs size ids fit hs,
)
