-- ===== src/Query/Merge.antt =====
-- skipzfp/query.py: merge_ranges and _Native.merge, with the C function szfp_merge_ranges
-- (skipzfp/csrc/query.c) that groups block ids into reads.
pub mod Covers
pub mod Order
use Prim.Native.String.{String}
use skip_zfp.Prelude.{
  ℕ, zero, suc, ◌+◌, ◌*◌, ◌%◌, ◌^◌, Bool, true, false, ◌&&◌, ◌||◌, Option, none, some, List, [],
  ◌∷◌, map, ltb, leb, ◌==◌, if◌then◌else◌, length, get_elem?, Result, ok, err, ◌>>=◌, ◌>>◌,
  raise_if, sequence, value_error, index_error, ℤ, pos_part, is_negative,
}
use skip_zfp.Native.{Outcome, sz_ok, sz_err, sz_err_arg, check}

-- A block's id is its chunk and its number in the chunk. `chunk_ids` and `block_ids`, two arrays
-- of the same length that the code passes side by side, are one list of ids.
abbrev pub BlockId : Type 0
BlockId = ℕ × ℕ

abbrev pub Ids : Type 0
Ids = List BlockId

-- one entry of out_chunk, out_first, out_last and out_item_start
pub record Run : Type 0 where
  pub chunk : ℕ
  pub first : ℕ
  pub last : ℕ
  pub item : ℕ

-- `out_chunk[m] = chunk_ids[i]` and so on
abbrev pub new_run : ℕ → ℕ → ℕ → Run
new_run c b i = record { chunk = c; first = b; last = b; item = i }

abbrev pub emit : Run → Outcome (List Run) → Outcome (List Run)
emit r (sz_ok rs) = sz_ok (r ∷ rs)
emit r (sz_err e) = sz_err e

-- the ids at `i - 1` and `i` are out of order
abbrev pub disordered : ℕ → ℕ → ℕ → ℕ → Bool
disordered pc pb c b = ltb c pc || (c == pc && leb b pb)

-- the id joins the last run; the sum with the gap is a uint64
abbrev pub joins : ℕ → Run → ℕ → ℕ → Bool
joins gap run c b = c == run.chunk && leb b ((run.last + gap + 1) % 2 ^ 64)

-- the loop of szfp_merge_ranges from index `i` on: `(pc, pb)` is the id before it and `run` the
-- last entry of the outputs
unfoldable pub merge_loop : (gap pc pb : ℕ) (run : Run) (i : ℕ) → Ids → Outcome (List Run)
merge_loop gap pc pb run i [] = sz_ok (run ∷ [])
merge_loop gap pc pb run i ((c, b) ∷ rest) =
    let joined = merge_loop gap c b (record run { last = b }) (i + 1) rest in
    let opened = emit run (merge_loop gap c b (new_run c b i) (i + 1) rest) in
    if disordered pc pb c b then sz_err sz_err_arg else if joins gap run c b then joined else opened

-- The caller's arrays are never NULL. The gap is a size_t, so it comes modulo 2^64.
unfoldable pub szfp_merge_ranges : Ids → ℕ → Outcome (List Run)
unfolding merge_loop
szfp_merge_ranges [] gap = sz_ok []
szfp_merge_ranges ((c, b) ∷ rest) gap = merge_loop (gap % 2 ^ 64) c b (new_run c b 0) 1 rest

-- `_Native.merge`
unfoldable pub merge : Ids → ℕ → Result (List Run)
unfolding szfp_merge_ranges
merge ids gap = check "szfp_merge_ranges" (szfp_merge_ranges ids gap)

-- `_Range`
pub record Range : Type 0 where
  pub key : String
  pub start : ℕ
  pub end : ℕ

-- `_MergedRange`
pub record MergedRange : Type 0 where
  pub key : String
  pub start : ℕ
  pub end : ℕ
  pub first_block : ℕ
  pub item_start : ℕ
  pub item_end : ℕ

-- `chunk << 32 | block`: the block is a uint32, so the or is a sum
abbrev pub sort_key : BlockId → ℕ
sort_key (c, b) = c * 2 ^ 32 + b

-- `np.all(key[1:] > key[:-1])`
unfoldable pub is_ascending : Ids → Bool
is_ascending [] = true
is_ascending (x ∷ []) = true
is_ascending (x ∷ y ∷ ids) = ltb (sort_key x) (sort_key y) && is_ascending (y ∷ ids)

abbrev pub not_after : BlockId → BlockId → Bool
not_after (c, b) (c', b') = ltb c c' || (c == c' && leb b b')

unfoldable pub insert_id : BlockId → Ids → Ids
insert_id x [] = x ∷ []
insert_id x (y ∷ ids) =
    let rest = insert_id x ids in if not_after x y then x ∷ y ∷ ids else y ∷ rest

-- the ids in the order of `np.lexsort((block_ids, chunk_ids))`: by chunk, then by block
unfoldable pub lexsort : Ids → Ids
unfolding insert_id
lexsort [] = []
lexsort (x ∷ ids) = insert_id x (lexsort ids)

-- The ids that the merge is given, in chunk order. The planner's are already, and are not sorted.
unfoldable pub in_order : Ids → Ids
unfolding is_ascending lexsort
in_order ids = if is_ascending ids then ids else lexsort ids

-- the runs beside `item_end = np.r_[out_item[1:], n]`
unfoldable pub with_ends : ℕ → List Run → List (Run × ℕ)
with_ends n [] = []
with_ends n (r ∷ []) = (r, n) ∷ []
with_ends n (r ∷ s ∷ rs) = (r, s.item) ∷ with_ends n (s ∷ rs)

-- one read of the list comprehension, `keys[int(c)]` with its exception
unfoldable pub to_range : List String → ℕ → ℕ → Run × ℕ → Result MergedRange
to_range keys block_size base (r, e) = elim (get_elem? keys r.chunk) [
  | none ↦ err (index_error "list index out of range")
  | some k ↦ ok (record {
    key = k;
    start = base + r.first * block_size;
    end = base + (r.last + 1) * block_size;
    first_block = r.first;
    item_start = r.item;
    item_end = e;
  })
]

abbrev pub block_of : BlockId → ℕ
block_of (c, b) = b

unfoldable pub merge_ranges :
    List String
    → Ids
    → (block_size : ℕ) (merge_gap_blocks : ℤ) (base : ℕ) → Result (List MergedRange × List ℕ)
unfolding in_order merge with_ends to_range
merge_ranges keys ids block_size gap base = do
  raise_if (is_negative gap) (value_error "merge_gap_blocks must be non-negative")
  if length ids == 0 then ok ([], []) else do
    let sorted = in_order ids
    runs ← merge sorted (pos_part gap)
    out ← sequence (map (to_range keys block_size base) (with_ends (length sorted) runs))
    ok (out, map block_of sorted)
