-- ===== src/Aggregate/Stream.antt =====
-- skipzfp/aggregate.py: stream_aggregate and _read_listed. Times are left out, and so is the budget,
-- which delays a read and does not change it (Query/Budget).
pub mod Scan
pub mod Total
use Prim.Native.String.{String}
use skip_zfp.Prelude.{
  ℕ, ◌-◌, Bool, true, false, not, ◌&&◌, List, [], ◌∷◌, map, zip, ltb, length, get_or, slice, sum,
  Result, ok, err, ◌>>=◌, ◌>>◌, raise_if, sequence, runtime_error, ℤ,
}
use skip_zfp.Floats.{Floats}
use skip_zfp.Layout.{Layout}
use skip_zfp.Query.Merge.{Ids, MergedRange, merge_ranges, is_ascending}
use skip_zfp.Query.Read.{Store, read_one}
use skip_zfp.Query.Classify.{State, in', out, maybe}
use skip_zfp.Query.Plan.{Plan}
use skip_zfp.Query.Stream.{range_of, offsets_of}
use skip_zfp.Aggregate.Kernel.{Sums, Aggregate, Entry, aggregate_offsets}

-- `(states == 1).astype(np.uint8)`
abbrev pub is_in : State → Bool
is_in in' = true
is_in out = false
is_in maybe = false

module _ (F : Floats) where
  -- the offsets beside `eps[sl]` and `in_block[sl]`
  unfoldable pub entries : List ℕ → List F.Single → List Bool → List (Entry F)
  entries (o ∷ os) (e ∷ es) (f ∷ fs) =
      record { offset = o; eps = e; in_block = f } ∷ entries os es fs
  entries _ _ _ = []

module _ (F : Floats) (S : Sums F) (decode : ℕ → List ℕ → List F.Single) (store : Store) where
  -- `one(req)` inside stream_aggregate: the totals with the number of blocks, and the bytes read
  unfoldable pub aggregate_one :
      List ℕ
      → List F.Single
      → List Bool
      → (block_size rate block_dim : ℕ) (lo hi : F.Double) → MergedRange
      → Result ((Aggregate F × ℕ) × ℕ)
  unfolding read_one aggregate_offsets entries
  aggregate_one blocks eps in_block block_size rate block_dim lo hi req = do
    buf ← read_one store (range_of req)
    t ←
        aggregate_offsets F S decode buf
          (entries F (offsets_of blocks block_size req) (slice eps req.item_start req.item_end)
            (slice in_block req.item_start req.item_end))
          block_size rate block_dim lo hi
    ok ((t, req.item_end - req.item_start), req.end - req.start)

  unfoldable pub stream_aggregate :
      List MergedRange
      → List ℕ
      → List F.Single
      → List Bool
      → (block_size rate block_dim : ℕ) (lo hi : F.Double) → Result (List (Aggregate F × ℕ) × ℕ)
  unfolding aggregate_one
  stream_aggregate merged blocks eps in_block block_size rate block_dim lo hi = do
    parts ←
        sequence (map (aggregate_one blocks eps in_block block_size rate block_dim lo hi) merged)
    ok (map (λ p. p.0) parts, sum (map (λ p. p.1) parts))

  -- _read_listed, on the lists of a plan: the parts, the number of reads and the bytes. The blocks are
  -- another array than the planner's exactly when merge_ranges had to sort.
  unfoldable pub read_listed :
      List String
      → Layout
      → Ids
      → List State
      → List F.Single
      → (lo hi : F.Double) (gap : ℤ) → Result (List (Aggregate F × ℕ) × ℕ × ℕ)
  unfolding merge_ranges stream_aggregate
  read_listed keys lt ids states eps lo hi gap = do
    let bs = get_or lt.layer_bytes 0 0
    m ← merge_ranges keys ids bs gap 0
    raise_if (ltb 0 (length m.1) && not (is_ascending ids))
        (runtime_error "the planner must list blocks in chunk order")
    s ← stream_aggregate m.0 m.1 eps (map is_in states) bs (get_or lt.layers 0 0) lt.block_dim lo hi
    ok (s.0, length m.0, s.1)
