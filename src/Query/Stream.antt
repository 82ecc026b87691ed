-- ===== src/Query/Stream.antt =====
-- skipzfp/query.py: stream_count, which reads each merged range and counts its blocks. Times and
-- traces are left out, and so is the budget, which delays a read and does not change it
-- (Query/Budget).
pub mod Scan
pub mod Reads
pub mod Total
use skip_zfp.Prelude.{
  ℕ, ◌+◌, ◌-◌, ◌*◌, ◌^◌, Bool, List, map, leb, if◌then◌else◌, slice, sum, Result, ok, ◌>>=◌,
  sequence,
}
use skip_zfp.Floats.{Floats}
use skip_zfp.Query.Merge.{Range, MergedRange}
use skip_zfp.Query.Read.{Store, read_one}
use skip_zfp.Query.Count.{count_offsets}

-- `(rows * block_size).astype(np.uint64)` for one block, `rows` being an int64: a negative product
-- wraps. The product stays below 2^63, since a block number is below 2^32 and a block below 2^31
-- bytes.
abbrev pub row_offset : ℕ → ℕ → ℕ → ℕ
row_offset first_block block_size b =
    if leb first_block b
    then (b - first_block) * block_size
    else 2 ^ 64 - (first_block - b) * block_size

abbrev pub range_of : MergedRange → Range
range_of req = record { key = req.key; start = req.start; end = req.end }

-- the offsets of a read's blocks in the bytes read
abbrev pub offsets_of : List ℕ → ℕ → MergedRange → List ℕ
offsets_of blocks block_size req =
    map (row_offset req.first_block block_size) (slice blocks req.item_start req.item_end)

module _ (F : Floats) (decode : ℕ → List ℕ → List F.Single) (avx512 : Bool) (store : Store) where
  -- `one(req)` inside stream_count: the count and the bytes read
  unfoldable pub count_one :
      List ℕ → (block_size rate block_dim : ℕ) (lo hi : F.Double) → MergedRange → Result (ℕ × ℕ)
  unfolding read_one count_offsets
  count_one blocks block_size rate block_dim lo hi req = do
    buf ← read_one store (range_of req)
    n ←
        count_offsets F decode avx512 buf (offsets_of blocks block_size req) block_size rate
          block_dim lo hi
    ok (n, req.end - req.start)

  unfoldable pub stream_count :
      List MergedRange
      → List ℕ
      → (block_size rate block_dim : ℕ) (lo hi : F.Double) → Result (ℕ × ℕ)
  unfolding count_one
  stream_count merged blocks block_size rate block_dim lo hi = do
    parts ← sequence (map (count_one blocks block_size rate block_dim lo hi) merged)
    ok (sum (map (λ p. p.0) parts), sum (map (λ p. p.1) parts))
