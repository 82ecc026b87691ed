-- ===== src/Query/Layers.antt =====
-- skipzfp/query.py: _query_async where the layer is above 0, whose reads must all arrive before a
-- block can be decoded: the choice of the reads, the rows assembled from them and the count.
use Prim.Native.Nat.{Ordering}
use Prim.Native.String.{String, compare}
use text.Mathlib.Text.{◌==◌ as str_eq}
use skip_zfp.Prelude.{
  ℕ, zero, suc, ◌+◌, ◌-◌, ◌*◌, ◌/◌, Bool, true, false, Option, none, some, List, [], ◌∷◌, ◌++◌, map,
  any, ltb, if◌then◌else◌, length, get_elem?, get_or, take, drop, slice, replicate, flat_map, zip,
  cumsum, range, sum, Result, ok, err, ◌>>=◌, sequence, index_error, ℤ,
}
use skip_zfp.Floats.{Floats}
use skip_zfp.Layout.{Layout}
use skip_zfp.Codec.MetaPack.{reshape}
use skip_zfp.Query.Merge.{Ids, Range, MergedRange, merge_ranges, lexsort}
use skip_zfp.Query.Read.{Store, read_ranges}
use skip_zfp.Query.Stream.{range_of}
use skip_zfp.Query.Count.{count}

-- the reads and the sorted blocks of each layer up to `layer`
unfoldable pub per_layer :
    List String → Ids → Layout → (gap : ℤ) (layer : ℕ) → Result (List (List MergedRange × List ℕ))
unfolding merge_ranges
per_layer keys ids lt gap layer = sequence (
    map (λ j. merge_ranges keys ids (get_or lt.layer_bytes j 0) gap (get_or lt.layer_starts j 0))
      (range (layer + 1)))

-- `cols`: where the bytes of each layer begin in a row, and the end
unfoldable pub columns : Layout → ℕ → List ℕ
columns lt layer = cumsum (0 ∷ take (layer + 1) lt.layer_bytes)

-- `sorted` of a set of strings
abbrev pub str_lt : String → String → Bool
str_lt a b = elim (compare a b) [ Ordering.lt ↦ true | Ordering.eq ↦ false | Ordering.gt ↦ false ]

unfoldable pub insert_key : String → List String → List String
insert_key k [] = k ∷ []
insert_key k (x ∷ xs) =
    let rest = insert_key k xs in
    if str_lt k x then k ∷ x ∷ xs else if str_eq k x then x ∷ xs else x ∷ rest

-- `per_key[k]`
unfoldable pub reads_of : String → List MergedRange → ℕ
reads_of k [] = 0
reads_of k (req ∷ reqs) = (if str_eq k req.key then 1 else 0) + reads_of k reqs

-- `sorted(dense)`: the keys of more reads than the limit
unfoldable pub dense_from : ℕ → List MergedRange → List MergedRange → List String
unfolding insert_key reads_of
dense_from limit all [] = []
dense_from limit all (req ∷ reqs) =
    let rest = dense_from limit all reqs in
    if ltb limit (reads_of req.key all) then insert_key req.key rest else rest

unfoldable pub dense : ℕ → List MergedRange → List String
unfolding dense_from
dense limit reqs = dense_from limit reqs reqs

-- one entry of `fills`: a merged read of a layer, or the layer prefix of a whole chunk
pub data Fill : Type 0 where
  part : ℕ → MergedRange → Fill
  whole : String → Fill

unfoldable pub part_fills : List String → ℕ → List MergedRange → List Fill
part_fills ks j [] = []
part_fills ks j (req ∷ reqs) =
    let rest = part_fills ks j reqs in
    if any (λ k. str_eq k req.key) ks then rest else part j req ∷ rest

-- `payload_reqs` with `fills` beside it
unfoldable pub fills_from : List String → ℕ → List (List MergedRange × List ℕ) → List Fill
unfolding part_fills
fills_from ks j [] = map whole ks
fills_from ks j ((merged, blocks) ∷ rest) = part_fills ks j merged ++ fills_from ks (j + 1) rest

abbrev pub fill_range : ℕ → Fill → Range
fill_range prefix_end (part j req) = range_of req
fill_range prefix_end (whole k) = record { key = k; start = 0; end = prefix_end }

-- `out[i:, c0:c1] = segs`
unfoldable pub write_rows : ℕ → ℕ → ℕ → List (List ℕ) → List (List ℕ) → List (List ℕ)
write_rows zero c0 c1 (seg ∷ segs) (row ∷ rows) =
    (take c0 row ++ (seg ++ drop c1 row)) ∷ write_rows zero c0 c1 segs rows
write_rows (suc i) c0 c1 segs (row ∷ rows) = row ∷ write_rows i c0 c1 segs rows
write_rows i c0 c1 segs rows = rows

-- `xs.reshape(-1, width)[rows]`, with its exception
unfoldable pub rows_at : ℕ → List ℕ → List ℕ → Result (List (List ℕ))
unfolding reshape
rows_at width buf rows =
    let cut = reshape (length buf / width) width buf in
    sequence (
      map
        (λ r. elim (get_elem? cut r) [
          | none ↦ err (index_error "index out of bounds")
          | some row ↦ ok row
        ])
        rows)

-- `chunk_of[k]`: the last chunk with the key
unfoldable pub chunk_of_from : ℕ → List String → String → Option ℕ
chunk_of_from i [] k = none
chunk_of_from i (x ∷ xs) k =
    let later = chunk_of_from (i + 1) xs k in
    elim later [ some c ↦ some c | none ↦ if str_eq x k then some i else none ]

unfoldable pub chunk_of : List String → String → Result ℕ
unfolding chunk_of_from
chunk_of keys k = elim (chunk_of_from 0 keys k) [ none ↦ err (index_error "key") | some c ↦ ok c ]

-- `np.searchsorted(sorted_chunks, c)`
unfoldable pub searchsorted : List ℕ → ℕ → ℕ
searchsorted [] c = 0
searchsorted (x ∷ xs) c = if ltb x c then suc (searchsorted xs c) else 0

-- what assembling the rows reads: the layout, the keys, the layer and the blocks in order
pub record Assembly : Type 0 where
  pub layout : Layout
  pub keys : List String
  pub layer : ℕ
  pub sorted_blocks : List ℕ
  pub sorted_chunks : List ℕ

abbrev pub col : Assembly → ℕ → ℕ
col a j = get_or (columns a.layout a.layer) j 0

-- the layers of a chunk prefix from `j` on, `n` of them, for the blocks `ids` whose rows begin at `i`
unfoldable pub write_layers :
    Assembly → List ℕ → ℕ → List ℕ → (n j : ℕ) → List (List ℕ) → Result (List (List ℕ))
unfolding rows_at write_rows columns
write_layers a buf i ids zero j out = ok out
write_layers a buf i ids (suc n) j out =
    let lt = a.layout in
    let width = get_or lt.layer_bytes j 0 in
    let start = get_or lt.layer_starts j 0 in
    do
      segs ← rows_at width (slice buf start (start + lt.blocks_per_chunk * width)) ids
      write_layers a buf i ids n (j + 1) (write_rows i (col a j) (col a (j + 1)) segs out)

-- one round of the loop over the parts
unfoldable pub write_fill : Assembly → List ℕ → Fill → List (List ℕ) → Result (List (List ℕ))
unfolding rows_at write_rows columns chunk_of searchsorted write_layers
write_fill a buf (part j req) out = do
  segs ←
      rows_at (get_or a.layout.layer_bytes j 0) buf
        (map (λ b. b - req.first_block) (slice a.sorted_blocks req.item_start req.item_end))
  ok (write_rows req.item_start (col a j) (col a (j + 1)) segs out)
write_fill a buf (whole k) out = do
  c ← chunk_of a.keys k
  let b_lo = searchsorted a.sorted_chunks c
  let b_hi = searchsorted a.sorted_chunks (c + 1)
  write_layers a buf b_lo (slice a.sorted_blocks b_lo b_hi) (a.layer + 1) 0 out

unfoldable pub write_fills :
    Assembly → List (List ℕ × Fill) → List (List ℕ) → Result (List (List ℕ))
unfolding write_fill
write_fills a [] out = ok out
write_fills a ((buf, f) ∷ fills) out = do next ← write_fill a buf f out; write_fills a fills next

-- `F`, `decode` and `avx512` as in Query/Count; `blank` is a byte of np.empty, which is any byte.
module _ (F : Floats) (decode : ℕ → List ℕ → List F.Single) (avx512 : Bool) (store : Store)
    (blank : ℕ) where
  -- The count, the bytes read and the number of reads. `ids` are the planner's.
  unfoldable pub count_layers :
      List String
      → Ids
      → Layout
      → (layer : ℕ) → List (List MergedRange × List ℕ)
      → (limit : ℕ) (concurrency batch : ℤ) (lo hi : F.Double) → Result (ℕ × ℕ × ℕ)
  unfolding dense fills_from columns write_fills count lexsort read_ranges
  count_layers keys ids lt layer layers limit concurrency batch lo hi =
      let sorted_blocks = get_or (map (λ p. p.1) layers) 0 [] in
      let width = get_or (columns lt layer) (layer + 1) 0 in
      let prefix_end = width * lt.blocks_per_chunk in
      let fills = fills_from (dense limit (flat_map (λ p. p.0) layers)) 0 layers in
      let rate = get_or lt.layers layer 0 in
      let a : Assembly = record {
        layout = lt;
        keys = keys;
        layer = layer;
        sorted_blocks = sorted_blocks;
        sorted_chunks = map (λ x. x.0) (lexsort ids);
      } in
      do
        parts ← read_ranges store (map (fill_range prefix_end) fills) concurrency batch
        out ←
            write_fills a (zip parts fills)
              (replicate (length sorted_blocks) (replicate width blank))
        n ←
            count F decode avx512 (flat_map (λ r. r) out) (length sorted_blocks) (rate / 8) rate
              lt.block_dim lo hi
        ok (n, sum (map length parts), length fills)
