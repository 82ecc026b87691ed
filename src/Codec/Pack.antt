-- ===== src/Codec/Pack.antt =====
-- skipzfp/codec.py: SkipZFPCodec.pack and SkipZFPCodec.unpack, with _encode_single and
-- _decode_single, which zarr calls. A row is the bytes of one block.
pub mod Columns
pub mod Ranked
pub mod Order
pub mod Encoded
pub mod Grid
pub mod Paste
pub mod Units
pub mod Plain
pub mod Rows
pub mod RoundTrip
pub mod Size
use skip_zfp.Prelude.{
  ℕ, zero, suc, ◌+◌, ◌*◌, ◌/◌, ◌%◌, Bool, not, ◌||◌, List, [], ◌∷◌, ◌++◌, map, zip, ◌==◌, all,
  if◌then◌else◌, length, get_or, set, drop, init, slice, replicate, flat_map, cumsum, prod, Result,
  ok, err, ◌>>=◌, ◌>>◌, raise_if, sequence, value_error,
}
use skip_zfp.Floats.{Floats}
use skip_zfp.Layout.{blocks_axis, layout}
use skip_zfp.Codec.Config.{Codec, unit, plain, layer_bytes, chunk_shape}
use skip_zfp.Codec.MetaPack.{reshape}
use skip_zfp.Codec.Encode.{Zfp, encode, decode}
use skip_zfp.Codec.Units.{
  NdArray, Slices, items, of_items, take_slices, put_slices, unit_slices, block_rank,
}

-- `xs.reshape(n, -1)`
unfoldable pub reshape_rows : ℕ → List ℕ → Result (List (List ℕ))
unfolding reshape
reshape_rows n xs = do
  raise_if (n == 0 || not (length xs % n == 0)) (value_error "cannot reshape array")
  ok (reshape n (length xs / n) xs)

-- `ranked[rank] = rows`
unfoldable pub scatter : List (List ℕ) → List ℕ → List (List ℕ) → List (List ℕ)
scatter out (k ∷ ks) (r ∷ rs) = scatter (set out k r) ks rs
scatter out _ _ = out

-- `ranked[rank]`
unfoldable pub gather : List (List ℕ) → List ℕ → List (List ℕ)
gather rows rank = map (λ k. get_or rows k []) rank

-- `zip(cuts[:-1], cuts[1:])`
unfoldable pub cut_pairs : List ℕ → List (ℕ × ℕ)
cut_pairs sizes = let cuts = cumsum (0 ∷ sizes) in zip (init cuts) (drop 1 cuts)

-- the bytes of the rows, layer by layer
unfoldable pub by_layer : List ℕ → List (List ℕ) → List ℕ
unfolding cut_pairs
by_layer sizes rows = flat_map (λ ab. flat_map (λ r. slice r ab.0 ab.1) rows) (cut_pairs sizes)

-- `np.concatenate(parts, axis=1)` of parts of `n` rows
abbrev pub beside : List (List ℕ) → List (List ℕ) → List (List ℕ)
beside (r ∷ rs) (s ∷ ss) = (r ++ s) ∷ beside rs ss
beside _ _ = []

unfoldable pub hjoin : ℕ → List (List (List ℕ)) → List (List ℕ)
hjoin n [] = replicate n []
hjoin n (p ∷ ps) = beside p (hjoin n ps)

-- the rows again from the bytes, layer by layer
unfoldable pub rows_of : ℕ → List ℕ → List ℕ → Result (List (List ℕ))
unfolding reshape_rows hjoin cut_pairs
rows_of n sizes buf = do
  parts ←
      sequence
        (map (λ ab. reshape_rows n (slice buf ab.0 ab.1)) (cut_pairs (map (λ b. n * b) sizes)))
  ok (hjoin n parts)

-- `compute_encoded_size(input_byte_length, chunk_spec)`, which forgets its first argument
unfoldable pub compute_encoded_size : Codec → (spec_shape : List ℕ) (float32 : Bool) → Result ℕ
unfolding chunk_shape layout
compute_encoded_size c spec_shape float32 = do
  shape ← chunk_shape c spec_shape float32
  sizes ← layout shape c.rate c.block_dim
  ok sizes.0

-- `F` the floats and `z` libzfp; `blank` and `blank_byte` what np.empty holds.
module _ (F : Floats) (z : Zfp F) (blank : F.Single) (blank_byte : ℕ) where
  -- the rows of one unit, in storage order
  unfoldable pub pack_unit : Codec → List ℕ → NdArray F.Single → Slices → Result (List (List ℕ))
  unfolding encode reshape_rows scatter take_slices
  pack_unit c rank arr sl = do
    bytes ← encode F z (take_slices arr sl) c.rate c.block_dim
    r ← reshape_rows (length rank) bytes
    ok (scatter (map (λ row. map (λ b. blank_byte) row) r) rank r)

  unfoldable pub pack : Codec → NdArray F.Single → Result (List ℕ)
  unfolding plain unit encode pack_unit by_layer unit_slices block_rank layer_bytes
  pack c arr =
      let u = unit c arr.shape in
      let rank = block_rank u c.block_order c.block_dim in
      if plain c arr.shape then encode F z arr c.rate c.block_dim else do
        rows ← sequence (map (pack_unit c rank arr) (unit_slices arr.shape u))
        ok (by_layer (layer_bytes c) (flat_map (λ r. r) rows))

  -- the loop of unpack over the units, from unit `i` on
  unfoldable pub unpack_units :
      Codec
      → (u rank : List ℕ) (rows : List (List ℕ)) (i : ℕ) → List Slices
      → NdArray F.Single
      → Result (NdArray F.Single)
  unfolding decode gather put_slices
  unpack_units c u rank rows i [] out = ok out
  unpack_units c u rank rows i (sl ∷ sls) out = do
    let ranked = slice rows (i * length rank) ((i + 1) * length rank)
    v ← decode F z blank (flat_map (λ r. r) (gather ranked rank)) u c.rate c.block_dim
    unpack_units c u rank rows (i + 1) sls (put_slices out sl v)

  unfoldable pub unpack : Codec → List ℕ → (shape : List ℕ) → Result (NdArray F.Single)
  unfolding plain unit decode unpack_units rows_of unit_slices block_rank layer_bytes
  unpack c buf shape =
      let u = unit c shape in
      let rank = block_rank u c.block_order c.block_dim in
      let n = prod (blocks_axis c.block_dim shape) in
      let out : NdArray F.Single = record { shape = shape; at = λ coord. blank } in
      if plain c shape then decode F z blank buf shape c.rate c.block_dim else do
        rows ← rows_of n (layer_bytes c) buf
        unpack_units c u rank rows 0 (unit_slices shape u) out

  -- _encode_single, from the values of the chunk; `finite` is np.isfinite
  unfoldable pub encode_single :
      Codec
      → (finite : F.Single → Bool) → (spec_shape : List ℕ) (float32 : Bool) → List F.Single
      → Result (List ℕ)
  unfolding chunk_shape of_items items pack
  encode_single c finite spec_shape float32 values = do
    shape ← chunk_shape c spec_shape float32
    let arr = of_items blank shape values
    raise_if (not (all finite (items arr)))
        (value_error "SkipZFP cannot encode NaN or infinite values")
    pack c arr

  -- _decode_single
  unfoldable pub decode_single :
      Codec → (spec_shape : List ℕ) (float32 : Bool) → List ℕ → Result (NdArray F.Single)
  unfolding chunk_shape unpack
  decode_single c spec_shape float32 buf = do
    shape ← chunk_shape c spec_shape float32
    unpack c buf shape
