-- ===== src/Codec/Encode.antt =====
-- skipzfp/csrc/core.c and codec.c: szfp_encode and szfp_decode, with the wrappers _Native.encode and
-- _Native.decode of skipzfp/codec.py. libzfp's coder is a parameter; the pointers are never NULL.
use skip_zfp.Prelude.{
  ℕ, ◌*◌, ◌/◌, ◌%◌, ◌^◌, ◌≡◌, not, ◌||◌, List, [], ◌∷◌, ltb, leb, ◌==◌, if◌then◌else◌, length,
  Result, ok, err, ◌>>=◌, ◌>>◌, raise_if, value_error, runtime_error,
}
use skip_zfp.Floats.{Floats}
use skip_zfp.Native.{Outcome, sz_ok, sz_err, sz_err_arg, sz_err_size, check}
use skip_zfp.Layout.{bad_shape, layout}
use skip_zfp.Codec.Units.{NdArray, items, of_items}

-- libzfp in its fixed-rate mode, as compress_chunk and the end of szfp_decode call it: from values in
-- C order to a buffer of `size` bytes, and back. Either may fail with a code.
pub record Zfp (F : Floats) : Type 0 where
  pub compress : (shape : List ℕ) (rate : ℕ) → List F.Single → (size : ℕ) → Outcome (List ℕ)
  pub decompress : (shape : List ℕ) (rate : ℕ) → List ℕ → Outcome (List F.Single)

-- The stream is written into the buffer that it is given.
pub record IsLawful (F : Floats) (z : Zfp F) : Type 0 where
  pub length-compress :
      (shape : List ℕ) (rate : ℕ) (values : List F.Single) (size : ℕ) (bytes : List ℕ)
      → z.compress shape rate values size ≡ sz_ok bytes
      → length bytes ≡ size

-- data_size and nblk of szfp_calc_layout
abbrev pub payload_size : ℕ → ℕ → ℕ → ℕ → ℕ
payload_size nx ny nz rate = nx * ny * nz * rate / 512

abbrev pub n_blocks : ℕ → ℕ → ℕ → ℕ → ℕ
n_blocks nx ny nz block_dim = nx / block_dim * (ny / block_dim) * (nz / block_dim)

module _ (F : Floats) (z : Zfp F) where
  -- a rate is a number of 64ths, so `64.0 * rate / 8.0` bytes are an eighth of it
  unfoldable pub szfp_encode :
      (nx ny nz rate block_dim capacity : ℕ) → List F.Single → Outcome (List ℕ)
  unfolding bad_shape
  szfp_encode nx ny nz rate block_dim capacity chunk =
      let data_size = payload_size nx ny nz rate in
      let nblk = n_blocks nx ny nz block_dim in
      if bad_shape nx ny nz rate block_dim
      then sz_err sz_err_arg
      else if ltb capacity data_size
      then sz_err sz_err_size
      else if not (data_size % nblk == 0) || not (data_size / nblk * 8 == rate)
      then sz_err sz_err_arg
      else z.compress (nx ∷ ny ∷ nz ∷ []) rate chunk data_size

  unfoldable pub szfp_decode :
      (nx ny nz rate block_dim out_count : ℕ) → List ℕ → Outcome (List F.Single)
  unfolding bad_shape
  szfp_decode nx ny nz rate block_dim out_count src =
      if leb (2 ^ 64) (nx * ny * nz)
      then sz_err sz_err_size
      else if ltb out_count (nx * ny * nz)
      then sz_err sz_err_size
      else if bad_shape nx ny nz rate block_dim
      then sz_err sz_err_arg
      else if not (length src == payload_size nx ny nz rate)
      then sz_err sz_err_size
      else z.decompress (nx ∷ ny ∷ nz ∷ []) rate src

  -- _Native.encode
  unfoldable pub encode_shape : List ℕ → List F.Single → (rate block_dim : ℕ) → Result (List ℕ)
  unfolding layout szfp_encode
  encode_shape (nx ∷ ny ∷ nz ∷ []) values rate block_dim = do
    sizes ← layout (nx ∷ ny ∷ nz ∷ []) rate block_dim
    out ← check "szfp_encode" (szfp_encode nx ny nz rate block_dim sizes.0 values)
    raise_if (not (payload_size nx ny nz rate == sizes.0))
        (runtime_error "szfp_encode returned unexpected size")
    ok out
  encode_shape _ values rate block_dim =
      err (value_error "SkipZFP currently only supports 3D chunks")

  unfoldable pub encode : NdArray F.Single → (rate block_dim : ℕ) → Result (List ℕ)
  unfolding encode_shape items
  encode arr rate block_dim = encode_shape arr.shape (items arr) rate block_dim

  -- _Native.decode; its callers have made sure of three axes
  unfoldable pub decode_shape : List ℕ → List ℕ → (rate block_dim : ℕ) → Result (List F.Single)
  unfolding szfp_decode
  decode_shape (nx ∷ ny ∷ nz ∷ []) buf rate block_dim =
      check "szfp_decode" (szfp_decode nx ny nz rate block_dim (nx * ny * nz) buf)
  decode_shape _ buf rate block_dim = err (value_error "SkipZFP currently only supports 3D chunks")

  -- `blank` is what an item out of range would read; there is none
  unfoldable pub decode :
      F.Single → List ℕ → List ℕ → (rate block_dim : ℕ) → Result (NdArray F.Single)
  unfolding decode_shape of_items
  decode blank buf shape rate block_dim = do
    values ← decode_shape shape buf rate block_dim
    ok (of_items blank shape values)
