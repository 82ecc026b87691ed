-- ===== src/Codec/Pack/Size.antt =====
-- A chunk that is stored takes the bytes that compute_encoded_size says.
use skip_zfp.Prelude.{
  ℕ, ◌*◌, ◌/◌, ◌≡◌, sym, ◌∙◌, Bool, true, false, List, length, prod, ok, arith, bind_inv,
  Bool-cases, inl, inr,
}
use skip_zfp.Floats.{Floats}
use skip_zfp.Layout.{blocks_axis, layout}
use skip_zfp.Layout.Sizes.{data_size_lem}
use skip_zfp.Codec.Config.{Codec, plain, post_init, chunk_shape}
use skip_zfp.Codec.Encode.{Zfp, IsLawful, encode}
use skip_zfp.Codec.Units.{NdArray, items}
use skip_zfp.Codec.Pack.{pack, compute_encoded_size}
use skip_zfp.Codec.Pack.Encoded.{ok-injective, length-encode_shape}
use skip_zfp.Codec.Pack.Rows.{pack-Stored, length-Stored}

module _ (F : Floats) (z : Zfp F) (law : IsLawful F z) (blank : F.Single) (blank_byte : ℕ)
    (b c : Codec) (arr : NdArray F.Single) (float32 : Bool) (accepted : post_init b ≡ ok c)
    (shaped : chunk_shape c arr.shape float32 ≡ ok arr.shape) where
  sized :
      (size : ℕ)
      → compute_encoded_size c arr.shape float32 ≡ ok size
      → (sizes : ℕ × ℕ) × (layout arr.shape c.rate c.block_dim ≡ ok sizes) × (sizes.0 ≡ size)
  unfolding compute_encoded_size
  sized size h =
      let k = rw shaped at h in
      let (sizes, made, e) = bind_inv (layout arr.shape c.rate c.block_dim) k in
      (sizes, made, ok-injective sizes.0 size e)

  length-pack-plain :
      (buf : List ℕ) (sizes : ℕ × ℕ)
      → plain c arr.shape ≡ true
      → pack F z blank blank_byte c arr ≡ ok buf
      → layout arr.shape c.rate c.block_dim ≡ ok sizes
      → length buf ≡ sizes.0
  unfolding pack encode
  length-pack-plain buf sizes single h k =
      length-encode_shape F z law arr.shape (items arr) c.rate c.block_dim buf sizes
        (rw single at h) k

  length-pack_several :
      (buf : List ℕ) (sizes : ℕ × ℕ)
      → plain c arr.shape ≡ false
      → pack F z blank blank_byte c arr ≡ ok buf
      → layout arr.shape c.rate c.block_dim ≡ ok sizes
      → length buf ≡ sizes.0
  length-pack_several buf sizes several h k =
      length-Stored F b c arr float32 accepted shaped z law blank blank_byte buf
        (pack-Stored F b c arr float32 accepted shaped z law blank blank_byte buf several h)
      ∙ swap (prod (blocks_axis c.block_dim arr.shape)) (c.rate / 8)
      ∙ sym (data_size_lem arr.shape b c sizes accepted k)
    where
      swap : (x y : ℕ) → x * y ≡ y * x
      swap x y = grind arith

  -- For a codec that `__post_init__` accepts, a chunk whose shape chunk_shape accepts, and a libzfp
  -- that fills the buffer it is given: when pack returns bytes and compute_encoded_size a size, the
  -- bytes are of that size.
  pub length-pack :
      (buf : List ℕ) (size : ℕ)
      → pack F z blank blank_byte c arr ≡ ok buf
      → compute_encoded_size c arr.shape float32 ≡ ok size
      → length buf ≡ size
  length-pack buf size h k =
      let (sizes, made, e) = sized size k in
      elim (Bool-cases (plain c arr.shape)) [
        | inl single ↦ length-pack-plain buf sizes single h made ∙ e
        | inr several ↦ length-pack_several buf sizes several h made ∙ e
      ]
