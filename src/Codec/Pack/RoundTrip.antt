-- ===== src/Codec/Pack/RoundTrip.antt =====
-- unpack gives back what pack has stored, up to what libzfp loses.
use skip_zfp.Prelude.{
  ℕ, ◌*◌, ◌≡◌, sym, ap, subst, ◌∙◌, Bool, true, false, List, drop, flat_map, length, prod, All,
  All-map, arith, ok, ◌>>=◌, Bool-cases, inl, inr, list_eq_sound,
}
use skip_zfp.Floats.{Floats}
use skip_zfp.Layout.{blocks_axis, chunk_coords}
use skip_zfp.Codec.Config.{Codec, unit, plain, layer_bytes, post_init, chunk_shape}
use skip_zfp.Codec.Encode.{Zfp, IsLawful, encode, decode}
use skip_zfp.Codec.Units.{NdArray, slices_at, take_slices, unit_axes, unit_slices, block_rank}
use skip_zfp.Codec.Units.Ravel.{Within, chunk_coords-Within}
use skip_zfp.Codec.Units.Members.{In-chunk_coords, All-In}
use skip_zfp.Codec.Pack.{rows_of, pack, unpack}
use skip_zfp.Codec.Pack.Rows.{the_rank-IsRank, axes, rows_read, pack-Stored}
use skip_zfp.Codec.Pack.Order.{IsRank}
use skip_zfp.Codec.Pack.Encoded.{ok-injective}
use skip_zfp.Codec.Pack.Plain.{decode-shape, first_index, encode_single_unit, unit_coord_single}
use skip_zfp.Codec.Pack.Grid.{Tiles, chunk_shape-Shaped}
use skip_zfp.Codec.Pack.Paste.{unit_coord, put_units, put_units-shape, put_units-at}
use skip_zfp.Codec.Pack.Units.{unpack_units_lem}

drop_none : (m : ℕ) (rows : List (List ℕ)) → drop (0 * m) rows ≡ rows
drop_none m rows = let e : 0 * m ≡ 0 = omega arith in ap (λ k. drop k rows) e

module _ (F : Floats) (z : Zfp F) (law : IsLawful F z) (blank : F.Single) (blank_byte : ℕ) where
  -- The array of the shape holds, in every unit, the values of the array that `dec` gives for it.
  pub record Holds (shape u : List ℕ) (dec : List ℕ → NdArray F.Single) (out : NdArray F.Single)
      : Type 0 where
    pub shape_is : out.shape ≡ shape
    pub values :
        All
          (λ idx. All (λ r. out.at (unit_coord u idx r) ≡ (dec idx).at r) (chunk_coords u))
          (chunk_coords (unit_axes shape u))

  every_unit :
      (shape u : List ℕ) (dec : List ℕ → NdArray F.Single) (out : NdArray F.Single)
      → out.shape ≡ shape
      → ((idx r : List ℕ)
          → Within (unit_axes shape u) idx
          → Within u r
          → out.at (unit_coord u idx r) ≡ (dec idx).at r)
      → Holds shape u dec out
  every_unit shape u dec out e h = record {
    shape_is = e;
    values =
        All-map (Within (unit_axes shape u)) _
          (λ idx w.
            All-map (Within u) (λ r. out.at (unit_coord u idx r) ≡ (dec idx).at r)
              (λ r v. h idx r w v) (chunk_coords u) (chunk_coords-Within u))
          (chunk_coords (unit_axes shape u)) (chunk_coords-Within (unit_axes shape u));
  }

  module _ (b c : Codec) (arr : NdArray F.Single) (float32 : Bool) (dec : List ℕ → NdArray F.Single)
      (accepted : post_init b ≡ ok c)
      (shaped : chunk_shape c arr.shape float32 ≡ ok arr.shape) where
    abbrev the_unit : List ℕ
    the_unit = unit c arr.shape

    abbrev the_rank : List ℕ
    the_rank = block_rank (unit c arr.shape) c.block_order c.block_dim

    abbrev the_grid : List ℕ
    the_grid = unit_axes arr.shape (unit c arr.shape)

    abbrev ranks : IsRank (prod (blocks_axis c.block_dim the_unit)) the_rank
    ranks = the_rank-IsRank F b c arr float32 accepted shaped

    -- Every unit is encoded, and libzfp decodes its bytes to the array that `dec` says.
    abbrev pub UnitsDecode : Type 0
    UnitsDecode =
        All
          (λ idx.
            (encode F z (take_slices arr (slices_at the_unit idx)) c.rate c.block_dim >>= λ bytes.
            decode F z blank bytes the_unit c.rate c.block_dim)
            ≡ ok (dec idx))
          (chunk_coords the_grid)

    unit_decodes :
        UnitsDecode
        → (idx : List ℕ) → Within the_grid idx
        → (bytes : List ℕ)
        → encode F z (take_slices arr (slices_at the_unit idx)) c.rate c.block_dim ≡ ok bytes
        → decode F z blank bytes the_unit c.rate c.block_dim ≡ ok (dec idx)
    unit_decodes units idx w bytes e =
        subst (λ m. (m >>= λ t. decode F z blank t the_unit c.rate c.block_dim) ≡ ok (dec idx)) e
          (All-In _ idx (chunk_coords the_grid) (In-chunk_coords the_grid idx w) units)

    abbrev Unpacked : List ℕ → Type 0
    Unpacked buf =
        (out : NdArray F.Single) × (unpack F z blank blank_byte c buf arr.shape ≡ ok out)
        × Holds arr.shape the_unit dec out

    blank_array : NdArray F.Single
    blank_array = record { shape = arr.shape; at = λ coord. blank }

    unpack_several :
        (buf : List ℕ)
        → UnitsDecode
        → plain c arr.shape ≡ false
        → pack F z blank blank_byte c arr ≡ ok buf
        → Unpacked buf
    unfolding pack unpack blank_array unit_slices
    unpack_several buf units several h =
        let js = chunk_coords the_grid in
        let lens : All (λ j. length j ≡ length the_unit) js =
          All-map (Within the_grid) (λ j. length j ≡ length the_unit)
            (axes F b c arr float32 accepted shaped) js (chunk_coords-Within the_grid) in
        let stored =
          pack-Stored F b c arr float32 accepted shaped z law blank blank_byte buf several h in
        let rss = stored.rss in
        let p = stored.rows in
        let bytes = stored.bytes in
        let read =
          subst
            (λ t.
              rows_of (prod (blocks_axis c.block_dim arr.shape)) (layer_bytes c) t
              ≡ ok (flat_map (λ r. r) rss))
            bytes (rows_read F b c arr float32 accepted shaped z law blank blank_byte rss p) in
        let done =
          unpack_units_lem F z law blank blank_byte c arr the_unit the_rank ranks dec
            (flat_map (λ r. r) rss) 0 js rss blank_array
            (drop_none (length the_rank) (flat_map (λ r. r) rss)) p
            (All-map (Within the_grid) _ (unit_decodes units) js (chunk_coords-Within the_grid)) in
        (
          put_units the_unit dec js blank_array,
          rw (several, read) done,
          every_unit arr.shape the_unit dec _ (put_units-shape the_unit dec js blank_array)
              (λ idx r w v.
                put_units-at the_unit dec idx r (axes F b c arr float32 accepted shaped idx w) v js
                  blank_array lens (In-chunk_coords the_grid idx w)),
        )

    unit_is_shape : plain c arr.shape ≡ true → arr.shape ≡ the_unit
    unfolding plain
    unit_is_shape h = sym (list_eq_sound the_unit arr.shape (ground arith))

    unpack_plain :
        (buf : List ℕ)
        → UnitsDecode
        → plain c arr.shape ≡ true
        → pack F z blank blank_byte c arr ≡ ok buf
        → Unpacked buf
    unfolding pack unpack
    unpack_plain buf units single h =
        let same = unit_is_shape single in
        let t = (chunk_shape-Shaped b c arr.shape float32 accepted shaped).tiles in
        let whole : encode F z arr c.rate c.block_dim ≡ ok buf = rw single at h in
        let decoded : (idx : List ℕ)
            → Within the_grid idx
            → decode F z blank buf the_unit c.rate c.block_dim ≡ ok (dec idx) =
          λ idx w.
            unit_decodes units idx w buf
              (encode_single_unit F z arr c.rate c.block_dim idx the_unit same t w ∙ whole) in
        let (origin, inside') = first_index c.block_dim the_unit arr.shape t in
        let out = decoded origin inside' in
        (
          dec origin,
          rw single (ap (λ s. decode F z blank buf s c.rate c.block_dim) same ∙ out),
          every_unit arr.shape the_unit dec _
              (decode-shape F z blank buf the_unit (dec origin) c.rate c.block_dim out ∙ sym same)
              (λ idx r w v.
                ap (dec origin).at (unit_coord_plain idx r same t w v)
                ∙ ap (λ a. a.at r) (ok-injective (dec origin) (dec idx) (sym out ∙ decoded idx w))),
        )
      where
        unit_coord_plain :
            (idx r : List ℕ)
            → arr.shape ≡ the_unit
            → Tiles c.block_dim the_unit arr.shape
            → Within the_grid idx
            → Within the_unit r
            → unit_coord the_unit idx r ≡ r
        unit_coord_plain idx r e =
            subst
              (λ s.
                Tiles c.block_dim the_unit s
                → Within (unit_axes s the_unit) idx
                → Within the_unit r
                → unit_coord the_unit idx r ≡ r)
              (sym e) (λ t w v. unit_coord_single c.block_dim the_unit idx r t w v)

    -- For a codec that `__post_init__` accepts, a chunk whose shape chunk_shape accepts, and a
    -- libzfp that fills the buffer it is given, let every unit of the chunk be encoded and its
    -- bytes be decoded to an array `dec idx`. When pack returns bytes, unpack of these returns an
    -- array of the chunk's shape that holds the values of `dec idx` in the place of every unit
    -- `idx`, for every block order, sub-chunk shape and number of layers.
    pub unpack-pack :
        (buf : List ℕ)
        → UnitsDecode
        → pack F z blank blank_byte c arr ≡ ok buf
        → (out : NdArray F.Single) × (unpack F z blank blank_byte c buf arr.shape ≡ ok out)
          × Holds arr.shape (unit c arr.shape) dec out
    unpack-pack buf units h = elim (Bool-cases (plain c arr.shape)) [
      | inl single ↦ unpack_plain buf units single h
      | inr several ↦ unpack_several buf units several h
    ]
