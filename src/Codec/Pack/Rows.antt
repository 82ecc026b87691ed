-- ===== src/Codec/Pack/Rows.antt =====
-- The rows of all units of a chunk that chunk_shape accepts, read again from the stored bytes.
use skip_zfp.Prelude.{
  ℕ, ◌*◌, ◌/◌, ◌<◌, ◌≡◌, sym, ap, ap₂, subst, ◌∙◌, Bool, false, not, List, [], ◌∷◌, map, flat_map,
  length, prod, All, All-map, arith, ok, sequence, bind_inv, list_eq, list_eq_sound,
}
use skip_zfp.Floats.{Floats}
use skip_zfp.Layout.{blocks_axis, chunk_coords}
use skip_zfp.Codec.Config.{Codec, unit, plain, sorted, layer_bytes, post_init, chunk_shape}
use skip_zfp.Codec.Config.Valid.{
  post_init-IsValid, post_init-Checked, post_init_again, sum-layer_bytes,
}
use skip_zfp.Codec.Encode.{Zfp, IsLawful}
use skip_zfp.Codec.Units.{NdArray, slices_at, unit_axes, unit_slices, block_rank}
use skip_zfp.Codec.Units.Ravel.{Within, length-Within, chunk_coords-Within, length-chunk_coords}
use skip_zfp.Codec.Pack.{pack_unit, rows_of, by_layer, pack}
use skip_zfp.Codec.Pack.Columns.{rows_of-by_layer, length-by_layer}
use skip_zfp.Codec.Pack.Order.{IsRank, block_rank-IsRank}
use skip_zfp.Codec.Pack.Encoded.{ok-injective}
use skip_zfp.Codec.Pack.Grid.{
  chunk_shape-Shaped, length-unit_axes, prod-blocks_axis, prod-unit_axes,
}
use skip_zfp.Codec.Pack.Units.{
  AllPacked, sequence-AllPacked, length-AllPacked, some_row-AllPacked, widths-AllPacked,
}

module _ (F : Floats) (b c : Codec) (arr : NdArray F.Single) (float32 : Bool)
    (accepted : post_init b ≡ ok c) (shaped : chunk_shape c arr.shape float32 ≡ ok arr.shape) where
  abbrev the_unit : List ℕ
  the_unit = unit c arr.shape

  abbrev the_rank : List ℕ
  the_rank = block_rank (unit c arr.shape) c.block_order c.block_dim

  abbrev the_grid : List ℕ
  the_grid = unit_axes arr.shape (unit c arr.shape)

  pub the_rank-IsRank : IsRank (prod (blocks_axis c.block_dim the_unit)) the_rank
  the_rank-IsRank =
      block_rank-IsRank the_unit c.block_order c.block_dim
        (chunk_shape-Shaped b c arr.shape float32 accepted shaped).three
        (sorted_of (sorted c.block_order)
          (post_init-Checked c c (post_init_again b c accepted)).order)
    where
      sorted_of : (xs : List ℕ) → not (list_eq xs (0 ∷ 1 ∷ 2 ∷ [])) ≡ false → xs ≡ 0 ∷ 1 ∷ 2 ∷ []
      sorted_of xs h = list_eq_sound xs (0 ∷ 1 ∷ 2 ∷ []) (ground arith)

  pub axes : (idx : List ℕ) → Within the_grid idx → length idx ≡ length the_unit
  axes idx w =
      length-Within the_grid idx w
      ∙ length-unit_axes c.block_dim the_unit arr.shape
          (chunk_shape-Shaped b c arr.shape float32 accepted shaped).tiles

  module _ (z : Zfp F) (law : IsLawful F z) (blank : F.Single) (blank_byte : ℕ) where
    abbrev pub AllStored : List (List (List ℕ)) → Type 0
    AllStored rss =
        AllPacked F z law blank blank_byte c arr the_unit the_rank the_rank-IsRank
          (chunk_coords the_grid) rss

    pub n_rows :
        (rss : List (List (List ℕ)))
        → AllStored rss
        → prod (blocks_axis c.block_dim arr.shape) ≡ length (flat_map (λ r. r) rss)
    n_rows rss p =
        let s = chunk_shape-Shaped b c arr.shape float32 accepted shaped in
        let dim : 0 < c.block_dim = omega (arith, (post_init-IsValid b c accepted).dim) in
        prod-blocks_axis c.block_dim the_unit arr.shape dim s.tiles
        ∙ ap₂ (λ (x y : ℕ). x * y) (sym (length-chunk_coords the_grid)) (sym the_rank-IsRank.count)
        ∙ sym (
            length-AllPacked F z law blank blank_byte c arr the_unit the_rank the_rank-IsRank
              (chunk_coords the_grid) rss p)

    some_rows : (rss : List (List (List ℕ))) → AllStored rss → 0 < length (flat_map (λ r. r) rss)
    some_rows rss p =
        let s = chunk_shape-Shaped b c arr.shape float32 accepted shaped in
        let units : 0 < length (chunk_coords the_grid) =
          subst (λ n. 0 < n) (sym (length-chunk_coords the_grid))
            (prod-unit_axes c.block_dim the_unit arr.shape s.tiles) in
        subst (λ n. 0 < n)
          (sym (
            length-AllPacked F z law blank blank_byte c arr the_unit the_rank the_rank-IsRank
              (chunk_coords the_grid) rss p))
          (positive _ _ units (
            some_row-AllPacked F z law blank blank_byte c arr the_unit the_rank the_rank-IsRank
              (chunk_coords the_grid) rss p units))
      where
        positive : (x y : ℕ) → 0 < x → 0 < y → 0 < x * y
        positive x y h k = grind arith

    -- the rows of all units, read again
    pub rows_read :
        (rss : List (List (List ℕ)))
        → AllStored rss
        → rows_of
            (prod (blocks_axis c.block_dim arr.shape))
            (layer_bytes c)
            (by_layer (layer_bytes c) (flat_map (λ r. r) rss))
          ≡ ok (flat_map (λ r. r) rss)
    rows_read rss p =
        let rows = flat_map (λ r. r) rss in
        ap (λ n. rows_of n (layer_bytes c) (by_layer (layer_bytes c) rows)) (n_rows rss p)
        ∙ rows_of-by_layer (layer_bytes c) rows (some_rows rss p) (
            subst (λ n. All (λ r. length r ≡ n) rows) (sym (sum-layer_bytes b c accepted))
              (widths-AllPacked F z law blank blank_byte c arr the_unit the_rank the_rank-IsRank
                (chunk_coords the_grid) rss p))

    -- the rows that pack has stored
    pub record Stored (buf : List ℕ) : Type 0 where
      pub rss : List (List (List ℕ))
      pub rows : AllStored rss
      pub bytes : by_layer (layer_bytes c) (flat_map (λ r. r) rss) ≡ buf

    pub pack-Stored :
        (buf : List ℕ)
        → plain c arr.shape ≡ false
        → pack F z blank blank_byte c arr ≡ ok buf
        → Stored buf
    unfolding pack unit_slices
    pack-Stored buf several h =
        let js = chunk_coords the_grid in
        let (rss, made, k) =
          bind_inv
            (sequence
              (map (pack_unit F z blank blank_byte c the_rank arr) (map (slices_at the_unit) js)))
            (rw several at h) in
        record {
          rss = rss;
          rows =
              sequence-AllPacked F z law blank blank_byte c arr the_unit the_rank the_rank-IsRank js
                rss
                (All-map (Within the_grid) (λ j. length j ≡ length the_unit) axes js
                  (chunk_coords-Within the_grid))
                made;
          bytes = ok-injective (by_layer (layer_bytes c) (flat_map (λ r. r) rss)) buf k;
        }

    -- Every block is stored once, in as many bytes as its rate says.
    pub length-Stored :
        (buf : List ℕ)
        → Stored buf
        → length buf ≡ prod (blocks_axis c.block_dim arr.shape) * (c.rate / 8)
    length-Stored buf s =
        let rows = flat_map (λ r. r) s.rss in
        let sizes = sum-layer_bytes b c accepted in
        ap length (sym s.bytes)
        ∙ length-by_layer (layer_bytes c) rows (
            subst (λ n. All (λ r. length r ≡ n) rows) (sym sizes)
              (widths-AllPacked F z law blank blank_byte c arr the_unit the_rank the_rank-IsRank
                (chunk_coords the_grid) s.rss s.rows))
        ∙ ap₂ (λ (x y : ℕ). x * y) (sym (n_rows s.rss s.rows)) sizes
