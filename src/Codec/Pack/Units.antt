-- ===== src/Codec/Pack/Units.antt =====
-- pack and unpack of a chunk of several units, layers or orders, unit by unit.
use skip_zfp.Prelude.{
  ℕ, ◌+◌, ◌-◌, ◌*◌, ◌/◌, ◌<◌, ◌≡◌, refl, sym, ap, ap₂, subst, ◌∙◌, List, [], ◌∷◌, map, flat_map,
  take, drop, drop-drop, take-append, drop-append, slice, length, length-append, length-map, prod,
  All, All-append, arith, ok, Result, ◌>>=◌, sequence, bind_inv,
}
use skip_zfp.Floats.{Floats}
use skip_zfp.Layout.{blocks_axis}
use skip_zfp.Codec.Config.{Codec}
use skip_zfp.Codec.Encode.{Zfp, IsLawful, encode, encode_shape, decode}
use skip_zfp.Codec.Units.{NdArray, items, take_slices, put_slices, slices_at}
use skip_zfp.Codec.Pack.{reshape_rows, scatter, gather, pack_unit, unpack_units}
use skip_zfp.Codec.Pack.Ranked.{gather-scatter, length-scatter, All-scatter}
use skip_zfp.Codec.Pack.Order.{IsRank}
use skip_zfp.Codec.Pack.Encoded.{
  reshape_rows-Rows, flat_map-reshape, length-reshape, All-reshape, encode_shape_inv, ok-injective,
}
use skip_zfp.Codec.Pack.Grid.{take_slices-shape}
use skip_zfp.Codec.Pack.Paste.{put_units}

module _ (F : Floats) (z : Zfp F) (law : IsLawful F z) (blank : F.Single) (blank_byte : ℕ)
    (c : Codec) (arr : NdArray F.Single) (u rank : List ℕ)
    (ranks : IsRank (prod (blocks_axis c.block_dim u)) rank) where
  -- the bytes of unit `idx` before its blocks are ordered
  abbrev pub unit_bytes : List ℕ → Result (List ℕ)
  unit_bytes idx = encode F z (take_slices arr (slices_at u idx)) c.rate c.block_dim

  -- The rows that pack_unit returned for a unit.
  pub record Packed (idx : List ℕ) (rs : List (List ℕ)) : Type 0 where
    pub bytes : List ℕ
    pub encoded : unit_bytes idx ≡ ok bytes
    pub back : flat_map (λ r. r) (gather rs rank) ≡ bytes
    pub count : length rs ≡ length rank
    pub widths : All (λ r. length r ≡ c.rate / 8) rs
    pub some_row : 0 < length rank

  blanks :
      (w : ℕ) (rows : List (List ℕ))
      → All (λ r. length r ≡ w) rows
      → All (λ r. length r ≡ w) (map (λ row. map (λ b. blank_byte) row) rows)
  blanks w [] h = tt
  blanks w (r ∷ rows) (e, h) = (length-map (λ b. blank_byte) r ∙ e, blanks w rows h)

  pub pack_unit-Packed :
      (idx : List ℕ) (rs : List (List ℕ))
      → length idx ≡ length u
      → pack_unit F z blank blank_byte c rank arr (slices_at u idx) ≡ ok rs
      → Packed idx rs
  unfolding pack_unit encode
  pack_unit-Packed idx rs axes h =
      let (bytes, encoded, a) = bind_inv (unit_bytes idx) h in
      let (r, cut, b) = bind_inv (reshape_rows (length rank) bytes) a in
      let rows = reshape_rows-Rows (length rank) bytes r cut in
      let made : scatter (map (λ row. map (λ k. blank_byte) row) r) rank r ≡ rs =
        ok-injective _ rs b in
      let n_rows : length r ≡ length rank =
        ap length (sym rows.result)
        ∙ length-reshape (length rank) (length bytes / length rank) bytes in
      let width : length bytes / length rank ≡ c.rate / 8 =
        ap (λ (t : ℕ). length bytes / t) ranks.count
        ∙ encode_shape_inv F z law u (items (take_slices arr (slices_at u idx))) c.rate c.block_dim
            bytes
            (ap
                (λ s.
                  encode_shape F z s (items (take_slices arr (slices_at u idx))) c.rate c.block_dim)
                (sym (take_slices-shape arr u idx axes))
              ∙ encoded) in
      let lens : All (λ row. length row ≡ c.rate / 8) r =
        subst (λ k. All (λ row. length row ≡ k) r) width
          (subst (All (λ row. length row ≡ length bytes / length rank)) rows.result
            (All-reshape (length rank) (length bytes / length rank) bytes rows.exact)) in
      let blank_rows = map (λ row. map (λ k. blank_byte) row) r in
      let places : length blank_rows ≡ length rank = length-map _ r ∙ n_rows in
      subst (Packed idx) made (record {
        bytes = bytes;
        encoded = encoded;
        back =
            ap (flat_map (λ row. row)) (
              gather-scatter blank_rows rank r ranks.distinct
                (subst (λ n. All (λ k. k < n) rank) (sym ranks.count ∙ sym places) ranks.below)
                n_rows)
            ∙ ap (flat_map (λ row. row)) (sym rows.result)
            ∙ flat_map-reshape (length rank) (length bytes / length rank) bytes rows.exact;
        count = length-scatter blank_rows rank r ∙ places;
        widths = All-scatter (c.rate / 8) blank_rows rank r (blanks (c.rate / 8) r lens) lens;
        some_row = rows.some_row;
      })

  -- the rows of the units, one by one
  abbrev pub AllPacked : List (List ℕ) → List (List (List ℕ)) → Type 0
  AllPacked [] [] = Unit
  AllPacked (j ∷ js) (rs ∷ rss) = Packed j rs × AllPacked js rss
  AllPacked [] (rs ∷ rss) = ⊥
  AllPacked (j ∷ js) [] = ⊥

  pub sequence-AllPacked :
      (js : List (List ℕ)) (rss : List (List (List ℕ)))
      → All (λ j. length j ≡ length u) js
      → sequence (map (pack_unit F z blank blank_byte c rank arr) (map (slices_at u) js)) ≡ ok rss
      → AllPacked js rss
  sequence-AllPacked [] rss a h = subst (AllPacked []) (ok-injective [] rss h) tt
  sequence-AllPacked (j ∷ js) rss (e, a) h =
      let (rs, first, k) = bind_inv (pack_unit F z blank blank_byte c rank arr (slices_at u j)) h in
      let (rest, later, l) =
        bind_inv (sequence (map (pack_unit F z blank blank_byte c rank arr) (map (slices_at u) js)))
          k in
      subst (AllPacked (j ∷ js)) (ok-injective (rs ∷ rest) rss l)
        (pack_unit-Packed j rs e first, sequence-AllPacked js rest a later)

  pub length-AllPacked :
      (js : List (List ℕ)) (rss : List (List (List ℕ)))
      → AllPacked js rss
      → length (flat_map (λ r. r) rss) ≡ length js * length rank
  length-AllPacked [] [] p = omega arith
  length-AllPacked [] (rs ∷ rss) p = absurd p
  length-AllPacked (j ∷ js) [] p = absurd p
  length-AllPacked (j ∷ js) (rs ∷ rss) (p, ps) =
      omega (arith, length-append rs (flat_map (λ r. r) rss), length-AllPacked js rss ps, p.count)

  pub some_row-AllPacked :
      (js : List (List ℕ)) (rss : List (List (List ℕ)))
      → AllPacked js rss
      → 0 < length js
      → 0 < length rank
  some_row-AllPacked [] rss p h = absurd (omega arith)
  some_row-AllPacked (j ∷ js) [] p h = absurd p
  some_row-AllPacked (j ∷ js) (rs ∷ rss) (p, ps) h = p.some_row

  pub widths-AllPacked :
      (js : List (List ℕ)) (rss : List (List (List ℕ)))
      → AllPacked js rss
      → All (λ r. length r ≡ c.rate / 8) (flat_map (λ r. r) rss)
  widths-AllPacked [] [] p = tt
  widths-AllPacked [] (rs ∷ rss) p = absurd p
  widths-AllPacked (j ∷ js) [] p = absurd p
  widths-AllPacked (j ∷ js) (rs ∷ rss) (p, ps) =
      All-append (λ r. length r ≡ c.rate / 8) rs (flat_map (λ r. r) rss) p.widths
        (widths-AllPacked js rss ps)

  module _ (dec : List ℕ → NdArray F.Single) where
    -- A unit's bytes decode.
    abbrev pub Decodes : List ℕ → Type 0
    Decodes idx =
        (bytes : List ℕ)
        → unit_bytes idx ≡ ok bytes
        → decode F z blank bytes u c.rate c.block_dim ≡ ok (dec idx)

    pub unpack_units_lem :
        (rows : List (List ℕ)) (i : ℕ) (js : List (List ℕ)) (rss : List (List (List ℕ)))
        (out : NdArray F.Single)
        → drop (i * length rank) rows ≡ flat_map (λ r. r) rss
        → AllPacked js rss
        → All Decodes js
        → unpack_units F z blank blank_byte c u rank rows i (map (slices_at u) js) out
          ≡ ok (put_units u dec js out)
    unfolding unpack_units put_units
    unpack_units_lem rows i [] [] out e p d = refl
    unpack_units_lem rows i [] (rs ∷ rss) out e p d = absurd p
    unpack_units_lem rows i (j ∷ js) [] out e p d = absurd p
    unpack_units_lem rows i (j ∷ js) (rs ∷ rss) out e (p, ps) (d, ds) =
        let m = length rank in
        let own : slice rows (i * m) ((i + 1) * m) ≡ rs =
          ap₂ (λ k xs. take k xs) (next_width i m) e
          ∙ take-append m rs (flat_map (λ r. r) rss) (sym p.count) in
        let later : drop ((i + 1) * m) rows ≡ flat_map (λ r. r) rss =
          sym (drop-drop (i * m) m ((i + 1) * m) rows (next i m))
          ∙ ap (drop m) e
          ∙ drop-append m rs (flat_map (λ r. r) rss) (sym p.count) in
        ap
          (λ (t : List (List ℕ)).
            decode F z blank (flat_map (λ r. r) (gather t rank)) u c.rate c.block_dim >>= λ v.
            unpack_units F z blank blank_byte c u rank rows (i + 1) (map (slices_at u) js)
              (put_slices out (slices_at u j) v))
          own
        ∙ ap
            (λ (t : Result (NdArray F.Single)). t >>= λ v.
              unpack_units F z blank blank_byte c u rank rows (i + 1) (map (slices_at u) js)
                (put_slices out (slices_at u j) v))
            (ap (λ b. decode F z blank b u c.rate c.block_dim) p.back ∙ d p.bytes p.encoded)
        ∙ unpack_units_lem rows (i + 1) js rss (put_slices out (slices_at u j) (dec j)) later ps ds
      where
        next : (a b : ℕ) → a * b + b ≡ (a + 1) * b
        next a b = grind arith

        next_width : (a b : ℕ) → (a + 1) * b - a * b ≡ b
        next_width a b = let e' : (a + 1) * b ≡ a * b + b = grind arith in omega arith
