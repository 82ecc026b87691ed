-- ===== src/Codec/WriteMeta/Size.antt =====
-- The records that write_meta of skipzfp/codec.py stores have the length that meta_size says.
use skip_zfp.Prelude.{
  ℕ, suc, ◌+◌, ◌*◌, ◌/◌, ◌<◌, ◌≡◌, refl, sym, ap, subst, ◌∙◌, Bool, Bool-cases, inl, inr, true,
  false, List, [], ◌∷◌, ◌++◌, map, flat_map, ◌==◌, if◌then◌else◌, drop, slice, length, length-map,
  length-drop, length-slice, length-replicate, last_or, prod, All, All-map, Result, ok, sequence,
  bind_inv, raise_if-ok, arith,
}
use skip_zfp.Floats.{Floats}
use skip_zfp.Layout.{blocks_axis}
use skip_zfp.Codec.Config.{Codec, meta_size, post_init}
use skip_zfp.Codec.Config.Valid.{post_init-IsValid}
use skip_zfp.Codec.Nibbles.{pack_codes}
use skip_zfp.Codec.MetaPack.{reshape}
use skip_zfp.Codec.MetaPack.Rows.{length-flat_map_of}
use skip_zfp.Codec.Units.{NdArray, items, take_slices, slices_at}
use skip_zfp.Codec.Encode.{Zfp, encode, decode_shape}
use skip_zfp.Codec.Pack.Grid.{take_slices-shape}
use skip_zfp.Codec.Pack.Ranked.{length-scatter, All-scatter}
use skip_zfp.Codec.Pack.Encoded.{length-reshape, All-reshape, ok-injective}
use skip_zfp.Codec.ZoneMap.{Rounding, IsLawful, meta, meta_shape, paired}
use skip_zfp.Codec.ZoneMap.Size.{length-meta_shape, length-paired, length-four}
use skip_zfp.Codec.ErrorCodes.{Ceiling, is_zero_bound, code_of, codes_of, block_error_codes}
use skip_zfp.Codec.WriteMeta.{place, write_codes, write_record}

length-pack_codes : (q : List ℕ) → length (pack_codes q) ≡ (length q + 1) / 2
unfolding pack_codes
length-pack_codes [] = refl
length-pack_codes (a ∷ []) = refl
length-pack_codes (a ∷ b ∷ q) = omega (arith, length-pack_codes q)

last_or-All :
    {A : Type 0} (P : A → Type 0) (d : A) (xs : List A) → P d → All P xs → P (last_or d xs)
last_or-All P d [] h k = h
last_or-All P d (x ∷ xs) h (k, ks) = last_or-All P x xs k ks

-- Rows of `w` bytes that are put in another order take as many bytes.
length-place :
    (w : ℕ) (rank : List ℕ) (rows : List (List ℕ))
    → All (λ r. length r ≡ w) rows
    → length (flat_map (λ r. r) (place rank rows)) ≡ length rows * w
length-place w rank rows h =
    length-flat_map_of (λ r. r) w (place rank rows) (All-scatter w rows rank rows h h)
    ∙ ap (λ (t : ℕ). t * w) (length-scatter rows rank rows)

singles : (q : List ℕ) → All (λ r. length r ≡ 1) (map (λ k. k ∷ []) q)
singles [] = tt
singles (k ∷ q) = (refl, singles q)

module _ (F : Floats) (R : Rounding F) (round : IsLawful F R) (C : Ceiling F) (z : Zfp F)
    (blank : F.Single) where
  length-codes_of :
      (errors : List F.Double) (eps : F.Double) (codes : List ℕ)
      → codes_of F C errors eps ≡ ok codes
      → length codes ≡ length errors
  unfolding codes_of
  length-codes_of errors eps codes h =
      elim (Bool-cases (is_zero_bound F (F.widen (F.narrow eps)))) [
        | inl nothing ↦
            let a = raise_if-ok _ _ _ (rw nothing at h) in
            ap length (sym (ok-injective _ codes a.1)) ∙ length-replicate (length errors) 0
        | inr some_error ↦
            let a = raise_if-ok _ _ _ (rw some_error at h) in
            ap length (sym (ok-injective _ codes a.1))
            ∙ length-map C.to_byte (map (code_of F C (F.widen (F.narrow eps))) errors)
            ∙ length-map (code_of F C (F.widen (F.narrow eps))) errors
      ]

  length-write_codes :
      (c : Codec) (u rank : List ℕ) (x : NdArray F.Single) (m codes : List ℕ)
      → write_codes F R C z blank c u rank x m ≡ ok codes
      → length codes ≡ (prod (blocks_axis 4 u) + 1) / 2
  unfolding write_codes block_error_codes
  length-write_codes c (nx ∷ ny ∷ nz ∷ []) rank x m codes h =
      let (bytes, encoded, a) = bind_inv (encode F z x c.rate c.block_dim) h in
      let (rec, decoded, b) =
        bind_inv (decode_shape F z (nx ∷ ny ∷ nz ∷ []) bytes c.rate c.block_dim) a in
      let ps = paired F R z blank nx ny nz (items x) rec in
      let (q, made, k) = bind_inv (block_error_codes F C ps _) b in
      let count : length q ≡ prod (blocks_axis 4 (nx ∷ ny ∷ nz ∷ [])) =
        length-codes_of _ _ q made
        ∙ length-map _ ps
        ∙ length-paired F R round z blank nx ny nz (items x) rec in
      let placed : length (flat_map (λ r. r) (place rank (map (λ k. k ∷ []) q))) ≡ length q =
        length-place 1 rank (map (λ k. k ∷ []) q) (singles q)
        ∙ omega (arith, length-map {B = List ℕ} (λ k. k ∷ []) q) in
      ap length (sym (ok-injective _ codes k))
      ∙ length-pack_codes (flat_map (λ r. r) (place rank (map (λ k. k ∷ []) q)))
      ∙ ap (λ (t : ℕ). (t + 1) / 2) (placed ∙ count)
  length-write_codes c [] rank x m codes h = cc
  length-write_codes c (nx ∷ []) rank x m codes h = cc
  length-write_codes c (nx ∷ ny ∷ []) rank x m codes h = cc
  length-write_codes c (nx ∷ ny ∷ nz ∷ n ∷ u) rank x m codes h = cc

  module _ (u : List ℕ) (x : NdArray F.Single) (shape : x.shape ≡ u) where
    -- the length of a unit's record with one error bound
    abbrev pub IsRecord : List ℕ → Type 0
    IsRecord m = length m ≡ 12 + 2 * prod (blocks_axis 4 u)

    length-meta :
        (rate dim : ℕ) (m : List ℕ) → dim ≡ 4 → meta F R z blank x rate dim ≡ ok m → IsRecord m
    unfolding meta
    length-meta rate dim m four h = length-meta_shape F R round z blank u (items x) rate m (
        ap (λ t. meta_shape F R z blank u (items x) rate t) (sym four)
        ∙ ap (λ t. meta_shape F R z blank t (items x) rate dim) (sym shape)
        ∙ h)

    pub sequence-IsRecord :
        (dim : ℕ) (rates : List ℕ) (per : List (List ℕ))
        → dim ≡ 4
        → sequence (map (λ r. meta F R z blank x r dim) rates) ≡ ok per
        → All IsRecord per × (length per ≡ length rates)
    sequence-IsRecord dim [] per four h =
        subst (λ p. All IsRecord p × (length p ≡ 0)) (ok-injective [] per h) (tt, refl)
    sequence-IsRecord dim (r ∷ rates) per four h =
        let (m, first, a) = bind_inv (meta F R z blank x r dim) h in
        let (rest, later, b) = bind_inv (sequence (map (λ r. meta F R z blank x r dim) rates)) a in
        let (each, count) = sequence-IsRecord dim rates rest four later in
        subst (λ p. All IsRecord p × (length p ≡ suc (length rates)))
          (ok-injective (m ∷ rest) per b) ((length-meta r dim m four first, each), ap suc count)

    -- the error bounds of the layers
    length-bounds :
        (per : List (List ℕ))
        → All IsRecord per
        → length (flat_map (λ m. slice m 8 12) per) ≡ length per * 4
    length-bounds per h =
        length-flat_map_of (λ m. slice m 8 12) 4 per
          (All-map IsRecord (λ m. length (slice m 8 12) ≡ 4)
            (λ m e. length-slice m 8 12 (omega (arith, e))) per h)

    pub last-IsRecord :
        (per : List (List ℕ)) → 0 < length per → All IsRecord per → IsRecord (last_or [] per)
    last-IsRecord [] h k = absurd (omega arith)
    last-IsRecord (m ∷ per) h (k, ks) = last_or-All IsRecord m per k ks

    -- the offsets of the blocks, in storage order
    length-ranked :
        (rank last : List ℕ)
        → IsRecord last
        → length
            (flat_map (λ r. r) (place rank (reshape (length (drop 12 last) / 2) 2 (drop 12 last))))
          ≡ 2 * prod (blocks_axis 4 u)
    length-ranked rank last e =
        let n = prod (blocks_axis 4 u) in
        let bytes : length (drop 12 last) ≡ 2 * n = omega (arith, length-drop 12 last) in
        let rows : length (drop 12 last) / 2 ≡ n = omega (arith, bytes) in
        length-place 2 rank (reshape (length (drop 12 last) / 2) 2 (drop 12 last))
          (All-reshape (length (drop 12 last) / 2) 2 (drop 12 last) (omega (arith, bytes)))
        ∙ omega (arith, length-reshape (length (drop 12 last) / 2) 2 (drop 12 last), rows)

  -- the codes, which a codec may not have
  length_optional :
      (none_kept : Bool) (call : Result (List ℕ)) (codes : List ℕ) (k : ℕ)
      → (if none_kept then ok [] else call) ≡ ok codes
      → (call ≡ ok codes → length codes ≡ k)
      → length codes ≡ (if none_kept then 0 else k)
  length_optional true call codes k h next = ap length (sym (ok-injective [] codes h))
  length_optional false call codes k h next = next h

  -- For a codec that `__post_init__` accepts, an index with as many axes as the unit, and floats of
  -- four bytes each: a record that write_meta computes for a unit has the length that meta_size
  -- says, with and without error codes and for every number of layers.
  pub length-write_record :
      (b c : Codec) (u rank : List ℕ) (values : NdArray F.Single) (idx bytes : List ℕ)
      → post_init b ≡ ok c
      → length idx ≡ length u
      → write_record F R C z blank c u rank values idx ≡ ok bytes
      → length bytes ≡ meta_size c u
  unfolding write_record meta_size
  length-write_record b c u rank values idx bytes accepted axes h =
      let valid = post_init-IsValid b c accepted in
      let x = take_slices values (slices_at u idx) in
      let shape = take_slices-shape values u idx axes in
      let (per, computed, a) =
        bind_inv (sequence (map (λ r. meta F R z blank x r c.block_dim) c.layers)) h in
      let (each, count) = sequence-IsRecord u x shape c.block_dim c.layers per valid.dim computed in
      let last = last_or [] per in
      let some_record : 0 < length per = omega (arith, count, valid.some_layer) in
      let full = last-IsRecord u x shape per some_record each in
      let dims : prod (blocks_axis 4 u) ≡ prod (blocks_axis c.block_dim u) =
        ap (λ t. prod (blocks_axis t u)) (sym valid.dim) in
      let (codes, kept, k) =
        bind_inv
          (if c.block_error_bits == 0 then ok [] else write_codes F R C z blank c u rank x last)
          a in
      let optional =
        length_optional (c.block_error_bits == 0) _ codes
          ((prod (blocks_axis c.block_dim u) + 1) / 2) kept
          (λ e. length-write_codes c u rank x last codes e ∙ ap (λ (t : ℕ). (t + 1) / 2) dims) in
      let offs =
        flat_map (λ r. r) (place rank (reshape (length (drop 12 last) / 2) 2 (drop 12 last))) in
      let epss = flat_map (λ m. slice m 8 12) per in
      omega (
        arith,
        ap length (ok-injective (slice last 0 8 ++ epss ++ offs ++ codes) bytes k),
        length-four (slice last 0 8) epss offs codes,
        length-slice last 0 8 (omega (arith, full)),
        length-bounds u x shape per each,
        count,
        length-ranked u x shape rank last full,
        dims,
        optional,
      )
