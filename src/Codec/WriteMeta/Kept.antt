-- ===== src/Codec/WriteMeta/Kept.antt =====
-- What plan_meta of skipzfp/query.py keeps of a record that write_meta of skipzfp/codec.py computed.
use mathlib.Core.List.{append_assoc}
use skip_zfp.Prelude.{
  ℕ, ◌+◌, ◌*◌, ◌-◌, ◌/◌, ◌≤◌, ◌<◌, ◌≡◌, refl, sym, ap, ap₂, ◌∙◌, subst, List, [], ◌++◌, map,
  flat_map, take, drop, slice, length, length-slice, get_or, last_or, ◌==◌, if◌then◌else◌, All,
  All-map, take-append, drop-append, drop-drop, take-split, ok, sequence, bind_inv, arith,
}
use skip_zfp.Floats.{Floats}
use skip_zfp.Layout.{Layout}
use skip_zfp.Codec.Config.{Codec, meta_size, post_init}
use skip_zfp.Codec.Config.Valid.{post_init-IsValid}
use skip_zfp.Codec.MetaPack.{reshape}
use skip_zfp.Codec.MetaPack.Rows.{length-flat_map_of}
use skip_zfp.Codec.Units.{NdArray, items, take_slices, slices_at}
use skip_zfp.Codec.Encode.{Zfp}
use skip_zfp.Codec.Pack.Grid.{take_slices-shape}
use skip_zfp.Codec.Pack.Encoded.{ok-injective}
use skip_zfp.Codec.ZoneMap.{Rounding, IsLawful, meta}
use skip_zfp.Codec.ZoneMap.Header.{take-meta_shape}
use skip_zfp.Codec.ErrorCodes.{Ceiling}
use skip_zfp.Codec.WriteMeta.Records.{
  row_at, record_at, sequence_at, sequence-All, last_call, All_at,
}
use skip_zfp.Codec.WriteMeta.{place, write_codes, write_record}
use skip_zfp.Codec.WriteMeta.Size.{IsRecord, sequence-IsRecord, last-IsRecord, length-write_record}
use skip_zfp.Query.Meta.{keep_layer, plan_meta}
use skip_zfp.Query.Meta.Layer.{plan_meta_lem}
use skip_zfp.Query.Result.{single_size}

-- the record of layer `l` of a record with the bounds of all layers
keep_layer-record :
    (head offs codes : List ℕ) (per : List (List ℕ)) (l : ℕ)
    → length head ≡ 8
    → All (λ m. length (slice m 8 12) ≡ 4) per
    → l < length per
    → let bytes = head ++ flat_map (λ m. slice m 8 12) per ++ offs ++ codes in
      keep_layer (length per) l bytes
      ≡ head ++ (slice (get_or per l []) 8 12 ++ drop (8 + 4 * length per) bytes)
keep_layer-record head offs codes per l h each k =
    let bounds = flat_map (λ m. slice m 8 12) per in
    let bytes = head ++ bounds ++ offs ++ codes in
    let nested : bytes ≡ head ++ (bounds ++ (offs ++ codes)) =
      append_assoc (head ++ bounds) offs codes ∙ append_assoc head bounds (offs ++ codes) in
    let places : 4 * l ≡ l * 4 = omega arith in
    let width : 12 + 4 * l - (8 + 4 * l) ≡ 4 = omega arith in
    ap₂ (λ a b. a ++ (b ++ drop (8 + 4 * length per) bytes))
      (ap (take 8) nested ∙ take-append 8 head (bounds ++ (offs ++ codes)) (sym h))
      (ap (λ (n : ℕ). take n (drop (8 + 4 * l) bytes)) width
        ∙ ap (take 4) (
            sym (drop-drop 8 (4 * l) (8 + 4 * l) bytes refl)
            ∙ ap (drop (4 * l))
                (ap (drop 8) nested ∙ drop-append 8 head (bounds ++ (offs ++ codes)) (sym h)))
        ∙ ap (λ (n : ℕ). take 4 (drop n (bounds ++ (offs ++ codes)))) places
        ∙ row_at (λ m. slice m 8 12) 4 per (offs ++ codes) l each k)

-- the same, with the head from the record of the layer
keep_layer-parts :
    (head offs codes bytes : List ℕ) (per : List (List ℕ)) (n l : ℕ)
    → length head ≡ 8
    → All (λ m. length (slice m 8 12) ≡ 4) per
    → l < length per
    → head ++ flat_map (λ m. slice m 8 12) per ++ offs ++ codes ≡ bytes
    → length per ≡ n
    → head ≡ take 8 (get_or per l [])
    → keep_layer n l bytes ≡ take 12 (get_or per l []) ++ drop (8 + 4 * n) bytes
keep_layer-parts head offs codes bytes per n l h each k whole count same =
    let m = get_or per l [] in
    let all = head ++ flat_map (λ m. slice m 8 12) per ++ offs ++ codes in
    let d = drop (8 + 4 * length per) all in
    subst (λ t. keep_layer n l t ≡ take 12 m ++ drop (8 + 4 * n) t) whole
      (subst (λ (i : ℕ). keep_layer i l all ≡ take 12 m ++ drop (8 + 4 * i) all) count
        (keep_layer-record head offs codes per l h each k
          ∙ ap (λ t. t ++ (slice m 8 12 ++ d)) same
          ∙ sym (append_assoc (take 8 m) (slice m 8 12) d)
          ∙ ap (λ t. t ++ d) (sym (take-split 8 4 m))))

-- a record has room for the bounds of all layers
fits :
    (c : Codec) (u : List ℕ) (lt : Layout)
    → lt.layers ≡ c.layers
    → lt.meta_size ≡ meta_size c u
    → 8 + 4 * length lt.layers ≤ lt.meta_size
unfolding meta_size
fits c u lt el es = omega (arith, ap length el, es)

module _ (F : Floats) (R : Rounding F) (round : IsLawful F R) (C : Ceiling F) (z : Zfp F)
    (blank : F.Single) where
  -- The record of a unit, cut down to layer `l`.
  keep_layer-write_record :
      (b c : Codec) (u rank : List ℕ) (values : NdArray F.Single) (idx bytes : List ℕ) (l : ℕ)
      → post_init b ≡ ok c
      → length idx ≡ length u
      → write_record F R C z blank c u rank values idx ≡ ok bytes
      → l < length c.layers
      → (m : List ℕ) × (meta F R z blank
            (take_slices values (slices_at u idx))
            (get_or c.layers l 0)
            c.block_dim
          ≡ ok m)
        × (keep_layer (length c.layers) l bytes ≡ take 12 m ++ drop (8 + 4 * length c.layers) bytes)
  unfolding write_record meta
  keep_layer-write_record b c u rank values idx bytes l accepted axes h k =
      let valid = post_init-IsValid b c accepted in
      let x = take_slices values (slices_at u idx) in
      let shape = take_slices-shape values u idx axes in
      let call = λ (r : ℕ). meta F R z blank x r c.block_dim in
      let (per, computed, a) = bind_inv (sequence (map call c.layers)) h in
      let (each, count) =
        sequence-IsRecord F R round C z blank u x shape c.block_dim c.layers per valid.dim
          computed in
      let (codes, kept, e) =
        bind_inv
          (if c.block_error_bits == 0
            then ok []
            else write_codes F R C z blank c u rank x (last_or [] per))
          a in
      let (p, last) = last_call call c.layers per valid.some_layer computed in
      let m = get_or per l [] in
      let made = sequence_at call c.layers per 0 [] l computed k in
      let some_record : 0 < length per = omega (arith, count, valid.some_layer) in
      let full = last-IsRecord F R round C z blank u x shape per some_record each in
      let bounds : All (λ m. length (slice m 8 12) ≡ 4) per =
        All-map (IsRecord F R round C z blank u x shape) (λ m. length (slice m 8 12) ≡ 4)
          (λ m g. length-slice m 8 12 (omega (arith, g))) per each in
      let head : slice (last_or [] per) 0 8 ≡ take 8 m =
        take-meta_shape F R round z blank x.shape (items x) p (get_or c.layers l 0) c.block_dim
          (last_or [] per) m last made in
      let offs =
        flat_map (λ r. r)
          (place rank
            (reshape (length (drop 12 (last_or [] per)) / 2) 2 (drop 12 (last_or [] per)))) in
      let whole =
        ok-injective
          (slice (last_or [] per) 0 8 ++ flat_map (λ m. slice m 8 12) per ++ offs ++ codes) bytes
          e in
      (
        m,
        made,
        keep_layer-parts (slice (last_or [] per) 0 8) offs codes bytes per (length c.layers) l
            (length-slice (last_or [] per) 0 8 (omega (arith, full))) bounds
            (omega (arith, count, k)) whole count head,
      )

  -- For a codec that `__post_init__` accepts, floats of four bytes each, indices with as many axes
  -- as the unit, a layout with the layers and the record size of the codec, and a layer that
  -- exists: when write_record returns a record for every index, plan_meta cuts them down so that
  -- each unit has the two bounds and the error bound that szfp_meta writes at the rate of the
  -- layer, followed by the offsets and error codes of its stored record.
  pub plan_meta-write_record :
      (b c : Codec) (u rank : List ℕ) (values : NdArray F.Single) (coords records : List (List ℕ))
      (lt : Layout) (layer i : ℕ)
      → post_init b ≡ ok c
      → All (λ idx. length idx ≡ length u) coords
      → sequence (map (write_record F R C z blank c u rank values) coords) ≡ ok records
      → lt.layers ≡ c.layers
      → lt.meta_size ≡ meta_size c u
      → layer < length c.layers
      → i < length coords
      → let x = take_slices values (slices_at u (get_or coords i [])) in
        (m : List ℕ) × (meta F R z blank x (get_or c.layers layer 0) c.block_dim ≡ ok m)
        × (slice
              (plan_meta (flat_map (λ r. r) records) lt layer)
              (i * single_size lt)
              (i * single_size lt + single_size lt)
            ≡ take 12 m ++ drop (8 + 4 * length c.layers) (get_or records i []))
  plan_meta-write_record b c u rank values coords records lt layer i accepted axes h el es hl hi =
      let call = write_record F R C z blank c u rank values in
      let (each, count) =
        sequence-All call (λ idx. length idx ≡ length u) (λ r. length r ≡ lt.meta_size)
          (λ idx r e k.
            length-write_record F R round C z blank b c u rank values idx r accepted e k ∙ sym es)
          coords records axes h in
      let (m, made, kept) =
        keep_layer-write_record b c u rank values (get_or coords i []) (get_or records i []) layer
          accepted (All_at (λ idx. length idx ≡ length u) coords [] i axes hi)
          (sequence_at call coords records [] [] i h hi) hl in
      let meta = flat_map (λ r. r) records in
      let size = length-flat_map_of (λ r. r) lt.meta_size records each in
      let inside : i < length records = omega (arith, count) in
      (
        m,
        made,
        plan_meta_lem meta lt (length records) layer i size (fits c u lt el es)
              (omega (arith, ap length el, hl)) inside
            ∙ ap₂ (λ n t. keep_layer n layer t) (ap length el)
                (record_at lt.meta_size records i each inside)
            ∙ kept,
      )
