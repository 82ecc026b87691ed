-- ===== src/Codec/MetaPack/RoundTrip.antt =====
-- unpack_meta undoes pack_meta.
use skip_zfp.Prelude.{
  Bool, true, false, ◌==◌, if◌then◌else◌, Result, ok, err, ◌>>◌, raise_if, value_error, ℕ, ◌+◌, ◌-◌,
  ◌*◌, ◌/◌, ◌≤◌, ◌<◌, ◌≡◌, refl, sym, ap, ap₂, ◌∙◌, List, [], ◌∷◌, ◌++◌, map, flat_map, take, drop,
  slice, length, length-append, length-take, length-drop, length-slice, take-append-drop, drop-drop,
  All, All-map, All-take, All-drop, arith,
}
use skip_zfp.Codec.MetaPack.{
  evens, odds, widths, quantized, head_of, dmin_of, width_of, tail_of, pack_meta, reshape,
  interleave, join_record, join_records, unpack_meta,
}
use skip_zfp.Codec.MetaPack.Rows.{
  IsByte, pairs_lengths, cumsum8-deltas, interleave-widths, All-evens, length-deltas, length-widths,
  length-flat_map_of, reshape-flat_map,
}
use native.Mathlib.Nat.{mul-div_cancel}
use skip_zfp.Codec.MetaPack.Cuts.{cut_first, cut_second, cut_third, cut_fourth}

-- what a record is: `size` bytes, that hold the leading part and two bytes for each block
abbrev pub IsRecord : ℕ → ℕ → ℕ → List ℕ → Type 0
IsRecord size lead blocks r = (length r ≡ size) × All IsByte r

module _ (size lead blocks : ℕ) (fits : lead + 2 * blocks ≤ size) where
  length-quantized : (r : List ℕ) → length r ≡ size → length (quantized lead blocks r) ≡ 2 * blocks
  length-quantized r e = length-slice r lead (lead + 2 * blocks) (omega arith) ∙ (omega arith)

  -- A record is made of its parts.
  join_record_lem :
      (r : List ℕ)
      → IsRecord size lead blocks r
      → join_record
          (head_of lead r)
          (dmin_of lead blocks r)
          (width_of lead blocks r)
          (tail_of lead blocks r)
        ≡ r
  unfolding join_record dmin_of width_of
  join_record_lem r (e, bytes) =
      let q : List ℕ = quantized lead blocks r in
      let hq : All IsByte q = All-take IsByte _ (drop lead r) (All-drop IsByte lead r bytes) in
      let c = cumsum8-deltas (evens q) (All-evens q hq) in
      let i = interleave-widths blocks q (length-quantized r e) hq in
      ap (λ t. take lead r ++ (interleave t (widths (odds q) (evens q)) ++ tail_of lead blocks r)) c
      ∙ ap (λ t. take lead r ++ (t ++ tail_of lead blocks r)) i
      ∙ ap (λ t. take lead r ++ t) rest
      ∙ take-append-drop lead r
    where
      rest : quantized lead blocks r ++ tail_of lead blocks r ≡ drop lead r
      rest =
          ap (λ t. quantized lead blocks r ++ t)
            (sym (drop-drop lead (lead + 2 * blocks - lead) (lead + 2 * blocks) r (omega arith)))
          ∙ take-append-drop (lead + 2 * blocks - lead) (drop lead r)

  length-head : (r : List ℕ) → IsRecord size lead blocks r → length (head_of lead r) ≡ lead
  length-head r (e, bytes) = omega (arith, length-take lead r)

  length-dmin : (r : List ℕ) → IsRecord size lead blocks r → length (dmin_of lead blocks r) ≡ blocks
  unfolding dmin_of
  length-dmin r (e, bytes) =
      let q : List ℕ = quantized lead blocks r in
      length-deltas (evens q) ∙ (pairs_lengths blocks q (length-quantized r e)).0

  length-width :
      (r : List ℕ) → IsRecord size lead blocks r → length (width_of lead blocks r) ≡ blocks
  unfolding width_of
  length-width r (e, bytes) =
      let q : List ℕ = quantized lead blocks r in
      let h = pairs_lengths blocks q (length-quantized r e) in
      length-widths (odds q) (evens q) (h.1 ∙ sym h.0) ∙ h.1

  length-tail :
      (r : List ℕ)
      → IsRecord size lead blocks r
      → length (tail_of lead blocks r) ≡ size - lead - 2 * blocks
  length-tail r (e, bytes) = omega (arith, length-drop (lead + 2 * blocks) r)

  join_records-map :
      (rows : List (List ℕ))
      → All (IsRecord size lead blocks) rows
      → join_records
          (map (head_of lead) rows)
          (map (dmin_of lead blocks) rows)
          (map (width_of lead blocks) rows)
          (map (tail_of lead blocks) rows)
        ≡ rows
  unfolding join_records
  join_records-map [] h = refl
  join_records-map (r ∷ rows) (hr, h) =
      ap₂ (λ a b. a ∷ b) (join_record_lem r hr) (join_records-map rows h)

  -- the length of what pack_meta writes, part by part
  parts_length :
      (rows : List (List ℕ))
      → All (IsRecord size lead blocks) rows
      → length rows * lead
          + (length rows * blocks
              + (length rows * blocks + length rows * (size - lead - 2 * blocks)))
        ≡ length rows * size
  parts_length [] h = omega arith
  parts_length (r ∷ rows) h = omega (arith, parts_length rows h.1)

ap_parts :
    {h h' d d' w w' t t' : List (List ℕ)}
    → h ≡ h'
    → d ≡ d'
    → w ≡ w'
    → t ≡ t'
    → join_records h d w t ≡ join_records h' d' w' t'
ap_parts {h = h} {h' = h'} {d = d} {d' = d'} {w = w} {w' = w'} {t = t} {t' = t'} eh ed ew et =
    ap₂ (λ x y. join_records x y w t) eh ed ∙ ap₂ (λ x y. join_records h' d' x y) ew et

-- what unpack_meta makes of `n` records
abbrev unpack_of : ℕ → List ℕ → ℕ → ℕ → ℕ → List (List ℕ)
unpack_of n buf size lead blocks =
    join_records (reshape n lead (take (n * lead) buf))
      (reshape n blocks (slice buf (n * lead) (n * lead + n * blocks)))
      (reshape n blocks (slice buf (n * lead + n * blocks) (n * lead + n * blocks + n * blocks)))
      (reshape n (size - lead - 2 * blocks) (drop (n * lead + n * blocks + n * blocks) buf))

module _ (size lead blocks : ℕ) (fits : lead + 2 * blocks ≤ size) (rows : List (List ℕ))
    (h : All (IsRecord size lead blocks) rows) where
  each :
      (f : List ℕ → List ℕ) (k : ℕ)
      → ((r : List ℕ) → IsRecord size lead blocks r → length (f r) ≡ k)
      → All (λ r. length (f r) ≡ k) rows
  each f k g = All-map (IsRecord size lead blocks) (λ r. length (f r) ≡ k) g rows h

  length-part :
      (f : List ℕ → List ℕ) (k : ℕ)
      → ((r : List ℕ) → IsRecord size lead blocks r → length (f r) ≡ k)
      → length (flat_map f rows) ≡ length rows * k
  length-part f k g = length-flat_map_of f k rows (each f k g)

  reshape_part :
      (f : List ℕ → List ℕ) (k : ℕ) (piece : List ℕ)
      → ((r : List ℕ) → IsRecord size lead blocks r → length (f r) ≡ k)
      → piece ≡ flat_map f rows
      → reshape (length rows) k piece ≡ map f rows
  reshape_part f k piece g e =
      ap (reshape (length rows) k) e ∙ reshape-flat_map f k rows (each f k g)

  length-pack_meta : length (pack_meta rows lead blocks) ≡ length rows * size
  unfolding pack_meta
  length-pack_meta =
      let a = length-part (head_of lead) lead (length-head size lead blocks fits) in
      let b = length-part (dmin_of lead blocks) blocks (length-dmin size lead blocks fits) in
      let c = length-part (width_of lead blocks) blocks (length-width size lead blocks fits) in
      let d = length-part (tail_of lead blocks) _ (length-tail size lead blocks fits) in
      omega (
        arith,
        parts_length size lead blocks fits rows h,
        length-append (flat_map (head_of lead) rows) (
            flat_map (dmin_of lead blocks) rows
            ++ (flat_map (width_of lead blocks) rows ++ flat_map (tail_of lead blocks) rows)),
        length-append (flat_map (dmin_of lead blocks) rows)
            (flat_map (width_of lead blocks) rows ++ flat_map (tail_of lead blocks) rows),
        length-append (flat_map (width_of lead blocks) rows) (flat_map (tail_of lead blocks) rows),
      )

  unpack_of-pack_meta : unpack_of (length rows) (pack_meta rows lead blocks) size lead blocks ≡ rows
  unfolding pack_meta
  unpack_of-pack_meta =
      let A = flat_map (head_of lead) rows in
      let B = flat_map (dmin_of lead blocks) rows in
      let C = flat_map (width_of lead blocks) rows in
      let D = flat_map (tail_of lead blocks) rows in
      let n = length rows in
      let a = sym (length-part (head_of lead) lead (length-head size lead blocks fits)) in
      let lb = length-part (dmin_of lead blocks) blocks (length-dmin size lead blocks fits) in
      let lc = length-part (width_of lead blocks) blocks (length-width size lead blocks fits) in
      let b : n * lead + n * blocks ≡ n * lead + length B = omega arith in
      let c : n * lead + n * blocks + n * blocks ≡ n * lead + n * blocks + length C = omega arith in
      let head =
        reshape_part (head_of lead) lead _ (length-head size lead blocks fits)
          (cut_first A B C D (n * lead) 0 0 a) in
      let dmin =
        reshape_part (dmin_of lead blocks) blocks _ (length-dmin size lead blocks fits)
          (cut_second A B C D (n * lead) (n * lead + n * blocks) 0 a b) in
      let width =
        reshape_part (width_of lead blocks) blocks _ (length-width size lead blocks fits) (
          cut_third A B C D (n * lead) (n * lead + n * blocks) (n * lead + n * blocks + n * blocks)
            a b c) in
      let tail = reshape_part (tail_of lead blocks) _ _ (length-tail size lead blocks fits) (
        cut_fourth A B C D (n * lead) (n * lead + n * blocks) (n * lead + n * blocks + n * blocks) a
          b c) in
      ap_parts head dmin width tail ∙ join_records-map size lead blocks fits rows h

-- unpack_meta gives back the records that pack_meta rearranged, when every record consists of
-- `size` bytes, `size` is positive, and the leading part and two bytes for each block fit in it.
-- With no record, it raises ValueError.
pub unpack_meta-pack_meta :
    (size lead blocks : ℕ) (rows : List (List ℕ))
    → 0 < size
    → lead + 2 * blocks ≤ size
    → All (IsRecord size lead blocks) rows
    → unpack_meta (pack_meta rows lead blocks) size lead blocks
      ≡ (if length rows == 0 then err (value_error "cannot reshape array of size 0") else ok rows)
unfolding unpack_meta
unpack_meta-pack_meta size lead blocks rows positive fits h =
    let buf = pack_meta rows lead blocks in
    let count =
      ap (λ k. k / size) (length-pack_meta size lead blocks fits rows h)
      ∙ mul-div_cancel (length rows) positive in
    let some_size : (size == 0) ≡ false = ground arith in
    rw some_size (
      ap
        (λ n.
          raise_if (n == 0) (value_error "cannot reshape array of size 0")
          >> ok (unpack_of n buf size lead blocks))
        count
      ∙ ap (λ t. raise_if (length rows == 0) (value_error "cannot reshape array of size 0") >> ok t)
          (unpack_of-pack_meta size lead blocks fits rows h)
      ∙ guard_if (length rows == 0) (ok rows))
  where
    guard_if :
        (b : Bool) (k : Result (List (List ℕ)))
        → (raise_if b (value_error "cannot reshape array of size 0") >> k)
          ≡ (if b then err (value_error "cannot reshape array of size 0") else k)
    guard_if true k = refl
    guard_if false k = refl
