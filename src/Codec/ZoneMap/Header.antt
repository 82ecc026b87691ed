-- ===== src/Codec/ZoneMap/Header.antt =====
-- The first eight bytes that szfp_meta writes, the smallest and the largest value of the unit, do not
-- depend on the rate.
use skip_zfp.Prelude.{
  ℕ, zero, suc, ◌≡◌, refl, sym, ap, ap₂, ◌∙◌, List, [], ◌∷◌, ◌++◌, map, length, length-append, take,
  get_or, ok, bind_inv, arith,
}
use skip_zfp.Floats.{Floats}
use skip_zfp.Native.{Outcome, sz_ok, sz_err}
use skip_zfp.Layout.{bad_shape, layout}
use skip_zfp.Codec.Encode.{Zfp}
use skip_zfp.Codec.Pack.Encoded.{check-ok, refused-ok}
use skip_zfp.Codec.ZoneMap.{
  Rounding, IsLawful, Extent, Scanned, block_extent, widen_to, no_values, scan_blocks, start_scan,
  record_of, paired, round_trip, with_decoded, szfp_meta, meta_shape, block_indices,
}

pub take_first : (n : ℕ) (xs ys zs : List ℕ) → n ≡ length xs → take n (xs ++ ys ++ zs) ≡ xs
take_first n [] ys zs h = ap (λ (k : ℕ). take k (ys ++ zs)) h
take_first zero (x ∷ xs) ys zs h = absurd (omega arith)
take_first (suc n) (x ∷ xs) ys zs h = ap (λ t. x ∷ t) (take_first n xs ys zs (omega arith))

module _ (F : Floats) (R : Rounding F) (round : IsLawful F R) where
  -- the extent of blocks of values, without the decoded ones
  whole_of : List (List F.Single) → Extent F → Extent F
  whole_of [] acc = acc
  whole_of (vs ∷ bs) acc = whole_of bs (widen_to F acc (block_extent F vs (no_values F R)))

  scan_blocks-whole_of :
      (bs : List (List (F.Single × F.Single))) (acc : Scanned F)
      → (scan_blocks F R bs acc).whole
        ≡ whole_of (map (map (λ (p : F.Single × F.Single). p.0)) bs) acc.whole
  unfolding scan_blocks whole_of
  scan_blocks-whole_of [] acc = refl
  scan_blocks-whole_of (b ∷ bs) acc = scan_blocks-whole_of bs _

  header_bytes : Extent F → List ℕ
  header_bytes e = R.bytes_of e.low ++ R.bytes_of e.high

  take-record_of : (s : Scanned F) → take 8 (record_of F R s) ≡ header_bytes s.whole
  unfolding record_of header_bytes
  take-record_of s = take_first 8 (header_bytes s.whole) _ _ (
      omega (
        arith,
        length-append (R.bytes_of s.whole.low) (R.bytes_of s.whole.high),
        round.length-bytes_of s.whole.low,
        round.length-bytes_of s.whole.high,
      ))

  module _ (z : Zfp F) (blank : F.Single) where
    block_values :
        (chunk dec : List F.Single) (is : List ℕ)
        → map
            (λ (p : F.Single × F.Single). p.0)
            (map
              (λ i. let p : F.Single × F.Single = (get_or chunk i blank, get_or dec i blank) in p)
              is)
          ≡ map (λ i. get_or chunk i blank) is
    block_values chunk dec [] = refl
    block_values chunk dec (i ∷ is) = ap (λ t. get_or chunk i blank ∷ t) (block_values chunk dec is)

    blocks_values :
        (chunk dec : List F.Single) (bs : List (List ℕ))
        → map (map (λ (p : F.Single × F.Single). p.0)) (
            map
              (λ b.
                map
                  (λ i.
                    let p : F.Single × F.Single = (get_or chunk i blank, get_or dec i blank) in p)
                  b)
              bs)
          ≡ map (map (λ i. get_or chunk i blank)) bs
    blocks_values chunk dec [] = refl
    blocks_values chunk dec (b ∷ bs) =
        ap₂ ◌∷◌ (block_values chunk dec b) (blocks_values chunk dec bs)

    -- the header of a unit's record, from the unit's values alone
    abbrev header_of : (nx ny nz : ℕ) → List F.Single → List ℕ
    header_of nx ny nz chunk =
        header_bytes (
          whole_of (map (map (λ i. get_or chunk i blank)) (block_indices nx ny nz)) (no_values F R))

    take-with_decoded :
        (nx ny nz : ℕ) (chunk : List F.Single) (o : Outcome (List F.Single)) (m : List ℕ)
        → with_decoded F R z blank nx ny nz chunk o ≡ sz_ok m
        → take 8 m ≡ header_of nx ny nz chunk
    take-with_decoded nx ny nz chunk (sz_err code) m h = cc
    take-with_decoded nx ny nz chunk (sz_ok dec) m h =
        let ps = paired F R z blank nx ny nz chunk dec in
        let s = scan_blocks F R ps (start_scan F R) in
        let made : record_of F R s ≡ m = cc in
        ap (take 8) (sym made)
        ∙ take-record_of s
        ∙ ap header_bytes (
            scan_blocks-whole_of ps (start_scan F R)
            ∙ ap (λ t. whole_of t (no_values F R))
                (blocks_values chunk dec (block_indices nx ny nz)))

    take-szfp_meta :
        (nx ny nz rate dim : ℕ) (chunk : List F.Single) (m : List ℕ)
        → meta_shape F R z blank (nx ∷ ny ∷ nz ∷ []) chunk rate dim ≡ ok m
        → take 8 m ≡ header_of nx ny nz chunk
    unfolding meta_shape szfp_meta
    take-szfp_meta nx ny nz rate dim chunk m h =
        let (sizes, made, a) = bind_inv (layout (nx ∷ ny ∷ nz ∷ []) rate dim) h in
        let b = check-ok "szfp_meta" _ a in
        let c = refused-ok (bad_shape nx ny nz rate dim) _ _ b in
        let d = refused-ok _ _ _ c.1 in
        take-with_decoded nx ny nz chunk (round_trip F R z blank nx ny nz rate chunk) m d.1

    -- Two records of a unit at two rates have the same first eight bytes.
    pub take-meta_shape :
        (u : List ℕ) (chunk : List F.Single) (r q dim : ℕ) (m k : List ℕ)
        → meta_shape F R z blank u chunk r dim ≡ ok m
        → meta_shape F R z blank u chunk q dim ≡ ok k
        → take 8 m ≡ take 8 k
    unfolding meta_shape
    take-meta_shape (nx ∷ ny ∷ nz ∷ []) chunk r q dim m k a b =
        take-szfp_meta nx ny nz r dim chunk m a ∙ sym (take-szfp_meta nx ny nz q dim chunk k b)
    take-meta_shape [] chunk r q dim m k a b = cc
    take-meta_shape (nx ∷ []) chunk r q dim m k a b = cc
    take-meta_shape (nx ∷ ny ∷ []) chunk r q dim m k a b = cc
    take-meta_shape (nx ∷ ny ∷ nz ∷ n ∷ u) chunk r q dim m k a b = cc
