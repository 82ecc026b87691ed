-- ===== src/Codec/ZoneMap/Size.antt =====
-- The length of the record that szfp_meta of skipzfp/csrc/core.c returns.
use skip_zfp.Prelude.{
  ℕ, ◌+◌, ◌*◌, ◌/◌, ◌≡◌, refl, ap, ◌∙◌, Bool, true, false, List, [], ◌∷◌, ◌++◌, flat_map,
  if◌then◌else◌, length, length-append, length-map, length-flat_map, length-replicate, replicate,
  prod, ok, bind_inv, arith,
}
use skip_zfp.Floats.{Floats}
use skip_zfp.Native.{Outcome, sz_ok, sz_err}
use skip_zfp.Layout.{bad_shape, layout, blocks_axis, chunk_coords}
use skip_zfp.Codec.Encode.{Zfp}
use skip_zfp.Codec.Units.Ravel.{length-chunk_coords}
use skip_zfp.Codec.Pack.Encoded.{check-ok, refused-ok}
use skip_zfp.Codec.ZoneMap.{
  Rounding, IsLawful, Extent, Scanned, scan_blocks, start_scan, eps_of, offsets, same_bounds,
  record_of, paired, round_trip, with_decoded, szfp_meta, meta_shape, block_indices,
}

pub length-four :
    (a b c d : List ℕ) → length (a ++ b ++ c ++ d) ≡ length a + length b + length c + length d
length-four a b c d =
    omega (arith, length-append (a ++ b ++ c) d, length-append (a ++ b) c, length-append a b)

module _ (F : Floats) (R : Rounding F) (round : IsLawful F R) where
  scan_blocks-count :
      (bs : List (List (F.Single × F.Single))) (acc : Scanned F)
      → length (scan_blocks F R bs acc).blocks ≡ length acc.blocks + length bs
  unfolding scan_blocks
  scan_blocks-count [] acc = omega arith
  scan_blocks-count (b ∷ bs) acc =
      omega (arith, scan_blocks-count bs _, length-append acc.blocks (_ ∷ []))

  two_offsets : (unit b : Extent F) → length (offsets F R unit b) ≡ 2
  unfolding offsets
  two_offsets unit b = refl

  pub length-offsets :
      (flat : Bool) (unit : Extent F) (bs : List (Extent F))
      → length (if flat then replicate (length bs * 2) 0 else flat_map (offsets F R unit) bs)
        ≡ length bs * 2
  length-offsets true unit bs = length-replicate (length bs * 2) 0
  length-offsets false unit bs = length-flat_map (offsets F R unit) 2 bs (two_offsets unit)

  length-record_of : (s : Scanned F) → length (record_of F R s) ≡ 12 + 2 * length s.blocks
  unfolding record_of
  length-record_of s = omega (
    arith,
    length-four (R.bytes_of s.whole.low) (R.bytes_of s.whole.high)
        (R.bytes_of (eps_of F R s.max_err))
        (if same_bounds F R s.whole
          then replicate (length s.blocks * 2) 0
          else flat_map (offsets F R s.whole) s.blocks),
    round.length-bytes_of s.whole.low,
    round.length-bytes_of s.whole.high,
    round.length-bytes_of (eps_of F R s.max_err),
    length-offsets (same_bounds F R s.whole) s.whole s.blocks,
  )

  module _ (z : Zfp F) (blank : F.Single) where
    pub length-paired :
        (nx ny nz : ℕ) (chunk dec : List F.Single)
        → length (paired F R z blank nx ny nz chunk dec) ≡ prod (blocks_axis 4 (nx ∷ ny ∷ nz ∷ []))
    unfolding block_indices
    length-paired nx ny nz chunk dec =
        length-map _ (block_indices nx ny nz)
        ∙ length-map _ (chunk_coords (nx / 4 ∷ ny / 4 ∷ nz / 4 ∷ []))
        ∙ length-chunk_coords (nx / 4 ∷ ny / 4 ∷ nz / 4 ∷ [])

    length-with_decoded :
        (nx ny nz : ℕ) (chunk : List F.Single) (o : Outcome (List F.Single)) (m : List ℕ)
        → with_decoded F R z blank nx ny nz chunk o ≡ sz_ok m
        → length m ≡ 12 + 2 * prod (blocks_axis 4 (nx ∷ ny ∷ nz ∷ []))
    length-with_decoded nx ny nz chunk (sz_err code) m h = cc
    length-with_decoded nx ny nz chunk (sz_ok dec) m h =
        let ps = paired F R z blank nx ny nz chunk dec in
        let s = scan_blocks F R ps (start_scan F R) in
        let made : record_of F R s ≡ m = cc in
        omega (
          arith,
          ap length made,
          length-record_of s,
          scan_blocks-count ps (start_scan F R),
          length-paired nx ny nz chunk dec,
        )

    -- A record has twelve bytes and two for each block.
    pub length-meta_shape :
        (u : List ℕ) (chunk : List F.Single) (rate : ℕ) (m : List ℕ)
        → meta_shape F R z blank u chunk rate 4 ≡ ok m
        → length m ≡ 12 + 2 * prod (blocks_axis 4 u)
    unfolding meta_shape szfp_meta
    length-meta_shape (nx ∷ ny ∷ nz ∷ []) chunk rate m h =
        let (sizes, made, a) = bind_inv (layout (nx ∷ ny ∷ nz ∷ []) rate 4) h in
        let b = check-ok "szfp_meta" _ a in
        let c = refused-ok (bad_shape nx ny nz rate 4) _ _ b in
        let d = refused-ok _ _ _ c.1 in
        length-with_decoded nx ny nz chunk (round_trip F R z blank nx ny nz rate chunk) m d.1
    length-meta_shape [] chunk rate m h = cc
    length-meta_shape (nx ∷ []) chunk rate m h = cc
    length-meta_shape (nx ∷ ny ∷ []) chunk rate m h = cc
    length-meta_shape (nx ∷ ny ∷ nz ∷ n ∷ u) chunk rate m h = cc
