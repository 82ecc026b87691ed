-- ===== src/Codec/ZoneMap/Sound.antt =====
-- The record of szfp_meta bounds the values of its unit and the errors of its decoded values.
use skip_zfp.Prelude.{
  ℕ, ◌+◌, ◌*◌, ◌/◌, ◌^◌, ◌≤◌, ◌≡◌, ap, Bool-cases, inl, inr, true, false, ◌||◌, List, [], ◌∷◌, ◌++◌,
  map, flat_map, ltb, leb, if◌then◌else◌, length, length-append, prod, ◌<◌, replicate, All, All-map,
  arith,
}
use skip_zfp.Floats.{Floats, IsLawful as FloatsAreLawful}
use skip_zfp.Native.{sz_ok}
use skip_zfp.Layout.{bad_shape, blocks_axis}
use skip_zfp.Codec.Pack.Encoded.{three_factors}
use skip_zfp.Codec.ZoneMap.Size.{length-offsets, length-paired}
use skip_zfp.Codec.Encode.{Zfp, n_blocks}
use skip_zfp.Codec.ZoneMap.{
  Rounding, IsLawful, Extent, Scanned, widen_to, error_of, block_extent, block_max_error, no_values,
  scan_blocks, start_scan, eps_of, offsets, same_bounds, record_of, paired, round_trip,
  with_decoded, szfp_meta,
}
use skip_zfp.Codec.ZoneMap.Bounds.{
  Num, BelowMax, IsExtent, Contains, point, le_refl, le_of_not_lt, block_max_error-Covered,
  Contains-trans, widen_to_lem, block_extent_lem,
}

All-of_map :
    {A B : Type 0} (P : B → Type 0) (f : A → B) (xs : List A)
    → All (λ x. P (f x)) xs
    → All P (map f xs)
All-of_map P f [] h = tt
All-of_map P f (x ∷ xs) (h, hs) = (h, All-of_map P f xs hs)

All-both :
    {A B : Type 0} (P : B → Type 0) (Q R : A → Type 0) (f : A → B) (xs : List A)
    → ((x : A) → P (f x) → Q x → R x)
    → All P (map f xs)
    → All Q xs
    → All R xs
All-both P Q R f [] g h k = tt
All-both P Q R f (x ∷ xs) g (h, hs) (k, ks) = (g x h k, All-both P Q R f xs g hs ks)

module _ (F : Floats) (law : FloatsAreLawful F) (R : Rounding F) (round : IsLawful F R) where
  -- an original value and a decoded one: numbers, not further apart than FLT_MAX
  abbrev pub IsFine : F.Single × F.Single → Type 0
  IsFine p = Num F law (F.widen p.0) × BelowMax F law (F.widen R.flt_max) p

  -- the value lies in the extent, and its error is at most `m`
  abbrev pub IsBounded : Extent F → F.Double → F.Single × F.Single → Type 0
  IsBounded e m p =
      (F.le (F.widen e.low) (F.widen p.0) ≡ true)
      × (F.le (F.widen p.0) (F.widen e.high) ≡ true)
      × (F.le (error_of F p.0 p.1) m ≡ true)

  -- what the loops have found so far
  record Found (s : Scanned F) : Type 0 where
    pub extent : IsExtent F law s.whole
    pub num : Num F law s.max_err
    pub small : F.le s.max_err (F.widen R.flt_max) ≡ true

  record Scan (bs : List (List (F.Single × F.Single))) (acc r : Scanned F) : Type 0 where
    pub found : Found r
    pub wider : Contains F law r.whole acc.whole
    pub more : F.le acc.max_err r.max_err ≡ true
    pub count : length r.blocks ≡ length acc.blocks + length bs
    pub bounded : All (All (IsBounded r.whole r.max_err)) bs

  weaken :
      (a b : Extent F) (m n : F.Double) (xs : List (F.Single × F.Single))
      → Contains F law a b
      → F.le m n ≡ true
      → All (IsBounded b m) xs
      → All (IsBounded a n) xs
  weaken a b m n xs (p, q) le =
      All-map (IsBounded b m) (IsBounded a n)
        (λ x h. (law.le_trans _ _ _ p h.0, law.le_trans _ _ _ h.1 q, law.le_trans _ _ _ h.2 le)) xs

  scan_blocks_lem :
      (bs : List (List (F.Single × F.Single))) (acc : Scanned F)
      → Found acc
      → All (All IsFine) bs
      → Scan bs acc (scan_blocks F R bs acc)
  unfolding scan_blocks
  scan_blocks_lem [] acc found fine = record {
    found = found;
    wider = (le_refl F law _ found.extent.0, le_refl F law _ found.extent.1);
    more = le_refl F law _ found.num;
    count = omega arith;
    bounded = tt;
  }
  scan_blocks_lem (b ∷ bs) acc found (fine, more_fine) =
      let vs = map (λ p. p.0) b in
      let e = block_extent F vs (no_values F R) in
      let (ee, ec, each) =
        block_extent_lem F law vs (no_values F R) (round.flt_max-num, round.neg_flt_max-num)
          (All-of_map (λ v. Num F law (F.widen v)) (λ p. p.0) b
            (All-map IsFine (λ p. Num F law (F.widen p.0)) (λ p h. h.0) b fine)) in
      let (we, wa, wb) = widen_to_lem F law acc.whole e found.extent ee in
      let err =
        block_max_error-Covered F law b acc.max_err (F.widen R.flt_max) found.num found.small
          (All-map IsFine (BelowMax F law (F.widen R.flt_max)) (λ p h. h.1) b fine) in
      let next : Scanned F = record {
        blocks = acc.blocks ++ (e ∷ []);
        whole = widen_to F acc.whole e;
        max_err = block_max_error F b acc.max_err;
      } in
      let rest =
        scan_blocks_lem bs next (record { extent = we; num = err.num; small = err.below })
          more_fine in
      record {
        found = rest.found;
        wider = Contains-trans F law _ next.whole acc.whole rest.wider wa;
        more = law.le_trans _ _ _ err.from rest.more;
        count = omega (arith, rest.count, length-append acc.blocks (e ∷ []));
        bounded = (
          weaken _ next.whole next.max_err _ b rest.wider rest.more (
              All-both (λ v. Contains F law e (point F law v))
                (λ p. F.le (error_of F p.0 p.1) next.max_err ≡ true)
                (IsBounded next.whole next.max_err) (λ p. p.0) b
                (λ p c q.
                  let w = Contains-trans F law next.whole e (point F law p.0) wb c in (w.0, w.1, q))
                each err.each),
          rest.bounded,
        );
      }

  le-eps_of :
      (m : F.Double)
      → Num F law m
      → F.le m (F.widen R.flt_max) ≡ true
      → F.le m (F.widen (eps_of F R m)) ≡ true
  unfolding eps_of
  le-eps_of m num small = elim (Bool-cases (F.lt (F.widen (F.narrow m)) m)) [
    | inl down ↦ rw down (round.le-next_max m down small)
    | inr up ↦ rw up (le_of_not_lt F law m (F.widen (F.narrow m)) num (law.narrow-num m num) up)
  ]

  -- the bytes after the three floats
  tail_of : Scanned F → List ℕ
  tail_of s =
      if same_bounds F R s.whole
      then replicate (length s.blocks * 2) 0
      else flat_map (offsets F R s.whole) s.blocks

  length-tail_of : (s : Scanned F) → length (tail_of s) ≡ length s.blocks * 2
  unfolding tail_of
  length-tail_of s = length-offsets F R round (same_bounds F R s.whole) s.whole s.blocks

  module _ (z : Zfp F) (blank : F.Single) where
    n_blocks_lem : (nx ny nz : ℕ) → prod (blocks_axis 4 (nx ∷ ny ∷ nz ∷ [])) ≡ n_blocks nx ny nz 4
    unfolding prod
    n_blocks_lem nx ny nz = three_factors (nx / 4) (ny / 4) (nz / 4)

    room_test :
        (n capacity : ℕ)
        → 12 + 2 * n ≤ capacity
        → n * 4 < 2 ^ 64
        → (ltb capacity (12 + 2 * n) || leb (2 ^ 64) (n * 4)) ≡ false
    room_test n capacity h k = ground arith

    szfp_meta-ok :
        (nx ny nz rate capacity : ℕ) (chunk dec : List F.Single)
        → bad_shape nx ny nz rate 4 ≡ false
        → 12 + 2 * n_blocks nx ny nz 4 ≤ capacity
        → n_blocks nx ny nz 4 * 4 < 2 ^ 64
        → round_trip F R z blank nx ny nz rate chunk ≡ sz_ok dec
        → szfp_meta F R z blank chunk nx ny nz rate 4 capacity
          ≡ with_decoded F R z blank nx ny nz chunk (sz_ok dec)
    unfolding szfp_meta
    szfp_meta-ok nx ny nz rate capacity chunk dec shape room fits got =
        rw (shape, room_test (n_blocks nx ny nz 4) capacity room fits)
          (ap (with_decoded F R z blank nx ny nz chunk) got)

    -- Where the floats and their roundings are lawful, the shape is accepted, the record fits into
    -- the buffer, libzfp compresses the unit and decompresses it again, and the values are numbers
    -- whose errors are numbers up to FLT_MAX: szfp_meta returns two floats, an error bound and two
    -- bytes for each block. Every value of every block lies between the two floats, and its
    -- distance to the decoded one, as computed, is at most the error bound.
    pub szfp_meta-IsBounded :
        (nx ny nz rate capacity : ℕ) (chunk dec : List F.Single)
        → bad_shape nx ny nz rate 4 ≡ false
        → 12 + 2 * n_blocks nx ny nz 4 ≤ capacity
        → n_blocks nx ny nz 4 * 4 < 2 ^ 64
        → round_trip F R z blank nx ny nz rate chunk ≡ sz_ok dec
        → All (All IsFine) (paired F R z blank nx ny nz chunk dec)
        → (unit : Extent F) × (eps : F.Single) × (offs : List ℕ) × (szfp_meta F R z blank chunk nx
              ny nz rate 4 capacity
            ≡ sz_ok (R.bytes_of unit.low ++ R.bytes_of unit.high ++ R.bytes_of eps ++ offs))
          × (length offs ≡ n_blocks nx ny nz 4 * 2)
          × All (All (IsBounded unit (F.widen eps))) (paired F R z blank nx ny nz chunk dec)
    unfolding record_of tail_of
    szfp_meta-IsBounded nx ny nz rate capacity chunk dec shape room fits got fine =
        let ps = paired F R z blank nx ny nz chunk dec in
        let s = scan_blocks F R ps (start_scan F R) in
        let r =
          scan_blocks_lem ps (start_scan F R)
            (record {
              extent = (round.flt_max-num, round.neg_flt_max-num);
              num = law.le_left _ _ round.zero-le;
              small = round.zero-le;
            })
            fine in
        let count : length s.blocks ≡ n_blocks nx ny nz 4 = omega (
          arith,
          r.count,
          length-paired F R round z blank nx ny nz chunk dec,
          n_blocks_lem nx ny nz,
        ) in
        (
          s.whole,
          eps_of F R s.max_err,
          tail_of s,
          szfp_meta-ok nx ny nz rate capacity chunk dec shape room fits got,
          omega (arith, length-tail_of s, count),
          All-map (All (IsBounded s.whole s.max_err))
              (All (IsBounded s.whole (F.widen (eps_of F R s.max_err))))
              (λ b h.
                weaken s.whole s.whole _ _ b
                  (le_refl F law _ r.found.extent.0, le_refl F law _ r.found.extent.1)
                  (le-eps_of s.max_err r.found.num r.found.small) h)
              ps r.bounded,
        )
