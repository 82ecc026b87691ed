-- ===== src/Query/Stream/Total.antt =====
-- merge_ranges and stream_count together: the count of the listed blocks, for every merge gap.
use Prim.Native.String.{String}
use skip_zfp.Prelude.{
  ℕ, ◌+◌, ◌-◌, ◌*◌, ◌≤◌, ◌≡◌, refl, sym, ap, ap₂, ◌∙◌, Bool, true, some, List, [], ◌∷◌, map, length,
  get_elem?, take, drop, drop-drop, slice, length-slice, All, sum, Result, ok, ◌>>=◌, sequence,
  sequence-cons, arith, pos, sum-append, take-append-drop, map-append,
}
use skip_zfp.Floats.{Floats}
use skip_zfp.Native.{sz_ok}
use skip_zfp.Query.Merge.{
  BlockId, Ids, Run, MergedRange, with_ends, to_range, block_of, merge_ranges, is_ascending,
  szfp_merge_ranges,
}
use skip_zfp.Query.Merge.Covers.{IsIn, Covers, szfp_merge_ranges-Covers}
use skip_zfp.Query.Merge.Order.{Fits, EndsAt, szfp_merge_ranges-All, szfp_merge_ranges_total}
use skip_zfp.Query.Read.{Store, IsLawful, read_one}
use skip_zfp.Query.Count.{count_offsets}
use skip_zfp.Query.Stream.{row_offset, offsets_of, range_of, count_one, stream_count}
use skip_zfp.Query.Stream.Scan.{
  Stored, IsStoredBlock, IsRate, count_offsets_lem, block_count, group_sum,
}
use skip_zfp.Query.Stream.Reads.{
  merge_ranges-nil, merge_ranges-cons, read_bytes, the_range, to_range_lem, read_one_lem, cut-map,
  offsets_fit, read_lengths, read_length, All-ends,
}

module _ (F : Floats) (decode : ℕ → List ℕ → List F.Single) (avx512 : Bool) (store : Store)
    (law : IsLawful store) (keys : List String) (object : ℕ → List ℕ) (n size : ℕ)
    (stored : Stored store keys object n size) (base bs rate : ℕ) (lo hi : F.Double)
    (valid : IsRate bs rate) where
  -- a read's chunk exists, and the read ends within its object
  abbrev InObject : BlockId → Type 0
  InObject = IsStoredBlock n size base bs

  abbrev counted : BlockId → ℕ
  counted = block_count F decode avx512 object base bs rate lo hi

  count_one-ok :
      (blocks : List ℕ) (req : MergedRange) (buf : List ℕ) (m : ℕ)
      → read_one store (range_of req) ≡ ok buf
      → count_offsets F decode avx512 buf (offsets_of blocks bs req) bs rate 4 lo hi ≡ ok m
      → count_one F decode avx512 store blocks bs rate 4 lo hi req ≡ ok (m, req.end - req.start)
  unfolding count_one
  count_one-ok blocks req buf m h k =
      ap
        (λ (t : Result (List ℕ)). t >>= λ b.
          count_offsets F decode avx512 b (offsets_of blocks bs req) bs rate 4 lo hi >>= λ c.
          ok (c, req.end - req.start))
        h
      ∙ ap (λ (t : Result ℕ). t >>= λ c. ok (c, req.end - req.start)) k

  -- One read gives the count of its group.
  count_one_lem :
      (blocks : List ℕ) (r : Run) (e : ℕ) (g : Ids) (k : String)
      → store.get k ≡ some (object r.chunk)
      → length (object r.chunk) ≡ size
      → base + (r.last + 1) * bs ≤ size
      → r.first ≤ r.last
      → All (IsIn r) g
      → slice blocks r.item e ≡ map block_of g
      → count_one F decode avx512 store blocks bs rate 4 lo hi (the_range k bs base r e)
        ≡ ok (sum (map counted g), base + (r.last + 1) * bs - (base + r.first * bs))
  count_one_lem blocks r e g k got len fits le inside cut =
      count_one-ok blocks (the_range k bs base r e) buf (sum (map counted g))
        (read_one_lem store k (object r.chunk) start end law got (read_lengths base bs r le)
          (omega arith))
        (ap
            (λ (t : List ℕ).
              count_offsets F decode avx512 buf (map (row_offset r.first bs) t) bs rate 4 lo hi)
            cut
          ∙ count_offsets_lem F decode avx512 buf (map (row_offset r.first bs) (map block_of g)) bs
              rate lo hi valid
              (offsets_fit bs r g (length buf)
                (length-slice (object r.chunk) start end (omega arith) ∙ read_length base bs r le)
                inside)
          ∙ ap ok
              (group_sum F decode avx512 object base bs rate lo hi r start end g refl refl inside))
    where
      start : ℕ
      start = base + r.first * bs

      end : ℕ
      end = base + (r.last + 1) * bs

      buf : List ℕ
      buf = slice (object r.chunk) start end

  -- The reads of the runs from `item` on, and what they give.
  record Scanned (blocks : List ℕ) (ps : List (Run × ℕ)) (ids : Ids) : Type 0 where
    pub reads : List MergedRange
    pub made : sequence (map (to_range keys bs base) ps) ≡ ok reads
    pub parts : List (ℕ × ℕ)
    pub done :
        sequence (map (count_one F decode avx512 store blocks bs rate 4 lo hi) reads) ≡ ok parts
    pub counts : sum (map (λ p. p.0) parts) ≡ sum (map counted ids)
    pub bytes : sum (map (λ p. p.1) parts) ≡ read_bytes reads

  -- A read in front of the others.
  scan_cons :
      (sorted : Ids) (r : Run) (e s : ℕ) (ps : List (Run × ℕ)) (ids : Ids) (k : String)
      → r.item ≡ s
      → r.first ≤ r.last
      → All (IsIn r) (take (e - s) ids)
      → EndsAt InObject r
      → drop s sorted ≡ ids
      → get_elem? keys r.chunk ≡ some k
      → store.get k ≡ some (object r.chunk)
      → length (object r.chunk) ≡ size
      → Scanned (map block_of sorted) ps (drop (e - s) ids)
      → Scanned (map block_of sorted) ((r, e) ∷ ps) ids
  unfolding sum
  scan_cons sorted r e s ps ids k item le inside ends at key got len rest = record {
    reads = the_range k bs base r e ∷ rest.reads;
    made =
        sequence-cons (to_range keys bs base (r, e)) (map (to_range keys bs base) ps)
          (the_range k bs base r e) rest.reads (to_range_lem keys bs base r e k key) rest.made;
    parts = (sum (map counted g), base + (r.last + 1) * bs - (base + r.first * bs)) ∷ rest.parts;
    done =
        sequence-cons one
          (map (count_one F decode avx512 store (map block_of sorted) bs rate 4 lo hi) rest.reads)
          (sum (map counted g), base + (r.last + 1) * bs - (base + r.first * bs)) rest.parts
          (count_one_lem (map block_of sorted) r e g k got len (omega (arith, ends.1.1)) le inside
            (cut-map block_of sorted ids r.item s e item at))
          rest.done;
    counts =
        (ap (λ (t : ℕ). sum (map counted g) + t) rest.counts
          ∙ sym (sum-append (map counted g) (map counted (drop (e - s) ids)))
          ∙ ap sum (sym (map-append counted g (drop (e - s) ids)))
          ∙ ap (λ t. sum (map counted t)) (take-append-drop (e - s) ids));
    bytes = (ap (λ (t : ℕ). base + (r.last + 1) * bs - (base + r.first * bs) + t) rest.bytes);
  }
    where
      g : Ids
      g = take (e - s) ids

      one : Result (ℕ × ℕ)
      one =
          count_one F decode avx512 store (map block_of sorted) bs rate 4 lo hi
            (the_range k bs base r e)

  scan :
      (sorted : Ids) (ps : List (Run × ℕ)) (s : ℕ) (ids : Ids)
      → Covers ps s ids
      → All (λ p. EndsAt InObject p.0) ps
      → drop s sorted ≡ ids
      → Scanned (map block_of sorted) ps ids
  scan sorted [] s ids c ends at = record {
    reads = [];
    made = refl;
    parts = [];
    done = refl;
    counts = ap (λ t. sum (map counted t)) (sym c);
    bytes = refl;
  }
  scan sorted ((r, e) ∷ ps) s ids (item, lt, le, inside, c) (ends, more) at =
      let (k, key, got, len) = stored r.chunk ends.0.0 in
      scan_cons sorted r e s ps ids k item le inside ends at key got len (
        scan sorted ps e (drop (e - s) ids) c more
          (sym (drop-drop s (e - s) e sorted (omega arith)) ∙ ap (drop (e - s)) at))

  scan_runs :
      (sorted : Ids) (gap : ℕ) {rs : List Run}
      → All InObject sorted
      → szfp_merge_ranges sorted gap ≡ sz_ok rs
      → Scanned (map block_of sorted) (with_ends (length sorted) rs) sorted
  scan_runs sorted gap {rs} fit e =
      scan sorted (with_ends (length sorted) rs) 0 sorted (szfp_merge_ranges-Covers sorted gap e)
        (All-ends InObject (length sorted) rs (szfp_merge_ranges-All InObject sorted gap fit e))
        refl

  stream_count_lem :
      (reads : List MergedRange) (blocks : List ℕ) (parts : List (ℕ × ℕ)) (a b : ℕ)
      → sequence (map (count_one F decode avx512 store blocks bs rate 4 lo hi) reads) ≡ ok parts
      → sum (map (λ p. p.0) parts) ≡ a
      → sum (map (λ p. p.1) parts) ≡ b
      → stream_count F decode avx512 store reads blocks bs rate 4 lo hi ≡ ok (a, b)
  unfolding stream_count
  stream_count_lem reads blocks parts a b h p q =
      ap
        (λ (t : Result (List (ℕ × ℕ))).
          t >>= λ ps. ok (sum (map (λ p. p.0) ps), sum (map (λ p. p.1) ps)))
        h
      ∙ ap₂ (λ (t u : ℕ). let r : Result (ℕ × ℕ) = ok (t, u) in r) p q

  -- Where the store is lawful, the chunks have their objects and the rate and the block size belong
  -- together, ids in ascending order, each a uint32 block that ends within its object, are merged
  -- without an error at every gap. Streaming the reads returns the sum of the counts of the listed
  -- blocks, each counted alone from its own bytes, and the number of bytes that the reads ask for.
  pub merged_scan :
      (ids : Ids) (gap : ℕ)
      → is_ascending ids ≡ true
      → All Fits ids
      → All InObject ids
      → (reads : List MergedRange) × (merge_ranges keys ids bs (pos gap) base
          ≡ ok (reads, map block_of ids))
        × (stream_count F decode avx512 store reads (map block_of ids) bs rate 4 lo hi
            ≡ ok (sum (map counted ids), read_bytes reads))
  unfolding sum
  merged_scan [] gap asc small fit =
      ([], merge_ranges-nil keys bs gap base, stream_count_lem [] [] [] 0 0 refl refl refl)
  merged_scan (x ∷ ids) gap asc small fit =
      let (rs, e) = szfp_merge_ranges_total (x ∷ ids) gap small asc in
      let sc = scan_runs (x ∷ ids) gap fit e in
      (
        sc.reads,
        merge_ranges-cons keys bs gap base x ids rs sc.reads asc e sc.made,
        stream_count_lem sc.reads (map block_of (x ∷ ids)) sc.parts _ _ sc.done sc.counts sc.bytes,
      )
