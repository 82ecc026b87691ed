-- ===== src/Aggregate/Stream/Total.antt =====
-- merge_ranges and stream_aggregate together: the reads aggregate the listed blocks, each once, in
-- consecutive groups.
use Prim.Native.String.{String}
use skip_zfp.Prelude.{
  ℕ, ◌+◌, ◌-◌, ◌*◌, ◌≤◌, ◌≡◌, refl, sym, ap, ◌∙◌, Bool, true, some, List, [], ◌∷◌, ◌++◌, map,
  length, get_elem?, take, drop, drop-drop, slice, length-slice, All, All-take, All-drop, sum,
  flat_map, Result, ok, sequence, sequence-cons, arith, pos, take-append-drop,
}
use skip_zfp.Floats.{Floats}
use skip_zfp.Query.Merge.{
  BlockId, Ids, Run, MergedRange, with_ends, to_range, block_of, merge_ranges, is_ascending,
}
use skip_zfp.Query.Merge.Covers.{IsIn, Covers, szfp_merge_ranges-Covers}
use skip_zfp.Query.Merge.Order.{Fits, EndsAt, szfp_merge_ranges-All, szfp_merge_ranges_total}
use skip_zfp.Query.Read.{Store, IsLawful, read_one}
use skip_zfp.Query.Stream.{offsets_of, range_of}
use skip_zfp.Query.Stream.Scan.{Stored, IsStoredBlock, IsRate}
use skip_zfp.Query.Stream.Reads.{
  merge_ranges-nil, merge_ranges-cons, read_bytes, the_range, to_range_lem, read_one_lem, cut-map,
  read_lengths, read_length, All-ends,
}
use skip_zfp.Aggregate.Kernel.{Sums, Aggregate, Listed, empty, aggregate_blocks, aggregate_offsets}
use skip_zfp.Aggregate.Stream.{entries, aggregate_one, stream_aggregate}
use skip_zfp.Aggregate.Stream.Scan.{item_of, IsSound, aggregate_offsets_lem}

module _ (F : Floats) (S : Sums F) (decode : ℕ → List ℕ → List F.Single) (store : Store)
    (law : IsLawful store) (keys : List String) (object : ℕ → List ℕ) (n size : ℕ)
    (stored : Stored store keys object n size) (base bs rate : ℕ) (lo hi : F.Double)
    (valid : IsRate bs rate) (eps : BlockId → F.Single) (in_block : BlockId → Bool) where
  abbrev InObject : BlockId → Type 0
  InObject = IsStoredBlock n size base bs

  abbrev item : BlockId → Listed F
  item = item_of F S decode object base bs rate eps in_block

  abbrev Sound : BlockId → Type 0
  Sound = IsSound F S decode object base bs rate eps in_block

  -- what a read of a group contributes
  abbrev pub group_part : Ids × ℕ → Aggregate F × ℕ
  group_part (g, k) = (aggregate_blocks F lo hi (map item g) (empty F), k)

  -- `one(req)` for a read of the listed ids
  abbrev one_of : Ids → MergedRange → Result ((Aggregate F × ℕ) × ℕ)
  one_of sorted =
      aggregate_one F S decode store (map block_of sorted) (map eps sorted) (map in_block sorted) bs
        rate 4 lo hi

  aggregate_one-ok :
      (sorted : Ids) (req : MergedRange) (buf : List ℕ) (t : Aggregate F)
      → read_one store (range_of req) ≡ ok buf
      → aggregate_offsets F S decode buf
          (entries F
            (offsets_of (map block_of sorted) bs req)
            (slice (map eps sorted) req.item_start req.item_end)
            (slice (map in_block sorted) req.item_start req.item_end))
          bs
          rate
          4
          lo
          hi
        ≡ ok t
      → one_of sorted req ≡ ok ((t, req.item_end - req.item_start), req.end - req.start)
  unfolding aggregate_one
  aggregate_one-ok sorted req buf t h k = rw (h, k) refl

  -- One read gives the part of its group.
  aggregate_one_lem :
      (sorted : Ids) (r : Run) (e : ℕ) (g : Ids) (k : String)
      → store.get k ≡ some (object r.chunk)
      → length (object r.chunk) ≡ size
      → base + (r.last + 1) * bs ≤ size
      → r.first ≤ r.last
      → All (IsIn r) g
      → All Sound g
      → slice (map block_of sorted) r.item e ≡ map block_of g
      → slice (map eps sorted) r.item e ≡ map eps g
      → slice (map in_block sorted) r.item e ≡ map in_block g
      → one_of sorted (the_range k bs base r e)
        ≡ ok (group_part (g, e - r.item), base + (r.last + 1) * bs - (base + r.first * bs))
  aggregate_one_lem sorted r e g k got len fits le inside sound cut cut_eps cut_in =
      aggregate_one-ok sorted (the_range k bs base r e) buf _
        (read_one_lem store k (object r.chunk) start end law got (read_lengths base bs r le)
          (omega arith))
        (rw (cut, cut_eps, cut_in)
          (aggregate_offsets_lem F S decode object base bs rate eps in_block r start end g lo hi
            valid refl refl
            (length-slice (object r.chunk) start end (omega arith) ∙ read_length base bs r le)
            inside sound))
    where
      start : ℕ
      start = base + r.first * bs

      end : ℕ
      end = base + (r.last + 1) * bs

      buf : List ℕ
      buf = slice (object r.chunk) start end

  -- The reads of the runs from one item on, and what they give.
  record Gathered (sorted : Ids) (ps : List (Run × ℕ)) (ids : Ids) : Type 0 where
    pub groups : List (Ids × ℕ)
    pub whole : flat_map (λ g. g.0) groups ≡ ids
    pub reads : List MergedRange
    pub made : sequence (map (to_range keys bs base) ps) ≡ ok reads
    pub parts : List ((Aggregate F × ℕ) × ℕ)
    pub done : sequence (map (one_of sorted) reads) ≡ ok parts
    pub given : map (λ p. p.0) parts ≡ map group_part groups
    pub bytes : sum (map (λ p. p.1) parts) ≡ read_bytes reads

  -- A read in front of the others.
  gather_cons :
      (sorted : Ids) (r : Run) (e s : ℕ) (ps : List (Run × ℕ)) (ids : Ids) (k : String)
      → r.item ≡ s
      → r.first ≤ r.last
      → All (IsIn r) (take (e - s) ids)
      → All Sound (take (e - s) ids)
      → EndsAt InObject r
      → drop s sorted ≡ ids
      → get_elem? keys r.chunk ≡ some k
      → store.get k ≡ some (object r.chunk)
      → length (object r.chunk) ≡ size
      → Gathered sorted ps (drop (e - s) ids)
      → Gathered sorted ((r, e) ∷ ps) ids
  unfolding sum
  gather_cons sorted r e s ps ids k item_at le inside sound ends at key got len rest = record {
    groups = (g, e - r.item) ∷ rest.groups;
    whole = ap (λ (t : Ids). g ++ t) rest.whole ∙ take-append-drop (e - s) ids;
    reads = the_range k bs base r e ∷ rest.reads;
    made =
        sequence-cons (to_range keys bs base (r, e)) (map (to_range keys bs base) ps)
          (the_range k bs base r e) rest.reads (to_range_lem keys bs base r e k key) rest.made;
    parts =
        (group_part (g, e - r.item), base + (r.last + 1) * bs - (base + r.first * bs)) ∷ rest.parts;
    done =
        sequence-cons (one_of sorted (the_range k bs base r e)) (map (one_of sorted) rest.reads) _
          rest.parts
          (aggregate_one_lem sorted r e g k got len (omega (arith, ends.1.1)) le inside sound
            (cut-map block_of sorted ids r.item s e item_at at)
            (cut-map eps sorted ids r.item s e item_at at)
            (cut-map in_block sorted ids r.item s e item_at at))
          rest.done;
    given = ap (λ (t : List (Aggregate F × ℕ)). group_part (g, e - r.item) ∷ t) rest.given;
    bytes = ap (λ (t : ℕ). base + (r.last + 1) * bs - (base + r.first * bs) + t) rest.bytes;
  }
    where
      g : Ids
      g = take (e - s) ids

  gather :
      (sorted : Ids) (ps : List (Run × ℕ)) (s : ℕ) (ids : Ids)
      → Covers ps s ids
      → All (λ p. EndsAt InObject p.0) ps
      → All Sound ids
      → drop s sorted ≡ ids
      → Gathered sorted ps ids
  gather sorted [] s ids c ends sound at = record {
    groups = [];
    whole = sym c;
    reads = [];
    made = refl;
    parts = [];
    done = refl;
    given = refl;
    bytes = refl;
  }
  gather sorted ((r, e) ∷ ps) s ids (item_at, lt, le, inside, c) (ends, more) sound at =
      let (k, key, got, len) = stored r.chunk ends.0.0 in
      gather_cons sorted r e s ps ids k item_at le inside (All-take Sound (e - s) ids sound) ends at
        key got len
        (gather sorted ps e (drop (e - s) ids) c more (All-drop Sound (e - s) ids sound)
          (sym (drop-drop s (e - s) e sorted (omega arith)) ∙ ap (drop (e - s)) at))

  stream_aggregate_lem :
      (sorted : Ids) (reads : List MergedRange) (parts : List ((Aggregate F × ℕ) × ℕ))
      (groups : List (Ids × ℕ)) (b : ℕ)
      → sequence (map (one_of sorted) reads) ≡ ok parts
      → map (λ p. p.0) parts ≡ map group_part groups
      → sum (map (λ p. p.1) parts) ≡ b
      → stream_aggregate F S decode store reads
          (map block_of sorted)
          (map eps sorted)
          (map in_block sorted)
          bs
          rate
          4
          lo
          hi
        ≡ ok (map group_part groups, b)
  unfolding stream_aggregate
  stream_aggregate_lem sorted reads parts groups b h p q = rw (h, p, q) refl

  -- Where the store is lawful, the chunks have their objects and the rate and the block size belong
  -- together, ids in ascending order, each a uint32 block that ends within its object and whose
  -- error bound is finite and at least 0, are merged without an error at every gap.
  -- stream_aggregate returns one part for each of some consecutive groups that make up the ids, and
  -- each part is what aggregate_blocks gives of the blocks of its group, every block decoded from
  -- its own bytes.
  pub merged_aggregate :
      (ids : Ids) (gap : ℕ)
      → is_ascending ids ≡ true
      → All Fits ids
      → All InObject ids
      → All Sound ids
      → (groups : List (Ids × ℕ)) × (reads : List MergedRange) × (flat_map (λ g. g.0) groups ≡ ids)
        × (merge_ranges keys ids bs (pos gap) base ≡ ok (reads, map block_of ids))
        × (stream_aggregate F S decode store reads
              (map block_of ids)
              (map eps ids)
              (map in_block ids)
              bs
              rate
              4
              lo
              hi
            ≡ ok (map group_part groups, read_bytes reads))
  unfolding sum
  merged_aggregate [] gap asc small fit sound = (
    [],
    [],
    refl,
    merge_ranges-nil keys bs gap base,
    stream_aggregate_lem [] [] [] [] 0 refl refl refl,
  )
  merged_aggregate (x ∷ ids) gap asc small fit sound =
      let sorted = x ∷ ids in
      let (rs, e) = szfp_merge_ranges_total sorted gap small asc in
      let ga =
        gather sorted (with_ends (length sorted) rs) 0 sorted
          (szfp_merge_ranges-Covers sorted gap e)
          (All-ends InObject (length sorted) rs (szfp_merge_ranges-All InObject sorted gap fit e))
          sound refl in
      (
        ga.groups,
        ga.reads,
        ga.whole,
        merge_ranges-cons keys bs gap base x ids rs ga.reads asc e ga.made,
        stream_aggregate_lem sorted ga.reads ga.parts ga.groups _ ga.done ga.given ga.bytes,
      )
