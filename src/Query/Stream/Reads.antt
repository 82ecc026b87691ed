-- ===== src/Query/Stream/Reads.antt =====
-- One read: what merge_ranges makes of a run, the bytes that come back, and where the run's blocks
-- lie in them.
use Prim.Native.String.{String}
use skip_zfp.Prelude.{
  ℕ, ◌+◌, ◌-◌, ◌*◌, ◌≤◌, ◌≡◌, refl, ap, ◌∙◌, Bool, true, some, List, [], ◌∷◌, map, if◌then◌else◌,
  length, get_elem?, take, drop, slice, length-slice, All, sum, ok, sequence, arith, pos, take-map,
  drop-map,
}
use skip_zfp.Native.{sz_ok}
use skip_zfp.Query.Merge.{
  BlockId, Ids, Run, MergedRange, with_ends, to_range, block_of, in_order, merge_ranges,
  is_ascending, szfp_merge_ranges, merge, lexsort,
}
use skip_zfp.Query.Merge.Covers.{IsIn}
use skip_zfp.Query.Merge.Order.{EndsAt}
use skip_zfp.Query.Read.{Store, IsLawful, read_one}
use skip_zfp.Query.Stream.{row_offset}
use skip_zfp.Query.Stream.Scan.{offset_sum, row_offset_lem}

pub merge_ranges-nil :
    (keys : List String) (bs gap base : ℕ) → merge_ranges keys [] bs (pos gap) base ≡ ok ([], [])
unfolding merge_ranges
merge_ranges-nil keys bs gap base = refl

pub in_order_lem : (ids : Ids) → is_ascending ids ≡ true → in_order ids ≡ ids
unfolding in_order
in_order_lem ids h = ap (λ (b : Bool). if b then ids else lexsort ids) h

-- What merge_ranges makes of ids that are in order.
pub merge_ranges-cons :
    (keys : List String) (bs gap base : ℕ) (x : BlockId) (ids : Ids) (rs : List Run)
    (reads : List MergedRange)
    → is_ascending (x ∷ ids) ≡ true
    → szfp_merge_ranges (x ∷ ids) gap ≡ sz_ok rs
    → sequence (map (to_range keys bs base) (with_ends (length (x ∷ ids)) rs)) ≡ ok reads
    → merge_ranges keys (x ∷ ids) bs (pos gap) base ≡ ok (reads, map block_of (x ∷ ids))
unfolding merge_ranges merge
merge_ranges-cons keys bs gap base x ids rs reads asc e made =
    rw (in_order_lem (x ∷ ids) asc, e, made) (ground arith)

-- the bytes that the reads ask for
abbrev pub read_bytes : List MergedRange → ℕ
read_bytes ms = sum (map (λ m. m.end - m.start) ms)

-- the read of a run, once its key is known
abbrev pub the_range : String → ℕ → ℕ → Run → ℕ → MergedRange
the_range k bs base r e = record {
  key = k;
  start = base + r.first * bs;
  end = base + (r.last + 1) * bs;
  first_block = r.first;
  item_start = r.item;
  item_end = e;
}

pub to_range_lem :
    (keys : List String) (bs base : ℕ) (r : Run) (e : ℕ) (k : String)
    → get_elem? keys r.chunk ≡ some k
    → to_range keys bs base (r, e) ≡ ok (the_range k bs base r e)
unfolding to_range
to_range_lem keys bs base r e k h = rw (h, to_range)

pub read_one_lem :
    (store : Store) (k : String) (object : List ℕ) (start end : ℕ)
    → IsLawful store
    → store.get k ≡ some object
    → start ≤ end
    → end ≤ length object
    → read_one store (record { key = k; start = start; end = end }) ≡ ok (slice object start end)
unfolding read_one
read_one_lem store k object start end law h le fits =
    let got = law.get_range_of_some k object start end h in
    let whole : start + length (slice object start end) ≡ end =
      omega (arith, length-slice object start end fits) in
    rw (got, read_one) (ground (arith, whole))

pub cut-map :
    {A B : Type 0} (f : A → B) (sorted ids : List A) (i s e : ℕ)
    → i ≡ s
    → drop s sorted ≡ ids
    → slice (map f sorted) i e ≡ map f (take (e - s) ids)
cut-map f sorted ids i s e p q =
    ap (λ j. slice (map f sorted) j e) p
    ∙ ap (take (e - s)) (drop-map f s sorted)
    ∙ take-map f (e - s) (drop s sorted)
    ∙ ap (λ t. map f (take (e - s) t)) q

pub mul_mono : (a b n : ℕ) → a ≤ b → a * n ≤ b * n
mul_mono a b n h = grind arith

pub offset_fits :
    (f l b bs n : ℕ) → n ≡ (l + 1 - f) * bs → f ≤ b → b ≤ l → row_offset f bs b + bs ≤ n
offset_fits f l b bs n e p q =
    omega (arith, row_offset_lem f b bs p, mul_mono (b - f + 1) (l + 1 - f) bs (omega arith))

-- The offsets of a group's blocks stay inside the read.
pub offsets_fit :
    (bs : ℕ) (r : Run) (g : Ids) (n : ℕ)
    → n ≡ (r.last + 1 - r.first) * bs
    → All (IsIn r) g
    → All (λ o. o + bs ≤ n) (map (row_offset r.first bs) (map block_of g))
offsets_fit bs r [] n e h = tt
offsets_fit bs r ((c, b) ∷ g) n e (h, hs) =
    (offset_fits r.first r.last b bs n e h.1 h.2, offsets_fit bs r g n e hs)

pub read_lengths :
    (base bs : ℕ) (r : Run) → r.first ≤ r.last → base + r.first * bs ≤ base + (r.last + 1) * bs
read_lengths base bs r h = omega (arith, mul_mono r.first (r.last + 1) bs (omega arith))

pub read_length :
    (base bs : ℕ) (r : Run)
    → r.first ≤ r.last
    → base + (r.last + 1) * bs - (base + r.first * bs) ≡ (r.last + 1 - r.first) * bs
read_length base bs r h = omega (arith, offset_sum r.first (r.last + 1) bs (omega arith))

pub All-ends :
    (P : BlockId → Type 0) (m : ℕ) (rs : List Run)
    → All (EndsAt P) rs
    → All (λ p. EndsAt P p.0) (with_ends m rs)
unfolding with_ends
All-ends P m [] h = tt
All-ends P m (r ∷ []) h = h
All-ends P m (r ∷ s ∷ rs) (h, hs) = (h, All-ends P m (s ∷ rs) hs)
