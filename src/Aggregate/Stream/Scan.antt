-- ===== src/Aggregate/Stream/Scan.antt =====
-- One read of an aggregate: the checks of szfp_aggregate_offsets_range pass, and it aggregates the
-- blocks that were listed, as if each were decoded from its own bytes.
use skip_zfp.Prelude.{
  ℕ, ◌+◌, ◌-◌, ◌*◌, ◌≤◌, ◌≡◌, refl, sym, ap, ap₂, ◌∙◌, Bool, true, List, [], ◌∷◌, map, length,
  slice, slice-slice, All, Result, ok, arith,
}
use skip_zfp.Floats.{Floats}
use skip_zfp.Native.{sz_ok}
use skip_zfp.Query.Merge.{BlockId, Ids, Run, block_of}
use skip_zfp.Query.Merge.Covers.{IsIn}
use skip_zfp.Query.Stream.{row_offset}
use skip_zfp.Query.Stream.Scan.{IsRate, offset_sum, row_offset_lem}
use skip_zfp.Query.Stream.Reads.{offsets_fit}
use skip_zfp.Aggregate.Kernel.{
  Sums, Aggregate, Listed, Entry, empty, aggregate_blocks, check_entries, decode_entry,
  szfp_aggregate_offsets_range, aggregate_offsets,
}
use skip_zfp.Aggregate.Stream.{entries}

module _ (F : Floats) (S : Sums F) (decode : ℕ → List ℕ → List F.Single) (object : ℕ → List ℕ)
    (base bs rate : ℕ) (eps : BlockId → F.Single) (in_block : BlockId → Bool) where
  -- a listed block, decoded from its own bytes
  abbrev pub item_of : BlockId → Listed F
  item_of x = record {
    values = decode rate (slice (object x.0) (base + x.1 * bs) (base + x.1 * bs + bs));
    eps = eps x;
    in_block = in_block x;
  }

  -- the error bound of the block is a number that the C function accepts
  abbrev pub IsSound : BlockId → Type 0
  IsSound x = (F.le (F.of_ℕ 0) (F.widen (eps x)) ≡ true) × (S.is_finite (eps x) ≡ true)

  -- the entries that a read passes on
  abbrev pub entries_of : Run → Ids → List (Entry F)
  entries_of r g =
      entries F (map (row_offset r.first bs) (map block_of g)) (map eps g) (map in_block g)

  check_entries-ok :
      (buf : List ℕ) (r : Run) (g : Ids)
      → All (λ o. o + bs ≤ length buf) (map (row_offset r.first bs) (map block_of g))
      → All IsSound g
      → check_entries F S decode buf bs (entries_of r g) ≡ sz_ok tt
  unfolding check_entries entries
  check_entries-ok buf r [] fit sound = refl
  check_entries-ok buf r (x ∷ g) (f, fit) ((a, b), sound) =
      ground (arith, check_entries-ok buf r g fit sound, f, a, b)

  decode_entries :
      (r : Run) (start end : ℕ) (g : Ids)
      → start ≡ base + r.first * bs
      → end ≡ base + (r.last + 1) * bs
      → All (IsIn r) g
      → map (decode_entry F S decode (slice (object r.chunk) start end) bs rate) (entries_of r g)
        ≡ map item_of g
  unfolding decode_entry entries
  decode_entries r start end [] p q inside = refl
  decode_entries r start end ((c, b) ∷ g) p q (h, inside) =
      ap₂ ◌∷◌ here (decode_entries r start end g p q inside)
    where
      offset : start + row_offset r.first bs b ≡ base + b * bs
      offset = omega (arith, row_offset_lem r.first b bs h.1, offset_sum r.first b bs h.1)

      fits : base + b * bs + bs ≤ end
      fits = grind arith

      here :
          decode_entry F S decode (slice (object r.chunk) start end) bs rate (record {
            offset = row_offset r.first bs b;
            eps = eps (c, b);
            in_block = in_block (c, b);
          })
          ≡ item_of (c, b)
      here =
          ap
            (λ t.
              let l : Listed F = record {
                values = decode rate t;
                eps = eps (c, b);
                in_block = in_block (c, b);
              } in
              l)
            (slice-slice (object r.chunk) start end (row_offset r.first bs b)
                (row_offset r.first bs b + bs) (base + b * bs) (base + b * bs + bs) offset
                (omega (arith, offset)) fits
              ∙ ap (λ k. slice (object k) (base + b * bs) (base + b * bs + bs)) (sym h.0))

  -- what the call returns when its checks pass
  checked :
      (buf : List ℕ) (es : List (Entry F)) (lo hi : F.Double)
      → IsRate bs rate
      → check_entries F S decode buf bs es ≡ sz_ok tt
      → aggregate_offsets F S decode buf es bs rate 4 lo hi
        ≡ ok (aggregate_blocks F lo hi (map (decode_entry F S decode buf bs rate) es) (empty F))
  unfolding aggregate_offsets szfp_aggregate_offsets_range aggregate_blocks
  checked buf [] lo hi valid h = refl
  checked buf (e ∷ es) lo hi valid h = rw (h) (ground (arith, valid.0, valid.1))

  -- One read aggregates the blocks of its group.
  pub aggregate_offsets_lem :
      (r : Run) (start end : ℕ) (g : Ids) (lo hi : F.Double)
      → IsRate bs rate
      → start ≡ base + r.first * bs
      → end ≡ base + (r.last + 1) * bs
      → length (slice (object r.chunk) start end) ≡ (r.last + 1 - r.first) * bs
      → All (IsIn r) g
      → All IsSound g
      → aggregate_offsets F S decode
          (slice (object r.chunk) start end)
          (entries_of r g)
          bs
          rate
          4
          lo
          hi
        ≡ ok (aggregate_blocks F lo hi (map item_of g) (empty F))
  aggregate_offsets_lem r start end g lo hi valid p q len inside sound =
      checked (slice (object r.chunk) start end) (entries_of r g) lo hi valid (
        check_entries-ok (slice (object r.chunk) start end) r g (offsets_fit bs r g _ len inside)
          sound)
      ∙ ap (λ t. let o : Result (Aggregate F) = ok (aggregate_blocks F lo hi t (empty F)) in o)
          (decode_entries r start end g p q inside)
