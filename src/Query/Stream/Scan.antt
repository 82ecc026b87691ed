-- ===== src/Query/Stream/Scan.antt =====
-- What one merged read counts, and what all of them count together: the blocks that were listed,
-- each once, as if every block were read alone.
use Prim.Native.String.{String}
use skip_zfp.Prelude.{
  ℕ, ◌+◌, ◌-◌, ◌*◌, ◌≤◌, ◌<◌, ◌≡◌, refl, sym, ap, ap₂, ◌∙◌, Bool, false, ◌||◌, some, List, [], ◌∷◌,
  map, ltb, length, get_elem?, slice, slice-slice, any, All, sum, ok, arith,
}
use skip_zfp.Floats.{Floats}
use skip_zfp.Query.Merge.{BlockId, Ids, Run, block_of}
use skip_zfp.Query.Merge.Covers.{IsIn}
use skip_zfp.Query.Read.{Store}
use skip_zfp.Query.Count.{
  block_nbytes, count_block, count_at, szfp_count_offsets_range, count_offsets,
}
use skip_zfp.Query.Stream.{row_offset}

-- Every chunk below `n` has its key and its object, of `size` bytes.
abbrev pub Stored : Store → List String → (ℕ → List ℕ) → ℕ → ℕ → Type 0
Stored store keys object n size =
    (c : ℕ)
    → c < n
    → (k : String) × (get_elem? keys c ≡ some k)
      × (store.get k ≡ some (object c))
      × (length (object c) ≡ size)

-- The id is that of a block of a chunk below `n` that ends within the object.
abbrev pub IsStoredBlock : ℕ → ℕ → ℕ → ℕ → BlockId → Type 0
IsStoredBlock n size base block_size x = (x.0 < n) × (base + x.1 * block_size + block_size ≤ size)

pub offset_sum : (f b bs : ℕ) → f ≤ b → f * bs + (b - f) * bs ≡ b * bs
offset_sum f b bs h =
    let e : f + (b - f) ≡ b = omega arith in omega (arith, ap (λ (t : ℕ). t * bs) e)

pub row_offset_lem : (f b bs : ℕ) → f ≤ b → row_offset f bs b ≡ (b - f) * bs
row_offset_lem f b bs h = ground arith

any_short :
    (buf : List ℕ) (bs : ℕ) (os : List ℕ)
    → All (λ o. o + bs ≤ length buf) os
    → any (λ p. ltb (length buf) p || ltb (length buf - p) bs) os ≡ false
any_short buf bs [] h = refl
any_short buf bs (o ∷ os) h = ground (arith, any_short buf bs os h.1, h.0)

-- the rate and the block size belong together, as in szfp_count_offsets_range
abbrev pub IsRate : ℕ → ℕ → Type 0
IsRate bs rate = (bs ≡ block_nbytes 4 rate) × (0 < bs)

module _ (F : Floats) (decode : ℕ → List ℕ → List F.Single) (avx512 : Bool) where
  pub count_offsets_lem :
      (buf os : List ℕ) (bs rate : ℕ) (lo hi : F.Double)
      → IsRate bs rate
      → All (λ o. o + bs ≤ length buf) os
      → count_offsets F decode avx512 buf os bs rate 4 lo hi
        ≡ ok (sum (map (count_at F decode avx512 buf bs rate lo hi) os))
  unfolding count_offsets szfp_count_offsets_range sum
  count_offsets_lem buf [] bs rate lo hi r h = refl
  count_offsets_lem buf (o ∷ os) bs rate lo hi r h = ground (arith, any_short buf bs (o ∷ os) h)

  count_at-slice :
      (object : List ℕ) (start end bs rate : ℕ) (lo hi : F.Double) (o p : ℕ)
      → start + o ≡ p
      → p + bs ≤ end
      → count_at F decode avx512 (slice object start end) bs rate lo hi o
        ≡ count_at F decode avx512 object bs rate lo hi p
  unfolding count_at
  count_at-slice object start end bs rate lo hi o p e h =
      ap (count_block F decode avx512 rate lo hi)
        (slice-slice object start end o (o + bs) p (p + bs) e (omega arith) h)

  -- one listed block, counted alone
  abbrev pub block_count : (object : ℕ → List ℕ) (base bs rate : ℕ) (lo hi : F.Double) → BlockId → ℕ
  block_count object base bs rate lo hi x =
      count_at F decode avx512 (object x.0) bs rate lo hi (base + x.1 * bs)

  module _ (object : ℕ → List ℕ) (base bs rate : ℕ) (lo hi : F.Double) where
    -- The blocks of a group, found in the bytes of the read that covers it.
    pub group_sum :
        (r : Run) (start end : ℕ) (g : Ids)
        → start ≡ base + r.first * bs
        → end ≡ base + (r.last + 1) * bs
        → All (IsIn r) g
        → sum (
            map
              (count_at F decode avx512 (slice (object r.chunk) start end) bs rate lo hi)
              (map (row_offset r.first bs) (map block_of g)))
          ≡ sum (map (block_count object base bs rate lo hi) g)
    unfolding sum
    group_sum r start end [] p q inside = refl
    group_sum r start end ((c, b) ∷ g) p q (h, inside) =
        ap₂ ◌+◌ here (group_sum r start end g p q inside)
      where
        offset : start + row_offset r.first bs b ≡ base + b * bs
        offset = omega (arith, row_offset_lem r.first b bs h.1, offset_sum r.first b bs h.1)

        fits : base + b * bs + bs ≤ end
        fits = grind arith

        here :
            count_at F decode avx512
              (slice (object r.chunk) start end)
              bs
              rate
              lo
              hi
              (row_offset r.first bs b)
            ≡ block_count object base bs rate lo hi (c, b)
        here =
            count_at-slice (object r.chunk) start end bs rate lo hi (row_offset r.first bs b)
              (base + b * bs) offset fits
            ∙ ap (λ k. count_at F decode avx512 (object k) bs rate lo hi (base + b * bs)) (sym h.0)
