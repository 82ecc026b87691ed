-- ===== src/Codec/MetaPack.antt =====
-- skipzfp/codec.py: pack_meta and unpack_meta, which rearrange the records of a zone map object
-- before and after compression. A byte is a number, and uint8 arithmetic is modulo 256.
pub mod Rows
pub mod Cuts
pub mod RoundTrip
use skip_zfp.Prelude.{
  ℕ, zero, suc, ◌+◌, ◌-◌, ◌*◌, ◌/◌, ◌%◌, ◌≤◌, ◌<◌, ◌≡◌, refl, sym, ap, ap₂, ◌∙◌, List, [], ◌∷◌,
  ◌++◌, map, flat_map, take, drop, slice, length, All, arith, cumsum, ◌==◌, Result, ok, ◌>>=◌, ◌>>◌,
  raise_if, value_error, zero_division,
}

-- `q[..., 0]` and `q[..., 1]` of a row of pairs
unfoldable pub evens : List ℕ → List ℕ
evens [] = []
evens (x ∷ []) = []
evens (x ∷ y ∷ xs) = x ∷ evens xs

unfoldable pub odds : List ℕ → List ℕ
odds [] = []
odds (x ∷ []) = []
odds (x ∷ y ∷ xs) = y ∷ odds xs

-- `dmin[:, 1:] -= qmin[:, :-1]`: each minimum less the one before it
unfoldable pub deltas_from : ℕ → List ℕ → List ℕ
deltas_from p [] = []
deltas_from p (x ∷ xs) = ((x + 256 - p) % 256) ∷ deltas_from x xs

unfoldable pub deltas : List ℕ → List ℕ
unfolding deltas_from
deltas [] = []
deltas (x ∷ xs) = x ∷ deltas_from x xs

-- `q[..., 1] - qmin`
unfoldable pub widths : List ℕ → List ℕ → List ℕ
widths [] mins = []
widths (y ∷ ys) [] = []
widths (y ∷ ys) (x ∷ xs) = ((y + 256 - x) % 256) ∷ widths ys xs

-- the quantized bounds of a record, `rec[:, lead : lead + 2 * blocks]`
abbrev pub quantized : ℕ → ℕ → List ℕ → List ℕ
quantized lead blocks r = slice r lead (lead + 2 * blocks)

-- the four parts of one record
abbrev pub head_of : ℕ → List ℕ → List ℕ
head_of lead r = take lead r

unfoldable pub dmin_of : ℕ → ℕ → List ℕ → List ℕ
unfolding deltas evens
dmin_of lead blocks r = deltas (evens (quantized lead blocks r))

unfoldable pub width_of : ℕ → ℕ → List ℕ → List ℕ
unfolding widths odds evens
width_of lead blocks r = widths (odds (quantized lead blocks r)) (evens (quantized lead blocks r))

abbrev pub tail_of : ℕ → ℕ → List ℕ → List ℕ
tail_of lead blocks r = drop (lead + 2 * blocks) r

unfoldable pub pack_meta : List (List ℕ) → ℕ → ℕ → List ℕ
unfolding dmin_of width_of
pack_meta rec lead blocks =
    flat_map (head_of lead) rec
    ++ (flat_map (dmin_of lead blocks) rec
        ++ (flat_map (width_of lead blocks) rec ++ flat_map (tail_of lead blocks) rec))

-- `.reshape(n, k)`
unfoldable pub reshape : ℕ → ℕ → List ℕ → List (List ℕ)
reshape zero k xs = []
reshape (suc n) k xs = take k xs ∷ reshape n k (drop k xs)

-- `np.cumsum(..., dtype=np.uint8)`
unfoldable pub cumsum8 : ℕ → List ℕ → List ℕ
cumsum8 acc [] = []
cumsum8 acc (x ∷ xs) = let s = (acc + x) % 256 in s ∷ cumsum8 s xs

-- the quantized bounds from the minima and the widths
unfoldable pub interleave : List ℕ → List ℕ → List ℕ
interleave [] ws = []
interleave (m ∷ ms) [] = []
interleave (m ∷ ms) (w ∷ ws) = m ∷ ((m + w) % 256) ∷ interleave ms ws

-- one record from its four parts
unfoldable pub join_record : List ℕ → List ℕ → List ℕ → List ℕ → List ℕ
unfolding cumsum8 interleave
join_record head dmin width tail = head ++ (interleave (cumsum8 0 dmin) width ++ tail)

unfoldable pub join_records :
    List (List ℕ) → List (List ℕ) → List (List ℕ) → List (List ℕ) → List (List ℕ)
unfolding join_record
join_records (h ∷ hs) (d ∷ ds) (w ∷ ws) (t ∷ ts) = join_record h d w t ∷ join_records hs ds ws ts
join_records _ _ _ _ = []

-- `np.split(buf, ends)` and the rows of `out`. With no record, `tail.reshape(0, -1)` raises.
unfoldable pub unpack_meta : List ℕ → ℕ → ℕ → ℕ → Result (List (List ℕ))
unfolding reshape join_records
unpack_meta buf size lead blocks =
    let n = length buf / size in
    let a = n * lead in
    let b = a + n * blocks in
    let c = b + n * blocks in
    do
      raise_if (size == 0) (zero_division "integer division or modulo by zero")
      raise_if (n == 0) (value_error "cannot reshape array of size 0")
      ok (
          join_records (reshape n lead (take a buf)) (reshape n blocks (slice buf a b))
            (reshape n blocks (slice buf b c)) (reshape n (size - lead - 2 * blocks) (drop c buf)))
