-- ===== src/Query/Plan/Worth.antt =====
-- What a plan says of the whole array: every block is IN, OUT or listed, and a measure of the
-- blocks that is known for the IN and the OUT ones is the sum of theirs and of the listed ones.
use skip_zfp.Prelude.{
  ℕ, zero, suc, ◌+◌, ◌*◌, ◌^◌, ◌≤◌, ◌<◌, ◌≡◌, sym, ap, ◌∙◌, subst, Bool, true, false, List, [], ◌∷◌,
  map, length, length-append, length-map, length-flat_map, map-append, flat_map, sum, sum-append,
  range, range_from, length-range_from, arith, All, All-range,
}
use skip_zfp.Floats.{Floats}
use skip_zfp.Query.Merge.{BlockId, is_ascending}
use skip_zfp.Query.Classify.{State, classify_unit, classify_block}
use skip_zfp.Query.Plan.{
  Grid, n_sub, n_chunk, blocks_per_chunk, has_codes, count_in, count_out, list_blocks, chunk_states,
  plan_of, unit_record,
}
use skip_zfp.Query.Plan.Counts.{count_states, StateOk, Agrees, Agrees-append, worth_of_chunk}
use skip_zfp.Query.Plan.Listed.{listed-is_ascending, listed-All}

-- the sum of a measure over the first `m` blocks of every chunk below `n`
unfoldable pub array_sum : (BlockId → ℕ) → ℕ → ℕ → ℕ
array_sum w n m = sum (map (λ c. sum (map (λ b. w (c, b)) (range m))) (range n))

module _ (states : ℕ → List State) (k : ℕ) (len : (c : ℕ) → length (states c) ≡ k) where
  counts_from :
      (cs : List ℕ)
      → sum (map (λ c. count_in (states c)) cs)
          + sum (map (λ c. count_out (states c)) cs)
          + length (flat_map (λ c. list_blocks false c 0 (states c)) cs)
        ≡ length cs * k
  unfolding sum
  counts_from [] = omega arith
  counts_from (c ∷ cs) = omega (
    arith,
    counts_from cs,
    count_states c 0 (states c),
    len c,
    length-append (list_blocks false c 0 (states c))
        (flat_map (λ c. list_blocks false c 0 (states c)) cs),
  )

  worth_from :
      (n : ℕ) (w : BlockId → ℕ) (cs : List ℕ)
      → All (λ c. Agrees n (λ b. w (c, b)) 0 (states c)) cs
      → sum (map (λ c. sum (map (λ b. w (c, b)) (range k))) cs)
        ≡ sum (map (λ c. count_in (states c)) cs) * n
          + sum (map w (flat_map (λ c. list_blocks false c 0 (states c)) cs))
  unfolding sum
  worth_from n w [] h = omega arith
  worth_from n w (c ∷ cs) (h, hs) =
      let one = worth_of_chunk n w c 0 (states c) h in
      let here : sum (map (λ b. w (c, b)) (range k))
          ≡ sum (map (λ b. w (c, b)) (range (length (states c)))) =
        ap (λ (t : ℕ). sum (map (λ b. w (c, b)) (range t))) (sym (len c)) in
      omega (
        arith,
        one,
        here,
        worth_from n w cs hs,
        ap sum (
            map-append w (list_blocks false c 0 (states c))
              (flat_map (λ c. list_blocks false c 0 (states c)) cs)),
        sum-append (map w (list_blocks false c 0 (states c)))
            (map w (flat_map (λ c. list_blocks false c 0 (states c)) cs)),
      )

-- The states of a unit agree with a measure that each block's state agrees with.
Agrees-map :
    (n : ℕ) (w : ℕ → ℕ) (f : ℕ → State) (b i m j : ℕ)
    → i + m ≡ j
    → ((k : ℕ) → k < j → StateOk n (f k) (w (b + k)))
    → Agrees n w (b + i) (map f (range_from i m))
unfolding range_from
Agrees-map n w f b i zero j e h = tt
Agrees-map n w f b i (suc m) j e h = (
  h i (omega arith),
  let e' : b + (i + 1) ≡ b + i + 1 = omega arith in
      subst (λ t. Agrees n w t (map f (range_from (i + 1) m))) e'
        (Agrees-map n w f b (i + 1) m j (omega arith) h),
)

Agrees-flat_map :
    (n u : ℕ) (w : ℕ → ℕ) (f : ℕ → List State) (i m j : ℕ)
    → ((k : ℕ) → length (f k) ≡ u)
    → i + m ≡ j
    → ((k : ℕ) → k < j → Agrees n w (k * u) (f k))
    → Agrees n w (i * u) (flat_map f (range_from i m))
unfolding range_from
Agrees-flat_map n u w f i zero j len e h = tt
Agrees-flat_map n u w f i (suc m) j len e h =
    Agrees-append n w (i * u) ((i + 1) * u) (f i) (flat_map f (range_from (i + 1) m))
      (omega (arith, len i)) (h i (omega arith))
      (Agrees-flat_map n u w f (i + 1) m j len (omega arith) h)

module _ (F : Floats) (g : Grid) (meta : List ℕ) (meta_size : ℕ) (lo hi : F.Double) where
  length-classify_unit :
      (cm : List ℕ) (n : ℕ) (b : Bool) → length (classify_unit F cm n b lo hi) ≡ n
  unfolding classify_unit
  length-classify_unit cm n b =
      length-map (classify_block F cm n b lo hi) (range n) ∙ length-range_from 0 n

  pub length-chunk_states :
      (cid : ℕ) → length (chunk_states F g meta meta_size lo hi cid) ≡ blocks_per_chunk g
  unfolding chunk_states
  length-chunk_states cid =
      length-flat_map _ g.blocks_per_unit (range (n_sub g))
        (λ sub. length-classify_unit (unit_record F g meta meta_size cid sub) g.blocks_per_unit _)
      ∙ ap (λ (t : ℕ). t * g.blocks_per_unit) (length-range_from 0 (n_sub g))

  -- The IN blocks, the OUT blocks and the listed blocks of a plan for counting are together the
  -- blocks of all chunks.
  pub plan_counts :
      let p = plan_of F g meta meta_size lo hi false in
      p.n_in + p.n_out + length p.ids ≡ n_chunk g * blocks_per_chunk g
  unfolding plan_of
  plan_counts =
      counts_from (chunk_states F g meta meta_size lo hi) (blocks_per_chunk g) length-chunk_states
        (range (n_chunk g))
      ∙ ap (λ (t : ℕ). t * blocks_per_chunk g) (length-range_from 0 (n_chunk g))

  -- What the state of every block says of its worth, unit by unit.
  abbrev pub Judged : ℕ → (BlockId → ℕ) → Type 0
  Judged n w =
      (c sub b : ℕ)
      → c < n_chunk g
      → sub < n_sub g
      → b < g.blocks_per_unit
      → StateOk n
          (classify_block F (unit_record F g meta meta_size c sub) g.blocks_per_unit
            (has_codes g meta_size) lo hi b)
          (w (c, sub * g.blocks_per_unit + b))

  pub Agrees-chunk_states :
      (n : ℕ) (w : BlockId → ℕ)
      → Judged n w
      → (c : ℕ) → c < n_chunk g
      → Agrees n (λ b. w (c, b)) 0 (chunk_states F g meta meta_size lo hi c)
  unfolding chunk_states classify_unit
  Agrees-chunk_states n w judged c h =
      let start : 0 * g.blocks_per_unit ≡ 0 = omega arith in
      subst (λ t. Agrees n (λ b. w (c, b)) t (chunk_states F g meta meta_size lo hi c)) start
        (Agrees-flat_map n g.blocks_per_unit (λ b. w (c, b)) _ 0 (n_sub g) (n_sub g)
          (λ sub. length-classify_unit (unit_record F g meta meta_size c sub) g.blocks_per_unit _)
          (omega arith)
          (λ sub hs.
            let e : sub * g.blocks_per_unit + 0 ≡ sub * g.blocks_per_unit = omega arith in
            subst
              (λ t.
                Agrees n (λ b. w (c, b)) t
                  (classify_unit F (unit_record F g meta meta_size c sub) g.blocks_per_unit
                    (has_codes g meta_size) lo hi))
              e
              (Agrees-map n (λ b. w (c, b)) _ (sub * g.blocks_per_unit) 0 g.blocks_per_unit
                g.blocks_per_unit (omega arith) (λ b hb. judged c sub b h hs hb))))

  -- A measure of the blocks that is `n` at every IN block and 0 at every OUT block sums up, over
  -- all chunks, to `n` times the IN blocks that the plan counts and its values at the listed
  -- blocks.
  pub plan_worth :
      (n : ℕ) (w : BlockId → ℕ)
      → Judged n w
      → let p = plan_of F g meta meta_size lo hi false in
        array_sum w (n_chunk g) (blocks_per_chunk g) ≡ p.n_in * n + sum (map w p.ids)
  unfolding plan_of array_sum
  plan_worth n w judged =
      worth_from (chunk_states F g meta meta_size lo hi) (blocks_per_chunk g) length-chunk_states n
        w (range (n_chunk g))
        (All-range (λ c. Agrees n (λ b. w (c, b)) 0 (chunk_states F g meta meta_size lo hi c))
          (n_chunk g) (Agrees-chunk_states n w judged))

  -- When a chunk has at most 2^32 blocks, the ids of a plan, with or without the IN blocks, are in
  -- strictly ascending order of chunk and block, and each is that of a block of the array.
  pub plan_listed :
      (keep_in : Bool)
      → blocks_per_chunk g ≤ 2 ^ 32
      → let p = plan_of F g meta meta_size lo hi keep_in in
        (is_ascending p.ids ≡ true)
        × All (λ x. (x.0 < n_chunk g) × (x.1 < blocks_per_chunk g)) p.ids
  unfolding plan_of
  plan_listed keep_in h = (
    listed-is_ascending keep_in (chunk_states F g meta meta_size lo hi)
        (λ c. omega (arith, length-chunk_states c)) (n_chunk g),
    listed-All keep_in (chunk_states F g meta meta_size lo hi) (blocks_per_chunk g)
        length-chunk_states 0 (n_chunk g) (n_chunk g) (omega arith),
  )
