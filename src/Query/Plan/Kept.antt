-- ===== src/Query/Plan/Kept.antt =====
-- The plan of plan_read, which lists the IN blocks too: the states beside the ids are those of the
-- blocks, and a measure that is 0 at every OUT block sums up over the list.
use skip_zfp.Prelude.{
  ℕ, zero, suc, ◌+◌, ◌*◌, ◌<◌, ◌≡◌, refl, sym, ap, ap₂, ◌∙◌, subst, Bool, Bool-cases, inl, inr,
  true, List, [], ◌∷◌, ◌++◌, map, map-append, length, length-append, length-range_from, get_or,
  flat_map, sum, sum-append, range, range_from, All, All-range, arith,
}
use skip_zfp.Floats.{Floats}
use skip_zfp.Query.Merge.{BlockId}
use skip_zfp.Query.Classify.{State, in', out, maybe}
use skip_zfp.Query.Plan.{
  Grid, n_chunk, blocks_per_chunk, is_listed, list_blocks, list_states, count_out, chunk_states,
  plan_of,
}
use skip_zfp.Query.Plan.Counts.{StateOk, Agrees}
use skip_zfp.Query.Plan.Worth.{array_sum, Judged, Agrees-chunk_states, length-chunk_states}

-- the state of a block, found by its id
abbrev pub state_in : (ℕ → List State) → BlockId → State
state_in states x = get_or (states x.0) x.1 out

-- The states that are listed are those of the ids that are listed.
list_states-map :
    (keep_in : Bool) (at : BlockId → State) (cid b : ℕ) (ss : List State)
    → ((i : ℕ) → at (cid, b + i) ≡ get_or ss i out)
    → list_states keep_in ss ≡ map at (list_blocks keep_in cid b ss)
unfolding list_states list_blocks
list_states-map keep_in at cid b [] h = refl
list_states-map keep_in at cid b (s ∷ ss) h =
    let here : at (cid, b) ≡ s = ap (λ (t : ℕ). at (cid, t)) (omega arith) ∙ h 0 in
    let rest =
      list_states-map keep_in at cid (b + 1) ss
        (λ i. ap (λ (t : ℕ). at (cid, t)) (omega arith) ∙ h (suc i)) in
    elim (Bool-cases (is_listed keep_in s)) [
      | inl listed ↦ rw (listed, here, rest) refl
      | inr skipped ↦ rw (skipped, rest) refl
    ]

listed_states :
    (keep_in : Bool) (states : ℕ → List State) (cs : List ℕ)
    → flat_map (λ c. list_states keep_in (states c)) cs
      ≡ map (state_in states) (flat_map (λ c. list_blocks keep_in c 0 (states c)) cs)
listed_states keep_in states [] = refl
listed_states keep_in states (c ∷ cs) =
    ap₂ ◌++◌
      (list_states-map keep_in (state_in states) c 0 (states c)
        (λ i. ap (λ (t : ℕ). get_or (states c) t out) (omega arith)))
      (listed_states keep_in states cs)
    ∙ sym (
        map-append (state_in states) (list_blocks keep_in c 0 (states c))
          (flat_map (λ c. list_blocks keep_in c 0 (states c)) cs))

-- What the states of a list say of one of its blocks.
Agrees-get_or :
    (n : ℕ) (w : ℕ → ℕ) (b : ℕ) (ss : List State) (i j : ℕ)
    → b + i ≡ j
    → i < length ss
    → Agrees n w b ss
    → StateOk n (get_or ss i out) (w j)
Agrees-get_or n w b [] i j e h a = absurd (omega arith)
Agrees-get_or n w b (s ∷ ss) zero j e h (a, as') =
    subst (λ (t : ℕ). StateOk n s (w t)) (omega arith) a
Agrees-get_or n w b (s ∷ ss) (suc i) j e h (a, as') =
    Agrees-get_or n w (b + 1) ss i j (omega arith) (omega arith) as'

kept_worth :
    (n : ℕ) (w : BlockId → ℕ) (cid b : ℕ) (ss : List State)
    → Agrees n (λ k. w (cid, k)) b ss
    → sum (map (λ k. w (cid, k)) (range_from b (length ss)))
      ≡ sum (map w (list_blocks true cid b ss))
unfolding sum range_from list_blocks
kept_worth n w cid b [] h = refl
kept_worth n w cid b (in' ∷ ss) (h, hs) = omega (arith, kept_worth n w cid (b + 1) ss hs)
kept_worth n w cid b (out ∷ ss) (h, hs) = omega (arith, kept_worth n w cid (b + 1) ss hs)
kept_worth n w cid b (maybe ∷ ss) (h, hs) = omega (arith, kept_worth n w cid (b + 1) ss hs)

kept_counts :
    (cid b : ℕ) (ss : List State) → count_out ss + length (list_blocks true cid b ss) ≡ length ss
unfolding count_out list_blocks
kept_counts cid b [] = refl
kept_counts cid b (in' ∷ ss) = omega (arith, kept_counts cid (b + 1) ss)
kept_counts cid b (out ∷ ss) = omega (arith, kept_counts cid (b + 1) ss)
kept_counts cid b (maybe ∷ ss) = omega (arith, kept_counts cid (b + 1) ss)

module _ (states : ℕ → List State) (k : ℕ) (len : (c : ℕ) → length (states c) ≡ k) where
  kept_from :
      (n : ℕ) (w : BlockId → ℕ) (cs : List ℕ)
      → All (λ c. Agrees n (λ b. w (c, b)) 0 (states c)) cs
      → sum (map (λ c. sum (map (λ b. w (c, b)) (range k))) cs)
        ≡ sum (map w (flat_map (λ c. list_blocks true c 0 (states c)) cs))
  unfolding sum
  kept_from n w [] h = refl
  kept_from n w (c ∷ cs) (h, hs) =
      ap₂ ◌+◌
        (ap (λ (t : ℕ). sum (map (λ b. w (c, b)) (range t))) (sym (len c))
          ∙ kept_worth n w c 0 (states c) h)
        (kept_from n w cs hs)
      ∙ sym (
          ap sum (
            map-append w (list_blocks true c 0 (states c))
              (flat_map (λ c. list_blocks true c 0 (states c)) cs))
          ∙ sum-append (map w (list_blocks true c 0 (states c)))
              (map w (flat_map (λ c. list_blocks true c 0 (states c)) cs)))

  kept_counts_from :
      (cs : List ℕ)
      → sum (map (λ c. count_out (states c)) cs)
          + length (flat_map (λ c. list_blocks true c 0 (states c)) cs)
        ≡ length cs * k
  unfolding sum
  kept_counts_from [] = omega arith
  kept_counts_from (c ∷ cs) = omega (
    arith,
    kept_counts_from cs,
    kept_counts c 0 (states c),
    len c,
    length-append (list_blocks true c 0 (states c))
        (flat_map (λ c. list_blocks true c 0 (states c)) cs),
  )

module _ (F : Floats) (g : Grid) (meta : List ℕ) (meta_size : ℕ) (lo hi : F.Double) where
  -- the state that the planner gave a block
  abbrev pub state_at : BlockId → State
  state_at = state_in (chunk_states F g meta meta_size lo hi)

  pub plan_states :
      (keep_in : Bool)
      → let p = plan_of F g meta meta_size lo hi keep_in in p.states ≡ map state_at p.ids
  unfolding plan_of
  plan_states keep_in = listed_states keep_in (chunk_states F g meta meta_size lo hi) _

  -- The state of a block says what the block is worth.
  pub state_at-StateOk :
      (n : ℕ) (w : BlockId → ℕ)
      → Judged F g meta meta_size lo hi n w
      → (c b : ℕ) → c < n_chunk g
      → b < blocks_per_chunk g
      → StateOk n (state_at (c, b)) (w (c, b))
  state_at-StateOk n w judged c b hc hb =
      Agrees-get_or n (λ b. w (c, b)) 0 (chunk_states F g meta meta_size lo hi c) b b (omega arith)
        (omega (arith, length-chunk_states F g meta meta_size lo hi c))
        (Agrees-chunk_states F g meta meta_size lo hi n w judged c hc)

  -- A measure of the blocks that is 0 at every OUT block, and `n` at every IN block, sums up over
  -- all chunks to the sum of its values at the blocks that a plan with the IN blocks lists.
  pub plan_kept :
      (n : ℕ) (w : BlockId → ℕ)
      → Judged F g meta meta_size lo hi n w
      → let p = plan_of F g meta meta_size lo hi true in
        array_sum w (n_chunk g) (blocks_per_chunk g) ≡ sum (map w p.ids)
  unfolding plan_of array_sum
  plan_kept n w judged =
      kept_from (chunk_states F g meta meta_size lo hi) (blocks_per_chunk g)
        (length-chunk_states F g meta meta_size lo hi) n w (range (n_chunk g))
        (All-range (λ c. Agrees n (λ b. w (c, b)) 0 (chunk_states F g meta meta_size lo hi c))
          (n_chunk g) (Agrees-chunk_states F g meta meta_size lo hi n w judged))

  pub plan_kept_counts :
      let p = plan_of F g meta meta_size lo hi true in
      p.n_out + length p.ids ≡ n_chunk g * blocks_per_chunk g
  unfolding plan_of
  plan_kept_counts =
      kept_counts_from (chunk_states F g meta meta_size lo hi) (blocks_per_chunk g)
        (length-chunk_states F g meta meta_size lo hi) (range (n_chunk g))
      ∙ ap (λ (t : ℕ). t * blocks_per_chunk g) (length-range_from 0 (n_chunk g))
