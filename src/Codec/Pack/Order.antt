-- ===== src/Codec/Pack/Order.antt =====
-- The ranks of a unit's blocks are their numbers in another order: each below the number of blocks,
-- and none twice.
use skip_zfp.Prelude.{
  ℕ, zero, suc, ◌+◌, ◌*◌, ◌<◌, ◌≡◌, ◌≢◌, refl, sym, ap, ap₂, List, [], ◌∷◌, map, length, length-map,
  get_or, range_from, All-range_from, ◌∙◌, ◌/◌, prod, All, arith, leb, Bool-cases, inl, inr, subst,
}
use skip_zfp.Layout.{chunk_coords, blocks_axis}
use skip_zfp.Codec.Config.{insert_sorted, sorted}
use skip_zfp.Codec.Pack.Ranked.{Distinct}
use skip_zfp.Codec.Units.{ravel, select, block_rank}
use skip_zfp.Codec.Units.Ravel.{
  Within, length-Within, ravel-lt, ravel-injective, map-ravel, length-chunk_coords,
  chunk_coords-Within,
}

module _ {ℓ} (P : ℕ → Type ℓ) where
  All-insert_sorted : (x : ℕ) (ys : List ℕ) → P x → All P ys → All P (insert_sorted x ys)
  unfolding insert_sorted
  All-insert_sorted x [] p h = (p, tt)
  All-insert_sorted x (y ∷ ys) p (q, h) = elim (Bool-cases (leb x y)) [
    | inl le ↦ rw le (p, (q, h))
    | inr gt ↦ rw gt (q, All-insert_sorted x ys p h)
  ]

  insert_sorted-All : (x : ℕ) (ys : List ℕ) → All P (insert_sorted x ys) → P x × All P ys
  unfolding insert_sorted
  insert_sorted-All x [] h = h
  insert_sorted-All x (y ∷ ys) h = elim (Bool-cases (leb x y)) [
    | inl le ↦ rw le at h
    | inr gt ↦ let k = rw gt at h in let r = insert_sorted-All x ys k.1 in (r.0, (k.0, r.1))
  ]

  pub All-sorted : (xs : List ℕ) → All P xs → All P (sorted xs)
  unfolding sorted
  All-sorted [] h = tt
  All-sorted (x ∷ xs) (p, h) = All-insert_sorted x (sorted xs) p (All-sorted xs h)

  pub sorted-All : (xs : List ℕ) → All P (sorted xs) → All P xs
  unfolding sorted
  sorted-All [] h = tt
  sorted-All (x ∷ xs) h = let r = insert_sorted-All x (sorted xs) h in (r.0, sorted-All xs r.1)

prod-insert_sorted :
    (f : ℕ → ℕ) (x : ℕ) (ys : List ℕ) → prod (map f (insert_sorted x ys)) ≡ f x * prod (map f ys)
unfolding insert_sorted prod
prod-insert_sorted f x [] = refl
prod-insert_sorted f x (y ∷ ys) = elim (Bool-cases (leb x y)) [
  | inl le ↦ rw le
  | inr gt ↦ rw (gt, prod-insert_sorted f x ys) (grind arith)
]

prod-sorted : (f : ℕ → ℕ) (xs : List ℕ) → prod (map f (sorted xs)) ≡ prod (map f xs)
unfolding sorted prod
prod-sorted f [] = refl
prod-sorted f (x ∷ xs) =
    prod-insert_sorted f x (sorted xs) ∙ ap (λ (t : ℕ). f x * t) (prod-sorted f xs)

-- A list of three numbers is told by its items.
three_items :
    (xs ys : List ℕ)
    → length xs ≡ 3
    → length ys ≡ 3
    → All (λ a. get_or xs a 0 ≡ get_or ys a 0) (0 ∷ 1 ∷ 2 ∷ [])
    → xs ≡ ys
three_items (a ∷ b ∷ c ∷ []) (x ∷ y ∷ z ∷ []) e k (p, (q, (r, h))) =
    ap₂ (λ s t. s ∷ t) p (ap₂ (λ s t. s ∷ t) q (ap (λ s. s ∷ []) r))
three_items _ _ e k h = absurd (omega arith)

select_all : (xs : List ℕ) → length xs ≡ 3 → select (0 ∷ 1 ∷ 2 ∷ []) xs ≡ xs
select_all (a ∷ b ∷ c ∷ []) e = refl
select_all _ e = absurd (omega arith)

all_axes :
    (ns c : List ℕ)
    → length ns ≡ 3
    → Within ns c
    → All (λ a. get_or c a 0 < get_or ns a 0) (0 ∷ 1 ∷ 2 ∷ [])
all_axes (n ∷ m ∷ l ∷ []) (i ∷ j ∷ k ∷ []) e (p, (q, (r, h))) = (p, (q, (r, tt)))
all_axes ns c e w = absurd (omega (arith, length-Within ns c w))

Distinct-range_from : (i n : ℕ) → Distinct (range_from i n)
unfolding range_from
Distinct-range_from i zero = tt
Distinct-range_from i (suc n) = (
  All-range_from (λ j. i ≢ j) (i + 1) n (i + 1 + n) refl (λ k le lt e. absurd (omega arith)),
  Distinct-range_from (i + 1) n,
)

-- What tells apart the members of a list that another function tells apart gives no number twice.
module _ (f g : List ℕ → ℕ) (W : List ℕ → Type 0)
    (finer : (a b : List ℕ) → W a → W b → f a ≡ f b → g a ≡ g b) where
  others :
      (c : List ℕ) (cs : List (List ℕ))
      → W c
      → All W cs
      → All (λ j. g c ≢ j) (map g cs)
      → All (λ j. f c ≢ j) (map f cs)
  others c [] w ws h = tt
  others c (d ∷ cs) w (v, ws) (ne, h) = (λ e. ne (finer c d w v e), others c cs w ws h)

  Distinct-map : (cs : List (List ℕ)) → All W cs → Distinct (map g cs) → Distinct (map f cs)
  Distinct-map [] ws h = tt
  Distinct-map (c ∷ cs) (w, ws) (ne, h) = (others c cs w ws ne, Distinct-map cs ws h)

module _ (order blocks : List ℕ) (three : length blocks ≡ 3)
    (permutes : sorted order ≡ 0 ∷ 1 ∷ 2 ∷ []) where
  prod-select : prod (select order blocks) ≡ prod blocks
  prod-select =
      sym (prod-sorted (λ a. get_or blocks a 0) order)
      ∙ ap (λ o. prod (select o blocks)) permutes
      ∙ ap prod (select_all blocks three)

  axes_below : (c : List ℕ) → Within blocks c → All (λ a. get_or c a 0 < get_or blocks a 0) order
  axes_below c w =
      sorted-All (λ a. get_or c a 0 < get_or blocks a 0) order
        (subst (All (λ a. get_or c a 0 < get_or blocks a 0)) (sym permutes)
          (all_axes blocks c three w))

  select-Within :
      (as' : List ℕ) (c : List ℕ)
      → All (λ a. get_or c a 0 < get_or blocks a 0) as'
      → Within (select as' blocks) (select as' c)
  select-Within [] c h = tt
  select-Within (a ∷ as') c (p, h) = (p, select-Within as' c h)

  same_select :
      (as' c d : List ℕ) → select as' c ≡ select as' d → All (λ a. get_or c a 0 ≡ get_or d a 0) as'
  same_select [] c d e = tt
  same_select (a ∷ as') c d e = (cc e, same_select as' c d (cc e))

  -- the rank of the block at a coordinate
  rank_at : List ℕ → ℕ
  rank_at c = ravel (select order blocks) (select order c)

  rank_at-injective :
      (c d : List ℕ) → Within blocks c → Within blocks d → rank_at c ≡ rank_at d → c ≡ d
  unfolding rank_at
  rank_at-injective c d w v e =
      let same =
        ravel-injective (select order blocks) (select order c) (select order d)
          (select-Within order c (axes_below c w)) (select-Within order d (axes_below d v)) e in
      three_items c d (length-Within blocks c w ∙ three) (length-Within blocks d v ∙ three) (
        subst (All (λ a. get_or c a 0 ≡ get_or d a 0)) permutes
          (All-sorted (λ a. get_or c a 0 ≡ get_or d a 0) order (same_select order c d same)))

  ranks_below :
      (cs : List (List ℕ)) → All (Within blocks) cs → All (λ k. k < prod blocks) (map rank_at cs)
  unfolding rank_at
  ranks_below [] h = tt
  ranks_below (c ∷ cs) (w, h) = (
    subst (λ n. rank_at c < n) prod-select
        (ravel-lt (select order blocks) (select order c) (select-Within order c (axes_below c w))),
    ranks_below cs h,
  )

  ranks-Distinct : Distinct (map rank_at (chunk_coords blocks))
  ranks-Distinct =
      Distinct-map rank_at (ravel blocks) (Within blocks)
        (λ c d w v e. ap (ravel blocks) (rank_at-injective c d w v e)) (chunk_coords blocks)
        (chunk_coords-Within blocks)
        (subst Distinct (sym (map-ravel blocks)) (Distinct-range_from 0 (prod blocks)))

-- what the loops rely on of the ranks of `n` blocks
pub record IsRank (n : ℕ) (rank : List ℕ) : Type 0 where
  pub count : length rank ≡ n
  pub below : All (λ k. k < n) rank
  pub distinct : Distinct rank

-- For three axes and an order that sorts to (0, 1, 2), block_rank gives each block of the unit a
-- place of its own below the number of blocks.
pub block_rank-IsRank :
    (shape order : List ℕ) (block_dim : ℕ)
    → length shape ≡ 3
    → sorted order ≡ 0 ∷ 1 ∷ 2 ∷ []
    → IsRank (prod (blocks_axis block_dim shape)) (block_rank shape order block_dim)
unfolding block_rank rank_at
block_rank-IsRank shape order block_dim three permutes =
    let blocks = blocks_axis block_dim shape in
    let axes : length blocks ≡ 3 = length-map (λ s. s / block_dim) shape ∙ three in
    record {
      count =
          length-map (rank_at order blocks axes permutes) (chunk_coords blocks)
          ∙ length-chunk_coords blocks;
      below =
          ranks_below order blocks axes permutes (chunk_coords blocks) (chunk_coords-Within blocks);
      distinct = ranks-Distinct order blocks axes permutes;
    }
