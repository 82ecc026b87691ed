-- ===== src/Query/Plan/Counts.antt =====
-- The blocks of the array are the IN, the OUT and the listed ones, and the list is in chunk order.
use skip_zfp.Prelude.{
  ℕ, ◌+◌, ◌*◌, ◌≡◌, refl, subst, false, List, [], ◌∷◌, ◌++◌, map, length, sum, range_from, arith,
}
use skip_zfp.Query.Merge.{BlockId}
use skip_zfp.Query.Classify.{State, in', out, maybe}
use skip_zfp.Query.Plan.{count_in, count_out, list_blocks}

-- Every state is counted once.
pub count_states :
    (cid b : ℕ) (ss : List State)
    → count_in ss + count_out ss + length (list_blocks false cid b ss) ≡ length ss
unfolding count_in count_out list_blocks
count_states cid b [] = refl
count_states cid b (in' ∷ ss) = omega (arith, count_states cid (b + 1) ss)
count_states cid b (out ∷ ss) = omega (arith, count_states cid (b + 1) ss)
count_states cid b (maybe ∷ ss) = omega (arith, count_states cid (b + 1) ss)

-- `w b` is what block `b` is worth: all of `n` if it is IN, nothing if it is OUT.
abbrev pub StateOk : ℕ → State → ℕ → Type 0
StateOk n in' w = w ≡ n
StateOk n out w = w ≡ 0
StateOk n maybe w = Unit

abbrev pub Agrees : ℕ → (ℕ → ℕ) → ℕ → List State → Type 0
Agrees n w b [] = Unit
Agrees n w b (s ∷ ss) = StateOk n s (w b) × Agrees n w (b + 1) ss

-- The worth of a chunk is that of its IN blocks and of the listed ones.
pub worth_of_chunk :
    (n : ℕ) (w : BlockId → ℕ) (cid b : ℕ) (ss : List State)
    → Agrees n (λ k. w (cid, k)) b ss
    → sum (map (λ k. w (cid, k)) (range_from b (length ss)))
      ≡ count_in ss * n + sum (map w (list_blocks false cid b ss))
unfolding sum range_from count_in list_blocks
worth_of_chunk n w cid b [] h = omega arith
worth_of_chunk n w cid b (in' ∷ ss) (h, hs) = omega (arith, worth_of_chunk n w cid (b + 1) ss hs)
worth_of_chunk n w cid b (out ∷ ss) (h, hs) = omega (arith, worth_of_chunk n w cid (b + 1) ss hs)
worth_of_chunk n w cid b (maybe ∷ ss) (h, hs) = omega (arith, worth_of_chunk n w cid (b + 1) ss hs)

pub Agrees-append :
    (n : ℕ) (w : ℕ → ℕ) (b c : ℕ) (xs ys : List State)
    → b + length xs ≡ c
    → Agrees n w b xs
    → Agrees n w c ys
    → Agrees n w b (xs ++ ys)
Agrees-append n w b c [] ys e h k =
    let e' : c ≡ b = omega arith in subst (λ t. Agrees n w t ys) e' k
Agrees-append n w b c (x ∷ xs) ys e (h, hs) k =
    (h, Agrees-append n w (b + 1) c xs ys (omega arith) hs k)
