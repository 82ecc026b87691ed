-- ===== src/Codec/Pack/Ranked.antt =====
-- The storage order of a unit's blocks: rows put at their ranks and fetched from there.
use skip_zfp.Prelude.{
  ℕ, zero, suc, ◌<◌, ◌≡◌, ◌≢◌, refl, sym, ap, ap₂, ◌∙◌, List, [], ◌∷◌, length, get_or, set, All,
  arith,
}
use skip_zfp.Codec.Pack.{scatter, gather}

-- No number stands twice.
abbrev pub Distinct : List ℕ → Type 0
Distinct [] = Unit
Distinct (k ∷ ks) = All (λ j. k ≢ j) ks × Distinct ks

module _ {ℓ} {A : Type ℓ} where
  pub get_or-set_ne :
      (xs : List A) (i j : ℕ) (v d : A) → i ≢ j → get_or (set xs i v) j d ≡ get_or xs j d
  get_or-set_ne [] i j v d h = refl
  get_or-set_ne (x ∷ xs) zero zero v d h = absurd (h refl)
  get_or-set_ne (x ∷ xs) zero (suc j) v d h = refl
  get_or-set_ne (x ∷ xs) (suc i) zero v d h = refl
  get_or-set_ne (x ∷ xs) (suc i) (suc j) v d h = get_or-set_ne xs i j v d (λ e. h (ap suc e))

  pub get_or-set_self :
      (xs : List A) (i : ℕ) (v d : A) → i < length xs → get_or (set xs i v) i d ≡ v
  get_or-set_self [] i v d h = absurd (omega arith)
  get_or-set_self (x ∷ xs) zero v d h = refl
  get_or-set_self (x ∷ xs) (suc i) v d h = get_or-set_self xs i v d (omega arith)

  pub length-set : (xs : List A) (i : ℕ) (v : A) → length (set xs i v) ≡ length xs
  length-set [] i v = refl
  length-set (x ∷ xs) zero v = refl
  length-set (x ∷ xs) (suc i) v = ap suc (length-set xs i v)

-- A rank that is not written keeps its row.
get_or-scatter_ne :
    (out : List (List ℕ)) (k : ℕ) (ks : List ℕ) (rows : List (List ℕ))
    → All (λ j. k ≢ j) ks
    → get_or (scatter out ks rows) k [] ≡ get_or out k []
unfolding scatter
get_or-scatter_ne out k [] rows h = refl
get_or-scatter_ne out k (j ∷ ks) [] h = refl
get_or-scatter_ne out k (j ∷ ks) (r ∷ rows) (ne, h) =
    get_or-scatter_ne (set out j r) k ks rows h ∙ get_or-set_ne out j k r [] (λ e. ne (sym e))

pub length-scatter :
    (out : List (List ℕ)) (ks : List ℕ) (rows : List (List ℕ))
    → length (scatter out ks rows) ≡ length out
unfolding scatter
length-scatter out [] rows = refl
length-scatter out (k ∷ ks) [] = refl
length-scatter out (k ∷ ks) (r ∷ rows) = length-scatter (set out k r) ks rows ∙ length-set out k r

pub gather-scatter :
    (out : List (List ℕ)) (rank : List ℕ) (rows : List (List ℕ))
    → Distinct rank
    → All (λ k. k < length out) rank
    → length rows ≡ length rank
    → gather (scatter out rank rows) rank ≡ rows
unfolding gather scatter
gather-scatter out [] [] d h e = refl
gather-scatter out [] (r ∷ rows) d h e = absurd (omega arith)
gather-scatter out (k ∷ ks) [] d h e = absurd (omega arith)
gather-scatter out (k ∷ ks) (r ∷ rows) (ne, d) (lt, h) e =
    ap₂ (λ x y. x ∷ y)
      (get_or-scatter_ne (set out k r) k ks rows ne ∙ get_or-set_self out k r [] lt)
      (gather-scatter (set out k r) ks rows d (still ks h) (omega arith))
  where
    still : (js : List ℕ) → All (λ j. j < length out) js → All (λ j. j < length (set out k r)) js
    still [] p = tt
    still (j ∷ js) (p, ps) = (omega (arith, length-set out k r), still js ps)

-- Every row that is written has the length, and so have those that are there.
pub All-scatter :
    (w : ℕ) (out : List (List ℕ)) (ks : List ℕ) (rows : List (List ℕ))
    → All (λ r. length r ≡ w) out
    → All (λ r. length r ≡ w) rows
    → All (λ r. length r ≡ w) (scatter out ks rows)
unfolding scatter
All-scatter w out [] rows h p = h
All-scatter w out (k ∷ ks) [] h p = h
All-scatter w out (k ∷ ks) (r ∷ rows) h (e, p) =
    All-scatter w (set out k r) ks rows (All-set out k h) p
  where
    All-set :
        (xs : List (List ℕ)) (i : ℕ)
        → All (λ x. length x ≡ w) xs
        → All (λ x. length x ≡ w) (set xs i r)
    All-set [] i q = tt
    All-set (x ∷ xs) zero (q, qs) = (e, qs)
    All-set (x ∷ xs) (suc i) (q, qs) = (q, All-set xs i qs)
