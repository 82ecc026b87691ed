-- ===== src/Codec/Units/Members.antt =====
-- Every coordinate of an array stands in the list of its coordinates.
use skip_zfp.Prelude.{
  ℕ, zero, suc, ◌+◌, ◌≤◌, ◌<◌, ◌≡◌, refl, sym, ap, subst, List, [], ◌∷◌, ◌++◌, ◌⊎◌, inl, inr, map,
  true, false, ◌==◌, Bool-cases, All, range_from, arith,
}
use skip_zfp.Layout.{chunk_coords}
use skip_zfp.Codec.Units.Ravel.{Within, coords_from}

-- a member of a list of coordinates
abbrev pub In : List ℕ → List (List ℕ) → Type 0
In c [] = ⊥
In c (x ∷ xs) = (c ≡ x) ⊎ In c xs

In-append_left : (c : List ℕ) (xs ys : List (List ℕ)) → In c xs → In c (xs ++ ys)
In-append_left c [] ys h = absurd h
In-append_left c (x ∷ xs) ys (inl e) = inl e
In-append_left c (x ∷ xs) ys (inr h) = inr (In-append_left c xs ys h)

In-append_right : (c : List ℕ) (xs ys : List (List ℕ)) → In c ys → In c (xs ++ ys)
In-append_right c [] ys h = h
In-append_right c (x ∷ xs) ys h = inr (In-append_right c xs ys h)

In-prefix : (k : ℕ) (c : List ℕ) (cs : List (List ℕ)) → In c cs → In (k ∷ c) (map (λ t. k ∷ t) cs)
In-prefix k c [] h = absurd h
In-prefix k c (x ∷ cs) (inl e) = inl (ap (λ t. k ∷ t) e)
In-prefix k c (x ∷ cs) (inr h) = inr (In-prefix k c cs h)

In-coords_from :
    (i m k : ℕ) (ns c : List ℕ)
    → i ≤ k
    → k < i + m
    → In c (chunk_coords ns)
    → In (k ∷ c) (coords_from i m ns)
unfolding coords_from range_from
In-coords_from i zero k ns c le lt h = absurd (omega arith)
In-coords_from i (suc m) k ns c le lt h = elim (Bool-cases (i == k)) [
  | inl eq ↦
      In-append_left (k ∷ c) (map (λ t. i ∷ t) (chunk_coords ns)) (coords_from (i + 1) m ns) (
        subst (λ t. In (k ∷ c) (map (λ u. t ∷ u) (chunk_coords ns))) (sym (same i k eq))
          (In-prefix k c (chunk_coords ns) h))
  | inr ne ↦
      In-append_right (k ∷ c) (map (λ t. i ∷ t) (chunk_coords ns)) (coords_from (i + 1) m ns)
        (In-coords_from (i + 1) m k ns c (later i k le ne) (omega arith) h)
]
  where
    same : (a b : ℕ) → (a == b) ≡ true → a ≡ b
    same a b e = ground arith

    later : (a b : ℕ) → a ≤ b → (a == b) ≡ false → a + 1 ≤ b
    later a b p e = ground arith

pub In-chunk_coords : (ns c : List ℕ) → Within ns c → In c (chunk_coords ns)
unfolding chunk_coords coords_from
In-chunk_coords [] [] h = inl refl
In-chunk_coords [] (i ∷ c) h = absurd h
In-chunk_coords (n ∷ ns) [] h = absurd h
In-chunk_coords (n ∷ ns) (i ∷ c) (lt, h) =
    In-coords_from 0 n i ns c (omega arith) (omega arith) (In-chunk_coords ns c h)

-- What holds of all members holds of one.
pub All-In {κ} : (P : List ℕ → Type κ) (c : List ℕ) (cs : List (List ℕ)) → In c cs → All P cs → P c
All-In P c [] m h = absurd m
All-In P c (x ∷ xs) (inl e) (p, h) = subst P (sym e) p
All-In P c (x ∷ xs) (inr m) (p, h) = All-In P c xs m h
