-- ===== src/Codec/Units/Ravel.antt =====
-- Coordinates in C order: they lie within the shape, are all of them, are distinct, and ravel tells
-- them apart.
use skip_zfp.Prelude.{
  ℕ, zero, suc, ◌+◌, ◌*◌, ◌/◌, ◌%◌, ◌≤◌, ◌<◌, ◌≡◌, refl, sym, ap, ap₂, ◌∙◌, List, [], ◌∷◌, ◌++◌,
  map, flat_map, length, length-map, range, range_from, map-append, length-range_from, prod, All,
  All-append, arith,
}
use native.Mathlib.Nat.{mul-add-div_right, mul-add-mod_self_right, div-eq_of_lt, mod-eq_of_lt}
use skip_zfp.Layout.{chunk_coords}
use skip_zfp.Codec.Units.{ravel}

-- a coordinate of an array of the shape
abbrev pub Within : List ℕ → List ℕ → Type 0
Within [] [] = Unit
Within (n ∷ ns) (i ∷ is) = (i < n) × Within ns is
Within [] (i ∷ is) = ⊥
Within (n ∷ ns) [] = ⊥

pub length-Within : (ns is : List ℕ) → Within ns is → length is ≡ length ns
length-Within [] [] h = refl
length-Within [] (i ∷ is) h = absurd h
length-Within (n ∷ ns) [] h = absurd h
length-Within (n ∷ ns) (i ∷ is) h = ap suc (length-Within ns is h.1)

pub ravel-lt : (ns is : List ℕ) → Within ns is → ravel ns is < prod ns
unfolding ravel prod
ravel-lt [] [] h = omega arith
ravel-lt [] (i ∷ is) h = absurd h
ravel-lt (n ∷ ns) [] h = absurd h
ravel-lt (n ∷ ns) (i ∷ is) (lt, h) = let ih = ravel-lt ns is h in grind arith

-- A quotient and a remainder are told apart.
pub digits_unique : (i j p r s : ℕ) → r < p → s < p → i * p + r ≡ j * p + s → (i ≡ j) × (r ≡ s)
digits_unique i j p r s h k e =
    let pos_p : 0 < p = omega arith in
    (
      sym (quotient i r h pos_p) ∙ ap (λ (t : ℕ). t / p) e ∙ quotient j s k pos_p,
      sym (remainder i r h) ∙ ap (λ (t : ℕ). t % p) e ∙ remainder j s k,
    )
  where
    quotient : (a b : ℕ) → b < p → 0 < p → (a * p + b) / p ≡ a
    quotient a b lt pos_p = omega (arith, mul-add-div_right pos_p a b, div-eq_of_lt lt)

    remainder : (a b : ℕ) → b < p → (a * p + b) % p ≡ b
    remainder a b lt = mul-add-mod_self_right a p b ∙ mod-eq_of_lt lt

pub ravel-injective :
    (ns is js : List ℕ) → Within ns is → Within ns js → ravel ns is ≡ ravel ns js → is ≡ js
unfolding ravel
ravel-injective [] [] [] h k e = refl
ravel-injective [] [] (j ∷ js) h k e = absurd k
ravel-injective [] (i ∷ is) js h k e = absurd h
ravel-injective (n ∷ ns) [] js h k e = absurd h
ravel-injective (n ∷ ns) (i ∷ is) [] h k e = absurd k
ravel-injective (n ∷ ns) (i ∷ is) (j ∷ js) (hi, h) (kj, k) e =
    let d =
      digits_unique i j (prod ns) (ravel ns is) (ravel ns js) (ravel-lt ns is h) (ravel-lt ns js k)
        e in
    ap₂ (λ a as'. a ∷ as') d.0 (ravel-injective ns is js h k d.1)

range_from-append :
    (i n m j : ℕ) → i + n ≡ j → range_from i n ++ range_from j m ≡ range_from i (n + m)
unfolding range_from
range_from-append i zero m j e = ap₂ range_from (omega arith) (omega arith)
range_from-append i (suc n) m j e =
    let s : suc n + m ≡ suc (n + m) = omega arith in
    ap (λ t. i ∷ t) (range_from-append (i + 1) n m j (omega arith)) ∙ sym (ap (range_from i) s)

map-add : (k i n : ℕ) → map (λ t. k + t) (range_from i n) ≡ range_from (k + i) n
unfolding range_from
map-add k i zero = refl
map-add k i (suc n) =
    ap (λ t. (k + i) ∷ t) (map-add k (i + 1) n ∙ ap (λ t. range_from t n) (omega arith))

-- the coordinates whose first index is one of `n` from `i` on
unfoldable pub coords_from : ℕ → ℕ → List ℕ → List (List ℕ)
unfolding chunk_coords
coords_from i n ns = flat_map (λ k. map (λ c. k ∷ c) (chunk_coords ns)) (range_from i n)

ravel_row :
    (k n : ℕ) (ns : List ℕ) (cs : List (List ℕ))
    → map (ravel (n ∷ ns)) (map (λ c. k ∷ c) cs) ≡ map (λ t. k * prod ns + t) (map (ravel ns) cs)
unfolding ravel
ravel_row k n ns [] = refl
ravel_row k n ns (c ∷ cs) = ap (λ t. (k * prod ns + ravel ns c) ∷ t) (ravel_row k n ns cs)

ravel_rows :
    (i m n : ℕ) (ns : List ℕ)
    → map (ravel ns) (chunk_coords ns) ≡ range (prod ns)
    → map (ravel (n ∷ ns)) (coords_from i m ns) ≡ range_from (i * prod ns) (m * prod ns)
unfolding coords_from range_from
ravel_rows i zero n ns ih =
    let none_left : 0 ≡ 0 * prod ns = omega arith in ap (range_from (i * prod ns)) none_left
ravel_rows i (suc m) n ns ih =
    map-append (ravel (n ∷ ns)) (map (λ c. i ∷ c) (chunk_coords ns)) (coords_from (i + 1) m ns)
    ∙ ap₂ (λ a b. a ++ b)
        (ravel_row i n ns (chunk_coords ns)
          ∙ ap (map (λ t. i * prod ns + t)) ih
          ∙ map-add (i * prod ns) 0 (prod ns)
          ∙ ap (λ t. range_from t (prod ns)) (omega arith))
        (ravel_rows (i + 1) m n ns ih)
    ∙ range_from-append (i * prod ns) (prod ns) (m * prod ns) ((i + 1) * prod ns) (grind arith)
    ∙ ap (range_from (i * prod ns)) (grind arith)

-- The coordinates stand in C order, and are all of them.
pub map-ravel : (ns : List ℕ) → map (ravel ns) (chunk_coords ns) ≡ range (prod ns)
unfolding chunk_coords coords_from prod ravel range_from
map-ravel [] = refl
map-ravel (n ∷ ns) =
    ravel_rows 0 n n ns (map-ravel ns) ∙ ap (λ t. range_from t (n * prod ns)) (omega arith)

pub length-chunk_coords : (ns : List ℕ) → length (chunk_coords ns) ≡ prod ns
length-chunk_coords ns =
    sym (length-map (ravel ns) (chunk_coords ns))
    ∙ ap length (map-ravel ns)
    ∙ length-range_from 0 (prod ns)

All-prefix :
    (k n : ℕ) (ns : List ℕ) (cs : List (List ℕ))
    → k < n
    → All (Within ns) cs
    → All (Within (n ∷ ns)) (map (λ c. k ∷ c) cs)
All-prefix k n ns [] lt h = tt
All-prefix k n ns (c ∷ cs) lt (h, hs) = ((lt, h), All-prefix k n ns cs lt hs)

All-coords_from :
    (i m n : ℕ) (ns : List ℕ)
    → i + m ≤ n
    → All (Within ns) (chunk_coords ns)
    → All (Within (n ∷ ns)) (coords_from i m ns)
unfolding coords_from range_from
All-coords_from i zero n ns le h = tt
All-coords_from i (suc m) n ns le h =
    All-append (Within (n ∷ ns)) (map (λ c. i ∷ c) (chunk_coords ns)) (coords_from (i + 1) m ns)
      (All-prefix i n ns (chunk_coords ns) (omega arith) h)
      (All-coords_from (i + 1) m n ns (omega arith) h)

pub chunk_coords-Within : (ns : List ℕ) → All (Within ns) (chunk_coords ns)
unfolding chunk_coords coords_from
chunk_coords-Within [] = (tt, tt)
chunk_coords-Within (n ∷ ns) = All-coords_from 0 n n ns (omega arith) (chunk_coords-Within ns)
