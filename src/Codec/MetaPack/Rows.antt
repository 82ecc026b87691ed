-- ===== src/Codec/MetaPack/Rows.antt =====
-- The rows that pack_meta takes a zone map object apart into: their lengths, and that each part is
-- undone by its inverse.
use skip_zfp.Prelude.{
  ℕ, zero, suc, ◌+◌, ◌-◌, ◌*◌, ◌%◌, ◌<◌, ◌≡◌, refl, sym, ap, ap₂, ◌∙◌, List, [], ◌∷◌, map, flat_map,
  length, length-append, take-append, drop-append, All, arith,
}
use skip_zfp.Codec.MetaPack.{evens, odds, deltas_from, deltas, widths, reshape, cumsum8, interleave}

abbrev pub IsByte : ℕ → Type 0
IsByte b = b < 256

module _ where
  -- a row of `b` pairs
  pub pairs_lengths :
      (b : ℕ) (q : List ℕ) → length q ≡ 2 * b → (length (evens q) ≡ b) × (length (odds q) ≡ b)
  unfolding evens odds
  pairs_lengths zero [] e = (refl, refl)
  pairs_lengths (suc b) [] e = absurd (omega arith)
  pairs_lengths zero (x ∷ xs) e = absurd (omega arith)
  pairs_lengths (suc b) (x ∷ []) e = absurd (omega arith)
  pairs_lengths (suc b) (x ∷ y ∷ xs) e =
      let ih = pairs_lengths b xs (omega arith) in (ap suc ih.0, ap suc ih.1)

  delta_back : (p x : ℕ) → p < 256 → x < 256 → (p + (x + 256 - p) % 256) % 256 ≡ x
  delta_back p x hp hx = omega arith

  cumsum8-deltas_from :
      (p : ℕ) (xs : List ℕ) → p < 256 → All IsByte xs → cumsum8 p (deltas_from p xs) ≡ xs
  unfolding cumsum8 deltas_from
  cumsum8-deltas_from p [] hp h = refl
  cumsum8-deltas_from p (x ∷ xs) hp (hx, h) =
      let e = delta_back p x hp hx in rw e (ap (λ t. x ∷ t) (cumsum8-deltas_from x xs hx h))

  pub cumsum8-deltas : (xs : List ℕ) → All IsByte xs → cumsum8 0 (deltas xs) ≡ xs
  unfolding cumsum8 deltas
  cumsum8-deltas [] h = refl
  cumsum8-deltas (x ∷ xs) (hx, h) =
      let e : (0 + x) % 256 ≡ x = omega arith in
      rw e (ap (λ t. x ∷ t) (cumsum8-deltas_from x xs hx h))

  pub interleave-widths :
      (b : ℕ) (q : List ℕ)
      → length q ≡ 2 * b
      → All IsByte q
      → interleave (evens q) (widths (odds q) (evens q)) ≡ q
  unfolding interleave widths evens odds
  interleave-widths zero [] e h = refl
  interleave-widths (suc b) [] e h = refl
  interleave-widths zero (x ∷ xs) e h = absurd (omega arith)
  interleave-widths (suc b) (x ∷ []) e h = absurd (omega arith)
  interleave-widths (suc b) (x ∷ y ∷ xs) e (hx, (hy, h)) =
      let d = delta_back x y hx hy in
      rw d (ap (λ t. x ∷ y ∷ t) (interleave-widths b xs (omega arith) h))

  pub All-evens : (q : List ℕ) → All IsByte q → All IsByte (evens q)
  unfolding evens
  All-evens [] h = tt
  All-evens (x ∷ []) h = tt
  All-evens (x ∷ y ∷ xs) (hx, (hy, h)) = (hx, All-evens xs h)

module _ where
  length-deltas_from : (p : ℕ) (xs : List ℕ) → length (deltas_from p xs) ≡ length xs
  unfolding deltas_from
  length-deltas_from p [] = refl
  length-deltas_from p (x ∷ xs) = ap suc (length-deltas_from x xs)

  pub length-deltas : (xs : List ℕ) → length (deltas xs) ≡ length xs
  unfolding deltas
  length-deltas [] = refl
  length-deltas (x ∷ xs) = ap suc (length-deltas_from x xs)

  pub length-widths : (ys xs : List ℕ) → length ys ≡ length xs → length (widths ys xs) ≡ length ys
  unfolding widths
  length-widths [] xs e = refl
  length-widths (y ∷ ys) [] e = absurd (omega arith)
  length-widths (y ∷ ys) (x ∷ xs) e = ap suc (length-widths ys xs (omega arith))

  pub length-flat_map_of :
      (f : List ℕ → List ℕ) (k : ℕ) (rows : List (List ℕ))
      → All (λ r. length (f r) ≡ k) rows
      → length (flat_map f rows) ≡ length rows * k
  length-flat_map_of f k [] h = omega arith
  length-flat_map_of f k (r ∷ rows) (e, h) =
      omega (arith, length-append (f r) (flat_map f rows), length-flat_map_of f k rows h)

  -- Cut into rows of the length that the parts have, a concatenation gives the parts.
  pub reshape-flat_map :
      (f : List ℕ → List ℕ) (k : ℕ) (rows : List (List ℕ))
      → All (λ r. length (f r) ≡ k) rows
      → reshape (length rows) k (flat_map f rows) ≡ map f rows
  unfolding reshape
  reshape-flat_map f k [] h = refl
  reshape-flat_map f k (r ∷ rows) (e, h) =
      ap₂ (λ a b. a ∷ b) (take-append k (f r) (flat_map f rows) (sym e))
        (ap (reshape (length rows) k) (drop-append k (f r) (flat_map f rows) (sym e))
          ∙ reshape-flat_map f k rows h)
