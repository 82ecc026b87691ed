-- ===== src/Codec/WriteMeta/Records.antt =====
-- The records of a list of calls, as they lie behind one another: for write_meta of skipzfp/codec.py.
use mathlib.Core.List.{append_assoc, append-nil}
use skip_zfp.Prelude.{
  ℕ, zero, suc, ◌+◌, ◌*◌, ◌<◌, ◌≡◌, refl, sym, ap, ap₂, ◌∙◌, subst, List, [], ◌∷◌, ◌++◌, map,
  flat_map, take, drop, slice, length, get_or, last_or, All, take-append, drop-append, drop-drop,
  Result, ok, sequence, bind_inv, arith,
}
use skip_zfp.Codec.Pack.Encoded.{ok-injective}
use skip_zfp.Query.Meta.Layer.{slice_of}

-- row `l` of rows of `k` bytes
pub row_at :
    (f : List ℕ → List ℕ) (k : ℕ) (rows : List (List ℕ)) (rest : List ℕ) (l : ℕ)
    → All (λ r. length (f r) ≡ k) rows
    → l < length rows
    → take k (drop (l * k) (flat_map f rows ++ rest)) ≡ f (get_or rows l [])
row_at f k [] rest l h b = absurd (omega arith)
row_at f k (r ∷ rows) rest zero (h, hs) b =
    let none_before : 0 * k ≡ 0 = omega arith in
    ap₂ (λ (n : ℕ) t. take k (drop n t)) none_before (append_assoc (f r) (flat_map f rows) rest)
    ∙ take-append k (f r) (flat_map f rows ++ rest) (sym h)
row_at f k (r ∷ rows) rest (suc l) (h, hs) b =
    ap (λ t. take k (drop (suc l * k) t)) (append_assoc (f r) (flat_map f rows) rest)
    ∙ ap (take k) (
        sym (drop-drop k (l * k) (suc l * k) (f r ++ (flat_map f rows ++ rest)) (omega arith))
        ∙ ap (drop (l * k)) (drop-append k (f r) (flat_map f rows ++ rest) (sym h)))
    ∙ row_at f k rows rest l hs (omega arith)

pub All_at :
    {A : Type 0} (P : A → Type 0) (xs : List A) (d : A) (l : ℕ)
    → All P xs
    → l < length xs
    → P (get_or xs l d)
All_at P [] d l h k = absurd (omega arith)
All_at P (x ∷ xs) d zero (h, hs) k = h
All_at P (x ∷ xs) d (suc l) (h, hs) k = All_at P xs d l hs (omega arith)

-- record `l` of records of `k` bytes
pub record_at :
    (k : ℕ) (rows : List (List ℕ)) (l : ℕ)
    → All (λ r. length r ≡ k) rows
    → l < length rows
    → slice (flat_map (λ r. r) rows) (l * k) (l * k + k) ≡ get_or rows l []
record_at k rows l h b =
    slice_of (flat_map (λ r. r) rows) (l * k) (l * k + k) (l * k) k refl (omega arith)
    ∙ ap (λ t. take k (drop (l * k) t)) (sym (append-nil (flat_map (λ r. r) rows)))
    ∙ row_at (λ r. r) k rows [] l h b

-- the results of a sequence of calls, one by one, all of them and the last
module _ {A B : Type 0} (call : A → Result B) where
  pub sequence_at :
      (xs : List A) (ys : List B) (x : A) (y : B) (l : ℕ)
      → sequence (map call xs) ≡ ok ys
      → l < length xs
      → call (get_or xs l x) ≡ ok (get_or ys l y)
  sequence_at [] ys x y l h k = absurd (omega arith)
  sequence_at (a ∷ xs) ys x y zero h k =
      let (b, first, g) = bind_inv (call a) h in
      let (rest, later, e) = bind_inv (sequence (map call xs)) g in
      subst (λ p. call a ≡ ok (get_or p 0 y)) (ok-injective (b ∷ rest) ys e) first
  sequence_at (a ∷ xs) ys x y (suc l) h k =
      let (b, first, g) = bind_inv (call a) h in
      let (rest, later, e) = bind_inv (sequence (map call xs)) g in
      subst (λ p. call (get_or xs l x) ≡ ok (get_or p (suc l) y)) (ok-injective (b ∷ rest) ys e)
        (sequence_at xs rest x y l later (omega arith))

  pub sequence-All :
      (P : A → Type 0) (Q : B → Type 0)
      → ((x : A) (y : B) → P x → call x ≡ ok y → Q y)
      → (xs : List A) (ys : List B) → All P xs
      → sequence (map call xs) ≡ ok ys
      → All Q ys × (length ys ≡ length xs)
  sequence-All P Q f [] ys h e =
      subst (λ t. All Q t × (length t ≡ 0)) (ok-injective [] ys e) (tt, refl)
  sequence-All P Q f (x ∷ xs) ys (h, hs) e =
      let (b, first, g) = bind_inv (call x) e in
      let (rest, later, k) = bind_inv (sequence (map call xs)) g in
      let (each, count) = sequence-All P Q f xs rest hs later in
      subst (λ t. All Q t × (length t ≡ suc (length xs))) (ok-injective (b ∷ rest) ys k)
        ((f x b h first, each), ap suc count)

sequence-last_or :
    (call : ℕ → Result (List ℕ)) (rates : List ℕ) (per : List (List ℕ)) (q : ℕ) (d : List ℕ)
    → call q ≡ ok d
    → sequence (map call rates) ≡ ok per
    → (p : ℕ) × (call p ≡ ok (last_or d per))
sequence-last_or call [] per q d e h =
    subst (λ t. (p : ℕ) × (call p ≡ ok (last_or d t))) (ok-injective [] per h) (q, e)
sequence-last_or call (r ∷ rates) per q d e h =
    let (m, first, a) = bind_inv (call r) h in
    let (rest, later, b) = bind_inv (sequence (map call rates)) a in
    subst (λ t. (p : ℕ) × (call p ≡ ok (last_or d t))) (ok-injective (m ∷ rest) per b)
      (sequence-last_or call rates rest r m first later)

-- the last of the results, of at least one call
pub last_call :
    (call : ℕ → Result (List ℕ)) (rates : List ℕ) (per : List (List ℕ))
    → 0 < length rates
    → sequence (map call rates) ≡ ok per
    → (p : ℕ) × (call p ≡ ok (last_or [] per))
last_call call [] per k h = absurd (omega arith)
last_call call (r ∷ rates) per k h =
    let (m, first, a) = bind_inv (call r) h in
    let (rest, later, b) = bind_inv (sequence (map call rates)) a in
    subst (λ t. (p : ℕ) × (call p ≡ ok (last_or [] t))) (ok-injective (m ∷ rest) per b)
      (sequence-last_or call rates rest r m first later)
