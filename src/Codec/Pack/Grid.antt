-- ===== src/Codec/Pack/Grid.antt =====
-- A chunk that chunk_shape accepts is a grid of whole units, and these of whole blocks.
use skip_zfp.Prelude.{
  ℕ, zero, suc, ◌+◌, ◌-◌, ◌*◌, ◌/◌, ◌%◌, ◌<◌, ◌≡◌, refl, sym, ap, ap₂, ◌∙◌, Bool, false, not, ◌||◌,
  List, [], ◌∷◌, any, length, prod, arith, ok, raise_if-ok, ◌==◌,
}
use native.Mathlib.Omega.{div_any}
use native.Mathlib.Nat.{mul-div_cancel}
use skip_zfp.Layout.{blocks_axis}
use skip_zfp.Codec.Config.{Codec, post_init, bad_sub_chunk, or_default, any_rest, unit, chunk_shape}
use skip_zfp.Codec.Config.Valid.{post_init-Checked, post_init_again}
use skip_zfp.Codec.Units.{NdArray, take_slices, slices_at, unit_axes}

-- Along each axis the units make up the chunk, and the blocks a unit.
abbrev pub Tiles : ℕ → List ℕ → List ℕ → Type 0
Tiles dim [] [] = Unit
Tiles dim (n ∷ u) (s ∷ shape) =
    (s ≡ s / n * n) × (n ≡ n / dim * dim) × (0 < s / n) × Tiles dim u shape
Tiles dim [] (s ∷ shape) = ⊥
Tiles dim (n ∷ u) [] = ⊥

whole : (a b : ℕ) → not (a % b == 0) ≡ false → a ≡ a / b * b
whole a b h = let r : a % b ≡ 0 = ground arith in omega (arith, r, div_any a b)

some_unit : (s q n : ℕ) → s ≡ q * n → (s == 0) ≡ false → 0 < q
some_unit s zero n e h = absurd (ground arith)
some_unit s (suc q) n e h = omega arith

cut_all :
    (dim : ℕ) (u shape : List ℕ)
    → length u ≡ length shape
    → any (λ k. k == 0 || not (k % dim == 0)) u ≡ false
    → any_rest shape u ≡ false
    → any (λ k. k == 0 || not (k % dim == 0)) shape ≡ false
    → Tiles dim u shape
cut_all dim [] [] e h k l = tt
cut_all dim [] (s ∷ shape) e h k l = absurd (omega arith)
cut_all dim (n ∷ u) [] e h k l = absurd (omega arith)
cut_all dim (n ∷ u) (s ∷ shape) e h k l =
    let cut : s ≡ s / n * n = whole s n (ground arith) in
    (
      cut,
      whole n dim (ground arith),
      some_unit s (s / n) n cut (ground arith),
      cut_all dim u shape (omega arith) (ground arith) (ground arith) (ground arith),
    )

unit_facts :
    (c : Codec) (shape : List ℕ)
    → length shape ≡ 3
    → bad_sub_chunk c.block_dim c.sub_chunk ≡ false
    → any (λ x. x == 0 || not (x % c.block_dim == 0)) shape ≡ false
    → (length (unit c shape) ≡ 3)
      × (any (λ k. k == 0 || not (k % c.block_dim == 0)) (unit c shape) ≡ false)
unfolding unit
unit_facts c shape three sub axes = by_sub c.sub_chunk sub
  where
    by_sub :
        (xs : List ℕ)
        → bad_sub_chunk c.block_dim xs ≡ false
        → (length (or_default xs shape) ≡ 3)
          × (any (λ k. k == 0 || not (k % c.block_dim == 0)) (or_default xs shape) ≡ false)
    by_sub [] h = (three, axes)
    by_sub (x ∷ xs) h = (ground arith, ground arith)

pub record Shaped (c : Codec) (shape : List ℕ) : Type 0 where
  pub three : length (unit c shape) ≡ 3
  pub tiles : Tiles c.block_dim (unit c shape) shape

pub chunk_shape-Shaped :
    (b c : Codec) (shape : List ℕ) (float32 : Bool)
    → post_init b ≡ ok c
    → chunk_shape c shape float32 ≡ ok shape
    → Shaped c shape
unfolding chunk_shape
chunk_shape-Shaped b c shape float32 p h =
    let k = post_init-Checked c c (post_init_again b c p) in
    let g = raise_if-ok (not (length shape == 3)) _ _ h in
    let i = raise_if-ok (any (λ x. x == 0 || not (x % c.block_dim == 0)) shape) _ _ g.1 in
    let j = raise_if-ok (any_rest shape (unit c shape)) _ _ i.1 in
    let three : length shape ≡ 3 = ground (arith, g.0) in
    let f = unit_facts c shape three k.sub i.0 in
    record {
      three = f.0;
      tiles = cut_all c.block_dim (unit c shape) shape (f.0 ∙ sym three) f.1 j.0 i.0;
    }

pub length-unit_axes :
    (dim : ℕ) (u shape : List ℕ) → Tiles dim u shape → length (unit_axes shape u) ≡ length u
length-unit_axes dim [] [] t = refl
length-unit_axes dim [] (s ∷ shape) t = absurd t
length-unit_axes dim (n ∷ u) [] t = absurd t
length-unit_axes dim (n ∷ u) (s ∷ shape) t = ap suc (length-unit_axes dim u shape t.3)

axis_blocks :
    (dim s n : ℕ) → 0 < dim → s ≡ s / n * n → n ≡ n / dim * dim → s / dim ≡ s / n * (n / dim)
axis_blocks dim s n h p q =
    ap (λ (t : ℕ). t / dim) (p ∙ ap (λ (t : ℕ). s / n * t) q ∙ regroup (s / n) (n / dim) dim)
    ∙ mul-div_cancel (s / n * (n / dim)) h
  where
    regroup : (a b k : ℕ) → a * (b * k) ≡ a * b * k
    regroup a b k = grind arith

-- The blocks of the chunk are those of its units.
pub prod-blocks_axis :
    (dim : ℕ) (u shape : List ℕ)
    → 0 < dim
    → Tiles dim u shape
    → prod (blocks_axis dim shape) ≡ prod (unit_axes shape u) * prod (blocks_axis dim u)
unfolding prod
prod-blocks_axis dim [] [] h t = omega arith
prod-blocks_axis dim [] (s ∷ shape) h t = absurd t
prod-blocks_axis dim (n ∷ u) [] h t = absurd t
prod-blocks_axis dim (n ∷ u) (s ∷ shape) h t =
    ap₂ (λ (a b : ℕ). a * b) (axis_blocks dim s n h t.0 t.1) (prod-blocks_axis dim u shape h t.3)
    ∙ interchange (s / n) (n / dim) (prod (unit_axes shape u)) (prod (blocks_axis dim u))
  where
    interchange : (a b k l : ℕ) → a * b * (k * l) ≡ a * k * (b * l)
    interchange a b k l = grind arith

-- A unit that is cut out has the unit's shape.
pub take_slices-shape {ℓ} :
    {A : Type ℓ} (a : NdArray A) (u idx : List ℕ)
    → length idx ≡ length u
    → (take_slices a (slices_at u idx)).shape ≡ u
unfolding take_slices
take_slices-shape a [] [] e = refl
take_slices-shape a [] (i ∷ idx) e = absurd (omega arith)
take_slices-shape a (n ∷ u) [] e = absurd (omega arith)
take_slices-shape a (n ∷ u) (i ∷ idx) e =
    ap₂ (λ x y. x ∷ y) (width i n) (take_slices-shape a u idx (omega arith))
  where
    width : (k b : ℕ) → (k + 1) * b - k * b ≡ b
    width k b = let e' : (k + 1) * b ≡ k * b + b = grind arith in omega arith

-- There is a unit.
pub prod-unit_axes : (dim : ℕ) (u shape : List ℕ) → Tiles dim u shape → 0 < prod (unit_axes shape u)
unfolding prod
prod-unit_axes dim [] [] t = omega arith
prod-unit_axes dim [] (s ∷ shape) t = absurd t
prod-unit_axes dim (n ∷ u) [] t = absurd t
prod-unit_axes dim (n ∷ u) (s ∷ shape) t =
    let rest = prod-unit_axes dim u shape t.3 in
    let here = t.2 in positive (s / n) (prod (unit_axes shape u)) here rest
  where
    positive : (a b : ℕ) → 0 < a → 0 < b → 0 < a * b
    positive a b p q = grind arith
