-- ===== src/Codec/Config/Valid.antt =====
-- What `__post_init__` guarantees of a codec, and what follows for its layers.
use skip_zfp.Prelude.{
  ℕ, ◌+◌, ◌-◌, ◌/◌, ◌%◌, ◌≤◌, ◌<◌, ◌≡◌, refl, sym, ap, subst, false, not, ◌&&◌, List, [], ◌∷◌, map,
  zip, any, length, init, last_or, list_eq, list_eq_sound, ltb, ◌==◌, if◌then◌else◌, sum, All, ok,
  raise_if-ok, none, some, arith, Bool-cases, inl, inr,
}
use skip_zfp.Codec.Config.{
  Codec, insert_new, sorted_set, or_default, bad_rate, bad_layers, bad_sub_chunk, post_init,
  layer_bytes, from_dict, to_dict, sorted, get_default,
}

-- The rates rise strictly from above `p`.
abbrev pub Rises : ℕ → List ℕ → Type 0
Rises p [] = Unit
Rises p (r ∷ rs) = (p < r) × Rises r rs

abbrev pub IsRate : ℕ → Type 0
IsRate r = (0 < r) × (r % 8 ≡ 0)

pub record IsValid (c : Codec) : Type 0 where
  pub dim : c.block_dim ≡ 4
  pub rises : Rises 0 c.layers
  pub rates : All IsRate c.layers
  pub top : last_or 0 c.layers ≡ c.rate
  pub some_layer : 0 < length c.layers

Rises-le : (p q : ℕ) (rs : List ℕ) → p ≤ q → Rises q rs → Rises p rs
Rises-le p q [] h r = tt
Rises-le p q (x ∷ rs) h r = (omega arith, r.1)

insert_new-Rises : (p x : ℕ) (ys : List ℕ) → p < x → Rises p ys → Rises p (insert_new x ys)
unfolding insert_new
insert_new-Rises p x [] h r = (h, tt)
insert_new-Rises p x (y ∷ ys) h (py, r) = elim (Bool-cases (ltb x y)) [
  | inl lt ↦ rw lt (h, (ground arith, r))
  | inr ge ↦ elim (Bool-cases (x == y)) [
    | inl eq ↦ rw (ge, eq) (py, r)
    | inr ne ↦ rw (ge, ne) (py, insert_new-Rises y x ys (ground arith) r)
  ]
]

-- The members of a sorted set of positive numbers rise.
sorted_set-Rises : (xs : List ℕ) → All IsRate xs → Rises 0 (sorted_set xs)
unfolding sorted_set
sorted_set-Rises [] h = tt
sorted_set-Rises (x ∷ xs) (h, hs) =
    insert_new-Rises 0 x (sorted_set xs) h.0 (sorted_set-Rises xs hs)

rates_of : (xs : List ℕ) → any bad_rate xs ≡ false → All IsRate xs
rates_of [] h = tt
rates_of (x ∷ xs) h = (ground arith, rates_of xs (ground arith))

-- All that `__post_init__` has checked when it returns.
pub record Checked (c d : Codec) : Type 0 where
  pub rate : (c.rate == 0) ≡ false
  pub dim : not (c.block_dim == 4) ≡ false
  pub layers : bad_layers c.rate (or_default c.layers (c.rate ∷ [])) ≡ false
  pub rates : any bad_rate (or_default c.layers (c.rate ∷ [])) ≡ false
  pub order : not (list_eq (sorted c.block_order) (0 ∷ 1 ∷ 2 ∷ [])) ≡ false
  pub sub : bad_sub_chunk c.block_dim c.sub_chunk ≡ false
  pub bits : (not (c.block_error_bits == 0) && not (c.block_error_bits == 4)) ≡ false
  pub single :
      (not (c.block_error_bits == 0) && ltb 1 (length (or_default c.layers (c.rate ∷ [])))) ≡ false
  pub result : record c { layers = or_default c.layers (c.rate ∷ []) } ≡ d

ok-injective {ℓ} : {A : Type ℓ} (a b : A) → ok a ≡ ok b → a ≡ b
ok-injective a b h = ground arith

pub post_init-Checked : (c d : Codec) → post_init c ≡ ok d → Checked c d
unfolding post_init
post_init-Checked c d h =
    let a = raise_if-ok _ _ _ h in
    let b = raise_if-ok _ _ _ a.1 in
    let e = raise_if-ok _ _ _ b.1 in
    let f = raise_if-ok _ _ _ e.1 in
    let g = raise_if-ok _ _ _ f.1 in
    let i = raise_if-ok _ _ _ g.1 in
    let j = raise_if-ok _ _ _ i.1 in
    let k = raise_if-ok _ _ _ j.1 in
    record {
      rate = a.0;
      dim = b.0;
      layers = e.0;
      rates = f.0;
      order = g.0;
      sub = i.0;
      bits = j.0;
      single = k.0;
      result = ok-injective _ d k.1;
    }

some_default : (rate : ℕ) (ls : List ℕ) → 0 < length (or_default ls (rate ∷ []))
some_default rate [] = omega arith
some_default rate (x ∷ ls) = omega arith

layers_facts :
    (rate : ℕ) (ls : List ℕ)
    → bad_layers rate ls ≡ false
    → any bad_rate ls ≡ false
    → Rises 0 ls × All IsRate ls × (last_or 0 ls ≡ rate)
layers_facts rate ls h k =
    let rates = rates_of ls k in
    let own : ls ≡ sorted_set ls = list_eq_sound ls (sorted_set ls) (ground arith) in
    (subst (Rises 0) (sym own) (sorted_set-Rises ls rates), rates, ground arith)

Checked-IsValid : (c d : Codec) → Checked c d → IsValid d
Checked-IsValid c d k =
    let ls : List ℕ = or_default c.layers (c.rate ∷ []) in
    let f = layers_facts c.rate ls k.layers k.rates in
    let dim : c.block_dim ≡ 4 = ground (arith, k.dim) in
    subst IsValid k.result (record {
      dim = dim;
      rises = f.0;
      rates = f.1;
      top = f.2;
      some_layer = some_default c.rate c.layers;
    })

-- A codec that `__post_init__` accepts has block_dim 4 and at least one layer, and its layer rates
-- rise strictly up to its rate, each a positive multiple of an eighth of a bit.
pub post_init-IsValid : (c d : Codec) → post_init c ≡ ok d → IsValid d
post_init-IsValid c d h = Checked-IsValid c d (post_init-Checked c d h)

layer_sum :
    (p : ℕ) (rs : List ℕ)
    → p % 8 ≡ 0
    → Rises p rs
    → All IsRate rs
    → sum (map (λ rp. (rp.0 - rp.1) / 8) (zip rs (p ∷ init rs))) + p / 8 ≡ last_or p rs / 8
unfolding sum
layer_sum p [] e r h = omega arith
layer_sum p (x ∷ []) e (px, r) ((pos', m), h) = omega arith
layer_sum p (x ∷ y ∷ rs) e (px, r) ((pos', m), h) = omega (arith, layer_sum x (y ∷ rs) m r h)

-- The bytes that the layers add to a block make up the bytes of a block at the full rate, for a
-- codec that `__post_init__` accepts.
pub sum-layer_bytes : (c d : Codec) → post_init c ≡ ok d → sum (layer_bytes d) ≡ d.rate / 8
unfolding layer_bytes
sum-layer_bytes c d h =
    let v = post_init-IsValid c d h in
    omega (arith, layer_sum 0 d.layers refl v.rises v.rates, ap (λ (t : ℕ). t / 8) v.top)

or_default_twice :
    (ls : List ℕ) (r : ℕ) → or_default (or_default ls (r ∷ [])) (r ∷ []) ≡ or_default ls (r ∷ [])
or_default_twice [] r = refl
or_default_twice (x ∷ ls) r = refl

-- A codec that was accepted is accepted again, unchanged.
pub post_init_again : (c d : Codec) → post_init c ≡ ok d → post_init d ≡ ok d
unfolding post_init
post_init_again c d h =
    let k = post_init-Checked c d h in
    subst (λ t. post_init t ≡ ok t) k.result
      (rw (
        or_default_twice c.layers c.rate,
        k.rate,
        k.dim,
        k.layers,
        k.rates,
        k.order,
        k.sub,
        k.bits,
        k.single,
      ))

order_nonempty :
    (xs : List ℕ) (ys : List ℕ)
    → not (list_eq (sorted xs) (0 ∷ 1 ∷ 2 ∷ [])) ≡ false
    → or_default xs ys ≡ xs
unfolding sorted
order_nonempty [] ys h = cc
order_nonempty (x ∷ xs) ys h = refl

bits_again :
    (b : ℕ)
    → (not (b == 0) && not (b == 4)) ≡ false
    → get_default 0 (if b == 0 then none else some 4) ≡ b
bits_again b h = ground arith

-- from_dict gives back a codec that `__post_init__` accepted from the dictionary that to_dict makes
-- of it.
pub from_dict-to_dict : (c d : Codec) → post_init c ≡ ok d → from_dict (to_dict d) ≡ ok d
unfolding from_dict to_dict
from_dict-to_dict c d h =
    let again = post_init_again c d h in
    let k = post_init-Checked d d again in
    rw (order_nonempty d.block_order (0 ∷ 1 ∷ 2 ∷ []) k.order, bits_again d.block_error_bits k.bits)
      again
