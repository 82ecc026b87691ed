-- ===== src/Codec/Pack/Paste.antt =====
-- The units of a chunk written into one array: each keeps its own values.
use skip_zfp.Prelude.{
  ℕ, ◌+◌, ◌-◌, ◌*◌, ◌≤◌, ◌<◌, ◌≡◌, refl, sym, ap, ap₂, subst, Bool, true, false, ◌&&◌, List, [],
  ◌∷◌, length, ltb, leb, All, arith, Bool-cases, inl, inr,
}
use skip_zfp.Layout.{zip_with}
use skip_zfp.Codec.Units.{NdArray, inside, starts, slices_at, put_slices}
use skip_zfp.Codec.Units.Ravel.{Within, digits_unique}
use skip_zfp.Codec.Units.Members.{In}

-- the coordinate in the array of coordinate `r` of unit `idx`
abbrev pub unit_coord : List ℕ → List ℕ → List ℕ → List ℕ
unit_coord u idx r = zip_with ◌+◌ (starts (slices_at u idx)) r

axis_unique :
    (i j u r : ℕ)
    → r < u
    → leb (j * u) (i * u + r) ≡ true
    → ltb (i * u + r) ((j + 1) * u) ≡ true
    → j ≡ i
axis_unique i j u r lt h k =
    let p : j * u ≤ i * u + r = ground arith in
    let q : i * u + r < j * u + u = ground (arith, step j u) in
    (digits_unique j i u (i * u + r - j * u) r (omega arith) lt (omega arith)).0
  where
    step : (a b : ℕ) → (a + 1) * b ≡ a * b + b
    step a b = grind arith

both_true : (a b : Bool) → (a && b) ≡ true → (a ≡ true) × (b ≡ true)
both_true true b h = (refl, h)
both_true false b h = cc

-- A unit that selects a coordinate of another one is that one.
inside_unique :
    (u idx jdx r : List ℕ)
    → length idx ≡ length u
    → length jdx ≡ length u
    → Within u r
    → inside (slices_at u jdx) (unit_coord u idx r) ≡ true
    → jdx ≡ idx
inside_unique [] [] [] [] e k w h = refl
inside_unique (n ∷ u) (i ∷ idx) (j ∷ jdx) (s ∷ r) e k (lt, w) h =
    let p = both_true (leb (j * n) (i * n + s) && ltb (i * n + s) ((j + 1) * n)) _ h in
    let q = both_true (leb (j * n) (i * n + s)) _ p.0 in
    ap₂ (λ a b. a ∷ b) (axis_unique i j n s lt q.0 q.1)
      (inside_unique u idx jdx r (omega arith) (omega arith) w p.1)
inside_unique _ _ _ _ e k w h = absurd (ground arith)

inside_own :
    (u idx r : List ℕ)
    → length idx ≡ length u
    → Within u r
    → inside (slices_at u idx) (unit_coord u idx r) ≡ true
inside_own [] [] [] e w = refl
inside_own (n ∷ u) (i ∷ idx) (s ∷ r) e (lt, w) =
    rw (from_start i n s, to_end i n s lt) (inside_own u idx r (omega arith) w)
  where
    from_start : (a b t : ℕ) → leb (a * b) (a * b + t) ≡ true
    from_start a b t = ground arith

    to_end : (a b t : ℕ) → t < b → ltb (a * b + t) ((a + 1) * b) ≡ true
    to_end a b t lt' = let e' : (a + 1) * b ≡ a * b + b = grind arith in ground arith
inside_own _ _ _ e w = absurd (ground arith)

offset_own :
    (u idx r : List ℕ)
    → length idx ≡ length u
    → Within u r
    → zip_with ◌-◌ (unit_coord u idx r) (starts (slices_at u idx)) ≡ r
offset_own [] [] [] e w = refl
offset_own (n ∷ u) (i ∷ idx) (s ∷ r) e (lt, w) =
    ap₂ (λ a b. a ∷ b) (omega arith) (offset_own u idx r (omega arith) w)
offset_own _ _ _ e w = absurd (ground arith)

module _ {ℓ} {A : Type ℓ} (u : List ℕ) (dec : List ℕ → NdArray A) where
  -- the writes of the units `idxs`, in order
  unfoldable pub put_units : List (List ℕ) → NdArray A → NdArray A
  unfolding put_slices
  put_units [] out = out
  put_units (j ∷ js) out = put_units js (put_slices out (slices_at u j) (dec j))

  pub put_units-shape :
      (js : List (List ℕ)) (out : NdArray A) → (put_units js out).shape ≡ out.shape
  unfolding put_units put_slices
  put_units-shape [] out = refl
  put_units-shape (j ∷ js) out = put_units-shape js (put_slices out (slices_at u j) (dec j))

  module _ (idx r : List ℕ) (axes : length idx ≡ length u) (w : Within u r) where
    here :
        (out : NdArray A) (j : List ℕ)
        → idx ≡ j
        → (put_slices out (slices_at u j) (dec j)).at (unit_coord u idx r) ≡ (dec idx).at r
    unfolding put_slices
    here out j e =
        subst
          (λ k. (put_slices out (slices_at u k) (dec k)).at (unit_coord u idx r) ≡ (dec idx).at r) e
          (rw (inside_own u idx r axes w) (ap (dec idx).at (offset_own u idx r axes w)))

    keeps :
        (out : NdArray A) (j : List ℕ)
        → length j ≡ length u
        → out.at (unit_coord u idx r) ≡ (dec idx).at r
        → (put_slices out (slices_at u j) (dec j)).at (unit_coord u idx r) ≡ (dec idx).at r
    unfolding put_slices
    keeps out j e h = elim (Bool-cases (inside (slices_at u j) (unit_coord u idx r))) [
      | inl yes' ↦ here out j (sym (inside_unique u idx j r axes e w yes'))
      | inr no' ↦ rw no' h
    ]

    held :
        (js : List (List ℕ)) (out : NdArray A)
        → All (λ j. length j ≡ length u) js
        → out.at (unit_coord u idx r) ≡ (dec idx).at r
        → (put_units js out).at (unit_coord u idx r) ≡ (dec idx).at r
    unfolding put_units
    held [] out a h = h
    held (j ∷ js) out (e, a) h =
        held js (put_slices out (slices_at u j) (dec j)) a (keeps out j e h)

    -- A coordinate of a unit that is among those written holds the unit's value.
    pub put_units-at :
        (js : List (List ℕ)) (out : NdArray A)
        → All (λ j. length j ≡ length u) js
        → In idx js
        → (put_units js out).at (unit_coord u idx r) ≡ (dec idx).at r
    unfolding put_units
    put_units-at [] out a m = absurd m
    put_units-at (j ∷ js) out (e, a) (inl same) =
        held js (put_slices out (slices_at u j) (dec j)) a (here out j same)
    put_units-at (j ∷ js) out (e, a) (inr later) =
        put_units-at js (put_slices out (slices_at u j) (dec j)) a later
