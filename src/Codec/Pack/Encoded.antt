-- ===== src/Codec/Pack/Encoded.antt =====
-- What szfp_encode and the reshape after it have made sure of when they return.
use Prim.Native.String.{String}
use skip_zfp.Prelude.{
  ℕ, zero, suc, ◌+◌, ◌*◌, ◌/◌, ◌%◌, ◌<◌, ◌≡◌, refl, sym, ap, subst, ◌∙◌, Bool, true, false, not,
  ◌||◌, List, [], ◌∷◌, ◌++◌, flat_map, take, drop, take-append-drop, length, length-take,
  length-drop, prod, All, arith, ok, ltb, ◌==◌, if◌then◌else◌, bind_inv, raise_if-ok,
}
use native.Mathlib.Omega.{div_any}
use skip_zfp.Floats.{Floats}
use skip_zfp.Native.{Outcome, sz_ok, sz_err, Code, check}
use skip_zfp.Layout.{bad_shape, layout, blocks_axis}
use skip_zfp.Codec.MetaPack.{reshape}
use skip_zfp.Codec.Encode.{Zfp, IsLawful, payload_size, n_blocks, szfp_encode, encode_shape}
use skip_zfp.Codec.Pack.{reshape_rows}

pub ok-injective {ℓ} : {A : Type ℓ} (a b : A) → ok a ≡ ok b → a ≡ b
ok-injective a b h = ground arith

pub check-ok {ℓ} :
    {A : Type ℓ} (name : String) (m : Outcome A) {a : A} → check name m ≡ ok a → m ≡ sz_ok a
check-ok name (sz_ok b) {a} h = ap sz_ok (ok-injective b a h)
check-ok name (sz_err c) h = cc

-- A reshape into `n` rows that has not failed.
pub record Rows (n : ℕ) (xs : List ℕ) (r : List (List ℕ)) : Type 0 where
  pub some_row : 0 < n
  pub exact : length xs ≡ n * (length xs / n)
  pub result : reshape n (length xs / n) xs ≡ r

pub reshape_rows-Rows :
    (n : ℕ) (xs : List ℕ) (r : List (List ℕ)) → reshape_rows n xs ≡ ok r → Rows n xs r
unfolding reshape_rows
reshape_rows-Rows n xs r h =
    let g = raise_if-ok (n == 0 || not (length xs % n == 0)) _ _ h in
    record {
      some_row = ground (arith, g.0);
      exact = omega (arith, whole n (length xs) g.0, div_any (length xs) n);
      result = ok-injective _ r g.1;
    }
  where
    whole : (k m : ℕ) → (k == 0 || not (m % k == 0)) ≡ false → m % k ≡ 0
    whole k m e = ground arith

-- The rows, one after the other, are the buffer.
pub flat_map-reshape :
    (n k : ℕ) (xs : List ℕ) → length xs ≡ n * k → flat_map (λ r. r) (reshape n k xs) ≡ xs
unfolding reshape
flat_map-reshape zero k [] e = refl
flat_map-reshape zero k (x ∷ xs) e = absurd (omega arith)
flat_map-reshape (suc n) k xs e =
    ap (λ t. take k xs ++ t)
      (flat_map-reshape n k (drop k xs) (omega (arith, length-drop k xs, row k n)))
    ∙ take-append-drop k xs
  where
    row : (a b : ℕ) → suc b * a ≡ a + b * a
    row a b = omega arith

pub length-reshape : (n k : ℕ) (xs : List ℕ) → length (reshape n k xs) ≡ n
unfolding reshape
length-reshape zero k xs = refl
length-reshape (suc n) k xs = ap suc (length-reshape n k (drop k xs))

pub All-reshape :
    (n k : ℕ) (xs : List ℕ) → length xs ≡ n * k → All (λ r. length r ≡ k) (reshape n k xs)
unfolding reshape
All-reshape zero k xs e = tt
All-reshape (suc n) k xs e = (
  length-take k xs ∙ (omega arith),
  All-reshape n k (drop k xs) (omega (arith, length-drop k xs)),
)

-- a guard of the C code that did not refuse
pub refused-ok {ℓ} :
    {A : Type ℓ} (b : Bool) (code : Code) (m : Outcome A) {a : A}
    → (if b then sz_err code else m) ≡ sz_ok a
    → (b ≡ false) × (m ≡ sz_ok a)
refused-ok true code m h = cc
refused-ok false code m h = (refl, h)

both_checks : (a : Bool) (x y : ℕ) → (a || not (x == y)) ≡ false → x ≡ y
both_checks true x y h = cc
both_checks false x y h = ground arith

eighth : (a b : ℕ) → a * 8 ≡ b → a ≡ b / 8
eighth a b e = omega (arith, e)

pub three_factors : (a b c : ℕ) → a * (b * (c * 1)) ≡ a * b * c
three_factors a b c = grind arith

module _ (F : Floats) (z : Zfp F) (law : IsLawful F z) where
  szfp_encode_inv :
      (nx ny nz rate block_dim capacity : ℕ) (values : List F.Single) (bytes : List ℕ)
      → szfp_encode F z nx ny nz rate block_dim capacity values ≡ sz_ok bytes
      → (length bytes / n_blocks nx ny nz block_dim * 8 ≡ rate)
        × (length bytes ≡ payload_size nx ny nz rate)
  unfolding szfp_encode
  szfp_encode_inv nx ny nz rate block_dim capacity values bytes h =
      let a = refused-ok (bad_shape nx ny nz rate block_dim) _ _ h in
      let b = refused-ok (ltb capacity (payload_size nx ny nz rate)) _ _ a.1 in
      let c =
        refused-ok _ _ (z.compress (nx ∷ ny ∷ nz ∷ []) rate values (payload_size nx ny nz rate))
          b.1 in
      let len =
        law.length-compress (nx ∷ ny ∷ nz ∷ []) rate values (payload_size nx ny nz rate) bytes
          c.1 in
      (ap (λ (t : ℕ). t / n_blocks nx ny nz block_dim * 8) len ∙ both_checks _ _ rate c.0, len)

  -- A block of an encoded unit takes as many bytes as its rate says.
  pub encode_shape_inv :
      (shape : List ℕ) (values : List F.Single) (rate block_dim : ℕ) (bytes : List ℕ)
      → encode_shape F z shape values rate block_dim ≡ ok bytes
      → length bytes / prod (blocks_axis block_dim shape) ≡ rate / 8
  unfolding encode_shape prod
  encode_shape_inv (nx ∷ ny ∷ nz ∷ []) values rate block_dim bytes h =
      let (sizes, made, a) = bind_inv (layout (nx ∷ ny ∷ nz ∷ []) rate block_dim) h in
      let (out, called, b) =
        bind_inv (check "szfp_encode" (szfp_encode F z nx ny nz rate block_dim sizes.0 values)) a in
      let c = raise_if-ok _ _ _ b in
      let e =
        szfp_encode_inv nx ny nz rate block_dim sizes.0 values out
          (check-ok "szfp_encode" _ called) in
      let same : out ≡ bytes = ok-injective out bytes c.1 in
      subst (λ t. length t / prod (blocks_axis block_dim (nx ∷ ny ∷ nz ∷ [])) ≡ rate / 8) same
        (ap (λ (t : ℕ). length out / t)
            (three_factors (nx / block_dim) (ny / block_dim) (nz / block_dim))
          ∙ eighth _ rate e.0)
  encode_shape_inv [] values rate block_dim bytes h = cc
  encode_shape_inv (x ∷ []) values rate block_dim bytes h = cc
  encode_shape_inv (x ∷ y ∷ []) values rate block_dim bytes h = cc
  encode_shape_inv (x ∷ y ∷ w ∷ v ∷ s) values rate block_dim bytes h = cc

  -- The bytes are as many as layout says.
  pub length-encode_shape :
      (shape : List ℕ) (values : List F.Single) (rate block_dim : ℕ) (bytes : List ℕ)
      (sizes : ℕ × ℕ)
      → encode_shape F z shape values rate block_dim ≡ ok bytes
      → layout shape rate block_dim ≡ ok sizes
      → length bytes ≡ sizes.0
  unfolding encode_shape
  length-encode_shape (nx ∷ ny ∷ nz ∷ []) values rate block_dim bytes sizes' h k =
      let (sizes, made, a) = bind_inv (layout (nx ∷ ny ∷ nz ∷ []) rate block_dim) h in
      let (out, called, b) =
        bind_inv (check "szfp_encode" (szfp_encode F z nx ny nz rate block_dim sizes.0 values)) a in
      let c = raise_if-ok (not (payload_size nx ny nz rate == sizes.0)) _ _ b in
      let e =
        szfp_encode_inv nx ny nz rate block_dim sizes.0 values out
          (check-ok "szfp_encode" _ called) in
      ap length (sym (ok-injective out bytes c.1))
      ∙ e.1
      ∙ same (payload_size nx ny nz rate) sizes.0 c.0
      ∙ ap (λ t. t.0) (ok-injective sizes sizes' (sym made ∙ k))
    where
      same : (x y : ℕ) → not (x == y) ≡ false → x ≡ y
      same x y g = ground arith
  length-encode_shape [] values rate block_dim bytes sizes h k = cc
  length-encode_shape (x ∷ []) values rate block_dim bytes sizes h k = cc
  length-encode_shape (x ∷ y ∷ []) values rate block_dim bytes sizes h k = cc
  length-encode_shape (x ∷ y ∷ w ∷ v ∷ s) values rate block_dim bytes sizes h k = cc
