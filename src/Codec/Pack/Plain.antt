-- ===== src/Codec/Pack/Plain.antt =====
-- A chunk that is one unit: cut out of itself it is itself, and its own coordinates are those of the
-- unit.
use skip_zfp.Prelude.{
  ℕ, ◌+◌, ◌*◌, ◌/◌, ◌<◌, ◌≡◌, refl, sym, ap, ap₂, subst, ◌∙◌, List, [], ◌∷◌, map, length, All,
  arith, ok, bind_inv,
}
use native.Mathlib.Nat.{div_self}
use skip_zfp.Floats.{Floats}
use skip_zfp.Codec.Encode.{Zfp, encode, encode_shape, decode, decode_shape}
use skip_zfp.Codec.Pack.Encoded.{ok-injective}
use skip_zfp.Layout.{chunk_coords, zip_with}
use skip_zfp.Codec.Units.{NdArray, of_items, items, starts, slices_at, take_slices, unit_axes}
use skip_zfp.Codec.Units.Ravel.{Within, length-Within, chunk_coords-Within}
use skip_zfp.Codec.Pack.Grid.{Tiles, length-unit_axes, take_slices-shape}
use skip_zfp.Codec.Pack.Paste.{unit_coord}

-- The only unit of a shape that is a unit begins at the origin.
pub unit_coord_single :
    (dim : ℕ) (u idx r : List ℕ)
    → Tiles dim u u
    → Within (unit_axes u u) idx
    → Within u r
    → unit_coord u idx r ≡ r
unit_coord_single dim [] [] [] t w v = refl
unit_coord_single dim (n ∷ u) (i ∷ idx) (s ∷ r) t (lt, w) (ls, v) =
    ap₂ (λ a b. a ∷ b) (at_origin n i s lt ls) (unit_coord_single dim u idx r t.3 w v)
  where
    one : (k : ℕ) → 0 < k → k / k ≡ 1
    one k h = div_self h

    at_origin : (k a b : ℕ) → a < k / k → b < k → a * k + b ≡ b
    at_origin k a b lt' ls' =
        let a_nil : a ≡ 0 = omega (arith, one k (omega arith)) in rw a_nil (omega arith)
unit_coord_single dim _ _ _ t w v = absurd (ground arith)

module _ {ℓ} {A : Type ℓ} (dim : ℕ) (arr : NdArray A) (t : Tiles dim arr.shape arr.shape)
    (idx : List ℕ) (w : Within (unit_axes arr.shape arr.shape) idx) where
  same_values :
      (cs : List (List ℕ))
      → All (Within arr.shape) cs
      → map (λ c. arr.at (zip_with ◌+◌ (starts (slices_at arr.shape idx)) c)) cs ≡ map arr.at cs
  same_values [] h = refl
  same_values (c ∷ cs) (v, h) =
      ap₂ (λ a b. a ∷ b) (ap arr.at (unit_coord_single dim arr.shape idx c t w v))
        (same_values cs h)

  pub items-take_slices_single :
      length idx ≡ length arr.shape → items (take_slices arr (slices_at arr.shape idx)) ≡ items arr
  unfolding items take_slices
  items-take_slices_single axes =
      ap
        (λ s.
          map (λ c. arr.at (zip_with ◌+◌ (starts (slices_at arr.shape idx)) c)) (chunk_coords s))
        (take_slices-shape arr arr.shape idx axes)
      ∙ same_values (chunk_coords arr.shape) (chunk_coords-Within arr.shape)

pub decode-shape :
    (F : Floats) (z : Zfp F) (blank : F.Single) (buf shape : List ℕ) (out : NdArray F.Single)
    (rate dim : ℕ)
    → decode F z blank buf shape rate dim ≡ ok out
    → out.shape ≡ shape
unfolding decode of_items
decode-shape F z blank buf shape out rate dim h =
    let (values, _, k) = bind_inv (decode_shape F z shape buf rate dim) h in
    sym (ap (λ a. a.shape) (ok-injective (of_items blank shape values) out k))

-- the first index of a grid that has one
pub first_index :
    (dim : ℕ) (u shape : List ℕ)
    → Tiles dim u shape
    → (idx : List ℕ) × Within (unit_axes shape u) idx
first_index dim [] [] t = ([], tt)
first_index dim [] (s ∷ shape) t = absurd t
first_index dim (n ∷ u) [] t = absurd t
first_index dim (n ∷ u) (s ∷ shape) t =
    let rest = first_index dim u shape t.3 in (0 ∷ rest.0, (t.2, rest.1))

module _ (F : Floats) (z : Zfp F) (arr : NdArray F.Single) (rate dim : ℕ) (idx : List ℕ) where
  -- The only unit of a chunk is encoded as the chunk is.
  pub encode_single_unit :
      (u : List ℕ)
      → arr.shape ≡ u
      → Tiles dim u arr.shape
      → Within (unit_axes arr.shape u) idx
      → encode F z (take_slices arr (slices_at u idx)) rate dim ≡ encode F z arr rate dim
  unfolding encode
  encode_single_unit u e =
      subst
        (λ v.
          Tiles dim v arr.shape
          → Within (unit_axes arr.shape v) idx
          → encode F z (take_slices arr (slices_at v idx)) rate dim ≡ encode F z arr rate dim)
        e
        (λ t w.
          let axes =
            length-Within (unit_axes arr.shape arr.shape) idx w
            ∙ length-unit_axes dim arr.shape arr.shape t in
          ap₂ (λ s xs. encode_shape F z s xs rate dim) (take_slices-shape arr arr.shape idx axes)
            (items-take_slices_single dim arr t idx w axes))
