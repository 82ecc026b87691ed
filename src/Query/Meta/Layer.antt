-- ===== src/Query/Meta/Layer.antt =====
-- The records that plan_meta keeps: each is the record it had, with the error bound of one layer.
use skip_zfp.Prelude.{
  ℕ, zero, suc, ◌+◌, ◌-◌, ◌*◌, ◌≤◌, ◌<◌, ◌≡◌, refl, sym, ap, ap₂, ◌∙◌, Bool, List, ◌++◌, ◌==◌,
  if◌then◌else◌, length, length-append, length-take, length-drop, length-slice, take, drop, slice,
  flat_map, take-append, drop-append, drop-drop, take-append-drop, arith, Bool-cases, inl, inr,
  ==_iff, ◌/◌,
}
use skip_zfp.Layout.{Layout}
use skip_zfp.Codec.MetaPack.{reshape}
use skip_zfp.Query.Meta.{keep_layer, plan_meta}
use skip_zfp.Query.Result.{single_size}
use skip_zfp.Query.Stream.Reads.{mul_mono}
use native.Mathlib.Nat.{mul-div_cancel}

pub slice_of : (xs : List ℕ) (a b c k : ℕ) → a ≡ c → b - a ≡ k → slice xs a b ≡ take k (drop c xs)
slice_of xs a b c k e h = ap (λ t. take (b - a) (drop t xs)) e ∙ ap (λ t. take t (drop c xs)) h

-- row `u` of a buffer cut into rows of `size` bytes that are each made `k` bytes long
module _ (f : List ℕ → List ℕ) (size k : ℕ)
    (len : (r : List ℕ) → length r ≡ size → length (f r) ≡ k) where
  row_of :
      (n : ℕ) (buf : List ℕ) (u : ℕ)
      → length buf ≡ n * size
      → u < n
      → slice (flat_map f (reshape n size buf)) (u * k) (u * k + k)
        ≡ f (slice buf (u * size) (u * size + size))
  unfolding reshape
  row_of zero buf u e h = absurd (omega arith)
  row_of (suc n) buf zero e h =
      let first : length (take size buf) ≡ size = omega (arith, length-take size buf) in
      let rest = flat_map f (reshape n size (drop size buf)) in
      slice_of (f (take size buf) ++ rest) (0 * k) (0 * k + k) 0 k (omega arith) (omega arith)
      ∙ take-append k (f (take size buf)) rest (sym (len (take size buf) first))
      ∙ ap f (sym (slice_of buf (0 * size) (0 * size + size) 0 size (omega arith) (omega arith)))
  row_of (suc n) buf (suc u) e h =
      let first : length (take size buf) ≡ size = omega (arith, length-take size buf) in
      let rest = flat_map f (reshape n size (drop size buf)) in
      slice_of (f (take size buf) ++ rest) (suc u * k) (suc u * k + k) (suc u * k) k refl
        (omega arith)
      ∙ ap (take k) (
          sym (drop-drop k (u * k) (suc u * k) (f (take size buf) ++ rest) (omega arith))
          ∙ ap (drop (u * k))
              (drop-append k (f (take size buf)) rest (sym (len (take size buf) first))))
      ∙ sym (slice_of rest (u * k) (u * k + k) (u * k) k refl (omega arith))
      ∙ row_of n (drop size buf) u (omega (arith, length-drop size buf)) (omega arith)
      ∙ ap f (
          slice_of (drop size buf) (u * size) (u * size + size) (u * size) size refl (omega arith)
          ∙ ap (take size) (drop-drop size (u * size) (suc u * size) buf (omega arith))
          ∙ sym (
              slice_of buf (suc u * size) (suc u * size + size) (suc u * size) size refl
                (omega arith)))

length-keep_layer :
    (n layer size : ℕ) (r : List ℕ)
    → layer < n
    → 8 + 4 * n ≤ size
    → length r ≡ size
    → length (keep_layer n layer r) ≡ size - 4 * (n - 1)
length-keep_layer n layer size r h fits e = omega (
  arith,
  length-append (take 8 r) (slice r (8 + 4 * layer) (12 + 4 * layer) ++ drop (8 + 4 * n) r),
  length-append (slice r (8 + 4 * layer) (12 + 4 * layer)) (drop (8 + 4 * n) r),
  length-take 8 r,
  length-slice r (8 + 4 * layer) (12 + 4 * layer) (omega arith),
  length-drop (8 + 4 * n) r,
)

-- a record with a single error bound is kept as it is
keep_only : (r : List ℕ) → 12 ≤ length r → keep_layer 1 0 r ≡ r
keep_only r h =
    ap (λ t. take 8 r ++ t)
      (ap (λ t. take 4 (drop 8 r) ++ t) (sym (drop-drop 8 4 12 r refl))
        ∙ take-append-drop 4 (drop 8 r))
    ∙ take-append-drop 8 r

-- For a zone map of `n` whole records, each with room for the bounds of all layers, and a layer
-- that exists, record `u` of what plan_meta gives is record `u` of the zone map without the error
-- bounds of the other layers.
pub plan_meta_lem :
    (meta : List ℕ) (lt : Layout) (n layer u : ℕ)
    → length meta ≡ n * lt.meta_size
    → 8 + 4 * length lt.layers ≤ lt.meta_size
    → layer < length lt.layers
    → u < n
    → slice (plan_meta meta lt layer) (u * single_size lt) (u * single_size lt + single_size lt)
      ≡ keep_layer
          (length lt.layers)
          layer
          (slice meta (u * lt.meta_size) (u * lt.meta_size + lt.meta_size))
unfolding plan_meta
plan_meta_lem meta lt n layer u e fits hl hu = elim (Bool-cases (length lt.layers == 1)) [
  | inl single ↦
      let one : length lt.layers ≡ 1 = (==_iff (length lt.layers) 1).0 single in
      let zeroth : layer ≡ 0 = omega arith in
      let same : ss ≡ ms = omega arith in
      let starts : u * ss ≡ u * ms = ap (λ (t : ℕ). u * t) same in
      let inside : u * ms + ms ≤ length meta = omega (arith, mul_mono (u + 1) n ms (omega arith)) in
      let full : 12 ≤ length (slice meta (u * ms) (u * ms + ms)) =
        omega (arith, length-slice meta (u * ms) (u * ms + ms) inside) in
      ap (λ (b : Bool). slice (if b then meta else kept) (u * ss) (u * ss + ss)) single
      ∙ slice_of meta (u * ss) (u * ss + ss) (u * ms) ms starts (omega arith)
      ∙ sym (slice_of meta (u * ms) (u * ms + ms) (u * ms) ms refl (omega arith))
      ∙ sym (keep_only (slice meta (u * ms) (u * ms + ms)) full)
      ∙ ap₂ (λ (a b : ℕ). keep_layer a b (slice meta (u * ms) (u * ms + ms))) (sym one) (sym zeroth)
  | inr more ↦
      ap (λ (b : Bool). slice (if b then meta else kept) (u * ss) (u * ss + ss)) more
      ∙ ap
          (λ t.
            slice (flat_map (keep_layer (length lt.layers) layer) (reshape t ms meta)) (u * ss)
              (u * ss + ss))
          (ap (λ (t : ℕ). t / ms) e ∙ mul-div_cancel n (omega arith))
      ∙ row_of (keep_layer (length lt.layers) layer) ms ss
          (λ r el. length-keep_layer (length lt.layers) layer ms r hl fits el) n meta u e hu
]
  where
    ms : ℕ
    ms = lt.meta_size

    ss : ℕ
    ss = single_size lt

    kept : List ℕ
    kept =
        flat_map (keep_layer (length lt.layers) layer)
          (reshape (length meta / lt.meta_size) lt.meta_size meta)
