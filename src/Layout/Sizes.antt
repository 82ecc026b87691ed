-- ===== src/Layout/Sizes.antt =====
-- What get_layout has made sure of when it returns.
use skip_zfp.Prelude.{
  ℕ, ◌*◌, ◌/◌, ◌%◌, ◌<◌, ◌≡◌, refl, sym, ap, ap₂, subst, ◌∙◌, false, not, List, [], ◌∷◌, ◌==◌, prod,
  length, ok, arith, All, last_or, value_error, any, zip, raise_if-ok, bind_inv, sum,
}
use skip_zfp.Codec.Config.{Codec, post_init}
use skip_zfp.Codec.Config.Valid.{IsRate, post_init-IsValid, sum-layer_bytes}
use skip_zfp.Layout.{
  Array, Layout, find_codec, layout, layout_of, layout_sized, layout_with, szfp_layout, bad_shape,
  blocks_axis, get_layout,
}
use native.Mathlib.Nat.{mul-div_cancel}

-- the checks that get_layout passed, and its result
pub record Accepted (arr : Array) (lt : Layout) : Type 0 where
  pub codec : Codec
  pub sizes : ℕ × ℕ
  pub found : find_codec arr ≡ ok codec
  pub sized : layout arr.chunk_shape codec.rate codec.block_dim ≡ ok sizes
  pub some_block : (prod (blocks_axis codec.block_dim arr.chunk_shape) == 0) ≡ false
  pub some_byte : (sizes.0 == 0) ≡ false
  pub whole : not (sizes.0 % prod (blocks_axis codec.block_dim arr.chunk_shape) == 0) ≡ false
  pub result : layout_of arr.shape arr.chunk_shape codec sizes.0 ≡ lt

ok-injective : (a b : Layout) → ok a ≡ ok b → a ≡ b
ok-injective a b h = ground arith

sized_inv :
    (arr : Array) (codec : Codec) (data_size : ℕ) (lt : Layout)
    → layout_sized arr codec data_size ≡ ok lt
    → ((prod (blocks_axis codec.block_dim arr.chunk_shape) == 0) ≡ false)
      × ((data_size == 0) ≡ false)
      × (not (data_size % prod (blocks_axis codec.block_dim arr.chunk_shape) == 0) ≡ false)
      × (layout_of arr.shape arr.chunk_shape codec data_size ≡ lt)
unfolding layout_sized
sized_inv arr codec data_size lt h =
    let i = raise_if-ok _ _ _ h in
    let j = raise_if-ok _ _ _ i.1 in
    let k = raise_if-ok _ _ _ j.1 in (i.0, j.0, k.0, ok-injective _ _ k.1)

with_inv :
    (arr : Array) (codec : Codec) (lt : Layout)
    → layout_with arr codec ≡ ok lt
    → (sizes : ℕ × ℕ) × (layout arr.chunk_shape codec.rate codec.block_dim ≡ ok sizes)
      × (layout_sized arr codec sizes.0 ≡ ok lt)
unfolding layout_with
with_inv arr codec lt h =
    let e = raise_if-ok (codec.rate == 0) (value_error "rate must be greater than 0") _ h in
    let f =
      raise_if-ok (codec.block_dim == 0) (value_error "block_dim must be greater than 0") _ e.1 in
    let g =
      raise_if-ok (any (λ s. not (s % codec.block_dim == 0)) arr.chunk_shape)
        (value_error "each chunk dimension must be divisible by block_dim") _ f.1 in
    bind_inv (layout arr.chunk_shape codec.rate codec.block_dim)
      {next = λ sizes. layout_sized arr codec sizes.0} g.1

found_inv :
    (arr : Array) (lt : Layout)
    → get_layout arr ≡ ok lt
    → (codec : Codec) × (find_codec arr ≡ ok codec) × (layout_with arr codec ≡ ok lt)
unfolding get_layout
found_inv arr lt h =
    let a =
      raise_if-ok (not (length arr.shape == 3)) (value_error "query_gt requires a 3D array") _ h in
    let b =
      raise_if-ok (not (length arr.chunk_shape == 3)) (value_error "query_gt requires 3D chunks") _
        a.1 in
    let c =
      raise_if-ok (any (λ sc. not (sc.0 % sc.1 == 0)) (zip arr.shape arr.chunk_shape))
        (value_error "query_gt requires array dimensions divisible by chunks") _ b.1 in
    bind_inv (find_codec arr) {next = layout_with arr} c.1

get_layout-Accepted : (arr : Array) (lt : Layout) → get_layout arr ≡ ok lt → Accepted arr lt
get_layout-Accepted arr lt h =
    let (codec, found, w) = found_inv arr lt h in
    let (sizes, sized, s) = with_inv arr codec lt w in
    let (some_block, some_byte, whole, result) = sized_inv arr codec sizes.0 lt s in
    record {
      codec = codec;
      sizes = sizes;
      found = found;
      sized = sized;
      some_block = some_block;
      some_byte = some_byte;
      whole = whole;
      result = result;
    }

last-IsRate : (p : ℕ) (rs : List ℕ) → p % 8 ≡ 0 → All IsRate rs → last_or p rs % 8 ≡ 0
last-IsRate p [] e h = e
last-IsRate p (r ∷ rs) e (hr, h) = last-IsRate r rs hr.1 h

volume : (x y z r : ℕ) → 4 * x * (4 * y) * (4 * z) * (8 * r) ≡ r * (x * (y * (z * 1))) * 512
volume x y z r = grind arith

-- what layout gives for a chunk that it accepts
layout_inv :
    (nx ny nz rate : ℕ) (sizes : ℕ × ℕ)
    → layout (nx ∷ ny ∷ nz ∷ []) rate 4 ≡ ok sizes
    → (nx % 4 ≡ 0) × (ny % 4 ≡ 0) × (nz % 4 ≡ 0) × (sizes.0 ≡ nx * ny * nz * rate / 512)
unfolding layout szfp_layout bad_shape
layout_inv nx ny nz rate sizes h = ground arith

payload_of :
    (nx ny nz rate x y z r : ℕ)
    → nx ≡ 4 * x
    → ny ≡ 4 * y
    → nz ≡ 4 * z
    → rate ≡ 8 * r
    → nx * ny * nz * rate / 512 ≡ r * (x * (y * (z * 1)))
payload_of nx ny nz rate x y z r ex ey ez er =
    ap₂ (λ (a b : ℕ). a * b * nz * rate / 512) ex ey
    ∙ ap₂ (λ (c d : ℕ). 4 * x * (4 * y) * c * d / 512) ez er
    ∙ ap (λ (t : ℕ). t / 512) (volume x y z r)
    ∙ mul-div_cancel (r * (x * (y * (z * 1)))) (omega arith)

payload_lem :
    (shape : List ℕ) (rate : ℕ) (sizes : ℕ × ℕ)
    → layout shape rate 4 ≡ ok sizes
    → rate % 8 ≡ 0
    → sizes.0 ≡ rate / 8 * prod (blocks_axis 4 shape)
unfolding layout prod
payload_lem [] rate sizes h m = cc
payload_lem (nx ∷ []) rate sizes h m = cc
payload_lem (nx ∷ ny ∷ []) rate sizes h m = cc
payload_lem (nx ∷ ny ∷ nz ∷ []) rate sizes h m =
    let (ex, ey, ez, e) = layout_inv nx ny nz rate sizes h in
    e
    ∙ payload_of nx ny nz rate (nx / 4) (ny / 4) (nz / 4) (rate / 8) (omega arith) (omega arith)
        (omega arith) (omega arith)
payload_lem (nx ∷ ny ∷ nz ∷ w ∷ ws) rate sizes h m = cc

-- The payload is made of the blocks of the chunk, each of an eighth of the rate in bytes.
pub data_size_lem :
    (shape : List ℕ) (c d : Codec) (sizes : ℕ × ℕ)
    → post_init c ≡ ok d
    → layout shape d.rate d.block_dim ≡ ok sizes
    → sizes.0 ≡ d.rate / 8 * prod (blocks_axis d.block_dim shape)
data_size_lem shape c d sizes p sized =
    let v = post_init-IsValid c d p in
    let eighths : d.rate % 8 ≡ 0 =
      ap (λ (t : ℕ). t % 8) (sym v.top) ∙ last-IsRate 0 d.layers refl v.rates in
    subst
      (λ b. layout shape d.rate b ≡ ok sizes → sizes.0 ≡ d.rate / 8 * prod (blocks_axis b shape))
      (sym v.dim) (λ q. payload_lem shape d.rate sizes q eighths) sized

-- the sizes that a layout has, of a valid codec
abbrev pub Sizes : Layout → Type 0
Sizes lt =
    (lt.block_size ≡ sum lt.layer_bytes) × (lt.block_size * lt.blocks_per_chunk ≡ lt.data_size)

layout_of-Sizes :
    (shape chunk : List ℕ) (c d : Codec) (sizes : ℕ × ℕ)
    → post_init c ≡ ok d
    → layout chunk d.rate d.block_dim ≡ ok sizes
    → (prod (blocks_axis d.block_dim chunk) == 0) ≡ false
    → Sizes (layout_of shape chunk d sizes.0)
unfolding layout_of
layout_of-Sizes shape chunk c d sizes p sized some_block =
    let e = data_size_lem chunk c d sizes p sized in
    let positive : 0 < prod (blocks_axis d.block_dim chunk) = ground (arith, some_block) in
    let block =
      ap (λ (t : ℕ). t / prod (blocks_axis d.block_dim chunk)) e
      ∙ mul-div_cancel (d.rate / 8) positive in
    (
      block ∙ sym (sum-layer_bytes c d p),
      ap (λ (t : ℕ). t * prod (blocks_axis d.block_dim chunk)) block ∙ sym e,
    )

codec-injective : (a b : Codec) → ok a ≡ ok b → a ≡ b
codec-injective a b h = ground arith

-- For an array that get_layout accepts, whose codec `__post_init__` accepts, the block size is the
-- sum of the layers' bytes, and the blocks of a chunk, at that size, make up the data section
-- exactly: both of the divisions in get_layout are without a remainder.
pub block_size_lem :
    (arr : Array) (lt : Layout) (c d : Codec)
    → post_init c ≡ ok d
    → find_codec arr ≡ ok d
    → get_layout arr ≡ ok lt
    → (lt.block_size ≡ sum lt.layer_bytes) × (lt.block_size * lt.blocks_per_chunk ≡ lt.data_size)
block_size_lem arr lt c d p f h =
    let a = get_layout-Accepted arr lt h in
    let same : a.codec ≡ d = codec-injective a.codec d (sym a.found ∙ f) in
    subst Sizes a.result (
      layout_of-Sizes arr.shape arr.chunk_shape c a.codec a.sizes (p ∙ ap ok (sym same)) a.sized
        a.some_block)
