-- ===== src/Codec/Config.antt =====
-- skipzfp/codec.py: the codec's configuration, from `__post_init__` to `validate`, and meta_size.
-- A rate, in bits per value, is a number of 64ths, so that `8 * r` may fail to be whole; an integer
-- that the checks compare with positive ones only is a natural number, 0 standing for the negatives,
-- which are refused as it is.
pub mod Valid
use Prim.Native.String.{String}
use text.Mathlib.Text.{◌==◌ as str_eq}
use skip_zfp.Prelude.{
  ℕ, zero, suc, ◌+◌, ◌-◌, ◌*◌, ◌/◌, ◌%◌, ◌≡◌, Bool, true, false, not, ◌&&◌, ◌||◌, Option, none,
  some, List, [], ◌∷◌, map, zip, any, length, init, last_or, list_eq, ltb, leb, ◌==◌, if◌then◌else◌,
  prod, Result, ok, err, ◌>>=◌, ◌>>◌, raise_if, value_error, type_error,
}

pub record Codec : Type 0 where
  pub rate : ℕ
  pub block_dim : ℕ
  pub layers : List ℕ
  pub block_order : List ℕ
  pub sub_chunk : List ℕ
  pub block_error_bits : ℕ

-- `sorted(set(xs))`
unfoldable pub insert_new : ℕ → List ℕ → List ℕ
insert_new x [] = x ∷ []
insert_new x (y ∷ ys) =
    let rest = insert_new x ys in
    if ltb x y then x ∷ y ∷ ys else if x == y then y ∷ ys else y ∷ rest

unfoldable pub sorted_set : List ℕ → List ℕ
unfolding insert_new
sorted_set [] = []
sorted_set (x ∷ xs) = insert_new x (sorted_set xs)

-- `sorted(xs)`
unfoldable pub insert_sorted : ℕ → List ℕ → List ℕ
insert_sorted x [] = x ∷ []
insert_sorted x (y ∷ ys) = let rest = insert_sorted x ys in if leb x y then x ∷ y ∷ ys else y ∷ rest

unfoldable pub sorted : List ℕ → List ℕ
unfolding insert_sorted
sorted [] = []
sorted (x ∷ xs) = insert_sorted x (sorted xs)

-- `xs or default`
abbrev pub or_default : List ℕ → List ℕ → List ℕ
or_default [] d = d
or_default (x ∷ xs) d = x ∷ xs

-- `8 * r` is no whole number, for a rate in 64ths
abbrev pub bad_rate : ℕ → Bool
bad_rate r = r == 0 || not (r % 8 == 0)

abbrev pub bad_layers : ℕ → List ℕ → Bool
bad_layers rate layers = not (list_eq layers (sorted_set layers)) || not (last_or 0 layers == rate)

abbrev pub bad_sub_chunk : ℕ → List ℕ → Bool
bad_sub_chunk block_dim [] = false
bad_sub_chunk block_dim (x ∷ xs) =
    not (length (x ∷ xs) == 3) || any (λ k. k == 0 || not (k % block_dim == 0)) (x ∷ xs)

-- `SkipZFPCodec(...)`: `__post_init__` on the arguments, the codec as it is then
unfoldable pub post_init : Codec → Result Codec
unfolding sorted_set sorted
post_init c = do
  raise_if (c.rate == 0) (value_error "rate must be greater than 0")
  raise_if (not (c.block_dim == 4)) (value_error "SkipZFP currently requires block_dim=4")
  let layers = or_default c.layers (c.rate ∷ [])
  raise_if (bad_layers c.rate layers) (value_error "layers must be increasing and end at rate")
  raise_if (any bad_rate layers)
      (value_error "each layer rate must be a positive multiple of 0.125")
  raise_if (not (list_eq (sorted c.block_order) (0 ∷ 1 ∷ 2 ∷ [])))
      (value_error "block_order must be a permutation of (0, 1, 2)")
  raise_if (bad_sub_chunk c.block_dim c.sub_chunk)
      (value_error "sub_chunk must be three positive multiples of block_dim")
  raise_if (not (c.block_error_bits == 0) && not (c.block_error_bits == 4))
      (value_error "block_error_bits must be 0 or 4")
  raise_if (not (c.block_error_bits == 0) && ltb 1 (length layers))
      (value_error "block_error_bits needs a single layer")
  ok (record c { layers = layers })

-- `unit(shape)`
unfoldable pub unit : Codec → List ℕ → List ℕ
unit c shape = or_default c.sub_chunk shape

-- `layer_bytes`: `int(8 * (r - p))` of the rates in 64ths
unfoldable pub layer_bytes : Codec → List ℕ
layer_bytes c = map (λ rp. (rp.0 - rp.1) / 8) (zip c.layers (0 ∷ init c.layers))

-- `plain(shape)`
unfoldable pub plain : Codec → List ℕ → Bool
unfolding unit
plain c shape =
    length c.layers == 1 && list_eq c.block_order (0 ∷ 1 ∷ 2 ∷ []) && list_eq (unit c shape) shape

-- `meta_size(codec, chunk)`
unfoldable pub meta_size : Codec → List ℕ → ℕ
meta_size c chunk =
    let n = prod (map (λ s. s / c.block_dim) chunk) in
    8 + 4 * length c.layers + 2 * n + (if c.block_error_bits == 0 then 0 else (n + 1) / 2)

-- The JSON object of a codec's configuration: a key that is absent is none.
pub record Configuration : Type 0 where
  pub rate : Option ℕ
  pub block_dim : Option ℕ
  pub layers : Option (List ℕ)
  pub block_order : Option (List ℕ)
  pub sub_chunk : Option (List ℕ)
  pub block_error_bits : Option ℕ

-- the value of the key "configuration"
pub data ConfigValue : Type 0 where
  absent : ConfigValue
  object : Configuration → ConfigValue
  other : ConfigValue

pub record CodecDict : Type 0 where
  pub name : Option String
  pub configuration : ConfigValue

abbrev pub codec_name : String
codec_name = "skipzfp"

abbrev pub empty_configuration : Configuration
empty_configuration = record {
  rate = none;
  block_dim = none;
  layers = none;
  block_order = none;
  sub_chunk = none;
  block_error_bits = none;
}

abbrev pub get_default {ℓ} : {A : Type ℓ} → A → Option A → A
get_default d none = d
get_default d (some a) = a

abbrev pub name_is : Option String → String → Bool
name_is none s = false
name_is (some t) s = str_eq t s

abbrev pub config_of : ConfigValue → Result Configuration
config_of absent = ok empty_configuration
config_of (object cfg) = ok cfg
config_of other = err (type_error "configuration must be a JSON object")

unfoldable pub from_dict : CodecDict → Result Codec
unfolding post_init
from_dict d = do
  raise_if (not (name_is d.name codec_name)) (value_error "wrong codec name")
  cfg ← config_of d.configuration
  post_init (record {
    rate = get_default 512 cfg.rate;
    block_dim = get_default 4 cfg.block_dim;
    layers = get_default [] cfg.layers;
    block_order = or_default (get_default [] cfg.block_order) (0 ∷ 1 ∷ 2 ∷ []);
    sub_chunk = get_default [] cfg.sub_chunk;
    block_error_bits = get_default 0 cfg.block_error_bits;
  })

unfoldable pub to_dict : Codec → CodecDict
to_dict c = record {
  name = some codec_name;
  configuration = object (record {
    rate = some c.rate;
    block_dim = some c.block_dim;
    layers = some c.layers;
    block_order = some c.block_order;
    sub_chunk = some c.sub_chunk;
    block_error_bits = if c.block_error_bits == 0 then none else some 4;
  });
}

-- `any(a % b for a, b in zip(xs, ys))`
abbrev pub any_rest : List ℕ → List ℕ → Bool
any_rest xs ys = any (λ ab. not (ab.0 % ab.1 == 0)) (zip xs ys)

-- `validate`: `float32` says whether the dtype is that, `chunk` is none for a grid without chunks
unfoldable pub validate : Codec → List ℕ → Bool → List ℕ → Result (Unit {0})
unfolding unit
validate c shape float32 chunk = do
  raise_if (not float32) (type_error "SkipZFP currently only supports float32")
  raise_if (not (length shape == 3)) (value_error "SkipZFP currently only supports 3D arrays")
  if not (length chunk == 3) then ok tt else do
    raise_if (any (λ k. not (k % c.block_dim == 0)) chunk)
        (value_error "each dimension must be divisible by block_dim")
    raise_if (any_rest chunk (unit c chunk)) (value_error "chunk is not divisible by sub_chunk")
    raise_if (any_rest shape chunk)
        (value_error "array shape must be a whole multiple of the chunk shape")

-- `chunk_shape(spec)`
unfoldable pub chunk_shape : Codec → List ℕ → Bool → Result (List ℕ)
unfolding unit
chunk_shape c shape float32 = do
  raise_if (not (length shape == 3)) (value_error "SkipZFP requires 3D chunks")
  raise_if (any (λ x. x == 0 || not (x % c.block_dim == 0)) shape)
      (value_error "each chunk dimension must be divisible by block_dim")
  raise_if (any_rest shape (unit c shape)) (value_error "chunk is not divisible by sub_chunk")
  raise_if (not float32) (type_error "SkipZFP currently only supports float32")
  ok shape
