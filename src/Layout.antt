-- ===== src/Layout.antt =====
-- skipzfp/query.py: get_layout with its _Layout, and the keys of the chunks. The array is zarr's: what
-- the package reads of it is the record `Array`.
pub mod Sizes
use Prim.Native.String.{String, ◌++◌ as ◌<>◌}
use skip_zfp.Prelude.{
  ℕ, ◌+◌, ◌-◌, ◌*◌, ◌/◌, ◌%◌, ◌^◌, Bool, not, ◌||◌, Option, none, some, List, [], ◌∷◌, map, zip,
  any, length, init, cumsum, prod, range, flat_map, ◌==◌, leb, if◌then◌else◌, Result, ok, err,
  ◌>>=◌, ◌>>◌, raise_if, value_error, is_empty, strip,
}
use skip_zfp.Native.{Outcome, sz_ok, sz_err, sz_err_arg, check}
use skip_zfp.Codec.Config.{Codec, CodecDict, unit, layer_bytes, meta_size}

-- `attrs["skipzfp_meta_source"]`, what write_meta recorded of the array
pub record Source : Type 0 where
  pub codec : CodecDict
  pub shape : List ℕ
  pub chunks : List ℕ
  pub chunk_crc32 : List (Option ℕ)

-- What the package reads of a zarr.Array: `codecs` holds none where the codec has another name,
-- `path` is `store_path.path` and the last four are attributes.
pub record Array : Type 0 where
  pub shape : List ℕ
  pub chunk_shape : List ℕ
  pub codecs : List (Option Codec)
  pub path : String
  pub encode_chunk_key : List ℕ → String
  pub meta_path : Option String
  pub meta_source : Option Source
  pub meta_t_chunk : Option ℕ
  pub meta_packing : Option String

unfoldable pub ceildiv : ℕ → ℕ → ℕ
ceildiv a b = (a + b - 1) / b

-- find_codec: the first codec of the name
unfoldable pub first_codec : List (Option Codec) → Result Codec
first_codec [] = err (value_error "array does not use the skipzfp codec")
first_codec (some c ∷ cs) = ok c
first_codec (none ∷ cs) = first_codec cs

unfoldable pub find_codec : Array → Result Codec
unfolding first_codec
find_codec arr = first_codec arr.codecs

-- the arguments that szfp_calc_layout of csrc/util.c refuses, products past SIZE_MAX included
unfoldable pub bad_shape : ℕ → ℕ → ℕ → ℕ → ℕ → Bool
bad_shape nx ny nz rate block_dim =
    nx == 0
    || ny == 0
    || nz == 0
    || rate == 0
    || not (block_dim == 4)
    || not (nx % block_dim == 0)
    || not (ny % block_dim == 0)
    || not (nz % block_dim == 0)
    || leb (2 ^ 64) (nx * ny * nz)
    || nx * ny * nz * rate / 512 == 0

-- szfp_layout of csrc/codec.c: the bytes of the payload and of a record
unfoldable pub szfp_layout : ℕ → ℕ → ℕ → ℕ → ℕ → Outcome (ℕ × ℕ)
unfolding bad_shape
szfp_layout nx ny nz rate block_dim =
    if bad_shape nx ny nz rate block_dim
    then sz_err sz_err_arg
    else sz_ok
        (nx * ny * nz * rate / 512, 12 + 2 * (nx / block_dim * (ny / block_dim) * (nz / block_dim)))

-- `_Native.layout` of skipzfp/codec.py; the callers have made sure of three axes
unfoldable pub layout : List ℕ → ℕ → ℕ → Result (ℕ × ℕ)
unfolding szfp_layout
layout (nx ∷ ny ∷ nz ∷ []) rate block_dim =
    check "szfp_layout" (szfp_layout nx ny nz rate block_dim)
layout _ rate block_dim = err (value_error "SkipZFP currently only supports 3D chunks")

-- `_Layout`
pub record Layout : Type 0 where
  pub chunk_shape : List ℕ
  pub grid_shape : List ℕ
  pub rate : ℕ
  pub block_dim : ℕ
  pub data_size : ℕ
  pub meta_size : ℕ
  pub block_size : ℕ
  pub blocks_per_chunk : ℕ
  pub values_per_block : ℕ
  pub layers : List ℕ
  pub layer_bytes : List ℕ
  pub layer_starts : List ℕ
  pub unit_shape : List ℕ
  pub unit_grid : List ℕ
  pub blocks_per_unit : ℕ

-- a tuple of `f(a, b)` for the pairs of `zip(xs, ys)`
abbrev pub zip_with : (ℕ → ℕ → ℕ) → List ℕ → List ℕ → List ℕ
zip_with f xs ys = map (λ p. f p.0 p.1) (zip xs ys)

unfoldable pub unit_grid_per_chunk : Layout → List ℕ
unit_grid_per_chunk lt = zip_with ◌/◌ lt.chunk_shape lt.unit_shape

-- the blocks of a shape along each axis
abbrev pub blocks_axis : ℕ → List ℕ → List ℕ
blocks_axis block_dim shape = map (λ s. s / block_dim) shape

-- `_Layout(...)`, from the checked parts
unfoldable pub layout_of : List ℕ → List ℕ → Codec → (data_size : ℕ) → Layout
unfolding ceildiv unit layer_bytes meta_size
layout_of shape chunk_shape codec data_size =
    let blocks_per_chunk = prod (blocks_axis codec.block_dim chunk_shape) in
    let grid_shape = zip_with ceildiv shape chunk_shape in
    let u = unit codec chunk_shape in
    record {
      chunk_shape = chunk_shape;
      grid_shape = grid_shape;
      rate = codec.rate;
      block_dim = codec.block_dim;
      data_size = data_size;
      meta_size = meta_size codec u;
      block_size = data_size / blocks_per_chunk;
      blocks_per_chunk = blocks_per_chunk;
      values_per_block = codec.block_dim ^ 3;
      layers = codec.layers;
      layer_bytes = layer_bytes codec;
      layer_starts = map (λ s. s * blocks_per_chunk) (cumsum (0 ∷ init (layer_bytes codec)));
      unit_shape = u;
      unit_grid = zip_with ◌*◌ grid_shape (zip_with ◌/◌ chunk_shape u);
      blocks_per_unit = prod (blocks_axis codec.block_dim u);
    }

-- get_layout once the payload's size is known
unfoldable pub layout_sized : Array → Codec → (data_size : ℕ) → Result Layout
unfolding layout_of
layout_sized arr codec data_size = do
  let blocks_per_chunk = prod (blocks_axis codec.block_dim arr.chunk_shape)
  raise_if (blocks_per_chunk == 0) (value_error "invalid block layout")
  raise_if (data_size == 0) (value_error "invalid fixed-rate layout")
  raise_if (not (data_size % blocks_per_chunk == 0))
      (value_error "compressed payload is not divisible by blocks")
  ok (layout_of arr.shape arr.chunk_shape codec data_size)

-- get_layout once the codec is found
unfoldable pub layout_with : Array → Codec → Result Layout
unfolding layout layout_sized
layout_with arr codec = do
  raise_if (codec.rate == 0) (value_error "rate must be greater than 0")
  raise_if (codec.block_dim == 0) (value_error "block_dim must be greater than 0")
  raise_if (any (λ s. not (s % codec.block_dim == 0)) arr.chunk_shape)
      (value_error "each chunk dimension must be divisible by block_dim")
  sizes ← layout arr.chunk_shape codec.rate codec.block_dim
  layout_sized arr codec sizes.0

unfoldable pub get_layout : Array → Result Layout
unfolding find_codec layout_with
get_layout arr = do
  raise_if (not (length arr.shape == 3)) (value_error "query_gt requires a 3D array")
  raise_if (not (length arr.chunk_shape == 3)) (value_error "query_gt requires 3D chunks")
  raise_if (any (λ sc. not (sc.0 % sc.1 == 0)) (zip arr.shape arr.chunk_shape))
      (value_error "query_gt requires array dimensions divisible by chunks")
  codec ← find_codec arr
  layout_with arr codec

-- `itertools.product` of the ranges of the axes, the last the fastest
unfoldable pub chunk_coords : List ℕ → List (List ℕ)
chunk_coords [] = [] ∷ []
chunk_coords (n ∷ ns) =
    let rest = chunk_coords ns in flat_map (λ i. map (λ c. i ∷ c) rest) (range n)

unfoldable pub full_key : Array → String → String
unfolding strip
full_key arr chunk_key =
    let prefix = strip arr.path in if is_empty prefix then chunk_key else prefix <> "/" <> chunk_key

-- `keys` of _query_async
unfoldable pub chunk_keys : Array → Layout → List String
unfolding full_key chunk_coords
chunk_keys arr lt =
    map (λ coord. full_key arr (arr.encode_chunk_key coord)) (chunk_coords lt.grid_shape)
