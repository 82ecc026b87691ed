-- ===== src/Tests/Example.antt =====
-- An array of two chunks of one block each, with its zone map: every value of the first block is 2,
-- which its record says, and every value of the second is 4, of which its record only says that they
-- lie between 0 and 4.
use Prim.Native.String.{String, ◌++◌ as ◌<>◌}
use text.Mathlib.Text.{◌==◌ as str_eq}
use skip_zfp.Prelude.{
  ℕ, ◌≡◌, refl, ap, true, false, Option, none, some, List, [], ◌∷◌, replicate, get_or, slice,
  if◌then◌else◌, decimal, Result, ok, err, runtime_error, pos, prod, cumsum_from, range_from, sum,
}
use skip_zfp.Codec.Config.{Codec}
use skip_zfp.Layout.{Array, Layout, get_layout, chunk_keys}
use skip_zfp.Query.Read.{Store, IsLawful}
use skip_zfp.Query.Meta.{ZarrMeta}
use skip_zfp.Query.Options.{default_options}
use skip_zfp.Query.Run.{query_gt_async}
use skip_zfp.Tests.Toy.{toy, Single, single_of, fin}

abbrev pub find_object : List (String × List ℕ) → String → Option (List ℕ)
find_object [] key = none
find_object ((k, object) ∷ objects) key =
    let rest = find_object objects key in if str_eq k key then some object else rest

abbrev pub slice_of : Option (List ℕ) → ℕ → ℕ → Option (List ℕ)
slice_of none start end = none
slice_of (some object) start end = some (slice object start end)

abbrev pub memory_store : List (String × List ℕ) → Store
memory_store objects = record {
  get = find_object objects;
  get_range = λ key start end. slice_of (find_object objects key) start end;
  finish_order = λ batch. 1 ∷ 0 ∷ [];
}

pub memory_store-IsLawful : (objects : List (String × List ℕ)) → IsLawful (memory_store objects)
memory_store-IsLawful objects = record {
  get_range_of_some = λ key object start end h. ap (λ o. slice_of o start end) h;
  get_range_of_none = λ key start end h. ap (λ o. slice_of o start end) h;
}

-- a block is told by its first byte
abbrev pub decode : ℕ → List ℕ → List Single
decode rate bytes = replicate 64 (single_of (get_or bytes 0 0))

abbrev pub codec : Codec
codec = record {
  rate = 8;
  block_dim = 4;
  layers = 8 ∷ [];
  block_order = 0 ∷ 1 ∷ 2 ∷ [];
  sub_chunk = [];
  block_error_bits = 0;
}

-- zarr's default encoding, "c/0/0/0"
abbrev pub chunk_key : List ℕ → String
chunk_key [] = ""
chunk_key (x ∷ xs) = "/" <> decimal x <> chunk_key xs

abbrev pub array : Array
array = record {
  shape = 8 ∷ 4 ∷ 4 ∷ [];
  chunk_shape = 4 ∷ 4 ∷ 4 ∷ [];
  codecs = none ∷ some codec ∷ [];
  path = "g/a/";
  encode_chunk_key = λ coord. "c" <> chunk_key coord;
  meta_path = some "g/a_meta";
  meta_source = none;
  meta_t_chunk = some 1;
  meta_packing = none;
}

abbrev pub record0 : List ℕ
record0 = 1 ∷ 0 ∷ 0 ∷ 0 ∷ 1 ∷ 0 ∷ 0 ∷ 0 ∷ 0 ∷ 0 ∷ 0 ∷ 0 ∷ 0 ∷ 255 ∷ []

abbrev pub record1 : List ℕ
record1 = 0 ∷ 0 ∷ 0 ∷ 0 ∷ 2 ∷ 0 ∷ 0 ∷ 0 ∷ 0 ∷ 0 ∷ 0 ∷ 0 ∷ 0 ∷ 255 ∷ []

abbrev pub objects : List (String × List ℕ)
objects =
    ("g/a/c/0/0/0", 1 ∷ [])
    ∷ ("g/a/c/1/0/0", 2 ∷ [])
    ∷ ("g/a_meta/c/0/0/0/0", record0)
    ∷ ("g/a_meta/c/1/0/0/0", record1)
    ∷ []

abbrev pub store : Store
store = memory_store objects

pub store-IsLawful : IsLawful store
store-IsLawful = memory_store-IsLawful objects

-- packed zone maps, and ones that are no objects of their own, do not occur here
abbrev pub zstd : List ℕ → Result (List ℕ)
zstd bytes = err (runtime_error "not compressed")

abbrev pub open_zarr : String → Result ZarrMeta
open_zarr path = err (runtime_error "not opened")

abbrev pub lt : Layout
lt = record {
  chunk_shape = 4 ∷ 4 ∷ 4 ∷ [];
  grid_shape = 2 ∷ 1 ∷ 1 ∷ [];
  rate = 8;
  block_dim = 4;
  data_size = 1;
  meta_size = 14;
  block_size = 1;
  blocks_per_chunk = 1;
  values_per_block = 64;
  layers = 8 ∷ [];
  layer_bytes = 1 ∷ [];
  layer_starts = 0 ∷ [];
  unit_shape = 4 ∷ 4 ∷ 4 ∷ [];
  unit_grid = 2 ∷ 1 ∷ 1 ∷ [];
  blocks_per_unit = 1;
}

pub get_layout_test : get_layout array ≡ ok lt
unfolding get_layout prod cumsum_from
get_layout_test = refl

abbrev pub keys : List String
keys = "g/a/c/0/0/0" ∷ "g/a/c/1/0/0" ∷ []

pub chunk_keys_test : chunk_keys array lt ≡ keys
unfolding chunk_keys range_from decimal
chunk_keys_test = refl

-- values above 1: 64 of the first block, by the zone map, and 64 of the second, decoded
query_gt_test :
    query_gt_async toy decode true 0 store zstd open_zarr array (fin 1) false default_options
    ≡ ok (record {
      count = 128;
      in_blocks = 1;
      out_blocks = 0;
      maybe_blocks = 1;
      total_blocks = 2;
      metadata_bytes_read = 28;
      payload_bytes_read = 1;
      metadata_requests = 2;
      payload_requests = 1;
      useful_payload_bytes = 1;
      payload_overread_bytes = pos 0;
    })
unfolding query_gt_async prod range_from sum
query_gt_test = refl
