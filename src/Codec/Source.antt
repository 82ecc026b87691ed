-- ===== src/Codec/Source.antt =====
-- skipzfp/codec.py: chunk_crc32, check_meta and check_source, which tell whether a zone map still
-- belongs to the array. `crc32` is zlib's.
pub mod Changed
use Prim.Native.String.{◌++◌ as ◌<>◌}
use text.Mathlib.Text.{◌==◌ as str_eq}
use skip_zfp.Prelude.{
  ℕ, ◌/◌, Bool, true, false, not, ◌&&◌, ◌||◌, Option, none, some, List, [], ◌∷◌, map, list_eq, ◌==◌,
  if◌then◌else◌, Result, ok, err, ◌>>=◌, ◌>>◌, raise_if, value_error, is_empty, strip,
}
use skip_zfp.Codec.Config.{CodecDict, Configuration, ConfigValue, absent, object, to_dict}
use skip_zfp.Layout.{Array, Source, zip_with, find_codec, chunk_coords}
use skip_zfp.Query.Read.{Store}

-- `==` of JSON values that may be missing
abbrev pub option_eq {ℓ} : {A : Type ℓ} → (A → A → Bool) → Option A → Option A → Bool
option_eq eq none none = true
option_eq eq (some a) (some b) = eq a b
option_eq eq none (some b) = false
option_eq eq (some a) none = false

abbrev pub configuration_eq : Configuration → Configuration → Bool
configuration_eq a b =
    option_eq ◌==◌ a.rate b.rate
    && option_eq ◌==◌ a.block_dim b.block_dim
    && option_eq list_eq a.layers b.layers
    && option_eq list_eq a.block_order b.block_order
    && option_eq list_eq a.sub_chunk b.sub_chunk
    && option_eq ◌==◌ a.block_error_bits b.block_error_bits

abbrev pub value_eq : ConfigValue → ConfigValue → Bool
value_eq absent absent = true
value_eq (object a) (object b) = configuration_eq a b
value_eq _ _ = false

unfoldable pub dict_eq : CodecDict → CodecDict → Bool
dict_eq a b = option_eq str_eq a.name b.name && value_eq a.configuration b.configuration

unfoldable pub check_source : Array → Source → Result (Unit {0})
unfolding find_codec dict_eq to_dict
check_source arr source = do
  codec ← find_codec arr
  raise_if
      (not (dict_eq source.codec (to_dict codec))
        || not (list_eq source.shape arr.shape)
        || not (list_eq source.chunks arr.chunk_shape))
      (value_error "the zone map was built for another codec, shape or chunk layout")

-- the number of chunks along each axis, and the coordinates of the chunks
abbrev pub chunk_grid : Array → List ℕ
chunk_grid arr = zip_with ◌/◌ arr.shape arr.chunk_shape

-- `one(coord)` inside chunk_crc32
unfoldable pub crc_of : (List ℕ → ℕ) → Store → Array → List ℕ → Option ℕ
unfolding strip
crc_of crc32 store arr coord =
    let prefix = strip arr.path in
    let key = arr.encode_chunk_key coord in
    elim (store.get (if is_empty prefix then key else prefix <> "/" <> key)) [
      | none ↦ none
      | some buf ↦ some (crc32 buf)
    ]

unfoldable pub chunk_crc32 : (List ℕ → ℕ) → Store → Array → List (Option ℕ)
unfolding crc_of chunk_coords
chunk_crc32 crc32 store arr = map (crc_of crc32 store arr) (chunk_coords (chunk_grid arr))

-- the coordinates whose CRCs differ: the comprehension at the end of check_meta
unfoldable pub changed : List (List ℕ) → List (Option ℕ) → List (Option ℕ) → List (List ℕ)
changed (c ∷ cs) (a ∷ old) (b ∷ new) =
    let rest = changed cs old new in if option_eq ◌==◌ a b then rest else c ∷ rest
changed _ _ _ = []

unfoldable pub check_meta : (List ℕ → ℕ) → Store → Array → Result (List (List ℕ))
unfolding check_source chunk_crc32 changed chunk_coords
check_meta crc32 store arr = elim arr.meta_source [
  | none ↦ err (value_error "no zone map source recorded; run write_meta again")
  | some source ↦ do
    check_source arr source
    ok (changed (chunk_coords (chunk_grid arr)) source.chunk_crc32 (chunk_crc32 crc32 store arr))
]
