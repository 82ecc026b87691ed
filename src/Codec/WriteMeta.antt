-- ===== src/Codec/WriteMeta.antt =====
-- skipzfp/codec.py: write_meta, which builds the zone map of an array. What zarr stores of it is the
-- value `ZoneMap`, and the number of threads decides only the order of the work.
pub mod Size
pub mod Records
pub mod Kept
use Prim.Native.String.{String, ◌++◌ as ◌<>◌}
use skip_zfp.Prelude.{
  ℕ, ◌+◌, ◌*◌, ◌/◌, ◌%◌, min, max, Bool, true, false, not, ◌||◌, Option, none, some, List, [], ◌∷◌,
  ◌++◌, map, flat_map, any, zip, drop, slice, length, get_or, last_or, ◌==◌, if◌then◌else◌, prod,
  list_eq, Result, ok, err, ◌>>=◌, ◌>>◌, raise_if, sequence, value_error, is_empty,
}
use skip_zfp.Floats.{Floats}
use skip_zfp.Layout.{Array, Source, find_codec, chunk_coords}
use skip_zfp.Codec.Config.{Codec, unit, meta_size, to_dict}
use skip_zfp.Codec.Nibbles.{pack_codes}
use skip_zfp.Codec.MetaPack.{pack_meta, reshape}
use skip_zfp.Codec.Source.{chunk_crc32}
use skip_zfp.Codec.Units.{NdArray, items, take_slices, slices_at, unit_axes, block_rank}
use skip_zfp.Codec.Encode.{Zfp, encode, decode_shape}
use skip_zfp.Codec.Pack.{scatter}
use skip_zfp.Codec.ZoneMap.{Rounding, meta, paired}
use skip_zfp.Codec.ErrorCodes.{Ceiling, block_error_codes}
use skip_zfp.Query.Read.{Store, batched}

-- the array that zarr stores: the bytes of each object, and what the attributes of `arr` say
pub record ZoneMap : Type 0 where
  pub path : String
  pub shape : List ℕ
  pub chunks : List ℕ
  pub rows : List (List ℕ)
  pub compressed : Bool
  pub meta_t_chunk : ℕ
  pub meta_packing : Option String
  pub meta_source : Source

-- `data.shape != arr.shape or any(s % c for s, c in zip(arr.shape, chunk))`
abbrev pub bad_data : List ℕ → List ℕ → List ℕ → Bool
bad_data data_shape shape chunk =
    not (list_eq data_shape shape) || any (λ sc. not (sc.0 % sc.1 == 0)) (zip shape chunk)

-- META_OBJECT_BYTES, and the units along the first axis of an object of the zone map
abbrev pub meta_object_bytes : ℕ
meta_object_bytes = 2000000

abbrev pub step_of : Option ℕ → (grid : List ℕ) → (size : ℕ) → ℕ
step_of none grid size = max 1 (min 16 (meta_object_bytes / (prod (drop 1 grid) * size)))
step_of (some t_chunk) grid size = t_chunk

abbrev pub path_of : Option String → String → String
path_of none arr_path = arr_path <> "_meta"
path_of (some path) arr_path = if is_empty path then arr_path <> "_meta" else path

-- `x[rank] = xs`, of rows
abbrev pub place : List ℕ → List (List ℕ) → List (List ℕ)
place rank xs = scatter xs rank xs

-- `F` the floats with the roundings of the zone map, `z` libzfp, `blank` what is read out of range
module _ (F : Floats) (R : Rounding F) (C : Ceiling F) (z : Zfp F) (blank : F.Single) where
  -- the error codes of a unit, in storage order and two to a byte
  unfoldable pub write_codes :
      Codec → (u rank : List ℕ) → NdArray F.Single → (record_bytes : List ℕ) → Result (List ℕ)
  unfolding encode decode_shape block_error_codes pack_codes scatter items
  write_codes c (nx ∷ ny ∷ nz ∷ []) rank x record_bytes = do
    bytes ← encode F z x c.rate c.block_dim
    rec ← decode_shape F z (nx ∷ ny ∷ nz ∷ []) bytes c.rate c.block_dim
    q ←
        block_error_codes F C (paired F R z blank nx ny nz (items x) rec)
          (F.widen (F.read_single (slice record_bytes 8 12)))
    ok (pack_codes (flat_map (λ r. r) (place rank (map (λ k. k ∷ []) q))))
  write_codes c u rank x record_bytes =
      err (value_error "SkipZFP currently only supports 3D chunks")

  -- `one(idx)` inside write_meta
  unfoldable pub write_record :
      Codec → (u rank : List ℕ) → NdArray F.Single → (idx : List ℕ) → Result (List ℕ)
  unfolding meta write_codes take_slices scatter reshape
  write_record c u rank values idx = do
    let x = take_slices values (slices_at u idx)
    per ← sequence (map (λ r. meta F R z blank x r c.block_dim) c.layers)
    let last = last_or [] per
    let offs = reshape (length (drop 12 last) / 2) 2 (drop 12 last)
    codes ← (if c.block_error_bits == 0 then ok [] else write_codes c u rank x last)
    ok (
        slice last 0 8
        ++ flat_map (λ m. slice m 8 12) per
        ++ flat_map (λ r. r) (place rank offs)
        ++ codes)

  -- the objects' rows: rearranged one object at a time when they are compressed
  unfoldable pub packed_rows :
      (compress : Bool) → (lead blocks step size : ℕ) → List (List ℕ) → List (List ℕ)
  unfolding batched pack_meta reshape
  packed_rows false lead blocks step size rec = rec
  packed_rows true lead blocks step size rec =
      flat_map (λ part. reshape (length part) size (pack_meta part lead blocks)) (batched rec step)

  module _ (crc32 : List ℕ → ℕ) (store : Store) where
    unfoldable pub write_meta :
        Array
        → NdArray F.Single
        → (path : Option String) → (t_chunk : Option ℕ) → (compress : Bool) → Result ZoneMap
    unfolding find_codec unit meta_size block_rank chunk_coords write_record packed_rows chunk_crc32
        to_dict
    write_meta arr values path t_chunk compress = do
      c ← find_codec arr
      raise_if (bad_data values.shape arr.shape arr.chunk_shape)
          (value_error "data must match the array shape and divide into whole chunks")
      raise_if (is_empty arr.path)
          (value_error "the array must live inside a group so metadata can sit next to it")
      let u = unit c arr.chunk_shape
      let grid = unit_axes arr.shape u
      let size = meta_size c u
      let rank = block_rank u c.block_order c.block_dim
      let step = min (step_of t_chunk grid size) (get_or grid 0 0)
      rec ← sequence (map (write_record c u rank values) (chunk_coords grid))
      ok (record {
        path = path_of path arr.path;
        shape = grid ++ (size ∷ []);
        chunks = step ∷ drop 1 grid ++ (size ∷ []);
        rows =
            packed_rows compress (8 + 4 * length c.layers) (length rank) (step * prod (drop 1 grid))
              size rec;
        compressed = compress;
        meta_t_chunk = step;
        meta_packing = if compress then some "planar-zstd" else none;
        meta_source = record {
          codec = to_dict c;
          shape = arr.shape;
          chunks = arr.chunk_shape;
          chunk_crc32 = chunk_crc32 crc32 store arr;
        };
      })
