-- ===== src/Query/Meta.antt =====
-- skipzfp/query.py: where the objects of the zone map are and how they are read (meta_objects to
-- plan_meta). `zstd` is numcodecs' decoder and `open_zarr` zarr's open_array with the whole item.
pub mod Layer
use Prim.Native.String.{String, ◌++◌ as ◌<>◌}
use text.Mathlib.Text.{◌==◌ as str_eq}
use skip_zfp.Prelude.{
  ℕ, zero, suc, ◌+◌, ◌-◌, ◌*◌, ◌/◌, Bool, true, false, not, Option, none, some, List, [], ◌∷◌, ◌++◌,
  map, list_eq, ◌==◌, if◌then◌else◌, length, get_or, take, drop, slice, flat_map, sum, prod, range,
  min, Result, ok, err, ◌>>=◌, ◌>>◌, raise_if, sequence, value_error, file_not_found, zero_division,
  is_empty, strip, decimal,
}
use skip_zfp.Layout.{Array, Layout, ceildiv, zip_with}
use skip_zfp.Codec.Source.{check_source}
use skip_zfp.Codec.MetaPack.{reshape, unpack_meta}
use skip_zfp.Query.Read.{Store}

-- `_MetaObjects`
pub record MetaObjects : Type 0 where
  pub prefix : String
  pub t_chunk : ℕ
  pub rows : ℕ
  pub count : ℕ
  pub packed : Bool
  pub units : ℕ

abbrev pub object_size : MetaObjects → ℕ
object_size mo = mo.t_chunk * mo.rows

unfoldable pub meta_packed : Array → Result Bool
meta_packed arr = elim arr.meta_packing [
  | none ↦ ok false
  | some packing ↦
      if str_eq packing "planar-zstd" then ok true else err (value_error "unknown zone map packing")
]

-- the units along the first axis, and the bytes of the records of one of them
abbrev pub first_units : Layout → ℕ
first_units lt = get_or lt.unit_grid 0 0

abbrev pub unit_rows : Layout → ℕ
unit_rows lt = prod (drop 1 lt.unit_grid) * lt.meta_size

-- the path of the zone map, `not path` for a missing one and for an empty one
unfoldable pub zone_map_path : Array → Result String
zone_map_path arr = elim arr.meta_path [
  | none ↦ err (value_error "array has no metadata; run codec.write_meta first")
  | some path ↦
      if is_empty path
      then err (value_error "array has no metadata; run codec.write_meta first")
      else ok path
]

unfoldable pub check_recorded : Array → Result (Unit {0})
unfolding check_source
check_recorded arr = elim arr.meta_source [ none ↦ ok tt | some source ↦ check_source arr source ]

unfoldable pub meta_objects : Array → Layout → Result (Option MetaObjects)
unfolding zone_map_path check_recorded meta_packed ceildiv strip
meta_objects arr lt = do
  path ← zone_map_path arr
  check_recorded arr
  elim arr.meta_t_chunk [
    | none ↦ ok none
    | some t_chunk ↦ do
      raise_if (t_chunk == 0) (zero_division "integer division or modulo by zero")
      packed ← meta_packed arr
      ok (
          some (record {
            prefix = strip path;
            t_chunk = t_chunk;
            rows = unit_rows lt;
            count = ceildiv (first_units lt) t_chunk;
            packed = packed;
            units = first_units lt;
          }))
  ]

abbrev pub flatten : List (List ℕ) → List ℕ
flatten rows = flat_map (λ r. r) rows

-- unpack_records: the assignment to `out[:size]` fails unless the lengths agree
unfoldable pub unpack_records : List ℕ → Layout → (n_records : ℕ) → Result (List ℕ)
unfolding unpack_meta
unpack_records bytes lt n_records =
    let size = n_records * lt.meta_size in
    unpack_meta (take size bytes) lt.meta_size (8 + 4 * length lt.layers) lt.blocks_per_unit
    >>= (λ rows.
        let out = flatten rows in
        if length out == length (take size bytes)
        then ok (out ++ drop size bytes)
        else err (value_error "could not broadcast"))

module _ (store : Store) (zstd : List ℕ → Result (List ℕ)) where
  abbrev pub meta_key : MetaObjects → ℕ → String
  meta_key mo i = mo.prefix <> "/c/" <> decimal i <> "/0/0/0"

  -- the records of object `i`, the last one being padded
  abbrev pub n_records : MetaObjects → Layout → ℕ → ℕ
  n_records mo lt i = min mo.t_chunk (mo.units - i * mo.t_chunk) * mo.rows / lt.meta_size

  -- the object's bytes and its stored size, which the caller's `sizes` gets
  unfoldable pub read_meta_object : MetaObjects → Layout → ℕ → Result (List ℕ × ℕ)
  unfolding unpack_records decimal
  read_meta_object mo lt i = elim (store.get (meta_key mo i)) [
    | none ↦ err (file_not_found (meta_key mo i))
    | some buf ↦ do
      bytes ←
          (if mo.packed
            then zstd buf >>= (λ d. unpack_records d lt (n_records mo lt i))
            else ok buf)
      raise_if (not (length bytes == object_size mo))
          (value_error "metadata object does not match the array layout")
      ok (bytes, length buf)
  ]

  -- the objects of the zone map side by side, cut back to the grid
  unfoldable pub read_meta_by_key : MetaObjects → Layout → Result (List ℕ × ℕ × ℕ)
  unfolding read_meta_object
  read_meta_by_key mo lt = do
    parts ← sequence (map (read_meta_object mo lt) (range mo.count))
    ok (
      take (first_units lt * mo.rows) (flatten (map (λ p. p.0) parts)),
      sum (map (λ p. p.1) parts),
      mo.count,
    )

-- a zarr array that is the zone map
pub record ZarrMeta : Type 0 where
  pub shape : List ℕ
  pub chunks : List ℕ
  pub items : List ℕ
  pub nbytes_stored : ℕ

-- `for s in range(0, len(bytes), step)`: as many rounds as bytes are enough for a step above 0
unfoldable pub unpack_steps : ℕ → Layout → ℕ → List ℕ → Result (List ℕ)
unfolding unpack_records
unpack_steps zero lt step bytes = ok []
unpack_steps (suc fuel) lt step [] = ok []
unpack_steps (suc fuel) lt step (x ∷ bytes) =
    let part = take step (x ∷ bytes) in
    do
      first ← unpack_records part lt (length part / lt.meta_size)
      rest ← unpack_steps fuel lt step (drop step (x ∷ bytes))
      ok (first ++ rest)

module _ (open_zarr : String → Result ZarrMeta) where
  unfoldable pub read_meta_zarr : Array → Layout → String → Result (List ℕ × ℕ × ℕ)
  unfolding ceildiv meta_packed unpack_steps
  read_meta_zarr arr lt path = do
    meta ← open_zarr path
    raise_if (not (list_eq meta.shape (lt.unit_grid ++ (lt.meta_size ∷ []))))
        (value_error "metadata shape does not match the array layout")
    let bytes = meta.items
    let n_obj = prod (zip_with ceildiv meta.shape meta.chunks)
    packed ← meta_packed arr
    if packed
        then unpack_steps (length bytes) lt
            (get_or meta.chunks 0 0 * prod (drop 1 lt.unit_grid) * lt.meta_size) bytes
          >>= (λ out. ok (out, meta.nbytes_stored, n_obj))
        else ok (bytes, length bytes, n_obj)

  -- read_meta
  unfoldable pub read_meta :
      Store
      → (List ℕ → Result (List ℕ))
      → Array
      → Layout
      → (by_key : Bool) → Result (List ℕ × ℕ × ℕ)
  unfolding meta_objects zone_map_path read_meta_by_key read_meta_zarr
  read_meta store zstd arr lt by_key = do
    found ← meta_objects arr lt
    elim found [
      | none ↦ zone_map_path arr >>= (λ path. read_meta_zarr arr lt path)
      | some mo ↦
          if not by_key
          then zone_map_path arr >>= (λ path. read_meta_zarr arr lt path)
          else read_meta_by_key store zstd mo lt
    ]

-- one record with the error bound of one layer
abbrev pub keep_layer : ℕ → ℕ → List ℕ → List ℕ
keep_layer n_layer layer r =
    take 8 r ++ (slice r (8 + 4 * layer) (12 + 4 * layer) ++ drop (8 + 4 * n_layer) r)

unfoldable pub plan_meta : List ℕ → Layout → (layer : ℕ) → List ℕ
unfolding reshape
plan_meta meta lt layer =
    if length lt.layers == 1
    then meta
    else flat_map (keep_layer (length lt.layers) layer)
        (reshape (length meta / lt.meta_size) lt.meta_size meta)
