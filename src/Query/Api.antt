-- ===== src/Query/Api.antt =====
-- skipzfp/query.py: open_skipzfp, _run and the functions for users that open the array themselves.
-- `open_array` is zarr's.
use Prim.Native.String.{String}
use skip_zfp.Prelude.{
  ℕ, Bool, true, false, not, Option, none, some, List, [], ◌∷◌, Result, ok, err, ◌>>=◌, ◌>>◌,
  raise_if, value_error, type_error, runtime_error, is_empty, Error,
}
use skip_zfp.Floats.{Floats}
use skip_zfp.Layout.{Array}
use skip_zfp.Query.Read.{Store}
use skip_zfp.Query.Meta.{ZarrMeta}
use skip_zfp.Query.Options.{QueryOptions}
use skip_zfp.Query.Bounds.{range_bounds}
use skip_zfp.Query.Result.{QueryResult}
use skip_zfp.Query.Run.{query_async}

-- `source`: an array that is open, or where zarr finds one
pub data QuerySource : Type 0 where
  opened : Array → QuerySource
  location : String → QuerySource

abbrev pub StorageOptions : Type 0
StorageOptions = List (String × String)

-- what zarr.open_array does: an array, something else, an ImportError or another exception
pub data Opening : Type 0 where
  an_array : Array → Opening
  something_else : Opening
  import_error : Opening
  raises : Error → Opening

abbrev pub is_nil {ℓ} : {A : Type ℓ} → List A → Bool
is_nil [] = true
is_nil (x ∷ xs) = false

-- `storage_options` is given and not empty, and as it is passed on
abbrev pub has_options : Option StorageOptions → Bool
has_options none = false
has_options (some o) = not (is_nil o)

abbrev pub kept_options : Option StorageOptions → StorageOptions
kept_options none = []
kept_options (some o) = o

abbrev pub to_array : Opening → Result Array
to_array (an_array arr) = ok arr
to_array something_else = err (type_error "source did not resolve to a Zarr array")
to_array import_error =
    err (runtime_error "cloud backend is not installed; install fsspec and the matching store")
to_array (raises e) = err e

module _ (open_array : String → String → StorageOptions → Opening) where
  unfoldable pub open_skipzfp :
      QuerySource → (array_path : String) → (storage_options : Option StorageOptions) → Result Array
  open_skipzfp (opened arr) array_path storage_options = do
    raise_if (not (is_empty array_path))
        (value_error "array_path cannot be used with an opened zarr.Array")
    raise_if (has_options storage_options)
        (value_error "storage_options cannot be used with an opened zarr.Array")
    ok arr
  open_skipzfp (location store) array_path storage_options =
      to_array (open_array store array_path (kept_options storage_options))

  -- the other parameters as in Query/Run; the store and the zone map belong to the array
  module _ (F : Floats) (decode : ℕ → List ℕ → List F.Single) (avx512 : Bool) (blank : ℕ)
      (store_of : Array → Store) (zstd : List ℕ → Result (List ℕ))
      (open_zarr : Array → String → Result ZarrMeta) where
    -- `_run`, on the bounds that range_bounds gave
    unfoldable pub run :
        QuerySource
        → (b : F.Double × F.Double) → String
        → Option StorageOptions
        → QueryOptions
        → Result QueryResult
    unfolding open_skipzfp query_async
    run source b array_path storage_options opts = do
      arr ← open_skipzfp source array_path storage_options
      query_async F decode avx512 blank (store_of arr) zstd (open_zarr arr) arr b.0 b.1 opts

    unfoldable pub query_gt :
        QuerySource
        → F.Double
        → (inclusive : Bool) → String
        → Option StorageOptions
        → QueryOptions
        → Result QueryResult
    unfolding range_bounds run
    query_gt source threshold inclusive array_path storage_options opts = do
      b ← range_bounds F (some threshold) none inclusive true
      run source b array_path storage_options opts

    unfoldable pub query_lt :
        QuerySource
        → F.Double
        → (inclusive : Bool) → String
        → Option StorageOptions
        → QueryOptions
        → Result QueryResult
    unfolding range_bounds run
    query_lt source threshold inclusive array_path storage_options opts = do
      b ← range_bounds F none (some threshold) false inclusive
      run source b array_path storage_options opts

    unfoldable pub query_range :
        QuerySource
        → (lo hi : Option F.Double) → (lo_inclusive hi_inclusive : Bool) → String
        → Option StorageOptions
        → QueryOptions
        → Result QueryResult
    unfolding range_bounds run
    query_range source (some lo) (some hi) li hi' array_path storage_options opts = do
      b ← range_bounds F (some lo) (some hi) li hi'
      run source b array_path storage_options opts
    query_range source _ _ li hi' array_path storage_options opts =
        err (type_error "query_range needs both bounds; use query_gt or query_lt for one side")
