-- ===== src/Codec/ZoneMap.antt =====
-- skipzfp/csrc/core.c: szfp_meta, which computes the record of a unit at one rate, with the wrapper
-- _Native.meta of skipzfp/codec.py. The pointers are never NULL and memory is enough.
pub mod Bounds
pub mod Sound
pub mod Size
pub mod Header
use skip_zfp.Prelude.{
  ℕ, ◌+◌, ◌*◌, ◌/◌, ◌^◌, ◌≤◌, ◌≡◌, Bool, true, false, ◌&&◌, ◌||◌, List, [], ◌∷◌, ◌++◌, map,
  flat_map, ltb, leb, if◌then◌else◌, get_or, length, replicate, Result, ok, err, ◌>>=◌, value_error,
  ℤ, pos, negsuc,
}
use skip_zfp.Floats.{Floats}
use skip_zfp.Native.{Outcome, sz_ok, sz_err, sz_err_arg, sz_err_size, check}
use skip_zfp.Layout.{bad_shape, layout, chunk_coords}
use skip_zfp.Codec.Encode.{Zfp, payload_size, n_blocks}
use skip_zfp.Codec.Units.{NdArray, items}

-- What the zone map needs of floats beside Floats: FLT_MAX and its negative, `nextafterf(f, FLT_MAX)`,
-- `(int)floor(x)` and `(int)ceil(x)`, and the four bytes of a float in memory.
pub record Rounding (F : Floats) : Type 0 where
  pub flt_max : F.Single
  pub neg_flt_max : F.Single
  pub next_max : F.Single → F.Single
  pub floor : F.Double → ℤ
  pub ceil : F.Double → ℤ
  pub bytes_of : F.Single → List ℕ

-- IEEE 754: a finite number that is not kept by rounding lies below the float32 after the rounded one
-- when it is rounded down, FLT_MAX and its negative are
-- numbers, the first at least 0, and a float has four bytes.
pub record IsLawful (F : Floats) (R : Rounding F) : Type 0 where
  pub le-next_max :
      (x : F.Double)
      → F.lt (F.widen (F.narrow x)) x ≡ true
      → F.le x (F.widen R.flt_max) ≡ true
      → F.le x (F.widen (R.next_max (F.narrow x))) ≡ true
  pub flt_max-num : F.is_nan (F.widen R.flt_max) ≡ false
  pub neg_flt_max-num : F.is_nan (F.widen R.neg_flt_max) ≡ false
  pub zero-le : F.le (F.of_ℕ 0) (F.widen R.flt_max) ≡ true
  pub length-bytes_of : (f : F.Single) → length (R.bytes_of f) ≡ 4

-- to_u8 of csrc/util.c
unfoldable pub to_u8 : ℤ → ℕ
to_u8 (negsuc n) = 0
to_u8 (pos n) = if ltb 255 n then 255 else n

-- get_index3 of csrc/util.c
abbrev pub get_index3 : (x y z ny nz : ℕ) → ℕ
get_index3 x y z ny nz = x * ny * nz + y * nz + z

-- the index of a value, from the coordinates of its block and its own in the block
abbrev pub index_in : (ny nz : ℕ) → List ℕ → List ℕ → ℕ
index_in ny nz (bx ∷ by ∷ bz ∷ []) (dx ∷ dy ∷ dz ∷ []) =
    get_index3 (4 * bx + dx) (4 * by + dy) (4 * bz + dz) ny nz
index_in ny nz _ _ = 0

-- the three inner loops, and the three outer ones
abbrev pub cube : List (List ℕ)
cube = chunk_coords (4 ∷ 4 ∷ 4 ∷ [])

unfoldable pub block_indices : (nx ny nz : ℕ) → List (List ℕ)
unfolding chunk_coords
block_indices nx ny nz =
    map (λ b. map (index_in ny nz b) cube) (chunk_coords (nx / 4 ∷ ny / 4 ∷ nz / 4 ∷ []))

-- the smallest and the largest value, of a block or of the unit
pub record Extent (F : Floats) : Type 0 where
  pub low : F.Single
  pub high : F.Single

-- block_mins and block_maxs, cmin and cmax, and max_err
pub record Scanned (F : Floats) : Type 0 where
  pub blocks : List (Extent F)
  pub whole : Extent F
  pub max_err : F.Double

module _ (F : Floats) where
  -- `if (low < acc) acc = low; if (high > acc) acc = high`
  abbrev pub widen_to : Extent F → Extent F → Extent F
  widen_to acc e = record {
    low = if F.lt (F.widen e.low) (F.widen acc.low) then e.low else acc.low;
    high = if F.lt (F.widen acc.high) (F.widen e.high) then e.high else acc.high;
  }

  -- `if (err > max_err) max_err = err`
  abbrev pub larger_err : F.Double → F.Double → F.Double
  larger_err acc e = if F.lt acc e then e else acc

  abbrev pub error_of : F.Single → F.Single → F.Double
  error_of v d = F.abs (F.sub (F.widen v) (F.widen d))

  unfoldable pub block_extent : List F.Single → Extent F → Extent F
  block_extent [] acc = acc
  block_extent (v ∷ vs) acc = block_extent vs (widen_to acc (record { low = v; high = v }))

  unfoldable pub block_max_error : List (F.Single × F.Single) → F.Double → F.Double
  block_max_error [] acc = acc
  block_max_error ((v, d) ∷ vs) acc = block_max_error vs (larger_err acc (error_of v d))

module _ (F : Floats) (R : Rounding F) where
  -- bmin and bmax, cmin and cmax before the loops
  abbrev pub no_values : Extent F
  no_values = record { low = R.flt_max; high = R.neg_flt_max }

  -- the loops over the blocks, from the values of each with the decoded ones
  unfoldable pub scan_blocks : List (List (F.Single × F.Single)) → Scanned F → Scanned F
  unfolding block_extent block_max_error
  scan_blocks [] acc = acc
  scan_blocks (b ∷ bs) acc =
      let e = block_extent F (map (λ p. p.0) b) no_values in
      scan_blocks bs (record {
        blocks = acc.blocks ++ (e ∷ []);
        whole = widen_to F acc.whole e;
        max_err = block_max_error F b acc.max_err;
      })

  abbrev pub start_scan : Scanned F
  start_scan = record { blocks = []; whole = no_values; max_err = F.of_ℕ 0 }

  -- eps: the largest error as a float32, rounded up
  unfoldable pub eps_of : F.Double → F.Single
  eps_of max_err = let e = F.narrow max_err in if F.lt (F.widen e) max_err then R.next_max e else e

  -- a block's two offsets
  unfoldable pub offsets : Extent F → Extent F → List ℕ
  unfolding to_u8
  offsets unit b =
      let span = F.sub (F.widen unit.high) (F.widen unit.low) in
      let scale = F.div (F.of_ℕ 255) span in
      to_u8 (R.floor (F.mul (F.sub (F.widen b.low) (F.widen unit.low)) scale))
      ∷ to_u8 (R.ceil (F.mul (F.sub (F.widen b.high) (F.widen unit.low)) scale))
      ∷ []

  -- `cmax == cmin`
  abbrev pub same_bounds : Extent F → Bool
  same_bounds e = F.le (F.widen e.high) (F.widen e.low) && F.le (F.widen e.low) (F.widen e.high)

  -- the bytes of the record
  unfoldable pub record_of : Scanned F → List ℕ
  unfolding eps_of offsets
  record_of s =
      R.bytes_of s.whole.low
      ++ R.bytes_of s.whole.high
      ++ R.bytes_of (eps_of s.max_err)
      ++ (if same_bounds s.whole
          then replicate (length s.blocks * 2) 0
          else flat_map (offsets s.whole) s.blocks)

module _ (F : Floats) (R : Rounding F) (z : Zfp F) (blank : F.Single) where
  -- the values of each block beside the decoded ones; `blank` is what would be read out of range
  abbrev pub paired : (nx ny nz : ℕ) (chunk dec : List F.Single) → List (List (F.Single × F.Single))
  paired nx ny nz chunk dec =
      map
        (λ b.
          map (λ i. let p : F.Single × F.Single = (get_or chunk i blank, get_or dec i blank) in p)
            b)
        (block_indices nx ny nz)

  -- compress_chunk, and decode_chunk on what it wrote
  abbrev pub round_trip : (nx ny nz rate : ℕ) → List F.Single → Outcome (List F.Single)
  round_trip nx ny nz rate chunk =
      and_then (z.compress (nx ∷ ny ∷ nz ∷ []) rate chunk (payload_size nx ny nz rate))
    where
      and_then : Outcome (List ℕ) → Outcome (List F.Single)
      and_then (sz_ok bytes) = z.decompress (nx ∷ ny ∷ nz ∷ []) rate bytes
      and_then (sz_err code) = sz_err code

  abbrev pub with_decoded :
      (nx ny nz : ℕ) → List F.Single → Outcome (List F.Single) → Outcome (List ℕ)
  with_decoded nx ny nz chunk (sz_ok dec) =
      sz_ok (record_of F R (scan_blocks F R (paired nx ny nz chunk dec) (start_scan F R)))
  with_decoded nx ny nz chunk (sz_err code) = sz_err code

  unfoldable pub szfp_meta :
      List F.Single → (nx ny nz rate block_dim capacity : ℕ) → Outcome (List ℕ)
  unfolding bad_shape record_of scan_blocks block_indices
  szfp_meta chunk nx ny nz rate block_dim capacity =
      let nblk = n_blocks nx ny nz block_dim in
      if bad_shape nx ny nz rate block_dim
      then sz_err sz_err_arg
      else if ltb capacity (12 + 2 * nblk) || leb (2 ^ 64) (nblk * 4)
      then sz_err sz_err_size
      else with_decoded nx ny nz chunk (round_trip nx ny nz rate chunk)

  -- `_Native.meta`; its callers have made sure of three axes
  unfoldable pub meta_shape : List ℕ → List F.Single → (rate block_dim : ℕ) → Result (List ℕ)
  unfolding layout szfp_meta
  meta_shape (nx ∷ ny ∷ nz ∷ []) chunk rate block_dim = do
    sizes ← layout (nx ∷ ny ∷ nz ∷ []) rate block_dim
    check "szfp_meta" (szfp_meta chunk nx ny nz rate block_dim sizes.1)
  meta_shape _ chunk rate block_dim = err (value_error "SkipZFP currently only supports 3D chunks")

  unfoldable pub meta : NdArray F.Single → (rate block_dim : ℕ) → Result (List ℕ)
  unfolding meta_shape items
  meta arr rate block_dim = meta_shape arr.shape (items arr) rate block_dim
