-- ===== src/Codec/Units.antt =====
-- skipzfp/codec.py: unit_slices and block_rank, over NumPy's arrays of any number of axes.
pub mod Ravel
pub mod Members
use skip_zfp.Prelude.{
  ℕ, ◌+◌, ◌-◌, ◌*◌, ◌/◌, Bool, true, ◌&&◌, List, [], ◌∷◌, map, zip, ltb, leb, if◌then◌else◌, get_or,
  prod,
}
use skip_zfp.Layout.{zip_with, blocks_axis, chunk_coords}

-- an ndarray: its shape, and its items by their coordinates, which are read within the shape only
pub record NdArray {ℓ} (A : Type ℓ) : Type ℓ where
  pub shape : List ℕ
  pub at : List ℕ → A

-- `np.ravel_multi_index(coord, shape)`: the place of a coordinate in C order
unfoldable pub ravel : List ℕ → List ℕ → ℕ
ravel (n ∷ ns) (i ∷ is) = i * prod ns + ravel ns is
ravel _ _ = 0

-- a tuple of slices, as the starts and stops
abbrev pub Slices : Type 0
Slices = List (ℕ × ℕ)

-- the coordinate is selected
abbrev pub inside : Slices → List ℕ → Bool
inside ((a, b) ∷ sl) (i ∷ is) = leb a i && ltb i b && inside sl is
inside _ _ = true

abbrev pub starts : Slices → List ℕ
starts sl = map (λ ab. ab.0) sl

module _ {ℓ} {A : Type ℓ} where
  -- the items in C order, as np.ascontiguousarray lays them out
  unfoldable pub items : NdArray A → List A
  unfolding chunk_coords
  items a = map a.at (chunk_coords a.shape)

  -- the array of `shape` over items in C order
  unfoldable pub of_items : A → List ℕ → List A → NdArray A
  unfolding ravel
  of_items blank shape xs = record { shape = shape; at = λ c. get_or xs (ravel shape c) blank }

  -- `arr[sl]`, whose slices lie within the array
  unfoldable pub take_slices : NdArray A → Slices → NdArray A
  take_slices a sl = record {
    shape = map (λ ab. ab.1 - ab.0) sl;
    at = λ c. a.at (zip_with ◌+◌ (starts sl) c);
  }

  -- `out[sl] = v`
  unfoldable pub put_slices : NdArray A → Slices → NdArray A → NdArray A
  put_slices a sl v = record {
    shape = a.shape;
    at = λ c. if inside sl c then v.at (zip_with ◌-◌ c (starts sl)) else a.at c;
  }

-- `grid` of unit_slices, and the slices of the unit with index `idx`
abbrev pub unit_axes : List ℕ → List ℕ → List ℕ
unit_axes shape unit = zip_with ◌/◌ shape unit

abbrev pub slices_at : List ℕ → List ℕ → Slices
slices_at unit idx =
    map (λ iu. let ab : ℕ × ℕ = (iu.0 * iu.1, (iu.0 + 1) * iu.1) in ab) (zip idx unit)

-- unit_slices; `np.ndindex(*grid)` goes through the indices in C order
unfoldable pub unit_slices : List ℕ → List ℕ → List Slices
unfolding chunk_coords
unit_slices shape unit = map (slices_at unit) (chunk_coords (unit_axes shape unit))

-- `tuple(xs[a] for a in order)`
abbrev pub select : List ℕ → List ℕ → List ℕ
select order xs = map (λ a. get_or xs a 0) order

-- block_rank: where block_order puts each block, in C order of the blocks
unfoldable pub block_rank : List ℕ → List ℕ → ℕ → List ℕ
unfolding ravel chunk_coords
block_rank shape order block_dim =
    let blocks = blocks_axis block_dim shape in
    map (λ c. ravel (select order blocks) (select order c)) (chunk_coords blocks)
