-- ===== src/Query/Count.antt =====
-- The counting functions of skipzfp/csrc/query.c, and their wrappers _Native.count and
-- _Native.count_offsets of skipzfp/query.py. A rate is a number of 64ths of a bit per value.
use skip_zfp.Prelude.{
  ℕ, ◌+◌, ◌-◌, ◌*◌, ◌/◌, ◌^◌, Bool, not, ◌&&◌, ◌||◌, List, [], ◌∷◌, map, ltb, ◌==◌, if◌then◌else◌,
  length, slice, any, sum, range, Result, ok,
}
use skip_zfp.Floats.{Floats}
use skip_zfp.Native.{Outcome, sz_ok, sz_err, sz_err_arg, sz_err_size, check}

-- `F` the floats; `decode` libzfp's decoder, from the bytes of one block at a rate to its 64
-- values, which fastdec.c follows; `avx512` whether the machine has szfp_fast_count.
module _ (F : Floats) where
  -- in_range
  unfoldable pub in_range : F.Single → F.Double → F.Double → Bool
  in_range v lo hi = F.lt lo (F.widen v) && F.le (F.widen v) hi

  -- float_at_most
  unfoldable pub float_at_most : F.Double → F.Single
  float_at_most d = let f = F.narrow d in if F.lt d (F.widen f) then F.prev f else f

  -- a count of the values that pass a test
  abbrev pub count_if : (F.Single → Bool) → List F.Single → ℕ
  count_if p [] = 0
  count_if p (v ∷ vs) = (if p v then 1 else 0) + count_if p vs

  -- count_in_range; `hi == INFINITY` takes one comparison
  unfoldable pub count_in_range : List F.Single → F.Double → F.Double → ℕ
  unfolding in_range
  count_in_range vs lo hi =
      if F.le hi F.inf && F.le F.inf hi
      then count_if (λ v. F.lt lo (F.widen v)) vs
      else count_if (λ v. in_range v lo hi) vs

  -- szfp_fast_count: the same values, compared with bounds rounded down to float
  unfoldable pub fast_count : List F.Single → F.Double → F.Double → ℕ
  unfolding float_at_most
  fast_count vs lo hi =
      count_if
        (λ v.
          F.lt (F.widen (float_at_most lo)) (F.widen v)
          && F.le (F.widen v) (F.widen (float_at_most hi)))
        vs

-- the bytes of a block of `block_dim`^3 values: `(size_t)(b3 * rate / 8.0)`
abbrev pub block_nbytes : ℕ → ℕ → ℕ
block_nbytes block_dim rate = block_dim ^ 3 * rate / 512

-- block_layout fails
abbrev pub bad_layout : ℕ → ℕ → Bool
bad_layout block_dim rate = block_dim == 0 || rate == 0 || block_nbytes block_dim rate == 0

module _ (F : Floats) (decode : ℕ → List ℕ → List F.Single) (avx512 : Bool) where
  -- one block of szfp_count_offsets_range, from its bytes
  unfoldable pub count_block : ℕ → F.Double → F.Double → List ℕ → ℕ
  unfolding count_in_range fast_count
  count_block rate lo hi bytes =
      if avx512
      then fast_count F (decode rate bytes) lo hi
      else count_in_range F (decode rate bytes) lo hi

  -- the same at an offset in the buffer
  unfoldable pub count_at : List ℕ → ℕ → ℕ → F.Double → F.Double → ℕ → ℕ
  unfolding count_block
  count_at buf nbytes rate lo hi offset =
      count_block rate lo hi (slice buf offset (offset + nbytes))

  unfoldable pub szfp_count_offsets_range :
      List ℕ → List ℕ → (nbytes rate block_dim : ℕ) (lo hi : F.Double) → Outcome ℕ
  unfolding count_at
  szfp_count_offsets_range buf [] nbytes rate block_dim lo hi = sz_ok 0
  szfp_count_offsets_range buf (o ∷ os) nbytes rate block_dim lo hi =
      if bad_layout block_dim rate || ltb 64 (block_dim ^ 3)
      then sz_err sz_err_arg
      else if not (nbytes == block_nbytes block_dim rate)
      then sz_err sz_err_size
      else if not (block_dim == 4)
      then sz_err sz_err_arg
      else if any (λ p. ltb (length buf) p || ltb (length buf - p) nbytes) (o ∷ os)
      then sz_err sz_err_size
      else sz_ok (sum (map (count_at buf nbytes rate lo hi) (o ∷ os)))

  -- `_Native.count_offsets`
  unfoldable pub count_offsets :
      List ℕ → List ℕ → (block_size rate block_dim : ℕ) (lo hi : F.Double) → Result ℕ
  unfolding szfp_count_offsets_range
  count_offsets buf offsets block_size rate block_dim lo hi =
      check "szfp_count_offsets_range"
        (szfp_count_offsets_range buf offsets block_size rate block_dim lo hi)

  -- the loop of szfp_count_range_blocks over `n` packed blocks
  unfoldable pub szfp_count_range_blocks :
      List ℕ → ℕ → (nbytes rate block_dim : ℕ) (lo hi : F.Double) → Outcome ℕ
  unfolding count_in_range
  szfp_count_range_blocks blocks n nbytes rate block_dim lo hi =
      if n == 0
      then sz_ok 0
      else if bad_layout block_dim rate
      then sz_err sz_err_arg
      else if not (nbytes == block_nbytes block_dim rate)
      then sz_err sz_err_size
      else sz_ok (
          sum (
            map
              (λ i.
                count_in_range F (decode rate (slice blocks (i * nbytes) (i * nbytes + nbytes))) lo
                  hi)
              (range n)))

  -- `_Native.count`
  unfoldable pub count : List ℕ → ℕ → (block_size rate block_dim : ℕ) (lo hi : F.Double) → Result ℕ
  unfolding szfp_count_range_blocks
  count blocks n block_size rate block_dim lo hi =
      if n == 0
      then ok 0
      else check "szfp_count_range_blocks"
          (szfp_count_range_blocks blocks n block_size rate block_dim lo hi)
