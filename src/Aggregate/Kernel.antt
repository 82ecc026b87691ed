-- ===== src/Aggregate/Kernel.antt =====
-- skipzfp/csrc/query.c: aggregate_block and szfp_aggregate_offsets_range, with the wrapper
-- _Native.aggregate_offsets of skipzfp/query.py. The pointers are never NULL.
pub mod Original
use skip_zfp.Prelude.{
  ℕ, ◌+◌, ◌-◌, ◌^◌, Bool, not, ◌&&◌, ◌||◌, List, [], ◌∷◌, ltb, ◌==◌, if◌then◌else◌, length, slice,
  map, Result,
}
use skip_zfp.Floats.{Floats}
use skip_zfp.Native.{Outcome, sz_ok, sz_err, sz_err_arg, sz_err_size, check}
use skip_zfp.Query.Count.{in_range, block_nbytes, bad_layout}

-- The operations on floats that aggregates need beside those of Floats: `math.nextafter` downward and
-- upward, `math.fsum`, and isfinite of a float32.
pub record Sums (F : Floats) : Type 0 where
  pub down : F.Double → F.Double
  pub up : F.Double → F.Double
  pub fsum : List F.Double → F.Double
  pub is_finite : F.Single → Bool

-- `SzAggregate` of csrc/query.h, `_Aggregate` of query.py
pub record Aggregate (F : Floats) : Type 0 where
  pub rec_count : ℕ
  pub rec_sum : F.Double
  pub sure_count : ℕ
  pub sure_sum_lo : F.Double
  pub sure_sum_hi : F.Double
  pub maybe_count : ℕ
  pub maybe_sum_neg : F.Double
  pub maybe_sum_pos : F.Double
  pub maybe_min : F.Double
  pub maybe_max : F.Double
  pub abs_total : F.Double

-- a listed block with its error bound and whether it is IN
pub record Listed (F : Floats) : Type 0 where
  pub values : List F.Single
  pub eps : F.Single
  pub in_block : Bool

module _ (F : Floats) where
  -- what memset and the two assignments leave in `out`
  abbrev pub empty : Aggregate F
  empty = record {
    rec_count = 0;
    rec_sum = F.of_ℕ 0;
    sure_count = 0;
    sure_sum_lo = F.of_ℕ 0;
    sure_sum_hi = F.of_ℕ 0;
    maybe_count = 0;
    maybe_sum_neg = F.of_ℕ 0;
    maybe_sum_pos = F.of_ℕ 0;
    maybe_min = F.inf;
    maybe_max = F.neg_inf;
    abs_total = F.of_ℕ 0;
  }

  -- `a > lo ? a : lo` and `b < hi ? b : hi`
  abbrev pub larger : F.Double → F.Double → F.Double
  larger a lo = if F.lt lo a then a else lo

  abbrev pub smaller : F.Double → F.Double → F.Double
  smaller b hi = if F.lt b hi then b else hi

  -- the value is in the range: `in_block || in_range(v[i], lo, hi)`
  abbrev pub matches : Bool → F.Double → F.Double → F.Single → Bool
  matches in_block lo hi v = in_block || in_range F v lo hi

  -- the original value matches, and the original value may match
  abbrev pub is_sure : F.Double → Bool → F.Double → F.Double → F.Single → Bool
  is_sure eps in_block lo hi v =
      in_block || (F.lt lo (F.sub (F.widen v) eps) && F.le (F.add (F.widen v) eps) hi)

  abbrev pub is_possible : F.Double → F.Double → F.Double → F.Single → Bool
  is_possible eps lo hi v = not (F.le (F.add (F.widen v) eps) lo || F.lt hi (F.sub (F.widen v) eps))

  -- the first part of a round: the sums over decoded values
  abbrev pub add_decoded :
      F.Double → Bool → F.Double → F.Double → F.Single → Aggregate F → Aggregate F
  add_decoded eps in_block lo hi v acc =
      let total = F.add acc.abs_total (F.add (F.abs (F.widen v)) eps) in
      if matches in_block lo hi v
      then record acc {
        abs_total = total;
        rec_count = acc.rec_count + 1;
        rec_sum = F.add acc.rec_sum (F.widen v);
      }
      else record acc { abs_total = total }

  abbrev pub add_sure : F.Double → F.Double → F.Double → F.Single → Aggregate F → Aggregate F
  add_sure eps lo hi v acc = record acc {
    sure_count = acc.sure_count + 1;
    sure_sum_lo = F.add acc.sure_sum_lo (larger (F.sub (F.widen v) eps) lo);
    sure_sum_hi = F.add acc.sure_sum_hi (smaller (F.add (F.widen v) eps) hi);
  }

  abbrev pub add_possible : F.Double → F.Double → F.Double → F.Single → Aggregate F → Aggregate F
  add_possible eps lo hi v acc =
      let low = larger (F.sub (F.widen v) eps) lo in
      let high = smaller (F.add (F.widen v) eps) hi in
      let zero = F.of_ℕ 0 in
      record acc {
        maybe_count = acc.maybe_count + 1;
        maybe_sum_neg = F.add acc.maybe_sum_neg (if F.lt low zero then low else zero);
        maybe_sum_pos = F.add acc.maybe_sum_pos (if F.lt zero high then high else zero);
        maybe_min = if F.lt low acc.maybe_min then low else acc.maybe_min;
        maybe_max = if F.lt acc.maybe_max high then high else acc.maybe_max;
      }

  -- one round of aggregate_block
  unfoldable pub add_value :
      F.Double → Bool → F.Double → F.Double → Aggregate F → F.Single → Aggregate F
  unfolding in_range
  add_value eps in_block lo hi acc v =
      let next = add_decoded eps in_block lo hi v acc in
      if is_sure eps in_block lo hi v
      then add_sure eps lo hi v next
      else if is_possible eps lo hi v
      then add_possible eps lo hi v next
      else next

  unfoldable pub aggregate_block :
      List F.Single → F.Double → Bool → F.Double → F.Double → Aggregate F → Aggregate F
  unfolding add_value
  aggregate_block [] eps in_block lo hi acc = acc
  aggregate_block (v ∷ vs) eps in_block lo hi acc =
      aggregate_block vs eps in_block lo hi (add_value eps in_block lo hi acc v)

  -- the loop over decoded blocks
  unfoldable pub aggregate_blocks :
      F.Double → F.Double → List (Listed F) → Aggregate F → Aggregate F
  unfolding aggregate_block
  aggregate_blocks lo hi [] acc = acc
  aggregate_blocks lo hi (x ∷ xs) acc =
      aggregate_blocks lo hi xs (aggregate_block x.values (F.widen x.eps) x.in_block lo hi acc)

-- one entry of the arrays that the caller passes side by side: an offset, its error bound and flag
pub record Entry (F : Floats) : Type 0 where
  pub offset : ℕ
  pub eps : F.Single
  pub in_block : Bool

module _ (F : Floats) (S : Sums F) (decode : ℕ → List ℕ → List F.Single) where
  abbrev pub bad_entry : List ℕ → ℕ → Entry F → Bool
  bad_entry buf nbytes e = ltb (length buf) e.offset || ltb (length buf - e.offset) nbytes

  abbrev pub bad_eps : Entry F → Bool
  bad_eps e = not (F.le (F.of_ℕ 0) (F.widen e.eps)) || not (S.is_finite e.eps)

  -- the loop of the checks, which stops at the first entry that fails one
  unfoldable pub check_entries : List ℕ → ℕ → List (Entry F) → Outcome (Unit {0})
  check_entries buf nbytes [] = sz_ok tt
  check_entries buf nbytes (e ∷ es) =
      let rest = check_entries buf nbytes es in
      if bad_entry buf nbytes e
      then sz_err sz_err_size
      else if bad_eps e
      then sz_err sz_err_arg
      else rest

  unfoldable pub decode_entry : List ℕ → (nbytes rate : ℕ) → Entry F → Listed F
  decode_entry buf nbytes rate e = record {
    values = decode rate (slice buf e.offset (e.offset + nbytes));
    eps = e.eps;
    in_block = e.in_block;
  }

  abbrev pub after_check : Outcome (Unit {0}) → Outcome (Aggregate F) → Outcome (Aggregate F)
  after_check (sz_ok done) next = next
  after_check (sz_err code) next = sz_err code

  unfoldable pub szfp_aggregate_offsets_range :
      List ℕ
      → List (Entry F)
      → (nbytes rate block_dim : ℕ) (lo hi : F.Double) → Outcome (Aggregate F)
  unfolding check_entries decode_entry aggregate_blocks
  szfp_aggregate_offsets_range buf [] nbytes rate block_dim lo hi = sz_ok (empty F)
  szfp_aggregate_offsets_range buf (e ∷ es) nbytes rate block_dim lo hi =
      if bad_layout block_dim rate || ltb 64 (block_dim ^ 3) || not (block_dim == 4)
      then sz_err sz_err_arg
      else if not (nbytes == block_nbytes block_dim rate)
      then sz_err sz_err_size
      else after_check (check_entries buf nbytes (e ∷ es))
          (sz_ok (aggregate_blocks F lo hi (map (decode_entry buf nbytes rate) (e ∷ es)) (empty F)))

  -- `_Native.aggregate_offsets`
  unfoldable pub aggregate_offsets :
      List ℕ
      → List (Entry F)
      → (block_size rate block_dim : ℕ) (lo hi : F.Double) → Result (Aggregate F)
  unfolding szfp_aggregate_offsets_range
  aggregate_offsets buf entries block_size rate block_dim lo hi =
      check "szfp_aggregate_offsets_range"
        (szfp_aggregate_offsets_range buf entries block_size rate block_dim lo hi)
