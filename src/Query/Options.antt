-- ===== src/Query/Options.antt =====
-- skipzfp/query.py: QueryOptions, the checks of its `__post_init__` and the choice of the layer and
-- of the batch size in _query_async.
use skip_zfp.Prelude.{
  ℕ, ◌-◌, ◌*◌, Bool, true, false, not, Option, none, some, ltb, ◌==◌, if◌then◌else◌, Result, ok,
  err, ◌>>◌, raise_if, value_error, ℤ, pos, negsuc, is_negative, is_nonpositive, pos_part,
}

pub record QueryOptions : Type 0 where
  pub threads : ℤ
  pub request_concurrency : ℤ
  pub request_batch_size : Option ℤ
  pub merge_gap_blocks : ℤ
  pub layer : Option ℤ
  pub max_chunk_requests : ℤ
  pub pipeline : Bool
  pub zero_copy : Bool
  pub max_inflight_bytes : Option ℤ
  pub meta_by_key : Bool
  pub trace : Bool

-- `QueryOptions()`
abbrev pub default_options : QueryOptions
default_options = record {
  threads = pos 0;
  request_concurrency = pos 32;
  request_batch_size = none;
  merge_gap_blocks = pos 0;
  layer = none;
  max_chunk_requests = pos 1;
  pipeline = true;
  zero_copy = true;
  max_inflight_bytes = none;
  meta_by_key = true;
  trace = false;
}

-- `x == 0`
abbrev pub is_zero : ℤ → Bool
is_zero (pos n) = n == 0
is_zero (negsuc n) = false

-- `x is not None and x <= 0`
abbrev pub some_nonpositive : Option ℤ → Bool
some_nonpositive none = false
some_nonpositive (some x) = is_nonpositive x

-- `__post_init__`
unfoldable pub check_options : QueryOptions → Result (Unit {0})
check_options o = do
  raise_if (is_negative o.threads) (value_error "threads must be non-negative")
  raise_if (is_nonpositive o.request_concurrency)
      (value_error "request_concurrency must be greater than 0")
  raise_if (some_nonpositive o.request_batch_size)
      (value_error "request_batch_size must be greater than 0")
  raise_if (is_negative o.merge_gap_blocks) (value_error "merge_gap_blocks must be non-negative")
  raise_if (is_nonpositive o.max_chunk_requests)
      (value_error "max_chunk_requests must be greater than 0")
  raise_if (some_nonpositive o.max_inflight_bytes)
      (value_error "max_inflight_bytes must be greater than 0")

-- `opts.request_batch_size or 4 * opts.request_concurrency`; what is below 0 is 0 here, and
-- read_ranges refuses both
unfoldable pub or_batch : Option ℤ → ℕ → ℕ
or_batch none default = default
or_batch (some n) default = if is_zero n then default else pos_part n

unfoldable pub batch_size : QueryOptions → ℕ
unfolding or_batch
batch_size o = or_batch o.request_batch_size (4 * pos_part o.request_concurrency)

-- the layer that a query reads, of `n` layers
unfoldable pub pick_layer : Option ℤ → ℕ → Result ℕ
pick_layer none n = do raise_if (not (ltb 0 n)) (value_error "layer out of range"); ok (n - 1)
pick_layer (some (pos l)) n = do raise_if (not (ltb l n)) (value_error "layer out of range"); ok l
pick_layer (some (negsuc l)) n = err (value_error "layer out of range")
