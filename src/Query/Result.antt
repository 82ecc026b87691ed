-- ===== src/Query/Result.antt =====
-- skipzfp/query.py: QueryResult, and what a step adds to it.
use skip_zfp.Prelude.{
  ℕ, ◌+◌, ◌-◌, ◌*◌, ◌%◌, ◌^◌, List, map, leb, if◌then◌else◌, length, get_or, sum, ℤ, pos, negsuc,
}
use skip_zfp.Layout.{Layout}
use skip_zfp.Query.Merge.{BlockId, Ids}
use skip_zfp.Query.Plan.{Grid}

-- `a - b` of two counts
abbrev pub int_sub : ℕ → ℕ → ℤ
int_sub a b = if leb b a then pos (a - b) else negsuc (b - a - 1)

-- `QueryResult`
pub record QueryResult : Type 0 where
  pub count : ℕ
  pub in_blocks : ℕ
  pub out_blocks : ℕ
  pub maybe_blocks : ℕ
  pub total_blocks : ℕ
  pub metadata_bytes_read : ℕ
  pub payload_bytes_read : ℕ
  pub metadata_requests : ℕ
  pub payload_requests : ℕ
  pub useful_payload_bytes : ℕ
  pub payload_overread_bytes : ℤ

-- the properties bytes_read and range_requests
unfoldable pub bytes_read : QueryResult → ℕ
bytes_read r = r.metadata_bytes_read + r.payload_bytes_read

unfoldable pub range_requests : QueryResult → ℕ
range_requests r = r.metadata_requests + r.payload_requests

-- the arguments of plan_chunks that say how the units lie
abbrev pub grid_of : List ℕ → List ℕ → ℕ → Grid
grid_of units subs blocks_per_unit = record {
  ux = get_or units 0 0;
  uy = get_or units 1 0;
  uz = get_or units 2 0;
  sx = get_or subs 0 0;
  sy = get_or subs 1 0;
  sz = get_or subs 2 0;
  blocks_per_unit = blocks_per_unit;
}

-- the bytes of a record with one error bound
abbrev pub single_size : Layout → ℕ
single_size lt = lt.meta_size - 4 * (length lt.layers - 1)

-- what one object of the zone map adds to the answer, and `parts[:, :6].sum(axis=0)`
pub record Tally : Type 0 where
  pub n_in : ℕ
  pub n_out : ℕ
  pub n_maybe : ℕ
  pub n_maybe_val : ℕ
  pub payload_bytes : ℕ
  pub n_reqs : ℕ

unfoldable pub total_of : List Tally → Tally
total_of ts = record {
  n_in = sum (map (λ t. t.n_in) ts);
  n_out = sum (map (λ t. t.n_out) ts);
  n_maybe = sum (map (λ t. t.n_maybe) ts);
  n_maybe_val = sum (map (λ t. t.n_maybe_val) ts);
  payload_bytes = sum (map (λ t. t.payload_bytes) ts);
  n_reqs = sum (map (λ t. t.n_reqs) ts);
}

-- `QueryResult(...)`, from what was counted and what the zone map cost
unfoldable pub result_of :
    Layout → (n_keys useful meta_bytes meta_requests : ℕ) → Tally → QueryResult
result_of lt n_keys useful meta_bytes meta_requests t = record {
  count = t.n_in * lt.values_per_block + t.n_maybe_val;
  in_blocks = t.n_in;
  out_blocks = t.n_out;
  maybe_blocks = t.n_maybe;
  total_blocks = n_keys * lt.blocks_per_chunk;
  metadata_bytes_read = meta_bytes;
  payload_bytes_read = t.payload_bytes;
  metadata_requests = meta_requests;
  payload_requests = t.n_reqs;
  useful_payload_bytes = useful;
  payload_overread_bytes = int_sub t.payload_bytes useful;
}

-- `chunk_ids += u0 // subs[0] * chunks_per_step`, in uint32
abbrev pub shift_ids : ℕ → Ids → Ids
shift_ids k ids = map (λ x. let p : BlockId = ((x.0 + k) % 2 ^ 32, x.1) in p) ids
