-- ===== src/Lib.antt =====
-- SkipZFP keeps a compressed 3D array with a zone map and counts the values in a range by reading
-- only the blocks that the zone map cannot decide. This library models the query engine and the parts
-- of the codec that it stands on, and proves that a query counts what decoding every block would.
--
-- The program's parts, and the files that model them:
--   * skipzfp/_native.py, the result codes of the C library: Native. A C function that fills its outputs
--     is a function into `Outcome`, and its Python wrapper one into `Result`.
--   * skipzfp/codec.py, the codec's configuration (__post_init__, from_dict, to_dict, layer_bytes,
--     meta_size, validate, chunk_shape): Codec/Config. Error codes packed two to a byte: Codec/Nibbles.
--     The arrays of a chunk and its units: Codec/Units. encode and decode over libzfp's coder:
--     Codec/Encode. pack, unpack and compute_encoded_size: Codec/Pack.
--     The record of a unit (szfp_meta of csrc/core.c): Codec/ZoneMap. block_error_codes:
--     Codec/ErrorCodes. write_meta: Codec/WriteMeta, whose records meet plan_meta of query.py in
--     Codec/WriteMeta/Kept. pack_meta and unpack_meta: Codec/MetaPack. check_source, chunk_crc32,
--     check_meta: Codec/Source.
--   * skipzfp/query.py: get_layout and the chunk keys (Layout, Layout/Sizes), QueryOptions
--     (Query/Options), the zone map's objects (Query/Meta), range_bounds (Query/Bounds), merge_ranges (Query/Merge), read_one and
--     read_ranges (Query/Read), ByteBudget (Query/Budget), stream_count (Query/Stream), the reads of
--     layers above 0 (Query/Layers), QueryResult (Query/Result), _query_async and _query_pipelined
--     (Query/Run), and the functions for users (Query/Run, Query/Api).
--   * skipzfp/aggregate.py: stream_aggregate and _read_listed (Aggregate/Stream), combine
--     (Aggregate/Combine), _aggregate_async, _aggregate_pipelined and the functions for users
--     (Aggregate/Run), with aggregate_block and szfp_aggregate_offsets_range of csrc/query.c
--     (Aggregate/Kernel).
--   * skipzfp/csrc/query.c: classify_unit (Query/Classify), plan_blocks (Query/Plan), szfp_merge_ranges
--     (Query/Merge), the counting functions (Query/Count).
--
-- A query takes the layout from the array, reads the zone map, has the planner classify every block as
-- IN, OUT or MAYBE and list the MAYBE ones, merges these into byte ranges, reads the ranges and counts
-- the values of their blocks. A layer 0 query may do so one zone map object at a time. Query/Run/Step,
-- Exact, Whole and Bounds put the lemmas of the parts together.
--
-- An aggregate has the planner list the IN blocks too, with the error bound of each, and sums up the
-- values of all listed blocks (Aggregate/Run/Planned, Parts and Exact). Aggregate/Run/Original, Encloses
-- and Whole follow the original values, which stand beside the decoded ones, through the same steps.
--
-- How the code is modelled:
--   * A Python exception is an `err` of its class. A coroutine is the function of its result: `gather`
--     over reads is a list in order, since reads do not change the store. When several reads fail,
--     Python raises the first error in time: read_ranges takes it from the order in which the reads
--     finish, which the store gives, and the other groups of tasks raise the error first in the list,
--     so that of these the theorems say only what is returned. What else depends on the order of
--     coroutines, the budget of bytes, is a step relation (Query/Budget).
--   * Floats are an interface (Floats): the order, rounding to float32 and the neighbours are assumed
--     to be those of IEEE 754 (Floats.IsLawful), and arithmetic has no assumption. Tests/Toy is an
--     instance.
--   * A rate, in bits per value, is a number of 64ths of a bit.
--   * The planner's two threads-parallel passes are functions of a chunk; sizes in size_t and ids in
--     uint32 keep their wrap-around where it can be met.
--   * Fuel: `batched_rounds` and `unpack_steps` take one round for each item, and each round takes at
--     least one; `decimal_fuel` takes one for each unit of the number, which has no more digits.
--
-- Parameters, with what is assumed of them: the store (zarr; Query.Read.IsLawful says that a range read
-- is a part of the object), the decoder of a block (libzfp, from its bytes at a rate), libzfp's coder
-- of an array (Codec.Encode.IsLawful says that it fills the buffer), whether the machine has AVX-512,
-- the Zstd decoder (numcodecs), zlib's crc32, and zarr's open_array.
--
-- Not modelled: the bits of ZFP blocks (csrc/codec.c, csrc/fastdec.c), times, traces and
-- peak_inflight_bytes of a result, and the experiments. The bounds of an aggregate on the sum and the mean of the original values are
-- modelled, and nothing is proved of their rounding.
pub mod Prelude
pub mod Floats
pub mod Native
pub mod Query
pub mod Codec
pub mod Layout
pub mod Aggregate
pub mod Tests
