-- ===== src/Tests/Codecs.antt =====
-- The theorems on the codec, at a configuration with three layers and at small zone map records.
use skip_zfp.Prelude.{
  ◌++◌, err, file_not_found, ◌+◌, some, map, pos, range_from, ◌↔◌, ℕ, ◌/◌, ◌*◌, ◌%◌, ◌^◌, ◌≡◌, refl,
  List, [], ◌∷◌, sum, get_or, ok, arith,
}
use skip_zfp.Codec.Config.{Codec, post_init, from_dict, to_dict, layer_bytes}
use skip_zfp.Codec.Config.Valid.{IsValid, post_init-IsValid, sum-layer_bytes, from_dict-to_dict}
use skip_zfp.Codec.Nibbles.{pack_codes, unpack_codes, unpack_codes-pack_codes, nibble_of_pack_codes}
use skip_zfp.Layout.{Array, Source, chunk_coords, layout_of, find_codec}
use skip_zfp.Layout.Sizes.{block_size_lem}
use skip_zfp.Query.Plan.{plain_size}
use skip_zfp.Query.Result.{single_size}
use skip_zfp.Query.Run.Records.{planned_grid, single_size_lem}
use skip_zfp.Codec.Source.{check_source, chunk_crc32, check_meta}
use skip_zfp.Codec.Source.Changed.{check_meta_iff}
use skip_zfp.Query.Merge.{Range}
use skip_zfp.Query.Read.{read_one, read_ranges}
use skip_zfp.Query.Read.Batches.{IsOutcome, read_ranges_lem}
use skip_zfp.Tests.Example.{array, codec, lt, store, get_layout_test}
use skip_zfp.Codec.MetaPack.{pack_meta, unpack_meta}
use skip_zfp.Codec.MetaPack.RoundTrip.{unpack_meta-pack_meta}

-- rates of 2, 4 and 8 bits per value
abbrev layered : Codec
layered = record {
  rate = 512;
  block_dim = 4;
  layers = 128 ∷ 256 ∷ 512 ∷ [];
  block_order = 2 ∷ 0 ∷ 1 ∷ [];
  sub_chunk = 8 ∷ 8 ∷ 16 ∷ [];
  block_error_bits = 0;
}

layered_test : post_init layered ≡ ok layered
unfolding post_init
layered_test = refl

post_init-IsValid_example : IsValid layered
post_init-IsValid_example = post_init-IsValid layered layered layered_test

sum-layer_bytes_example : sum (layer_bytes layered) ≡ 64
sum-layer_bytes_example = sum-layer_bytes layered layered layered_test

from_dict-to_dict_example : from_dict (to_dict layered) ≡ ok layered
from_dict-to_dict_example = from_dict-to_dict layered layered layered_test

abbrev codes : List ℕ
codes = 3 ∷ 15 ∷ 7 ∷ []

unpack_codes-pack_codes_example : unpack_codes (pack_codes codes) 3 ≡ codes
unpack_codes-pack_codes_example =
    unpack_codes-pack_codes codes (omega arith, (omega arith, (omega arith, tt)))

nibble_of_pack_codes_example : get_or (pack_codes codes) 0 0 / 2 ^ 4 % 16 ≡ 15
nibble_of_pack_codes_example =
    nibble_of_pack_codes codes 1 (omega arith, (omega arith, (omega arith, tt))) (omega arith)

-- records of one leading byte, two blocks and one code byte
abbrev rows : List (List ℕ)
rows = (9 ∷ 10 ∷ 200 ∷ 4 ∷ 4 ∷ 1 ∷ []) ∷ (8 ∷ 0 ∷ 255 ∷ 7 ∷ 3 ∷ 2 ∷ []) ∷ []

unpack_meta-pack_meta_example : unpack_meta (pack_meta rows 1 2) 6 1 2 ≡ ok rows
unpack_meta-pack_meta_example = unpack_meta-pack_meta 6 1 2 rows (omega arith) (omega arith) (
  (
    refl,
    (omega arith, (omega arith, (omega arith, (omega arith, (omega arith, (omega arith, tt)))))),
  ),
  (
    (
      refl,
      (omega arith, (omega arith, (omega arith, (omega arith, (omega arith, (omega arith, tt)))))),
    ),
    tt,
  ),
)

-- a checksum of the tests, and the array of Tests/Example with what was recorded of it
abbrev crc : List ℕ → ℕ
crc bytes = sum bytes + sum bytes

abbrev source : Source
source = record {
  codec = to_dict codec;
  shape = 8 ∷ 4 ∷ 4 ∷ [];
  chunks = 4 ∷ 4 ∷ 4 ∷ [];
  chunk_crc32 = some 2 ∷ some 4 ∷ [];
}

abbrev recorded : Array
recorded = record array { meta_source = some source }

check_meta_iff_example :
    (check_meta crc store recorded ≡ ok []) ↔ (source.chunk_crc32 ≡ chunk_crc32 crc store recorded)
unfolding check_source chunk_coords range_from
check_meta_iff_example = check_meta_iff crc store recorded source refl refl refl

-- two reads in batches of one
abbrev requests : List Range
requests =
    record { key = "g/a_meta/c/0/0/0/0"; start = 2; end = 5 }
    ∷ record { key = "g/a_meta/c/1/0/0/0"; start = 0; end = 4 }
    ∷ []

-- two reads of objects that are missing, of which the second one fails first
abbrev failing : List Range
failing = record { key = "a"; start = 0; end = 1 } ∷ record { key = "b"; start = 0; end = 1 } ∷ []

failing_test : read_ranges store failing (pos 2) (pos 2) ≡ err (file_not_found "b")
unfolding read_ranges
failing_test = refl

read_ranges_lem_example :
    IsOutcome 3
      (map (read_one store) (requests ++ failing))
      (read_ranges store (requests ++ failing) (pos 2) (pos 3))
read_ranges_lem_example =
    read_ranges_lem store (requests ++ failing) 2 3 (omega arith) (omega arith)

single_size_lem_example :
    let lt = layout_of (32 ∷ 16 ∷ 32 ∷ []) (16 ∷ 8 ∷ 32 ∷ []) layered 4096 in
    single_size lt ≡ plain_size (planned_grid lt)
single_size_lem_example =
    single_size_lem layered layered (32 ∷ 16 ∷ 32 ∷ []) (16 ∷ 8 ∷ 32 ∷ []) 4096 layered_test

codec_test : post_init codec ≡ ok codec
unfolding post_init
codec_test = refl

find_codec_test : find_codec array ≡ ok codec
unfolding find_codec
find_codec_test = refl

block_size_lem_example :
    (lt.block_size ≡ sum lt.layer_bytes) × (lt.block_size * lt.blocks_per_chunk ≡ lt.data_size)
block_size_lem_example =
    block_size_lem array lt codec codec codec_test find_codec_test get_layout_test
