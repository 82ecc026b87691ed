-- ===== src/Tests/Packing.antt =====
-- pack and unpack at a chunk of two units of four blocks, in two layers and another order of blocks.
use skip_zfp.Prelude.{
  ℕ, true, ◌≡◌, refl, sym, ap, ◌∙◌, List, [], ◌∷◌, map, take, length, length-take, replicate,
  length-replicate, length-append, ◌++◌, get_or, sum, prod, range_from, cumsum_from, ◌==◌,
  if◌then◌else◌, ok, arith,
}
use skip_zfp.Native.{sz_ok}
use skip_zfp.Layout.{chunk_coords}
use skip_zfp.Codec.Config.{Codec, post_init, unit, chunk_shape}
use skip_zfp.Codec.Encode.{Zfp, IsLawful, encode, decode}
use skip_zfp.Codec.Units.{NdArray, of_items, take_slices}
use skip_zfp.Codec.Pack.{pack, unpack, compute_encoded_size}
use skip_zfp.Codec.Pack.Size.{length-pack}
use skip_zfp.Codec.Pack.RoundTrip.{Holds, UnitsDecode, unpack-pack}
use skip_zfp.Tests.Toy.{toy, Single, single_of, no_number, zero_s, two_s, four_s, top_s}

abbrev byte_of : Single → ℕ
byte_of no_number = 3
byte_of zero_s = 0
byte_of two_s = 1
byte_of four_s = 2
byte_of top_s = 3

-- a coder that keeps as many of the first values as there are bytes
abbrev coder : Zfp toy
coder = record {
  compress = λ shape rate values size. sz_ok (take size (map byte_of values ++ replicate size 0));
  decompress = λ shape rate bytes. sz_ok (map single_of bytes ++ replicate (prod shape) zero_s);
}

sz_ok-injective : (a b : List ℕ) → sz_ok a ≡ sz_ok b → a ≡ b
sz_ok-injective a b h = ground arith

coder-IsLawful : IsLawful toy coder
coder-IsLawful = record {
  length-compress = λ shape rate values size bytes h.
      ap length (sym (sz_ok-injective _ bytes h)) ∙ filled size (map byte_of values);
}
  where
    filled : (n : ℕ) (xs : List ℕ) → length (take n (xs ++ replicate n 0)) ≡ n
    filled n xs = omega (
      arith,
      length-take n (xs ++ replicate n 0),
      length-append xs (replicate n 0),
      length-replicate {A = ℕ} n 0,
    )

-- rates of an eighth and of a quarter of a bit, so a block takes a byte and another
abbrev tiled : Codec
tiled = record {
  rate = 16;
  block_dim = 4;
  layers = 8 ∷ 16 ∷ [];
  block_order = 1 ∷ 0 ∷ 2 ∷ [];
  sub_chunk = 8 ∷ 8 ∷ 4 ∷ [];
  block_error_bits = 0;
}

abbrev chunk : NdArray Single
chunk = record {
  shape = 16 ∷ 8 ∷ 4 ∷ [];
  at = λ c. if get_or c 0 0 == 8 then single_of (get_or c 2 0) else single_of (get_or c 1 0);
}

tiled_test : post_init tiled ≡ ok tiled
unfolding post_init
tiled_test = refl

chunk_test : chunk_shape tiled chunk.shape true ≡ ok chunk.shape
unfolding chunk_shape
chunk_test = refl

abbrev stored : List ℕ
stored = 0 ∷ 1 ∷ 0 ∷ 1 ∷ 0 ∷ 0 ∷ 2 ∷ 2 ∷ 0 ∷ 1 ∷ 0 ∷ 1 ∷ 1 ∷ 1 ∷ 3 ∷ 3 ∷ []

pack_test : pack toy coder zero_s 9 tiled chunk ≡ ok stored
unfolding pack prod sum range_from cumsum_from
pack_test = refl

abbrev units : List ℕ
units = 8 ∷ 8 ∷ 4 ∷ []

abbrev bytes0 : List ℕ
bytes0 = 0 ∷ 0 ∷ 0 ∷ 0 ∷ 1 ∷ 1 ∷ 1 ∷ 1 ∷ []

abbrev bytes1 : List ℕ
bytes1 = 0 ∷ 1 ∷ 2 ∷ 3 ∷ 0 ∷ 1 ∷ 2 ∷ 3 ∷ []

abbrev decoded_of : List ℕ → NdArray Single
decoded_of bytes = of_items zero_s units (map single_of bytes ++ replicate 256 zero_s)

abbrev decoded : List ℕ → NdArray Single
decoded idx = decoded_of (if get_or idx 0 0 == 0 then bytes0 else bytes1)

units_decode :
    UnitsDecode toy coder coder-IsLawful zero_s 9 tiled tiled chunk true decoded tiled_test
      chunk_test
unfolding unit encode decode prod range_from take_slices chunk_coords
units_decode = (refl, (refl, tt))

unpack-pack_example :
    (out : NdArray Single) × (unpack toy coder zero_s 9 tiled stored (16 ∷ 8 ∷ 4 ∷ []) ≡ ok out)
    × Holds toy coder coder-IsLawful zero_s 9 (16 ∷ 8 ∷ 4 ∷ []) units decoded out
unfolding unit
unpack-pack_example =
    unpack-pack toy coder coder-IsLawful zero_s 9 tiled tiled chunk true decoded tiled_test
      chunk_test stored units_decode pack_test

size_test : compute_encoded_size tiled chunk.shape true ≡ ok 16
unfolding compute_encoded_size prod
size_test = refl

length-pack_example : length stored ≡ 16
length-pack_example =
    length-pack toy coder coder-IsLawful zero_s 9 tiled tiled chunk true tiled_test chunk_test
      stored 16 pack_test size_test
