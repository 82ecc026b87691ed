-- ===== src/Tests/Layers.antt =====
-- The records of an array with two layers, at the array of Tests/ZoneMaps.
use skip_zfp.Prelude.{
  ℕ, ◌≡◌, refl, List, [], ◌∷◌, ◌++◌, map, replicate, take, drop, slice, ◌==◌, if◌then◌else◌, ok,
  sequence, arith, prod, range_from,
}
use skip_zfp.Native.{sz_ok}
use skip_zfp.Layout.{Layout}
use skip_zfp.Codec.Config.{Codec, post_init, meta_size}
use skip_zfp.Codec.Units.{take_slices, slices_at}
use skip_zfp.Codec.Encode.{Zfp}
use skip_zfp.Codec.ZoneMap.{meta}
use skip_zfp.Codec.WriteMeta.{write_record}
use skip_zfp.Codec.WriteMeta.Kept.{plan_meta-write_record}
use skip_zfp.Query.Meta.{plan_meta}
use skip_zfp.Tests.Example.{codec, lt}
use skip_zfp.Tests.ZoneMaps.{rounding, rounding-IsLawful, ceiling, twos}
use skip_zfp.Tests.Toy.{toy, zero_s, two_s}

-- a coder that loses the values at the lower rate
abbrev lossy : Zfp toy
lossy = record {
  compress = λ shape rate values size. sz_ok (replicate size 1);
  decompress = λ shape rate bytes. sz_ok (replicate 64 (if rate == 8 then zero_s else two_s));
}

abbrev two_layers : Codec
two_layers = record codec { rate = 16; layers = 8 ∷ 16 ∷ [] }

two_layers_test : post_init two_layers ≡ ok two_layers
unfolding post_init
two_layers_test = refl

abbrev coords : List (List ℕ)
coords = (0 ∷ 0 ∷ 0 ∷ []) ∷ (1 ∷ 0 ∷ 0 ∷ []) ∷ []

-- the two bounds, the error bounds 2 and 0 of the layers, and the offsets of the block
abbrev one_record : List ℕ
one_record = 1 ∷ 0 ∷ 0 ∷ 0 ∷ 1 ∷ 0 ∷ 0 ∷ 0 ∷ 1 ∷ 0 ∷ 0 ∷ 0 ∷ 0 ∷ 0 ∷ 0 ∷ 0 ∷ 0 ∷ 0 ∷ []

records_test :
    sequence (
      map
        (write_record toy rounding ceiling lossy two_s two_layers (4 ∷ 4 ∷ 4 ∷ []) (0 ∷ []) twos)
        coords)
    ≡ ok (one_record ∷ one_record ∷ [])
unfolding write_record prod range_from
records_test = refl

abbrev layout : Layout
layout = record lt { layers = 8 ∷ 16 ∷ []; meta_size = 18 }

meta_size_test : 18 ≡ meta_size two_layers (4 ∷ 4 ∷ 4 ∷ [])
unfolding meta_size prod
meta_size_test = refl

plan_meta-write_record_example :
    (m : List ℕ) × (meta toy rounding lossy two_s
        (take_slices twos (slices_at (4 ∷ 4 ∷ 4 ∷ []) (1 ∷ 0 ∷ 0 ∷ [])))
        8
        4
      ≡ ok m)
    × (slice (plan_meta (one_record ++ one_record ++ []) layout 0) 14 28
        ≡ take 12 m ++ drop 16 one_record)
plan_meta-write_record_example =
    plan_meta-write_record toy rounding rounding-IsLawful ceiling lossy two_s two_layers two_layers
      (4 ∷ 4 ∷ 4 ∷ []) (0 ∷ []) twos coords (one_record ∷ one_record ∷ []) layout 0 1
      two_layers_test (refl, (refl, tt)) records_test refl meta_size_test (omega arith)
      (omega arith)
