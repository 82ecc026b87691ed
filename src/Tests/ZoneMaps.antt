-- ===== src/Tests/ZoneMaps.antt =====
-- The theorems on zone map records, at a unit of one block.
use skip_zfp.Prelude.{
  ℕ, zero, suc, ◌<◌, ◌≡◌, refl, true, false, List, [], ◌∷◌, ◌++◌, All, replicate, map, zip, get_or,
  length, ok, arith, prod, range_from, ℤ, pos,
}
use skip_zfp.Native.{sz_ok}
use skip_zfp.Layout.{bad_shape}
use skip_zfp.Codec.Config.{Codec, post_init, meta_size}
use skip_zfp.Codec.Units.{NdArray}
use skip_zfp.Codec.Encode.{Zfp}
use skip_zfp.Codec.ZoneMap.{
  Rounding, Extent, szfp_meta, paired, block_indices, IsLawful as RoundingIsLawful,
}
use skip_zfp.Codec.ZoneMap.Sound.{IsFine, IsBounded, szfp_meta-IsBounded}
use skip_zfp.Codec.ErrorCodes.{Ceiling, code_bound, codes_of}
use skip_zfp.Codec.ErrorCodes.Cover.{IsLawful as CeilingIsLawful, codes_of_cover}
use skip_zfp.Codec.WriteMeta.{write_record}
use skip_zfp.Codec.WriteMeta.Size.{length-write_record}
use skip_zfp.Tests.Example.{codec}
use skip_zfp.Tests.Toy.Laws.{toy-IsLawful}
use skip_zfp.Tests.Toy.{toy, Single, Double, nan, fin, top, no_number, zero_s, two_s, four_s, top_s}

abbrev next_max : Single → Single
next_max no_number = no_number
next_max zero_s = two_s
next_max two_s = four_s
next_max four_s = four_s
next_max top_s = four_s

abbrev whole_part : Double → ℤ
whole_part nan = pos 0
whole_part (fin n) = pos n
whole_part top = pos 0

abbrev number_of : Single → ℕ
number_of no_number = 9
number_of zero_s = 0
number_of two_s = 1
number_of four_s = 2
number_of top_s = 3

abbrev pub rounding : Rounding toy
rounding = record {
  flt_max = four_s;
  neg_flt_max = zero_s;
  next_max = next_max;
  floor = whole_part;
  ceil = whole_part;
  bytes_of = λ f. number_of f ∷ 0 ∷ 0 ∷ 0 ∷ [];
}

rounded_down :
    (x : Double)
    → toy.lt (toy.widen (toy.narrow x)) x ≡ true
    → toy.le x (fin 4) ≡ true
    → toy.le x (toy.widen (next_max (toy.narrow x))) ≡ true
rounded_down nan h k = absurd cc
rounded_down top h k = absurd cc
rounded_down (fin zero) h k = absurd (ground arith)
rounded_down (fin (suc zero)) h k = absurd (ground arith)
rounded_down (fin (suc (suc zero))) h k = absurd (ground arith)
rounded_down (fin (suc (suc (suc zero)))) h k = absurd (ground arith)
rounded_down (fin (suc (suc (suc (suc zero))))) h k = absurd (ground arith)
rounded_down (fin (suc (suc (suc (suc (suc n)))))) h k = absurd (ground arith)

pub rounding-IsLawful : RoundingIsLawful toy rounding
rounding-IsLawful = record {
  le-next_max = rounded_down;
  flt_max-num = refl;
  neg_flt_max-num = refl;
  zero-le = refl;
  length-bytes_of = λ f. refl;
}

-- a coder that keeps one byte, of which it makes the value 2
abbrev coder : Zfp toy
coder = record {
  compress = λ shape rate values size. sz_ok (replicate size 1);
  decompress = λ shape rate bytes. sz_ok (replicate 64 two_s);
}

-- all values are 2 but the first, which is 4
abbrev chunk : List Single
chunk = four_s ∷ replicate 63 two_s

get_or-replicate : (n i : ℕ) → get_or (replicate n two_s) i two_s ≡ two_s
get_or-replicate zero i = refl
get_or-replicate (suc n) zero = refl
get_or-replicate (suc n) (suc i) = get_or-replicate n i

abbrev Fine : Single × Single → Type 0
Fine = IsFine toy toy-IsLawful rounding rounding-IsLawful

at-Fine : (i : ℕ) → Fine (get_or chunk i two_s, get_or (replicate 64 two_s) i two_s)
at-Fine zero = (refl, (refl, refl))
at-Fine (suc i) = rw (get_or-replicate 63 i) (refl, (refl, refl))

block-Fine :
    (b : List ℕ)
    → All Fine (
        map
          (λ i.
            let p : Single × Single = (get_or chunk i two_s, get_or (replicate 64 two_s) i two_s) in
            p)
          b)
block-Fine [] = tt
block-Fine (i ∷ b) = (at-Fine i, block-Fine b)

blocks-Fine :
    (bs : List (List ℕ))
    → All (All Fine) (
        map
          (λ b.
            map
              (λ i.
                let p : Single × Single =
                  (get_or chunk i two_s, get_or (replicate 64 two_s) i two_s) in
                p)
              b)
          bs)
blocks-Fine [] = tt
blocks-Fine (b ∷ bs) = (block-Fine b, blocks-Fine bs)

szfp_meta-IsBounded_example :
    (unit : Extent toy) × (eps : Single) × (offs : List ℕ) × (szfp_meta toy rounding coder two_s
        chunk 4 4 4 8 4 14
      ≡ sz_ok (
          rounding.bytes_of unit.low
          ++ rounding.bytes_of unit.high
          ++ rounding.bytes_of eps
          ++ offs))
    × (length offs ≡ 2)
    × All
        (All (IsBounded toy toy-IsLawful rounding rounding-IsLawful unit (toy.widen eps)))
        (paired toy rounding coder two_s 4 4 4 chunk (replicate 64 two_s))
unfolding bad_shape
szfp_meta-IsBounded_example =
    szfp_meta-IsBounded toy toy-IsLawful rounding rounding-IsLawful coder two_s 4 4 4 8 14 chunk
      (replicate 64 two_s) refl (omega arith) (omega arith) refl (blocks-Fine (block_indices 4 4 4))

abbrev byte_of : Double → ℕ
byte_of nan = 0
byte_of (fin n) = n
byte_of top = 0

abbrev pub ceiling : Ceiling toy
ceiling = record { ceil = λ x. x; to_byte = byte_of }

ratio_nonneg :
    (x e : Double)
    → toy.le (fin 0) x ≡ true
    → toy.lt (fin 0) e ≡ true
    → toy.lt e top ≡ true
    → toy.le (fin 0) (toy.div (toy.mul (fin 15) x) e) ≡ true
ratio_nonneg (fin n) (fin m) h k l = ground arith
ratio_nonneg top (fin m) h k l = refl
ratio_nonneg nan (fin m) h k l = absurd cc
ratio_nonneg x nan h k l = absurd cc
ratio_nonneg x top h k l = absurd cc

next_nonneg : (x : Double) → toy.le (fin 0) x ≡ true → toy.le (fin 0) (toy.add x (fin 1)) ≡ true
next_nonneg (fin n) h = ground arith
next_nonneg top h = refl
next_nonneg nan h = absurd cc

byte_small : (x : Double) → toy.le (fin 0) x ≡ true → toy.lt (fin 15) x ≡ false → byte_of x < 16
byte_small (fin n) h k = ground arith
byte_small top h k = absurd cc
byte_small nan h k = omega arith

byte_bound :
    (e x : Double)
    → toy.lt (fin 0) e ≡ true
    → toy.lt e top ≡ true
    → toy.le (fin 0) x ≡ true
    → toy.lt (fin 15) x ≡ false
    → toy.le (code_bound toy e x) (code_bound toy e (fin (byte_of x))) ≡ true
byte_bound (fin m) (fin n) h k l o = ground arith
byte_bound (fin m) top h k l o = absurd cc
byte_bound (fin m) nan h k l o = absurd cc
byte_bound nan x h k l o = absurd cc
byte_bound top x h k l o = absurd cc

ceiling-IsLawful : CeilingIsLawful toy ceiling
ceiling-IsLawful = record {
  IsWhole = λ x. Unit;
  of_ℕ-IsWhole = λ n. tt;
  ceil-IsWhole = λ x. tt;
  next-IsWhole = λ x h. tt;
  of_ℕ_nonneg = λ n. ground arith;
  ceil_nonneg = ratio_nonneg;
  next_nonneg = next_nonneg;
  to_byte_small = λ x w h k. byte_small x h k;
  code_bound-to_byte = λ e x h k w l o. byte_bound e x h k l o;
}

-- errors 0, 1 and 2 of a unit whose bound is 2
codes_test : codes_of toy ceiling (fin 0 ∷ fin 1 ∷ fin 2 ∷ []) (fin 2) ≡ ok (0 ∷ 8 ∷ 15 ∷ [])
unfolding codes_of
codes_test = refl

codes_of_cover_example :
    All
      (λ p. (p.1 < 16) × (toy.le p.0 (code_bound toy (fin 2) (toy.of_ℕ p.1)) ≡ true))
      (zip (fin 0 ∷ fin 1 ∷ fin 2 ∷ []) (0 ∷ 8 ∷ 15 ∷ []))
codes_of_cover_example =
    codes_of_cover toy toy-IsLawful ceiling ceiling-IsLawful (fin 0 ∷ fin 1 ∷ fin 2 ∷ []) (fin 2)
      (0 ∷ 8 ∷ 15 ∷ []) refl refl (refl, (refl, (refl, tt))) codes_test

-- a codec with error codes
abbrev pub coded : Codec
coded = record codec { block_error_bits = 4 }

coded_test : post_init coded ≡ ok coded
unfolding post_init
coded_test = refl

-- the second unit of an array of 2s
abbrev pub twos : NdArray Single
twos = record { shape = 8 ∷ 4 ∷ 4 ∷ []; at = λ c. two_s }

abbrev the_record : List ℕ
the_record = 1 ∷ 0 ∷ 0 ∷ 0 ∷ 1 ∷ 0 ∷ 0 ∷ 0 ∷ 0 ∷ 0 ∷ 0 ∷ 0 ∷ 0 ∷ 0 ∷ 0 ∷ []

write_record_test :
    write_record toy rounding ceiling coder two_s coded
      (4 ∷ 4 ∷ 4 ∷ [])
      (0 ∷ [])
      twos
      (1 ∷ 0 ∷ 0 ∷ [])
    ≡ ok the_record
unfolding write_record prod range_from
write_record_test = refl

length-write_record_example : length the_record ≡ meta_size coded (4 ∷ 4 ∷ 4 ∷ [])
length-write_record_example =
    length-write_record toy rounding rounding-IsLawful ceiling coder two_s coded coded
      (4 ∷ 4 ∷ 4 ∷ []) (0 ∷ []) twos (1 ∷ 0 ∷ 0 ∷ []) the_record coded_test refl write_record_test
