-- ===== src/Codec/Nibbles.antt =====
-- skipzfp/codec.py: pack_codes and unpack_codes, the 4-bit error codes two to a byte, and the way
-- the C planner reads them.
use Prim.Native.Nat.{bit_and, bit_or}
use skip_zfp.Prelude.{
  ℕ, zero, suc, ◌+◌, ◌*◌, ◌/◌, ◌%◌, ◌^◌, ◌<◌, ◌≡◌, refl, ap, ◌∙◌, Bool, true, ◌&&◌, List, [], ◌∷◌,
  take, length, get_or, All, ==_iff, ◌==◌, arith,
}

-- `q[0::2] | (q[1::2] << 4)` in uint8; an odd number of codes is filled up with a zero
unfoldable pub pack_codes : List ℕ → List ℕ
pack_codes [] = []
pack_codes (a ∷ []) = bit_or a 0 ∷ []
pack_codes (a ∷ b ∷ q) = bit_or a (b * 16 % 256) ∷ pack_codes q

-- `np.stack([p & 15, p >> 4], axis=-1).reshape(-1)`
unfoldable pub nibbles : List ℕ → List ℕ
nibbles [] = []
nibbles (p ∷ ps) = bit_and p 15 ∷ (p / 16) ∷ nibbles ps

unfoldable pub unpack_codes : List ℕ → ℕ → List ℕ
unfolding nibbles
unpack_codes packed n = take n (nibbles packed)

abbrev pub IsCode : ℕ → Type 0
IsCode q = q < 16

-- a test of every byte, as a list of tests that is evaluated
every : (ℕ → Bool) → ℕ → Bool
every test zero = true
every test (suc k) = every test k && test k

every-true : (test : ℕ → Bool) (k byte : ℕ) → every test k ≡ true → byte < k → test byte ≡ true
unfolding every
every-true test zero byte passed small = absurd (omega arith)
every-true test (suc k) byte passed small = ground (arith, every-true test k byte)

or_table : every (λ x. bit_or (x % 16) (x / 16 * 16 % 256) == x) 256 ≡ true
unfolding every
or_table = refl

and_table : every (λ x. bit_and x 15 == x % 16) 256 ≡ true
unfolding every
and_table = refl

bit_or_lem : (a b : ℕ) → a < 16 → b < 16 → bit_or a (b * 16 % 256) ≡ a + b * 16
bit_or_lem a b ha hb =
    let x : ℕ = a + b * 16 in
    let ea : x % 16 ≡ a = omega arith in
    let eb : x / 16 ≡ b = omega arith in
    rw (ea, eb) at ((==_iff _ _).0 (every-true _ 256 x or_table (omega arith)))

bit_and_lem : (x : ℕ) → x < 256 → bit_and x 15 ≡ x % 16
bit_and_lem x h = (==_iff _ _).0 (every-true _ 256 x and_table h)

low_lem : (a : ℕ) → a < 16 → bit_or a 0 ≡ a
low_lem a h = bit_or_lem a 0 h (omega arith) ∙ (omega arith)

nibble_pair : (a b : ℕ) → a < 16 → b < 16 → (bit_and (a + b * 16) 15 ≡ a) × ((a + b * 16) / 16 ≡ b)
nibble_pair a b ha hb = (bit_and_lem (a + b * 16) (omega arith) ∙ (omega arith), omega arith)

-- unpack_codes gives back the codes that pack_codes packed, when all are below 16.
pub unpack_codes-pack_codes :
    (q : List ℕ) → All IsCode q → unpack_codes (pack_codes q) (length q) ≡ q
unfolding unpack_codes pack_codes
unpack_codes-pack_codes [] h = refl
unpack_codes-pack_codes (a ∷ []) (ha, h) =
    let e = low_lem a ha in
    let f : bit_and a 15 ≡ a = bit_and_lem a (omega arith) ∙ (omega arith) in rw (e, f)
unpack_codes-pack_codes (a ∷ b ∷ q) (ha, (hb, h)) =
    let e = bit_or_lem a b ha hb in
    let f = nibble_pair a b ha hb in
    rw (e, f.0, f.1) (ap (λ t. a ∷ b ∷ t) (unpack_codes-pack_codes q h))

-- The nibble that the planner reads of packed error codes for block `i` is the code of block `i`,
-- when all codes are below 16 and `i` is one of the blocks.
pub nibble_of_pack_codes :
    (q : List ℕ) (i : ℕ)
    → All IsCode q
    → i < length q
    → get_or (pack_codes q) (i / 2) 0 / 2 ^ (4 * (i % 2)) % 16 ≡ get_or q i 0
unfolding pack_codes
nibble_of_pack_codes [] i h lt = absurd (omega arith)
nibble_of_pack_codes (a ∷ []) zero (ha, h) lt = omega (arith, low_lem a ha)
nibble_of_pack_codes (a ∷ []) (suc i) h lt = absurd (omega arith)
nibble_of_pack_codes (a ∷ b ∷ q) zero (ha, (hb, h)) lt = omega (arith, bit_or_lem a b ha hb)
nibble_of_pack_codes (a ∷ b ∷ q) (suc zero) (ha, (hb, h)) lt = omega (arith, bit_or_lem a b ha hb)
nibble_of_pack_codes (a ∷ b ∷ q) (suc (suc i)) (ha, (hb, h)) lt =
    let e : suc (suc i) / 2 ≡ suc (i / 2) = omega arith in
    let f : suc (suc i) % 2 ≡ i % 2 = omega arith in
    rw (e, f) (nibble_of_pack_codes q i h (omega arith))
