-- ===== src/Tests/Toy/Laws.antt =====
-- The toy floats are lawful.
use skip_zfp.Prelude.{zero, suc, ◌≡◌, refl, true, false, not, arith}
use skip_zfp.Floats.{IsLawful}
use skip_zfp.Tests.Toy.{
  Double, nan, fin, top, Single, no_number, zero_s, two_s, four_s, top_s, toy, lt, le, is_nan,
  widen, narrow, prev,
}

pub toy-IsLawful : IsLawful toy
toy-IsLawful = record {
  le_or_lt = le_or_lt;
  lt-le_trans = lt-le_trans;
  le-lt_trans = le-lt_trans;
  le_trans = le_trans;
  lt_irrefl = lt_irrefl;
  lt_left = lt_left;
  le_of_lt = le_of_lt;
  le_left = le_left;
  le_right = le_right;
  lt_right = lt_right;
  le-inf = le-inf;
  neg_inf-le = neg_inf-le;
  narrow-num = narrow-num;
  le-narrow = le-narrow;
  narrow-le = narrow-le;
  le-prev = le-prev;
  prev-le = prev-le;
}
  where
    le_or_lt : (a b : Double) → is_nan a ≡ false → is_nan b ≡ false → le a b ≡ not (lt b a)
    le_or_lt nan b h k = cc
    le_or_lt (fin a) nan h k = cc
    le_or_lt (fin a) (fin b) h k = ground arith
    le_or_lt (fin a) top h k = refl
    le_or_lt top nan h k = cc
    le_or_lt top (fin b) h k = refl
    le_or_lt top top h k = refl

    lt-le_trans : (a b c : Double) → lt a b ≡ true → le b c ≡ true → lt a c ≡ true
    lt-le_trans nan nan nan h k = cc
    lt-le_trans nan nan (fin c) h k = cc
    lt-le_trans nan nan top h k = cc
    lt-le_trans nan (fin b) nan h k = cc
    lt-le_trans nan (fin b) (fin c) h k = cc
    lt-le_trans nan (fin b) top h k = cc
    lt-le_trans nan top nan h k = cc
    lt-le_trans nan top (fin c) h k = cc
    lt-le_trans nan top top h k = cc
    lt-le_trans (fin a) nan nan h k = cc
    lt-le_trans (fin a) nan (fin c) h k = cc
    lt-le_trans (fin a) nan top h k = cc
    lt-le_trans (fin a) (fin b) nan h k = cc
    lt-le_trans (fin a) (fin b) (fin c) h k = ground arith
    lt-le_trans (fin a) (fin b) top h k = refl
    lt-le_trans (fin a) top nan h k = cc
    lt-le_trans (fin a) top (fin c) h k = cc
    lt-le_trans (fin a) top top h k = refl
    lt-le_trans top nan nan h k = cc
    lt-le_trans top nan (fin c) h k = cc
    lt-le_trans top nan top h k = cc
    lt-le_trans top (fin b) nan h k = cc
    lt-le_trans top (fin b) (fin c) h k = cc
    lt-le_trans top (fin b) top h k = cc
    lt-le_trans top top nan h k = cc
    lt-le_trans top top (fin c) h k = cc
    lt-le_trans top top top h k = cc

    le-lt_trans : (a b c : Double) → le a b ≡ true → lt b c ≡ true → lt a c ≡ true
    le-lt_trans nan nan nan h k = cc
    le-lt_trans nan nan (fin c) h k = cc
    le-lt_trans nan nan top h k = cc
    le-lt_trans nan (fin b) nan h k = cc
    le-lt_trans nan (fin b) (fin c) h k = cc
    le-lt_trans nan (fin b) top h k = cc
    le-lt_trans nan top nan h k = cc
    le-lt_trans nan top (fin c) h k = cc
    le-lt_trans nan top top h k = cc
    le-lt_trans (fin a) nan nan h k = cc
    le-lt_trans (fin a) nan (fin c) h k = cc
    le-lt_trans (fin a) nan top h k = cc
    le-lt_trans (fin a) (fin b) nan h k = cc
    le-lt_trans (fin a) (fin b) (fin c) h k = ground arith
    le-lt_trans (fin a) (fin b) top h k = refl
    le-lt_trans (fin a) top nan h k = cc
    le-lt_trans (fin a) top (fin c) h k = cc
    le-lt_trans (fin a) top top h k = cc
    le-lt_trans top nan nan h k = cc
    le-lt_trans top nan (fin c) h k = cc
    le-lt_trans top nan top h k = cc
    le-lt_trans top (fin b) nan h k = cc
    le-lt_trans top (fin b) (fin c) h k = cc
    le-lt_trans top (fin b) top h k = cc
    le-lt_trans top top nan h k = cc
    le-lt_trans top top (fin c) h k = cc
    le-lt_trans top top top h k = cc

    le_trans : (a b c : Double) → le a b ≡ true → le b c ≡ true → le a c ≡ true
    le_trans nan nan nan h k = cc
    le_trans nan nan (fin c) h k = cc
    le_trans nan nan top h k = cc
    le_trans nan (fin b) nan h k = cc
    le_trans nan (fin b) (fin c) h k = cc
    le_trans nan (fin b) top h k = cc
    le_trans nan top nan h k = cc
    le_trans nan top (fin c) h k = cc
    le_trans nan top top h k = cc
    le_trans (fin a) nan nan h k = cc
    le_trans (fin a) nan (fin c) h k = cc
    le_trans (fin a) nan top h k = cc
    le_trans (fin a) (fin b) nan h k = cc
    le_trans (fin a) (fin b) (fin c) h k = ground arith
    le_trans (fin a) (fin b) top h k = refl
    le_trans (fin a) top nan h k = cc
    le_trans (fin a) top (fin c) h k = cc
    le_trans (fin a) top top h k = refl
    le_trans top nan nan h k = cc
    le_trans top nan (fin c) h k = cc
    le_trans top nan top h k = cc
    le_trans top (fin b) nan h k = cc
    le_trans top (fin b) (fin c) h k = cc
    le_trans top (fin b) top h k = cc
    le_trans top top nan h k = cc
    le_trans top top (fin c) h k = cc
    le_trans top top top h k = refl

    lt_irrefl : (a : Double) → lt a a ≡ false
    lt_irrefl nan = refl
    lt_irrefl (fin a) = ground arith
    lt_irrefl top = refl

    lt_left : (a b : Double) → lt a b ≡ true → is_nan a ≡ false
    lt_left nan b h = cc
    lt_left (fin a) b h = refl
    lt_left top b h = refl

    le_of_lt : (a b : Double) → lt a b ≡ true → le a b ≡ true
    le_of_lt nan b h = cc
    le_of_lt (fin a) nan h = cc
    le_of_lt (fin a) (fin b) h = ground arith
    le_of_lt (fin a) top h = refl
    le_of_lt top b h = cc

    le_left : (a b : Double) → le a b ≡ true → is_nan a ≡ false
    le_left nan b h = cc
    le_left (fin a) b h = refl
    le_left top b h = refl

    le_right : (a b : Double) → le a b ≡ true → is_nan b ≡ false
    le_right nan b h = cc
    le_right a (fin b) h = refl
    le_right a top h = refl
    le_right (fin a) nan h = cc
    le_right top nan h = cc

    lt_right : (a b : Double) → lt a b ≡ true → is_nan b ≡ false
    lt_right a b h = le_right a b (le_of_lt a b h)

    le-inf : (a : Double) → is_nan a ≡ false → le a top ≡ true
    le-inf nan h = cc
    le-inf (fin a) h = refl
    le-inf top h = refl

    neg_inf-le : (a : Double) → is_nan a ≡ false → le (fin 0) a ≡ true
    neg_inf-le nan h = cc
    neg_inf-le (fin a) h = ground arith
    neg_inf-le top h = refl

    narrow-num : (x : Double) → is_nan x ≡ false → is_nan (widen (narrow x)) ≡ false
    narrow-num nan h = cc
    narrow-num (fin zero) h = refl
    narrow-num (fin (suc zero)) h = refl
    narrow-num (fin (suc (suc zero))) h = refl
    narrow-num (fin (suc (suc (suc zero)))) h = refl
    narrow-num (fin (suc (suc (suc (suc zero))))) h = refl
    narrow-num (fin (suc (suc (suc (suc (suc n)))))) h = refl
    narrow-num top h = refl

    le-narrow :
        (x : Double) (t : Single) → le (widen t) x ≡ true → le (widen t) (widen (narrow x)) ≡ true
    le-narrow nan no_number h = cc
    le-narrow nan zero_s h = cc
    le-narrow nan two_s h = cc
    le-narrow nan four_s h = cc
    le-narrow nan top_s h = cc
    le-narrow (fin zero) no_number h = cc
    le-narrow (fin zero) zero_s h = refl
    le-narrow (fin zero) two_s h = ground arith
    le-narrow (fin zero) four_s h = ground arith
    le-narrow (fin zero) top_s h = ground arith
    le-narrow (fin (suc zero)) no_number h = cc
    le-narrow (fin (suc zero)) zero_s h = refl
    le-narrow (fin (suc zero)) two_s h = refl
    le-narrow (fin (suc zero)) four_s h = ground arith
    le-narrow (fin (suc zero)) top_s h = ground arith
    le-narrow (fin (suc (suc zero))) no_number h = cc
    le-narrow (fin (suc (suc zero))) zero_s h = refl
    le-narrow (fin (suc (suc zero))) two_s h = refl
    le-narrow (fin (suc (suc zero))) four_s h = ground arith
    le-narrow (fin (suc (suc zero))) top_s h = ground arith
    le-narrow (fin (suc (suc (suc zero)))) no_number h = cc
    le-narrow (fin (suc (suc (suc zero)))) zero_s h = refl
    le-narrow (fin (suc (suc (suc zero)))) two_s h = refl
    le-narrow (fin (suc (suc (suc zero)))) four_s h = refl
    le-narrow (fin (suc (suc (suc zero)))) top_s h = ground arith
    le-narrow (fin (suc (suc (suc (suc zero))))) no_number h = cc
    le-narrow (fin (suc (suc (suc (suc zero))))) zero_s h = refl
    le-narrow (fin (suc (suc (suc (suc zero))))) two_s h = refl
    le-narrow (fin (suc (suc (suc (suc zero))))) four_s h = refl
    le-narrow (fin (suc (suc (suc (suc zero))))) top_s h = ground arith
    le-narrow (fin (suc (suc (suc (suc (suc n)))))) no_number h = cc
    le-narrow (fin (suc (suc (suc (suc (suc n)))))) zero_s h = refl
    le-narrow (fin (suc (suc (suc (suc (suc n)))))) two_s h = refl
    le-narrow (fin (suc (suc (suc (suc (suc n)))))) four_s h = refl
    le-narrow (fin (suc (suc (suc (suc (suc n)))))) top_s h = refl
    le-narrow top no_number h = cc
    le-narrow top zero_s h = refl
    le-narrow top two_s h = refl
    le-narrow top four_s h = refl
    le-narrow top top_s h = refl

    narrow-le :
        (x : Double) (t : Single) → le x (widen t) ≡ true → le (widen (narrow x)) (widen t) ≡ true
    narrow-le nan no_number h = cc
    narrow-le nan zero_s h = cc
    narrow-le nan two_s h = cc
    narrow-le nan four_s h = cc
    narrow-le nan top_s h = cc
    narrow-le (fin zero) no_number h = cc
    narrow-le (fin zero) zero_s h = refl
    narrow-le (fin zero) two_s h = refl
    narrow-le (fin zero) four_s h = refl
    narrow-le (fin zero) top_s h = refl
    narrow-le (fin (suc zero)) no_number h = cc
    narrow-le (fin (suc zero)) zero_s h = ground arith
    narrow-le (fin (suc zero)) two_s h = refl
    narrow-le (fin (suc zero)) four_s h = refl
    narrow-le (fin (suc zero)) top_s h = refl
    narrow-le (fin (suc (suc zero))) no_number h = cc
    narrow-le (fin (suc (suc zero))) zero_s h = ground arith
    narrow-le (fin (suc (suc zero))) two_s h = refl
    narrow-le (fin (suc (suc zero))) four_s h = refl
    narrow-le (fin (suc (suc zero))) top_s h = refl
    narrow-le (fin (suc (suc (suc zero)))) no_number h = cc
    narrow-le (fin (suc (suc (suc zero)))) zero_s h = ground arith
    narrow-le (fin (suc (suc (suc zero)))) two_s h = ground arith
    narrow-le (fin (suc (suc (suc zero)))) four_s h = refl
    narrow-le (fin (suc (suc (suc zero)))) top_s h = refl
    narrow-le (fin (suc (suc (suc (suc zero))))) no_number h = cc
    narrow-le (fin (suc (suc (suc (suc zero))))) zero_s h = ground arith
    narrow-le (fin (suc (suc (suc (suc zero))))) two_s h = ground arith
    narrow-le (fin (suc (suc (suc (suc zero))))) four_s h = refl
    narrow-le (fin (suc (suc (suc (suc zero))))) top_s h = refl
    narrow-le (fin (suc (suc (suc (suc (suc n)))))) no_number h = cc
    narrow-le (fin (suc (suc (suc (suc (suc n)))))) zero_s h = ground arith
    narrow-le (fin (suc (suc (suc (suc (suc n)))))) two_s h = ground arith
    narrow-le (fin (suc (suc (suc (suc (suc n)))))) four_s h = ground arith
    narrow-le (fin (suc (suc (suc (suc (suc n)))))) top_s h = refl
    narrow-le top no_number h = cc
    narrow-le top zero_s h = ground arith
    narrow-le top two_s h = ground arith
    narrow-le top four_s h = ground arith
    narrow-le top top_s h = refl

    le-prev :
        (s t : Single)
        → lt (fin 0) (widen s) ≡ true
        → is_nan (widen t) ≡ false
        → le (widen t) (widen (prev s)) ≡ lt (widen t) (widen s)
    le-prev no_number no_number h k = cc
    le-prev no_number zero_s h k = cc
    le-prev no_number two_s h k = cc
    le-prev no_number four_s h k = cc
    le-prev no_number top_s h k = cc
    le-prev zero_s no_number h k = cc
    le-prev zero_s zero_s h k = cc
    le-prev zero_s two_s h k = cc
    le-prev zero_s four_s h k = cc
    le-prev zero_s top_s h k = cc
    le-prev two_s no_number h k = cc
    le-prev two_s zero_s h k = refl
    le-prev two_s two_s h k = refl
    le-prev two_s four_s h k = refl
    le-prev two_s top_s h k = refl
    le-prev four_s no_number h k = cc
    le-prev four_s zero_s h k = refl
    le-prev four_s two_s h k = refl
    le-prev four_s four_s h k = refl
    le-prev four_s top_s h k = refl
    le-prev top_s no_number h k = cc
    le-prev top_s zero_s h k = refl
    le-prev top_s two_s h k = refl
    le-prev top_s four_s h k = refl
    le-prev top_s top_s h k = refl

    prev-le : (s : Single) → is_nan (widen s) ≡ false → le (widen (prev s)) (widen s) ≡ true
    prev-le no_number h = cc
    prev-le zero_s h = refl
    prev-le two_s h = refl
    prev-le four_s h = refl
    prev-le top_s h = refl
