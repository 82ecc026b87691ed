-- ===== src/Codec/MetaPack/Cuts.antt =====
-- A buffer of four parts, cut where they end, as np.split does.
use skip_zfp.Prelude.{
  ℕ, ◌+◌, ◌-◌, ◌≡◌, sym, ap, ◌∙◌, List, ◌++◌, take, drop, slice, length, take-append, drop-append,
  drop-drop, arith,
}

-- a buffer of four parts, cut where they end
module _ (A B C D : List ℕ) (a b c : ℕ) where
  pub cut_first : a ≡ length A → take a (A ++ (B ++ (C ++ D))) ≡ A
  cut_first ea = take-append a A (B ++ (C ++ D)) ea

  pub cut_second : a ≡ length A → b ≡ a + length B → slice (A ++ (B ++ (C ++ D))) a b ≡ B
  cut_second ea eb =
      ap (take (b - a)) (drop-append a A (B ++ (C ++ D)) ea)
      ∙ take-append (b - a) B (C ++ D) (omega arith)

  drop_two : a ≡ length A → b ≡ a + length B → drop b (A ++ (B ++ (C ++ D))) ≡ C ++ D
  drop_two ea eb =
      sym (drop-drop a (b - a) b (A ++ (B ++ (C ++ D))) (omega arith))
      ∙ ap (drop (b - a)) (drop-append a A (B ++ (C ++ D)) ea)
      ∙ drop-append (b - a) B (C ++ D) (omega arith)

  pub cut_third :
      a ≡ length A → b ≡ a + length B → c ≡ b + length C → slice (A ++ (B ++ (C ++ D))) b c ≡ C
  cut_third ea eb ec = ap (take (c - b)) (drop_two ea eb) ∙ take-append (c - b) C D (omega arith)

  pub cut_fourth :
      a ≡ length A → b ≡ a + length B → c ≡ b + length C → drop c (A ++ (B ++ (C ++ D))) ≡ D
  cut_fourth ea eb ec =
      sym (drop-drop b (c - b) c (A ++ (B ++ (C ++ D))) (omega arith))
      ∙ ap (drop (c - b)) (drop_two ea eb)
      ∙ drop-append (c - b) C D (omega arith)
