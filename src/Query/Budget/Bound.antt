-- ===== src/Query/Budget/Bound.antt =====
-- The bytes held stay below the limit, or below the size of the one read that passes it, and a read
-- that waits does so for another one.
use skip_zfp.Prelude.{
  ℕ, zero, suc, ◌+◌, ◌≤◌, ◌<◌, ◌≡◌, refl, ap, sym, ◌∙◌, true, ◌||◌, Option, none, some, List, [],
  ◌∷◌, leb, ◌==◌, max, sum, ◌⊎◌, inl, inr, arith,
}
use skip_zfp.Query.Budget.{
  ByteBudget, may_acquire, acquire, release, Shared, Removes, here, there, Step, begin, finish,
  Reachable, start, next,
}

-- the most that may be held
abbrev pub Within : Option ℕ → ℕ → ℕ → Type 0
Within none m k = Unit
Within (some limit) m k = k ≤ max limit m

pub record Inv (limit : Option ℕ) (m : ℕ) (s : Shared) : Type 0 where
  pub same : s.budget.limit ≡ limit
  pub total : s.budget.used ≡ sum s.held
  pub below_peak : s.budget.used ≤ s.budget.peak
  pub bounded : Within limit m s.budget.peak

sum-Removes : (n : ℕ) {xs ys : List ℕ} → Removes n xs ys → sum xs ≡ n + sum ys
unfolding sum
sum-Removes n (here xs) = refl
sum-Removes n (there x r) = omega (arith, sum-Removes n r)

Within-begin :
    (limit : Option ℕ) (m n : ℕ) (b : ByteBudget)
    → b.limit ≡ limit
    → n ≤ m
    → may_acquire b n ≡ true
    → Within limit m b.peak
    → Within limit m (acquire b n).peak
unfolding may_acquire acquire
Within-begin none m n b e h may w = tt
Within-begin (some limit) m n b e h may w =
    let may' : (b.used == 0 || leb (b.used + n) limit) ≡ true =
      ap (λ l. may_acquire (record b { limit = l }) n) (sym e) ∙ may in
    ground (arith, w, h, may')

Inv-Step : (limit : Option ℕ) (m : ℕ) {s t : Shared} → Step m s t → Inv limit m s → Inv limit m t
unfolding acquire release sum
Inv-Step limit m (begin s n h may) i = record {
  same = i.same;
  total = omega (arith, i.total);
  below_peak = omega arith;
  bounded = Within-begin limit m n s.budget i.same h may i.bounded;
}
Inv-Step limit m (finish s n rest r) i = record {
  same = i.same;
  total = omega (arith, i.total, sum-Removes n r);
  below_peak = omega (arith, i.below_peak);
  bounded = i.bounded;
}

Within-zero : (limit : Option ℕ) (m : ℕ) → Within limit m 0
Within-zero none m = tt
Within-zero (some limit) m = omega arith

zero_or_more : (n : ℕ) → (n ≡ 0) ⊎ (0 < n)
zero_or_more zero = inl refl
zero_or_more (suc n) = inr (omega arith)

Reachable-Inv : (limit : Option ℕ) (m : ℕ) (s : Shared) → Reachable limit m s → Inv limit m s
unfolding sum
Reachable-Inv limit m s start = record {
  same = refl;
  total = refl;
  below_peak = omega arith;
  bounded = Within-zero limit m;
}
Reachable-Inv limit m s (next r t) = Inv-Step limit m t (Reachable-Inv limit m _ r)

-- In every state that reads of at most `m` bytes bring a new budget to, in whatever order they
-- begin and finish, the bytes used are the sum of what the reads hold, the peak is at least that,
-- and under a limit the peak is at most the larger of the limit and `m`.
pub reachable_bound :
    (limit : Option ℕ) (m : ℕ) (s : Shared)
    → Reachable limit m s
    → (s.budget.used ≡ sum s.held) × (s.budget.used ≤ s.budget.peak) × Within limit m s.budget.peak
reachable_bound limit m s r =
    let i = Reachable-Inv limit m s r in (i.total, i.below_peak, i.bounded)

positive_held : (xs : List ℕ) → 0 < sum xs → (k : ℕ) × (ys : List ℕ) × Removes k xs ys × (0 < k)
unfolding sum
positive_held [] h = absurd (omega arith)
positive_held (zero ∷ xs) h =
    let (k, ys, r, p) = positive_held xs (omega arith) in (k, zero ∷ ys, there zero r, p)
positive_held (suc x ∷ xs) h = (suc x, xs, here xs, omega arith)

may_at_zero_of :
    (b : ByteBudget) (limit : Option ℕ) (n : ℕ)
    → b.used ≡ 0
    → may_acquire (record b { limit = limit }) n ≡ true
unfolding may_acquire
may_at_zero_of b none n h = refl
may_at_zero_of b (some limit) n h = ground (arith, h)

may_at_zero : (b : ByteBudget) (n : ℕ) → b.used ≡ 0 → may_acquire b n ≡ true
may_at_zero b n h = may_at_zero_of b b.limit n h

-- In every state that reads bring a new budget to, a read of any size may begin, or another read
-- holds more than no bytes, which it can give back.
pub acquire_progress :
    (limit : Option ℕ) (m n : ℕ) (s : Shared)
    → Reachable limit m s
    → (may_acquire s.budget n ≡ true)
      ⊎ ((k : ℕ) × (rest : List ℕ) × Removes k s.held rest × (0 < k))
acquire_progress limit m n s r = elim (zero_or_more (sum s.held)) [
  | inl z ↦ inl (may_at_zero s.budget n ((Reachable-Inv limit m s r).total ∙ z))
  | inr p ↦ inr (positive_held s.held p)
]
