-- ===== src/Prelude/Ranges.antt =====
-- `range(n)`, and sums over it.
use Prim.Native.Nat.{ℕ, zero, suc, ◌+◌, ◌≤◌, ◌<◌}
use mathlib.Core.Path.{◌≡◌, refl, ap}
use native.Mathlib.Omega.{arith}
use skip_zfp.Prelude.Lists.{length, All}
use mathlib.Core.List.{List, [], ◌∷◌}

-- the `n` numbers from `i` on
unfoldable pub range_from : ℕ → ℕ → List ℕ
range_from i zero = []
range_from i (suc n) = i ∷ range_from (i + 1) n

abbrev pub range : ℕ → List ℕ
range n = range_from 0 n

pub length-range_from : (i n : ℕ) → length (range_from i n) ≡ n
unfolding range_from
length-range_from i zero = refl
length-range_from i (suc n) = ap suc (length-range_from (i + 1) n)

-- A predicate of the numbers from `i` below `j` holds along the range.
pub All-range_from {ℓ} :
    (P : ℕ → Type ℓ) (i n j : ℕ)
    → i + n ≡ j
    → ((k : ℕ) → i ≤ k → k < j → P k)
    → All P (range_from i n)
unfolding range_from
All-range_from P i zero j e h = tt
All-range_from P i (suc n) j e h = (
  h i (omega arith) (omega arith),
  All-range_from P (i + 1) n j (omega arith) (λ k p q. h k (omega arith) q),
)

pub All-range {ℓ} : (P : ℕ → Type ℓ) (n : ℕ) → ((k : ℕ) → k < n → P k) → All P (range n)
All-range P n h = All-range_from P 0 n n (omega arith) (λ k p q. h k q)
