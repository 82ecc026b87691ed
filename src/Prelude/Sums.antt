-- ===== src/Prelude/Sums.antt =====
-- Sums and products of lists of numbers.
use Prim.Native.Nat.{ℕ, ◌+◌, ◌*◌}
use mathlib.Core.Path.{◌≡◌, refl}
use mathlib.Core.List.{List, [], ◌∷◌, ◌++◌}
use native.Mathlib.Omega.{arith}

unfoldable pub sum : List ℕ → ℕ
sum [] = 0
sum (x ∷ xs) = x + sum xs

-- `np.prod`
unfoldable pub prod : List ℕ → ℕ
prod [] = 1
prod (x ∷ xs) = x * prod xs

pub sum-append : (xs ys : List ℕ) → sum (xs ++ ys) ≡ sum xs + sum ys
unfolding sum
sum-append [] ys = omega arith
sum-append (x ∷ xs) ys = omega (arith, sum-append xs ys)

pub sum-cons : (x : ℕ) (xs : List ℕ) → sum (x ∷ xs) ≡ x + sum xs
unfolding sum
sum-cons x xs = refl

-- `np.cumsum`, starting at `acc`
unfoldable pub cumsum_from : ℕ → List ℕ → List ℕ
cumsum_from acc [] = []
cumsum_from acc (x ∷ xs) = (acc + x) ∷ cumsum_from (acc + x) xs

abbrev pub cumsum : List ℕ → List ℕ
cumsum xs = cumsum_from 0 xs
