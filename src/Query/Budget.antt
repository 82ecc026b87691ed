-- ===== src/Query/Budget.antt =====
-- skipzfp/query.py: ByteBudget, as steps of the reads that share it. A condition variable runs one
-- of them at a time, so the reads interleave step by step.
pub mod Bound
use skip_zfp.Prelude.{
  ℕ, ◌+◌, ◌-◌, ◌≤◌, ◌<◌, ◌≡◌, refl, ap, Bool, true, false, ◌||◌, Option, none, some, List, [], ◌∷◌,
  leb, ◌==◌, max, sum, ◌⊎◌, inl, inr, arith, length,
}

-- The fields `limit`, `used` and `peak`; `held` is what the reads in between hold, in any order.
pub record ByteBudget : Type 0 where
  pub limit : Option ℕ
  pub used : ℕ
  pub peak : ℕ

-- `ByteBudget(limit)`
abbrev pub new_budget : Option ℕ → ByteBudget
new_budget limit = record { limit = limit; used = 0; peak = 0 }

-- what `acquire` waits for
unfoldable pub may_acquire : ByteBudget → ℕ → Bool
may_acquire b n = elim b.limit [ none ↦ true | some limit ↦ b.used == 0 || leb (b.used + n) limit ]

-- the rest of `acquire`, once it may, and `release`
unfoldable pub acquire : ByteBudget → ℕ → ByteBudget
acquire b n = record b { used = b.used + n; peak = max b.peak (b.used + n) }

unfoldable pub release : ByteBudget → ℕ → ByteBudget
release b n = record b { used = b.used - n }

-- a budget with the sizes of the reads that hold a part of it
pub record Shared : Type 0 where
  pub budget : ByteBudget
  pub held : List ℕ

-- `ys` is `xs` without one `n`
pub data Removes (n : ℕ) : List ℕ → List ℕ → Type 0 where
  here : (xs : List ℕ) → Removes n (n ∷ xs) xs
  there : (x : ℕ) {xs ys : List ℕ} → Removes n xs ys → Removes n (x ∷ xs) (x ∷ ys)

-- The reads are of at most `m` bytes. One begins once it may, and one that holds its size gives it
-- back; a read that fails does too, as the release stands in `finally`.
pub data Step (m : ℕ) : Shared → Shared → Type 0 where
  begin :
      (s : Shared) (n : ℕ)
      → n ≤ m
      → may_acquire s.budget n ≡ true
      → Step m s (record { budget = acquire s.budget n; held = n ∷ s.held })
  finish :
      (s : Shared) (n : ℕ) (rest : List ℕ)
      → Removes n s.held rest
      → Step m s (record { budget = release s.budget n; held = rest })

-- the states that a new budget comes to
pub data Reachable (limit : Option ℕ) (m : ℕ) : Shared → Type 0 where
  start : Reachable limit m (record { budget = new_budget limit; held = [] })
  next : {s t : Shared} → Reachable limit m s → Step m s t → Reachable limit m t
