-- ===== src/Prelude/Divide.antt =====
-- A number below a product, as a quotient and a remainder.
use Prim.Native.Nat.{ℕ, zero, suc, ◌+◌, ◌*◌, ◌/◌, ◌%◌, ◌<◌}
use mathlib.Core.Path.{◌≡◌}
use native.Mathlib.Omega.{arith, div_any}
use native.Mathlib.Nat.{div-lt_iff_lt-mul, mod-lt}

divisor_pos : (n u : ℕ) {b : ℕ} → b < n * u → 0 < u
divisor_pos n zero h = absurd (omega arith)
divisor_pos n (suc u) h = omega arith

pub split_below : (b n u : ℕ) → b < n * u → (q : ℕ) × (r : ℕ) × (q < n) × (r < u) × (q * u + r ≡ b)
split_below b n u h =
    let pos_u : 0 < u = divisor_pos n u h in
    (b / u, b % u, (div-lt_iff_lt-mul pos_u).1 h, mod-lt b pos_u, omega (arith, div_any b u))
