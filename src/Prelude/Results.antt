-- ===== src/Prelude/Results.antt =====
-- Python's exceptions: a function that may raise returns a `Result`.
use mathlib.Core.Path.{◌≡◌, refl, ap, ◌∙◌}
use native.Mathlib.Omega.{arith}
use mathlib.Core.Bool.{Bool, true, false}
use mathlib.Core.List.{List, [], ◌∷◌}
use Prim.Native.String.{String}

-- the exception classes that the package raises, with the message's fixed text
pub data Error : Type 0 where
  value_error type_error runtime_error file_not_found os_error index_error zero_division :
      String → Error

-- a call's value, or the exception that it raised
pub data Result {ℓ} (A : Type ℓ) : Type ℓ where
  err : Error → Result A
  ok : A → Result A

infixl 5 ◌>>=◌ ◌>>◌
abbrev pub ◌>>=◌ {ℓ κ} : {A : Type ℓ} {B : Type κ} → Result A → (A → Result B) → Result B
err raised >>= next = err raised
ok value >>= next = next value

-- a statement, and what follows it
abbrev pub ◌>>◌ {ℓ} : {B : Type ℓ} → Result (Unit {0}) → Result B → Result B
statement >> rest = statement >>= λ done. rest

-- `if bad: raise e`
abbrev pub raise_if : Bool → Error → Result (Unit {0})
raise_if true e = err e
raise_if false e = ok tt

-- a list of results in order, or the first error: a loop that raises
abbrev pub sequence {ℓ} : {A : Type ℓ} → List (Result A) → Result (List A)
sequence [] = ok []
sequence (m ∷ ms) = m >>= λ a. sequence ms >>= λ r. ok (a ∷ r)

pub sequence-cons {ℓ} :
    {A : Type ℓ} (m : Result A) (ms : List (Result A)) (a : A) (r : List A)
    → m ≡ ok a
    → sequence ms ≡ ok r
    → sequence (m ∷ ms) ≡ ok (a ∷ r)
sequence-cons (ok b) ms a r h k =
    ap (λ (t : Result (List _)). t >>= λ q. ok (b ∷ q)) k ∙ (ground arith)
sequence-cons (err e) ms a r h k = cc

-- the call raises
abbrev pub is_err {ℓ} : {A : Type ℓ} → Result A → Bool
is_err (ok a) = false
is_err (err e) = true

-- A guard that did not raise.
pub raise_if-ok {ℓ} :
    {A : Type ℓ} (b : Bool) (e : Error) (k : Result A) {a : A}
    → (raise_if b e >> k) ≡ ok a
    → (b ≡ false) × (k ≡ ok a)
raise_if-ok true e k h = cc
raise_if-ok false e k h = (refl, h)

-- A call and what follows it have returned.
pub bind_inv {ℓ κ} :
    {A : Type ℓ} {B : Type κ} (call : Result A) {next : A → Result B} {b : B}
    → (call >>= next) ≡ ok b
    → (value : A) × (call ≡ ok value) × (next value ≡ ok b)
bind_inv (err raised) returned = cc
bind_inv (ok value) returned = (value, refl, returned)
