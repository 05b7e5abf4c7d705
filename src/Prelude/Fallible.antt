-- ===== src/Prelude/Fallible.antt =====
-- Computations that may fault: `none` is a failed assert or an operation that C++ leaves undefined.
use mathlib.Core.Bool.{Bool, true, false}
use mathlib.Core.Option.{Option, none, some}

infixl 5 ◌>>=◌
abbrev pub ◌>>=◌ {ℓ κ} : {A : Type ℓ} {B : Type κ} → Option A → (A → Option B) → Option B
none >>= f = none
some a >>= f = f a

-- `assert(b); k`
abbrev pub assert {ℓ} : {A : Type ℓ} → Bool → Option A → Option A
assert true k = k
assert false k = none

-- The result of a member function that returns a bool: the bool, the stream and the value that
-- the call may have stored.
pub record Step (S V : Type 0) : Type 0 where
  pub ok : Bool
  pub stream : S
  pub value : V
