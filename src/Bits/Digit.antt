-- ===== src/Bits/Digit.antt =====
-- One binary digit of `&`, `|` and `^`, from the digit recursion that the native operations stand for.
use Prim.Native.Nat.{
  min, max, digits, differ, bitwise, bit_and-bitwise, bit_or-bitwise, bit_xor-bitwise,
}
use native.Mathlib.Nat.{le_refl}
use rudp_network.Prelude.{
  ℕ, zero, suc, ◌+◌, ◌*◌, ◌/◌, ◌%◌, ◌≤◌, bit_and, bit_or, bit_xor, ◌≡◌, refl, arith,
}

module _ (only : ℕ → ℕ) (join : ℕ → ℕ → ℕ) where
  -- Any fuel from the first operand up gives one result.
  enough_fuel : (f g x y : ℕ) → x ≤ f → x ≤ g → digits only join f x y ≡ digits only join g x y
  enough_fuel zero zero x y p q = refl
  enough_fuel zero (suc g) zero y p q = refl
  enough_fuel zero (suc g) (suc x) y p q = absurd (omega arith)
  enough_fuel (suc f) zero zero y p q = refl
  enough_fuel (suc f) zero (suc x) y p q = absurd (omega arith)
  enough_fuel (suc f) (suc g) zero y p q = refl
  enough_fuel (suc f) (suc g) (suc x) y p q =
      rw (enough_fuel f g (suc x / 2) (y / 2) (omega arith) (omega arith))

  low_digit :
      (x y : ℕ)
      → bitwise only join (suc x) y
        ≡ bitwise only join (suc x / 2) (y / 2) * 2 + join (suc x % 2) (y % 2)
  low_digit x y =
      omega (arith, enough_fuel x (suc x / 2) (suc x / 2) (y / 2) (omega arith) (le_refl _))

pub bit_or_digit : (x y : ℕ) → bit_or x y ≡ bit_or (x / 2) (y / 2) * 2 + max (x % 2) (y % 2)
bit_or_digit zero y = simp bit_or-bitwise (omega arith)
bit_or_digit (suc x) y = simp bit_or-bitwise (low_digit (λ d. d) max x y)

pub bit_and_digit : (x y : ℕ) → bit_and x y ≡ bit_and (x / 2) (y / 2) * 2 + min (x % 2) (y % 2)
bit_and_digit zero y = simp bit_and-bitwise (omega arith)
bit_and_digit (suc x) y = simp bit_and-bitwise (low_digit (λ d. 0) min x y)

pub bit_xor_digit : (x y : ℕ) → bit_xor x y ≡ bit_xor (x / 2) (y / 2) * 2 + differ (x % 2) (y % 2)
bit_xor_digit zero y = simp bit_xor-bitwise (omega arith)
bit_xor_digit (suc x) y = simp bit_xor-bitwise (low_digit (λ d. d) differ x y)
