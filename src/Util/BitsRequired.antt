-- ===== src/Util/BitsRequired.antt =====
-- svr/library/networking/NetworkUtil.h: bits_required, in the form that GCC compiles.
use native.Mathlib.Decide.{dec_le}
use rudp_network.Prelude.{
  ℕ, zero, suc, ◌+◌, ◌-◌, ◌%◌, ◌^◌, ◌≤◌, ◌<◌, ◌≡◌, arith, leb, ◌==◌, if◌then◌else◌, Option, none,
  some, ◌>>=◌, subst, sym,
}

-- The zero bits of `x` above its highest one, of `k`.
leading_zeros : ℕ → ℕ → ℕ
leading_zeros zero x = 0
leading_zeros (suc k) x = if leb (2 ^ k) x then 0 else suc (leading_zeros k x)

-- GCC's __builtin_clz of a 32-bit value: undefined at 0.
unfoldable pub builtin_clz : ℕ → Option ℕ
unfolding leading_zeros
builtin_clz x = if x == 0 then none else some (leading_zeros 32 x)

-- `none` where the two are equal.
unfoldable pub bits_required : ℕ → ℕ → Option ℕ
unfolding builtin_clz
bits_required min max = do zeros ← builtin_clz ((max + 2 ^ 32 - min) % 2 ^ 32); some (32 - zeros)

-- With `z` of `k` bits clear above it, `x` has `k - z` bits.
abbrev Bounds : ℕ → ℕ → ℕ → Type 0
Bounds k x z = (z < k) × (x < 2 ^ (k - z)) × (2 ^ (k - z - 1) ≤ x)

leading_zeros-Bounds : (k x : ℕ) → 0 < x → x < 2 ^ k → Bounds k x (leading_zeros k x)
unfolding leading_zeros
leading_zeros-Bounds zero x p h = absurd (omega arith)
leading_zeros-Bounds (suc k) x p h = elim (dec_le (2 ^ k) x) [
  | yes big ↦
      let e : leading_zeros (suc k) x ≡ 0 = unfold leading_zeros in ground arith in
      let e' : suc k - 0 - 1 ≡ k = omega arith in
      let e'' : suc k ≡ suc k - 0 = omega arith in
      subst (Bounds (suc k) x) (sym e)
        (omega arith, subst (λ (t : ℕ). x < 2 ^ t) e'' h, subst (λ (t : ℕ). 2 ^ t ≤ x) (sym e') big)
  | no small ↦
      let z : ℕ = leading_zeros k x in
      let e : leading_zeros (suc k) x ≡ suc z = unfold leading_zeros in ground arith in
      let ih : Bounds k x z = leading_zeros-Bounds k x p (omega arith) in
      let e' : suc k - suc z ≡ k - z = omega arith in
      subst (Bounds (suc k) x) (sym e) (
        omega (arith, ih.0),
        subst (λ (t : ℕ). x < 2 ^ t) (sym e') ih.1,
        subst (λ (t : ℕ). 2 ^ (t - 1) ≤ x) (sym e') ih.2,
      )
]

-- The result is the width of the range: between 1 and 32, and enough for `max - min`, but one bit
-- less is not.
pub record IsWidth (d bits : ℕ) : Type 0 where
  pub pos_bits : 0 < bits
  pub word_bits : bits ≤ 32
  pub enough : d < 2 ^ bits
  pub needed : 2 ^ (bits - 1) ≤ d

-- For two bounds that differ modulo 2^32, bits_required is defined and gives the least number of
-- bits, between 1 and 32, that holds their difference.
pub bits_required-IsWidth :
    (min max : ℕ)
    → 0 < (max + 2 ^ 32 - min) % 2 ^ 32
    → (bits : ℕ) × (bits_required min max ≡ some bits)
      × IsWidth ((max + 2 ^ 32 - min) % 2 ^ 32) bits
unfolding bits_required
bits_required-IsWidth min max h =
    let d : ℕ = (max + 2 ^ 32 - min) % 2 ^ 32 in
    let b : Bounds 32 d (leading_zeros 32 d) = leading_zeros-Bounds 32 d h (omega arith) in
    (
      32 - leading_zeros 32 d,
      ground arith,
      record { pos_bits = omega (arith, b.0); word_bits = omega arith; enough = b.1; needed = b.2 },
    )
