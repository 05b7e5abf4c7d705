-- ===== src/Bits/Or.antt =====
-- `|` as arithmetic: with a shift, and with ones.
use native.Mathlib.Nat.{div-eq_of_lt, div-lt_iff_lt-mul}
use rudp_network.Prelude.{
  ℕ, zero, suc, ◌+◌, ◌*◌, ◌/◌, ◌%◌, ◌^◌, ◌<◌, ◌≡◌, ◌∙◌, sym, ap, ap₂, arith, bit_or, low_mask, max,
}
use rudp_network.Bits.{
  two-pow-pos, two-pow-suc, two-pow-add, div-two-pow-add, parts_of_sum, half_mask, zero-bit_or,
  bit_or_comm,
}
use rudp_network.Bits.Digit.{bit_or_digit}

max-lt : (a b : ℕ) → a < 2 → b < 2 → max a b < 2
max-lt a b h k = omega arith

max_one : (a : ℕ) → a < 2 → max a 1 ≡ 1
max_one a h = omega arith

half_or : (x y : ℕ) → bit_or x y / 2 ≡ bit_or (x / 2) (y / 2)
half_or x y = omega (arith, bit_or_digit x y, max-lt (x % 2) (y % 2) (omega arith) (omega arith))

half_first : (x k : ℕ) → x / 2 ^ suc k ≡ x / 2 / 2 ^ k
half_first x k =
    ap (λ (t : ℕ). x / 2 ^ t) {x = suc k} {y = 1 + k} (omega arith) ∙ div-two-pow-add x 1 k

-- The bits above the low `k`.
pub bit_or-div : (k x y : ℕ) → bit_or x y / 2 ^ k ≡ bit_or (x / 2 ^ k) (y / 2 ^ k)
bit_or-div zero x y =
    omega (arith, ap₂ bit_or {x = x / 1} {y = x} {u = y / 1} {v = y} (omega arith) (omega arith))
bit_or-div (suc k) x y =
    half_first (bit_or x y) k
    ∙ ap (λ (t : ℕ). t / 2 ^ k) (half_or x y)
    ∙ bit_or-div k (x / 2) (y / 2)
    ∙ ap₂ bit_or (sym (half_first x k)) (sym (half_first y k))

pub bit_or-lt : (k x y : ℕ) → x < 2 ^ k → y < 2 ^ k → bit_or x y < 2 ^ k
bit_or-lt k x y h g =
    let none : bit_or x y / 2 ^ k ≡ 0 =
      bit_or-div k x y ∙ ap₂ bit_or (div-eq_of_lt h) (div-eq_of_lt g) in
    omega
      (arith, (div-lt_iff_lt-mul {x = bit_or x y} {y = 1} (two-pow-pos k)).0 (omega (arith, none)))

-- With `k` ones, the low bits are all set.
pub bit_or-low_mask : (k x : ℕ) → bit_or x (low_mask k) ≡ x / 2 ^ k * 2 ^ k + low_mask k
bit_or-low_mask zero x = bit_or_comm x 0 ∙ zero-bit_or x ∙ omega arith
bit_or-low_mask (suc k) x = omega (
  arith,
  bit_or_digit x (low_mask (suc k)),
  two-pow-suc k,
  two-pow-pos k,
  max_one (x % 2) (omega arith),
  ap (max (x % 2)) {x = low_mask (suc k) % 2} {y = 1} (omega (arith, two-pow-suc k, two-pow-pos k)),
  ap (bit_or (x / 2)) (half_mask k),
  bit_or-low_mask k (x / 2),
  half_first x k,
  ap (λ (t : ℕ). x / 2 / 2 ^ k * t) (two-pow-suc k),
  ap (λ (t : ℕ). t * 2 ^ suc k) (half_first x k),
)

-- The ones above the low `d`.
pub low_mask-div : (d e : ℕ) → low_mask (d + e) / 2 ^ d ≡ low_mask e
low_mask-div d e =
    (parts_of_sum d (low_mask d) (low_mask e) (low_mask (d + e)) (omega (arith, two-pow-pos d)) (
      omega (
        arith,
        two-pow-add d e,
        two-pow-pos d,
        ap (λ (t : ℕ). 2 ^ d * t) {x = 2 ^ e} {y = low_mask e + 1} (omega (arith, two-pow-pos e)),
      ))).1
