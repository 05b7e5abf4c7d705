-- ===== src/Bits.antt =====
-- Laws of `&`, `|` and `^` as arithmetic, and of division by powers of two.
mod Digit
pub mod Or
use Digit.{bit_or_digit, bit_and_digit, bit_xor_digit}
use mathlib.Core.WellFounded
use Prim.Native.Nat.{differ, bit_or-bitwise}
use native.Mathlib.Nat.{
  add-zero, add-suc, pow-zero, pow-suc, one-le-pow, div-div-eq-div-mul, div-add-mod, mod-lt,
  mul-le-mul_left, pow-le-pow_right, div-lt_iff_lt-mul,
}
use native.Mathlib.Nat.{add-mul-mod_self_left, add-mul-div_left, mod-eq_of_lt, div-eq_of_lt}
use rudp_network.Prelude.{
  ℕ, zero, suc, ◌+◌, ◌-◌, ◌*◌, ◌/◌, ◌%◌, ◌^◌, ◌≤◌, ◌<◌, bit_and, bit_or, bit_xor, ◌≡◌, refl, sym,
  ap, ap₂, subst, ◌∙◌, arith, low_mask,
}
use rudp_network.Prelude.Order.{lt_wf}

pub two-pow-pos : (k : ℕ) → 0 < 2 ^ k
two-pow-pos k = one-le-pow k 2 (omega arith)

pub two-pow-suc : (k : ℕ) → 2 ^ suc k ≡ 2 * 2 ^ k
two-pow-suc k = omega (arith, pow-suc 2 k)

pub two-pow-add : (a b : ℕ) → 2 ^ (a + b) ≡ 2 ^ a * 2 ^ b
two-pow-add a zero = simp (add-zero, pow-zero) (omega arith)
two-pow-add a (suc b) = rw add-suc (
    omega (
      arith,
      two-pow-suc (a + b),
      two-pow-suc b,
      two-pow-add a b,
      ap (λ (t : ℕ). 2 ^ a * t) (two-pow-suc b),
    ))

pub div-two-pow-add : (x a b : ℕ) → x / 2 ^ (a + b) ≡ x / 2 ^ a / 2 ^ b
div-two-pow-add x a b = rw two-pow-add (sym (div-div-eq-div-mul x (2 ^ a) (2 ^ b)))

-- The low `a + b` bits are the low `a` bits and, above them, the next `b`.
pub mod-two-pow-add : (x a b : ℕ) → x % 2 ^ (a + b) ≡ x % 2 ^ a + 2 ^ a * (x / 2 ^ a % 2 ^ b)
mod-two-pow-add x a b =
    let q : ℕ = x / 2 ^ a in
    omega (
      arith,
      div-add-mod x (2 ^ (a + b)),
      div-add-mod x (2 ^ a),
      div-add-mod q (2 ^ b),
      ap (λ (t : ℕ). 2 ^ (a + b) * t) (div-two-pow-add x a b),
      ap (λ (t : ℕ). t * (q / 2 ^ b)) (two-pow-add a b),
      ap (λ (t : ℕ). 2 ^ a * t) (div-add-mod q (2 ^ b)),
    )

-- A number is cut into its low `k` bits and the rest in one way.
pub parts_of_sum : (k r q x : ℕ) → r < 2 ^ k → x ≡ r + 2 ^ k * q → (x % 2 ^ k ≡ r) × (x / 2 ^ k ≡ q)
parts_of_sum k r q x h e = (
  rw e (add-mul-mod_self_left r (2 ^ k) q ∙ mod-eq_of_lt h),
  rw e
      (add-mul-div_left r q (two-pow-pos k) ∙ ap (λ (t : ℕ). t + q) (div-eq_of_lt h) ∙ omega arith),
)

-- Two fields side by side fit the width of both.
pub join-lt : (a b r q : ℕ) → r < 2 ^ a → q < 2 ^ b → r + 2 ^ a * q < 2 ^ (a + b)
join-lt a b r q h k = omega (arith, two-pow-add a b, mul-le-mul_left (2 ^ a) k)

-- The low bits of the low bits, and the bits above them.
pub mod-two-pow-low : (x k d : ℕ) → x % 2 ^ (k + d) % 2 ^ k ≡ x % 2 ^ k
mod-two-pow-low x k d =
    (parts_of_sum k (x % 2 ^ k) (x / 2 ^ k % 2 ^ d) (x % 2 ^ (k + d)) (mod-lt x (two-pow-pos k))
      (mod-two-pow-add x k d)).0

pub mod-two-pow-high : (x k d : ℕ) → x % 2 ^ (k + d) / 2 ^ k ≡ x / 2 ^ k % 2 ^ d
mod-two-pow-high x k d =
    (parts_of_sum k (x % 2 ^ k) (x / 2 ^ k % 2 ^ d) (x % 2 ^ (k + d)) (mod-lt x (two-pow-pos k))
      (mod-two-pow-add x k d)).1

pub two-pow_mono : {a b : ℕ} → a ≤ b → 2 ^ a ≤ 2 ^ b
two-pow_mono h = pow-le-pow_right (omega arith) h

-- What is left above the low `a` bits.
pub high-lt : (a b x : ℕ) → x < 2 ^ (a + b) → x / 2 ^ a < 2 ^ b
high-lt a b x h = (div-lt_iff_lt-mul (two-pow-pos a)).1 (omega (arith, two-pow-add a b))

pub mod-two-pow-suc : (x k : ℕ) → x % 2 ^ suc k ≡ x % 2 + 2 * (x / 2 % 2 ^ k)
mod-two-pow-suc x k =
    subst (λ (e : ℕ). x % 2 ^ e ≡ x % 2 + 2 * (x / 2 % 2 ^ k)) (omega arith) (mod-two-pow-add x 1 k)

pub zero-bit_or : (y : ℕ) → bit_or 0 y ≡ y
zero-bit_or y = bit_or-bitwise 0 y

mul-two-pow-suc : (k q : ℕ) → q * 2 ^ suc k ≡ 2 * (q * 2 ^ k)
mul-two-pow-suc k q = omega (arith, ap (λ (t : ℕ). q * t) (two-pow-suc k))

half : (k q : ℕ) → q * 2 ^ suc k / 2 ≡ q * 2 ^ k
half k q = omega (arith, mul-two-pow-suc k q)

-- No digit is set in both: `|` is a sum.
pub bit_or-eq-add : (k r q : ℕ) → r < 2 ^ k → bit_or r (q * 2 ^ k) ≡ r + 2 ^ k * q
bit_or-eq-add zero r q h = let e : r ≡ 0 = omega arith in rw e (omega (arith, zero-bit_or (q * 1)))
bit_or-eq-add (suc k) r q h = omega (
  arith,
  bit_or_digit r (q * 2 ^ suc k),
  ap (λ (t : ℕ). q * t) (two-pow-suc k),
  two-pow-suc k,
  bit_or-eq-add k (r / 2) q (omega (arith, two-pow-suc k)),
  ap (bit_or (r / 2)) (half k q),
)

pub bit_or_comm : (x y : ℕ) → bit_or x y ≡ bit_or y x
bit_or_comm x y = go (suc (x + y)) x y (omega arith)
  where
    go : (f x y : ℕ) → x + y < f → bit_or x y ≡ bit_or y x
    go zero x y h = absurd (omega arith)
    go (suc f) zero zero h = refl
    go (suc f) (suc x) y h = omega (
      arith,
      bit_or_digit (suc x) y,
      bit_or_digit y (suc x),
      go f (suc x / 2) (y / 2) (omega arith),
    )
    go (suc f) zero (suc y) h = omega (
      arith,
      bit_or_digit zero (suc y),
      bit_or_digit (suc y) zero,
      go f (0 / 2) (suc y / 2) (omega arith),
    )

bit_and-zero : (x : ℕ) → bit_and x 0 ≡ 0
bit_and-zero x = WellFounded.induction lt_wf x go
  where
    go : (n : ℕ) → ((m : ℕ) → m < n → bit_and m 0 ≡ 0) → bit_and n 0 ≡ 0
    go zero ih = refl
    go (suc n) ih = omega (arith, bit_and_digit (suc n) 0, ih (suc n / 2) (omega arith))

pub half_mask : (k : ℕ) → low_mask (suc k) / 2 ≡ low_mask k
half_mask k = omega (arith, two-pow-suc k, two-pow-pos k)

-- A mask of `k` ones keeps the remainder by `2 ^ k`.
pub bit_and-low_mask : (k x : ℕ) → bit_and x (low_mask k) ≡ x % 2 ^ k
bit_and-low_mask zero x = simp pow-zero (omega (arith, bit_and-zero x))
bit_and-low_mask (suc k) x = omega (
  arith,
  bit_and_digit x (low_mask (suc k)),
  two-pow-suc k,
  two-pow-pos k,
  bit_and-low_mask k (x / 2),
  ap (bit_and (x / 2)) (half_mask k),
  mod-two-pow-suc x k,
)

-- A mask whose `j` low bits are clear.
pub bit_and-shift : (j x m : ℕ) → bit_and x (m * 2 ^ j) ≡ bit_and (x / 2 ^ j) m * 2 ^ j
bit_and-shift zero x m =
    ap₂ bit_and {x = x} {y = x / 1} {u = m * 1} {v = m} (omega arith) (omega arith) ∙ omega arith
bit_and-shift (suc j) x m =
    let mask : m * 2 ^ suc j ≡ 2 * (m * 2 ^ j) =
      omega (arith, ap (λ (t : ℕ). m * t) (two-pow-suc j)) in
    let half : m * 2 ^ suc j / 2 ≡ m * 2 ^ j = omega (arith, mask) in
    let further : x / 2 / 2 ^ j ≡ x / 2 ^ suc j =
      sym (div-two-pow-add x 1 j)
      ∙ ap (λ (t : ℕ). x / 2 ^ t) {x = 1 + j} {y = suc j} (omega arith) in
    let inner : bit_and (x / 2) (m * 2 ^ suc j / 2) ≡ bit_and (x / 2 ^ suc j) m * 2 ^ j =
      ap (bit_and (x / 2)) half
      ∙ bit_and-shift j (x / 2) m
      ∙ ap (λ (t : ℕ). bit_and t m * 2 ^ j) further in
    omega (
      arith,
      bit_and_digit x (m * 2 ^ suc j),
      mask,
      inner,
      ap (λ (t : ℕ). bit_and (x / 2 ^ suc j) m * t) (two-pow-suc j),
    )

differ_digits : (a b : ℕ) → a < 2 → b < 2 → (differ a b < 2) × (differ (differ a b) b ≡ a)
differ_digits zero zero p q = omega arith
differ_digits zero (suc zero) p q = omega arith
differ_digits (suc zero) zero p q = omega arith
differ_digits (suc zero) (suc zero) p q = omega arith
differ_digits (suc (suc a)) b p q = absurd (omega arith)
differ_digits zero (suc (suc b)) p q = absurd (omega arith)
differ_digits (suc zero) (suc (suc b)) p q = absurd (omega arith)

pub bit_xor-lt : (k x m : ℕ) → x < 2 ^ k → m < 2 ^ k → bit_xor x m < 2 ^ k
bit_xor-lt zero x m h hm =
    let e : x ≡ 0 = omega arith in let f : m ≡ 0 = omega arith in rw (e, f) (omega arith)
bit_xor-lt (suc k) x m h hm = omega (
  arith,
  two-pow-suc k,
  bit_xor_digit x m,
  differ_digits (x % 2) (m % 2) (omega arith) (omega arith),
  bit_xor-lt k (x / 2) (m / 2) (omega (arith, two-pow-suc k)) (omega (arith, two-pow-suc k)),
)

-- Xor with a mask is an involution.
pub bit_xor-bit_xor : (k x m : ℕ) → x < 2 ^ k → m < 2 ^ k → bit_xor (bit_xor x m) m ≡ x
bit_xor-bit_xor zero x m h hm =
    let e : x ≡ 0 = omega arith in let f : m ≡ 0 = omega arith in rw (e, f)
bit_xor-bit_xor (suc k) x m h hm =
    let d : (differ (x % 2) (m % 2) < 2) × (differ (differ (x % 2) (m % 2)) (m % 2) ≡ x % 2) =
      differ_digits (x % 2) (m % 2) (omega arith) (omega arith) in
    let high : bit_xor x m / 2 ≡ bit_xor (x / 2) (m / 2) = omega (arith, bit_xor_digit x m) in
    let low : bit_xor x m % 2 ≡ differ (x % 2) (m % 2) = omega (arith, bit_xor_digit x m) in
    omega (
      arith,
      bit_xor_digit (bit_xor x m) m,
      ap (λ (t : ℕ). bit_xor t (m / 2)) high,
      ap (λ (t : ℕ). differ t (m % 2)) low,
      bit_xor-bit_xor k (x / 2) (m / 2) (omega (arith, two-pow-suc k))
          (omega (arith, two-pow-suc k)),
    )

differ_one : (a : ℕ) → a < 2 → differ a 1 ≡ 1 - a
differ_one zero h = refl
differ_one (suc zero) h = refl
differ_one (suc (suc a)) h = absurd (omega arith)

differ_zero : (a : ℕ) → a < 2 → differ a 0 ≡ a
differ_zero zero h = refl
differ_zero (suc zero) h = refl
differ_zero (suc (suc a)) h = absurd (omega arith)

-- Xor with ones flips every bit, and with zeros none.
pub bit_xor-low_mask : (k x : ℕ) → x < 2 ^ k → bit_xor x (low_mask k) ≡ low_mask k - x
bit_xor-low_mask zero x h = let e : x ≡ 0 = omega arith in rw e refl
bit_xor-low_mask (suc k) x h = omega (
  arith,
  bit_xor_digit x (low_mask (suc k)),
  two-pow-suc k,
  two-pow-pos k,
  differ_one (x % 2) (omega arith),
  ap (differ (x % 2)) {x = low_mask (suc k) % 2} {y = 1}
      (omega (arith, two-pow-suc k, two-pow-pos k)),
  ap (bit_xor (x / 2)) (half_mask k),
  bit_xor-low_mask k (x / 2) (omega (arith, two-pow-suc k)),
)

pub bit_xor-zero : (k x : ℕ) → x < 2 ^ k → bit_xor x 0 ≡ x
bit_xor-zero zero x h = let e : x ≡ 0 = omega arith in rw e refl
bit_xor-zero (suc k) x h = omega (
  arith,
  bit_xor_digit x 0,
  differ_zero (x % 2) (omega arith),
  bit_xor-zero k (x / 2) (omega (arith, two-pow-suc k)),
)
