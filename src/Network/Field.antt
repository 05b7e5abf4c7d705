-- ===== src/Network/Field.antt =====
-- Fields of the number that a packet's bytes write down.
use native.Mathlib.Nat.{mod-eq_of_lt}
use rudp_network.Prelude.{
  ℕ, ◌+◌, ◌-◌, ◌*◌, ◌/◌, ◌%◌, ◌^◌, ◌≤◌, ◌<◌, ◌≡◌, sym, ap, subst, ◌∙◌, arith,
}
use rudp_network.Bits.{two-pow-pos, join-lt, parts_of_sum, mod-two-pow-low, mod-two-pow-high}

-- The low bits of the low bits.
pub cut_low : (x a n : ℕ) → a ≤ n → x % 2 ^ n % 2 ^ a ≡ x % 2 ^ a
cut_low x a n h =
    subst (λ (t : ℕ). x % 2 ^ t % 2 ^ a ≡ x % 2 ^ a) {x = a + (n - a)} (omega arith)
      (mod-two-pow-low x a (n - a))

-- A field depends only on the bits below its end.
pub same_field :
    (x y a m n : ℕ) → a + m ≤ n → x % 2 ^ n ≡ y % 2 ^ n → x / 2 ^ a % 2 ^ m ≡ y / 2 ^ a % 2 ^ m
same_field x y a m n h e =
    sym (mod-two-pow-high x a m)
    ∙ ap (λ (t : ℕ). t / 2 ^ a)
        (sym (cut_low x (a + m) n h) ∙ ap (λ (t : ℕ). t % 2 ^ (a + m)) e ∙ cut_low y (a + m) n h)
    ∙ mod-two-pow-high y a m

-- A field in the middle of a number, and the zeros below one.
pub middle_field :
    (x a m n q : ℕ) → a + m ≤ n → q < 2 ^ m → x % 2 ^ n ≡ 2 ^ a * q → x / 2 ^ a % 2 ^ m ≡ q
middle_field x a m n q h small e =
    let fits : 2 ^ a * q < 2 ^ (a + m) = omega (arith, join-lt a m 0 q (two-pow-pos a) small) in
    let low : x % 2 ^ (a + m) ≡ 2 ^ a * q =
      sym (cut_low x (a + m) n h) ∙ ap (λ (t : ℕ). t % 2 ^ (a + m)) e ∙ mod-eq_of_lt fits in
    sym (mod-two-pow-high x a m)
    ∙ (parts_of_sum a 0 q (x % 2 ^ (a + m)) (two-pow-pos a) (omega (arith, low))).1

pub zeros_below : (x a m n q : ℕ) → a + m ≤ n → x % 2 ^ n ≡ 2 ^ (a + m) * q → x / 2 ^ a % 2 ^ m ≡ 0
zeros_below x a m n q h e =
    let low : x % 2 ^ (a + m) ≡ 0 =
      sym (cut_low x (a + m) n h)
      ∙ (parts_of_sum (a + m) 0 q (x % 2 ^ n) (two-pow-pos (a + m)) (omega (arith, e))).0 in
    sym (mod-two-pow-high x a m)
    ∙ (parts_of_sum a 0 0 (x % 2 ^ (a + m)) (two-pow-pos a) (omega (arith, low))).1
