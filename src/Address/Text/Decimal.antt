-- ===== src/Address/Text/Decimal.antt =====
-- Numbers in decimal, as snprintf prints them and atoi reads them.
use native.Mathlib.Nat.{pow-suc}
use native.Mathlib.Decide.{dec_lt}
use rudp_network.Prelude.{
  ℕ, zero, suc, ◌+◌, ◌*◌, ◌/◌, ◌%◌, ◌^◌, ◌≤◌, ◌<◌, ◌≡◌, ◌∙◌, refl, sym, ap, subst, arith, List, [],
  ◌∷◌, ◌++◌, true, false, ◌&&◌, ltb, leb, length, u16, lt→ltb,
}
use rudp_network.Address.Text.Port.{Plain}
use rudp_network.Address.Text.{digits_from, atoi_u16, decimal}

-- A number starts with a digit.
abbrev pub Starts : List ℕ → Type 0
Starts cs = (c : ℕ) × (rest : List ℕ) × (cs ≡ c ∷ rest) × (48 ≤ c) × (c < 58)

decimal_small : (fuel n : ℕ) (rest : List ℕ) → n < 10 → decimal (suc fuel) n rest ≡ (48 + n) ∷ rest
unfolding decimal
decimal_small fuel n rest h = rw (lt→ltb n 10 h) refl

decimal_big :
    (fuel n : ℕ) (rest : List ℕ)
    → 10 ≤ n
    → decimal (suc fuel) n rest ≡ decimal fuel (n / 10) ((48 + n % 10) ∷ rest)
unfolding decimal
decimal_big fuel n rest h = let e : ltb n 10 ≡ false = ground arith in rw e refl

pub decimal-Plain : (fuel n : ℕ) (rest : List ℕ) → Plain rest → Plain (decimal fuel n rest)
decimal-Plain zero n rest h = unfold decimal in h
decimal-Plain (suc fuel) n rest h = elim (dec_lt n 10) [
  | yes small ↦ subst Plain (sym (decimal_small fuel n rest small)) (omega arith, omega arith, h)
  | no big ↦
      subst Plain (sym (decimal_big fuel n rest (omega arith)))
        (decimal-Plain fuel (n / 10) ((48 + n % 10) ∷ rest) (omega arith, omega arith, h))
]

decimal-Starts_behind :
    (fuel n c : ℕ) (rest : List ℕ) → 48 ≤ c → c < 58 → Starts (decimal fuel n (c ∷ rest))
decimal-Starts_behind zero n c rest h k = unfold decimal in (c, rest, refl, h, k)
decimal-Starts_behind (suc fuel) n c rest h k = elim (dec_lt n 10) [
  | yes small ↦ (48 + n, c ∷ rest, decimal_small fuel n (c ∷ rest) small, omega arith, omega arith)
  | no big ↦
      subst Starts (sym (decimal_big fuel n (c ∷ rest) (omega arith)))
        (decimal-Starts_behind fuel (n / 10) (48 + n % 10) (c ∷ rest) (omega arith) (omega arith))
]

pub decimal-Starts : (fuel n : ℕ) (rest : List ℕ) → Starts (decimal (suc fuel) n rest)
decimal-Starts fuel n rest = elim (dec_lt n 10) [
  | yes small ↦ (48 + n, rest, decimal_small fuel n rest small, omega arith, omega arith)
  | no big ↦
      subst Starts (sym (decimal_big fuel n rest (omega arith)))
        (decimal-Starts_behind fuel (n / 10) (48 + n % 10) rest (omega arith) (omega arith))
]

pub length-decimal :
    (fuel n : ℕ) (rest : List ℕ) → length (decimal fuel n rest) ≤ fuel + length rest
length-decimal zero n rest = unfold decimal in omega arith
length-decimal (suc fuel) n rest = elim (dec_lt n 10) [
  | yes small ↦ omega (arith, ap length (decimal_small fuel n rest small))
  | no big ↦ omega (
    arith,
    ap length (decimal_big fuel n rest (omega arith)),
    length-decimal fuel (n / 10) ((48 + n % 10) ∷ rest),
  )
]

pub decimal-append :
    (fuel n : ℕ) (xs ys : List ℕ) → decimal fuel n (xs ++ ys) ≡ decimal fuel n xs ++ ys
decimal-append zero n xs ys = unfold decimal in refl
decimal-append (suc fuel) n xs ys = elim (dec_lt n 10) [
  | yes small ↦
      decimal_small fuel n (xs ++ ys) small
      ∙ sym (ap (λ (l : List ℕ). l ++ ys) (decimal_small fuel n xs small))
  | no big ↦
      let ge : 10 ≤ n = omega arith in
      decimal_big fuel n (xs ++ ys) ge
      ∙ decimal-append fuel (n / 10) ((48 + n % 10) ∷ xs) ys
      ∙ sym (ap (λ (l : List ℕ). l ++ ys) (decimal_big fuel n xs ge))
]

-- A digit is read behind the number before it.
digits_from_digit :
    (n d : ℕ) (rest : List ℕ)
    → d < 10
    → digits_from n ((48 + d) ∷ rest) ≡ digits_from (n * 10 + d) rest
unfolding digits_from
digits_from_digit n d rest h =
    let e : (leb 48 (48 + d) && leb (48 + d) 57) ≡ true = ground arith in
    rw e (ap (λ (t : ℕ). digits_from t rest) (omega arith))

digits_from-decimal :
    (fuel n : ℕ) (rest : List ℕ)
    → n < 10 ^ fuel
    → digits_from 0 (decimal fuel n rest) ≡ digits_from n rest
digits_from-decimal zero n rest h =
    unfold decimal in ap (λ (t : ℕ). digits_from t rest) {x = 0} {y = n} (omega arith)
digits_from-decimal (suc fuel) n rest h = elim (dec_lt n 10) [
  | yes small ↦
      ap (digits_from 0) (decimal_small fuel n rest small)
      ∙ digits_from_digit 0 n rest small
      ∙ ap (λ (t : ℕ). digits_from t rest) {x = 0 * 10 + n} {y = n} (omega arith)
  | no big ↦
      ap (digits_from 0) (decimal_big fuel n rest (omega arith))
      ∙ digits_from-decimal fuel (n / 10) ((48 + n % 10) ∷ rest) (omega (arith, pow-suc 10 fuel))
      ∙ digits_from_digit (n / 10) (n % 10) rest (omega arith)
      ∙ ap (λ (t : ℕ). digits_from t rest) {x = n / 10 * 10 + n % 10} {y = n} (omega arith)
]

-- atoi of a printed port.
pub atoi_u16-decimal : (port : ℕ) → port < 65536 → atoi_u16 (decimal 5 port []) ≡ port
atoi_u16-decimal port h =
    let s = decimal-Starts 4 port [] in
    let read = digits_from-decimal 5 port [] (omega arith) in
    ap atoi_u16 s.2
    ∙ number s.0 s.1 s.3 s.4
    ∙ ap (λ (l : List ℕ). u16 (digits_from 0 l)) (sym s.2)
    ∙ ap u16 read
    ∙ unfold digits_from in omega arith
  where
    number :
        (c : ℕ) (cs : List ℕ) → 48 ≤ c → c < 58 → atoi_u16 (c ∷ cs) ≡ u16 (digits_from 0 (c ∷ cs))
    number c cs p q = unfold atoi_u16 in ground arith
