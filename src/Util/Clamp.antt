-- ===== src/Util/Clamp.antt =====
-- svr/library/networking/NetworkUtil.h: min, max, clamp, swap and abs.
use rudp_network.Prelude.{◌≡◌, Bool, false, Option, if◌then◌else◌, Bool-cases, inl, inr}
use rudp_network.Prelude.Int.{ℤ, pos, ltb_ℤ, ◌-ℤ◌, in_int32}

-- What the templates use of a type: its `<`.
pub record Less (T : Type 0) : Type 0 where
  pub less : T → T → Bool

unfoldable pub min_of : {T : Type 0} → Less T → T → T → T
min_of o a b = if o.less a b then a else b

unfoldable pub max_of : {T : Type 0} → Less T → T → T → T
max_of o a b = if o.less b a then a else b

unfoldable pub clamp : {T : Type 0} → Less T → T → T → T → T
clamp o value min max = if o.less value min then min else if o.less max value then max else value

-- What the two variables hold afterwards.
unfoldable pub swap : {T : Type 0} → T → T → T × T
swap a b = (b, a)

-- abs of an int; the negation of the least one is undefined.
unfoldable pub abs : ℤ → Option ℤ
unfolding ◌-ℤ◌ in_int32
abs value = in_int32 (if ltb_ℤ value (pos 0) then pos 0 -ℤ value else value)

-- Between bounds in order the result of clamp is within them, it is what the two others give, and
-- a value within the bounds stays.
pub clamp_lem :
    {T : Type 0} (o : Less T) (value min max : T)
    → o.less min min ≡ false
    → o.less max max ≡ false
    → o.less max min ≡ false
    → (o.less (clamp o value min max) min ≡ false) × (o.less max (clamp o value min max) ≡ false)
unfolding clamp
clamp_lem o value min max h k ordered = elim (Bool-cases (o.less value min)) [
  | inl low ↦ rw low (h, ordered)
  | inr high_enough ↦ elim (Bool-cases (o.less max value)) [
    | inl high ↦ rw (high_enough, high) (ordered, k)
    | inr inside ↦ rw (high_enough, inside) (high_enough, inside)
  ]
]
