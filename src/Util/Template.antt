-- ===== src/Util/Template.antt =====
-- svr/library/networking/NetworkUtil.h: the templates PopCount, Log2 and BitsRequired, which compute
-- at compile time. The bounds of BitsRequired are int64_t.
use native.Mathlib.Nat.{mod-eq_of_lt}
use rudp_network.Prelude.{
  ℕ, suc, ◌+◌, ◌-◌, ◌%◌, ◌^◌, ◌<◌, ◌≡◌, ◌∙◌, refl, ap, subst, arith, bit_or, bit_and, ◌>>◌, u32,
  Option, some, false, ◌>>=◌, if◌then◌else◌,
}
use rudp_network.Prelude.Int.{
  ℤ, pos, negsuc, pos_part, neg_part, ◌<ℤ◌, ◌-ℤ◌, in_int64, eqb_ℤ, to_uint32,
}
use rudp_network.Util.BitsRequired.{bits_required, IsWidth, bits_required-IsWidth}
use rudp_network.Util.Portable.{popcount, smear, log2, log2_lem}

-- PopCount<x>::result
unfoldable pub pop_count_result : ℕ → ℕ
pop_count_result x =
    let a = u32 (x + 2 ^ 32 - bit_and (x >> 1) 0x55555555) in
    let b = u32 (bit_and (a >> 2) 0x33333333 + bit_and a 0x33333333) in
    let c = bit_and (u32 ((b >> 4) + b)) 0x0f0f0f0f in
    let d = u32 (c + (c >> 8)) in let e = u32 (d + (d >> 16)) in bit_and e 0x0000003f

-- Log2<x>::result
unfoldable pub log2_result : ℕ → ℕ
unfolding pop_count_result
log2_result x =
    let a = bit_or x (x >> 1) in
    let b = bit_or a (a >> 2) in
    let c = bit_or b (b >> 4) in
    let d = bit_or c (c >> 8) in let e = bit_or d (d >> 16) in pop_count_result (e >> 1)

-- BitsRequired<min, max>::result, which is BITS_REQUIRED; `none` where the difference overflows, so
-- that the template does not compile.
unfoldable pub bits_required_result : ℤ → ℤ → Option ℕ
unfolding ◌-ℤ◌ log2_result in_int64
bits_required_result min max =
    if eqb_ℤ min max
    then some 0
    else do d ← in_int64 (max -ℤ min); some (u32 (log2_result (to_uint32 d) + 1))

-- The distance from `a` up to `b`.
abbrev distance : ℤ → ℤ → ℕ
distance a b = pos_part b + neg_part a - (pos_part a + neg_part b)

log2_result-log2 : (x : ℕ) → log2_result x ≡ log2 x
unfolding log2_result pop_count_result log2 popcount smear
log2_result-log2 x = refl

to_uint32-distance :
    (min max : ℤ)
    → min <ℤ max
    → distance min max < 2 ^ 32
    → (to_uint32 max + 2 ^ 32 - to_uint32 min) % 2 ^ 32 ≡ distance min max
unfolding to_uint32
to_uint32-distance (pos a) (pos b) h k = omega (arith)
to_uint32-distance (pos a) (negsuc b) h k = absurd (omega arith)
to_uint32-distance (negsuc a) (pos b) h k = omega arith
to_uint32-distance (negsuc a) (negsuc b) h k = omega arith

positive_difference :
    (min max : ℤ)
    → min <ℤ max
    → distance min max < 2 ^ 32
    → (eqb_ℤ min max ≡ false) × (in_int64 (max -ℤ min) ≡ some (pos (distance min max)))
unfolding eqb_ℤ in_int64 ◌-ℤ◌
positive_difference (pos a) (pos b) h k = (ground arith, ground arith)
positive_difference (pos a) (negsuc b) h k = absurd (omega arith)
positive_difference (negsuc a) (pos b) h k = (refl, ground arith)
positive_difference (negsuc a) (negsuc b) h k = (ground arith, ground arith)

-- For bounds in order that differ by less than 2^32, BITS_REQUIRED is defined, gives what
-- bits_required gives for them as uint32_t, and that is the least number of bits that holds their
-- difference.
pub bits_required_result-bits_required :
    (min max : ℤ)
    → min <ℤ max
    → distance min max < 2 ^ 32
    → (bits : ℕ) × (bits_required_result min max ≡ some bits)
      × (bits_required (to_uint32 min) (to_uint32 max) ≡ some bits)
      × IsWidth (distance min max) bits
unfolding bits_required_result to_uint32
bits_required_result-bits_required min max h k =
    let gap = to_uint32-distance min max h k in
    let d : ℕ = distance min max in
    let w = bits_required-IsWidth (to_uint32 min) (to_uint32 max) (omega (arith, gap)) in
    let width : IsWidth d w.0 = subst (λ (t : ℕ). IsWidth t w.0) gap w.2 in
    let n : ℕ = w.0 - 1 in
    let value : log2_result (d % 2 ^ 32) ≡ n =
      ap log2_result (mod-eq_of_lt k)
      ∙ log2_result-log2 d
      ∙ log2_lem n d (omega (arith, width.pos_bits, width.word_bits)) width.needed (
          omega (
            arith,
            width.enough,
            ap (λ (t : ℕ). 2 ^ t) {x = w.0} {y = suc n} (omega (arith, width.pos_bits)),
          )) in
    let p = positive_difference min max h k in
    let total : u32 (n + 1) ≡ w.0 = omega (arith, width.pos_bits, width.word_bits) in
    (w.0, rw (p.0, p.1, value) (ap some total), w.1, width)
