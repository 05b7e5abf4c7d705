-- ===== src/Util/Signed.antt =====
-- svr/library/networking/NetworkUtil.h: signed_to_unsigned and unsigned_to_signed, which fold the
-- sign of an int into its lowest bit. The left shift is the one of two's complement.
use rudp_network.Prelude.{
  ℕ, suc, ◌+◌, ◌-◌, ◌*◌, ◌%◌, ◌^◌, ◌<◌, ◌≡◌, ◌∙◌, ap, arith, bit_xor, bit_and, ◌<<◌, ◌>>◌, u32,
  low_mask, if◌then◌else◌, ◌==◌,
}
use rudp_network.Prelude.Int.{ℤ, pos, negsuc, ◌≤ℤ◌, to_uint32, to_int32, int32_min, int32_max}
use rudp_network.Bits.{bit_xor-zero, bit_xor-low_mask, bit_and-low_mask}

-- `n >> 31` of an int, as the bits of an int: all of them for a negative one.
abbrev pub sign_mask : ℤ → ℕ
sign_mask (pos n) = 0
sign_mask (negsuc n) = low_mask 32

unfoldable pub signed_to_unsigned : ℤ → ℤ
signed_to_unsigned n = to_int32 (bit_xor (u32 (to_uint32 n << 1)) (sign_mask n))

-- `-int32_t( n & 1 )` has the bits of the mask.
unfoldable pub unsigned_to_signed : ℕ → ℤ
unsigned_to_signed n = to_int32 (bit_xor (n >> 1) (if bit_and n 1 == 0 then 0 else low_mask 32))

to_uint32-to_int32 : (u : ℕ) → u < 2 ^ 32 → to_uint32 (to_int32 u) ≡ u
unfolding to_uint32 to_int32
to_uint32-to_int32 u h = ground arith

-- The sign goes to the lowest bit.
fold_pos : (a : ℕ) → a < 2 ^ 31 → signed_to_unsigned (pos a) ≡ to_int32 (2 * a)
unfolding signed_to_unsigned to_uint32
fold_pos a h =
    let e : u32 ((a % 2 ^ 32) << 1) ≡ 2 * a = omega arith in
    ap to_int32 (rw e (bit_xor-zero 32 (2 * a) (omega arith)))

fold_negsuc : (a : ℕ) → a < 2 ^ 31 → signed_to_unsigned (negsuc a) ≡ to_int32 (2 * a + 1)
unfolding signed_to_unsigned to_uint32
fold_negsuc a h =
    let x : ℕ = 2 ^ 32 - 2 - 2 * a in
    let e : u32 (((2 ^ 32 - suc a % 2 ^ 32) % 2 ^ 32) << 1) ≡ x = omega arith in
    ap to_int32 (rw e (bit_xor-low_mask 32 x (omega arith) ∙ omega arith))

unfold_even : (a : ℕ) → a < 2 ^ 31 → unsigned_to_signed (2 * a) ≡ pos a
unfolding unsigned_to_signed to_int32
unfold_even a h =
    let half : (2 * a) >> 1 ≡ a = omega arith in
    rw half (ground (arith, bit_and-low_mask 1 (2 * a), bit_xor-zero 32 a (omega arith)))

unfold_odd : (a : ℕ) → a < 2 ^ 31 → unsigned_to_signed (2 * a + 1) ≡ negsuc a
unfolding unsigned_to_signed to_int32
unfold_odd a h =
    let half : (2 * a + 1) >> 1 ≡ a = omega arith in
    rw half (ground (arith, bit_and-low_mask 1 (2 * a + 1), bit_xor-low_mask 32 a (omega arith)))

-- Unsigned_to_signed of what signed_to_unsigned gives for an int, taken as a uint32_t, is the
-- int.
pub unsigned_to_signed-signed_to_unsigned :
    (n : ℤ)
    → int32_min ≤ℤ n
    → n ≤ℤ int32_max
    → unsigned_to_signed (to_uint32 (signed_to_unsigned n)) ≡ n
unsigned_to_signed-signed_to_unsigned (pos a) low high =
    ap (λ (z : ℤ). unsigned_to_signed (to_uint32 z)) (fold_pos a (omega arith))
    ∙ ap unsigned_to_signed (to_uint32-to_int32 (2 * a) (omega arith))
    ∙ unfold_even a (omega arith)
unsigned_to_signed-signed_to_unsigned (negsuc a) low high =
    ap (λ (z : ℤ). unsigned_to_signed (to_uint32 z)) (fold_negsuc a (omega arith))
    ∙ ap unsigned_to_signed (to_uint32-to_int32 (2 * a + 1) (omega arith))
    ∙ unfold_odd a (omega arith)
