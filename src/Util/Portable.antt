-- ===== src/Util/Portable.antt =====
-- svr/library/networking/NetworkUtil.h: popcount, log2 and bits_required without the builtins of
-- GCC.
use native.Mathlib.Nat.{div-eq_of_lt, div-le_self}
use native.Mathlib.Decide.{dec_le, ℕ_discrete}
use rudp_network.Prelude.{
  both, ℕ, zero, suc, ◌+◌, ◌-◌, ◌*◌, ◌/◌, ◌%◌, ◌^◌, ◌≤◌, ◌<◌, ◌≡◌, ◌≢◌, ◌∙◌, refl, sym, ap, subst,
  arith, Bool, true, some, bit_or, bit_and, ◌>>◌, u32, low_mask, ◌==◌, ==_iff, if◌then◌else◌, ◌&&◌,
  min,
}
use rudp_network.Bits.{
  parts_of_sum, half_mask, two-pow-pos, two-pow-suc, two-pow-add, div-two-pow-add, bit_or_comm,
}
use rudp_network.Bits.Or.{bit_or-div, bit_or-lt, bit_or-low_mask, low_mask-div}
use rudp_network.Util.BitsRequired.{bits_required, bits_required-IsWidth}

unfoldable pub popcount : ℕ → ℕ
popcount x =
    let a = u32 (x + 2 ^ 32 - bit_and (x >> 1) 0x55555555) in
    let b = u32 (bit_and (a >> 2) 0x33333333 + bit_and a 0x33333333) in
    let c = bit_and (u32 ((b >> 4) + b)) 0x0f0f0f0f in
    let d = u32 (c + (c >> 8)) in let e = u32 (d + (d >> 16)) in bit_and e 0x0000003f

-- Each bit is spread to all below it.
unfoldable pub smear : ℕ → ℕ
smear x =
    let a = bit_or x (x >> 1) in
    let b = bit_or a (a >> 2) in
    let c = bit_or b (b >> 4) in let d = bit_or c (c >> 8) in bit_or d (d >> 16)

unfoldable pub log2 : ℕ → ℕ
unfolding popcount smear
log2 x = popcount (smear x >> 1)

unfoldable pub portable_bits_required : ℕ → ℕ → ℕ
unfolding log2
portable_bits_required min max =
    if min == max then 0 else u32 (log2 ((max + 2 ^ 32 - min) % 2 ^ 32) + 1)

-- A shift by the number of bits set, or more than there are left, sets as many again.
spread :
    (n t s j x : ℕ)
    → s ≤ t
    → n ≡ t + (s + j)
    → x < 2 ^ n
    → x / 2 ^ (s + j) ≡ low_mask t
    → (bit_or x (x >> t) < 2 ^ n) × (bit_or x (x >> t) / 2 ^ j ≡ low_mask (t + s))
spread n t s j x le e lt top =
    let shifted : x / 2 ^ t / 2 ^ j ≡ low_mask s =
      sym (div-two-pow-add x t j)
      ∙ ap (λ (k : ℕ). x / 2 ^ k) {x = t + j} {y = s + j + (t - s)} (omega arith)
      ∙ div-two-pow-add x (s + j) (t - s)
      ∙ ap (λ (k : ℕ). k / 2 ^ (t - s)) (top ∙ ap low_mask {x = t} {y = t - s + s} (omega arith))
      ∙ low_mask-div (t - s) s in
    let high : x / 2 ^ j / 2 ^ s ≡ low_mask t =
      sym (div-two-pow-add x j s)
      ∙ ap (λ (k : ℕ). x / 2 ^ k) {x = j + s} {y = s + j} (omega arith)
      ∙ top in
    let joined : low_mask t * 2 ^ s + low_mask s ≡ low_mask (t + s) = omega (
      arith,
      two-pow-add t s,
      two-pow-pos s,
      two-pow-pos t,
      ap (λ (k : ℕ). k * 2 ^ s) {x = 2 ^ t} {y = low_mask t + 1} (omega (arith, two-pow-pos t)),
    ) in
    (
      bit_or-lt n x (x / 2 ^ t) lt (omega (arith, div-le_self x (2 ^ t), lt)),
      bit_or-div j x (x / 2 ^ t)
          ∙ ap (bit_or (x / 2 ^ j)) shifted
          ∙ bit_or-low_mask s (x / 2 ^ j)
          ∙ ap (λ (k : ℕ). k * 2 ^ s + low_mask s) high
          ∙ joined,
    )

-- The highest `t` of `n` bits are set.
abbrev Tops : ℕ → ℕ → ℕ → Type 0
Tops n t x = (x < 2 ^ n) × (x / 2 ^ (n - t) ≡ low_mask t)

spread-Tops : (n m x : ℕ) → Tops n (min m n) x → Tops n (min (m + m) n) (bit_or x (x >> m))
spread-Tops n m x (lt, top) = elim (dec_le m n) [
  | yes some_left ↦
      let t : min m n ≡ m = omega arith in
      let s : ℕ = min m (n - m) in
      let j : ℕ = n - m - s in
      let r = spread n m s j x (omega arith) (omega arith) lt (
        ap (λ (k : ℕ). x / 2 ^ k) {x = s + j} {y = n - min m n} (omega arith)
        ∙ top
        ∙ ap low_mask t) in
      (
        r.0,
        ap (λ (k : ℕ). bit_or x (x >> m) / 2 ^ k) {x = n - min (m + m) n} {y = j} (omega arith)
            ∙ r.1
            ∙ ap low_mask {x = m + s} {y = min (m + m) n} (omega arith),
      )
  | no all_set ↦
      let full : x ≡ low_mask n = omega (
        arith,
        top,
        ap (λ (k : ℕ). x / 2 ^ k) {x = n - min m n} {y = 0} (omega arith),
        ap low_mask {x = min m n} {y = n} (omega arith),
      ) in
      let y : ℕ = x / 2 ^ m in
      let small : y < 2 ^ n = omega (arith, div-le_self x (2 ^ m), lt) in
      let flat : bit_or x y ≡ low_mask n =
        ap (λ (k : ℕ). bit_or k y) full
        ∙ bit_or_comm (low_mask n) y
        ∙ bit_or-low_mask n y
        ∙ omega (arith, ap (λ (k : ℕ). k * 2 ^ n) (div-eq_of_lt small)) in
      (
        omega (arith, flat, two-pow-pos n),
        omega (
          arith,
          flat,
          ap (λ (k : ℕ). bit_or x y / 2 ^ k) {x = n - min (m + m) n} {y = 0} (omega arith),
          ap low_mask {x = min (m + m) n} {y = n} (omega arith),
        ),
      )
]

-- Of a number of `k + 1` bits, at most 32, all are set.
smear_lem : (k x : ℕ) → k < 32 → 2 ^ k ≤ x → x < 2 ^ suc k → smear x ≡ low_mask (suc k)
unfolding smear
smear_lem k x h low high =
    let n : ℕ = suc k in
    let top : x / 2 ^ (n - min 1 n) ≡ low_mask (min 1 n) =
      ap (λ (j : ℕ). x / 2 ^ j) {x = n - min 1 n} {y = k} (omega arith)
      ∙ (parts_of_sum k (x - 2 ^ k) 1 x (omega (arith, two-pow-suc k)) (omega arith)).1
      ∙ ap low_mask {x = 1} {y = min 1 n} (omega arith) in
    let a = spread-Tops n 1 x (high, top) in
    let b = spread-Tops n 2 _ a in
    let c = spread-Tops n 4 _ b in
    let d = spread-Tops n 8 _ c in
    let e = spread-Tops n 16 _ d in
    omega (
      arith,
      e.1,
      ap (λ (k : ℕ). smear x / 2 ^ k) {x = n - min 32 n} {y = 0} (omega arith),
      ap low_mask {x = min 32 n} {y = n} (omega arith),
    )

-- popcount of the numbers that are ones only, by computation.
counts : ℕ → Bool
counts zero = true
counts (suc k) = (popcount (low_mask k) == k) && counts k

counted : counts 33 ≡ true
unfolding counts popcount
counted = refl

counts-lt : (n k : ℕ) → counts n ≡ true → k < n → popcount (low_mask k) ≡ k
unfolding counts
counts-lt zero k h lt = absurd (omega arith)
counts-lt (suc n) k h lt = elim (ℕ_discrete k n) [
  | yes same ↦
      subst (λ (t : ℕ). popcount (low_mask t) ≡ t) (sym same)
        ((==_iff _ _).0 (both {a = popcount (low_mask n) == n} {b = counts n} h).0)
  | no other ↦
      counts-lt n k (both {a = popcount (low_mask n) == n} {b = counts n} h).1 (omega arith)
]

pub log2_lem : (k x : ℕ) → k < 32 → 2 ^ k ≤ x → x < 2 ^ suc k → log2 x ≡ k
unfolding log2
log2_lem k x h low high =
    ap (λ (t : ℕ). popcount (t / 2)) (smear_lem k x h low high)
    ∙ ap popcount (half_mask k)
    ∙ counts-lt 33 k counted (omega arith)

-- For two bounds of 32 bits that differ, bits_required without the builtins of GCC gives the same
-- number of bits as with them.
pub portable_bits_required-bits_required :
    (min max : ℕ)
    → min < 2 ^ 32
    → max < 2 ^ 32
    → min ≢ max
    → bits_required min max ≡ some (portable_bits_required min max)
unfolding portable_bits_required
portable_bits_required-bits_required min max h g differ =
    let d : ℕ = (max + 2 ^ 32 - min) % 2 ^ 32 in
    let w = bits_required-IsWidth min max (omega arith) in
    let k : ℕ = w.0 - 1 in
    let e : log2 d ≡ k = log2_lem k d (omega (arith, w.2.pos_bits, w.2.word_bits)) w.2.needed (
      omega (
        arith,
        w.2.enough,
        ap (λ (t : ℕ). 2 ^ t) {x = w.0} {y = suc k} (omega (arith, w.2.pos_bits)),
      )) in
    let value : w.0 ≡ portable_bits_required min max =
      ground (arith, e, w.2.pos_bits, w.2.word_bits) in
    w.1 ∙ ap some value
