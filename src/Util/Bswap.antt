-- ===== src/Util/Bswap.antt =====
-- svr/library/networking/NetworkUtil.h: bswap, and the functions between host and network order,
-- which the code takes to be little endian.
use rudp_network.Prelude.{
  ℕ, ◌+◌, ◌*◌, ◌/◌, ◌%◌, ◌^◌, ◌<◌, ◌≡◌, ◌∙◌, refl, ap, arith, bit_and, bit_or, ◌<<◌, ◌>>◌, u16, u32,
  Bool, true, false, if◌then◌else◌,
}
use rudp_network.Bits.{bit_or-eq-add, bit_or_comm, bit_and-low_mask, bit_and-shift}

-- GCC's __builtin_bswap32: the bytes in the reverse order.
unfoldable pub builtin_bswap32 : ℕ → ℕ
builtin_bswap32 x =
    x / 2 ^ 24 % 256 + 2 ^ 8 * (x / 2 ^ 16 % 256) + 2 ^ 16 * (x / 2 ^ 8 % 256) + 2 ^ 24 * (x % 256)

-- bswap of a uint32_t, without the builtin.
unfoldable pub bswap32 : ℕ → ℕ
bswap32 value =
    bit_or
      (bit_or (bit_or (u32 (bit_and value 0x000000ff << 24)) (u32 (bit_and value 0x0000ff00 << 8)))
        (bit_and value 0x00ff0000 >> 8))
      (bit_and value 0xff000000 >> 24)

-- bswap of a uint16_t.
unfoldable pub bswap16 : ℕ → ℕ
bswap16 value = u16 (bit_or (bit_and value 0x00ff << 8) (bit_and value 0xff00 >> 8))

-- host_to_network and network_to_host of both widths; `big` is YOJIMBO_BIG_ENDIAN, which the build
-- does not define.
unfoldable pub host_to_network32 : Bool → ℕ → ℕ
unfolding builtin_bswap32
host_to_network32 big value = if big then builtin_bswap32 value else value

unfoldable pub network_to_host32 : Bool → ℕ → ℕ
unfolding builtin_bswap32
network_to_host32 big value = if big then builtin_bswap32 value else value

unfoldable pub host_to_network16 : Bool → ℕ → ℕ
unfolding bswap16
host_to_network16 big value = if big then bswap16 value else value

unfoldable pub network_to_host16 : Bool → ℕ → ℕ
unfolding bswap16
network_to_host16 big value = if big then bswap16 value else value

-- The byte at the bit `j`, where it stands.
byte_at : (j x : ℕ) → bit_and x (255 * 2 ^ j) ≡ x / 2 ^ j % 256 * 2 ^ j
byte_at j x = bit_and-shift j x 255 ∙ ap (λ (t : ℕ). t * 2 ^ j) (bit_and-low_mask 8 (x / 2 ^ j))

-- Four bytes that are put together from the highest down.
join_bytes :
    (a b c d : ℕ)
    → b < 256
    → c < 256
    → d < 256
    → bit_or (bit_or (bit_or (a * 2 ^ 24) (b * 2 ^ 16)) (c * 2 ^ 8)) d
      ≡ d + 2 ^ 8 * c + 2 ^ 16 * b + 2 ^ 24 * a
join_bytes a b c d hb hc hd =
    let two : bit_or (a * 2 ^ 24) (b * 2 ^ 16) ≡ (b + 256 * a) * 2 ^ 16 =
      bit_or_comm (a * 2 ^ 24) (b * 2 ^ 16)
      ∙ bit_or-eq-add 24 (b * 2 ^ 16) a (omega arith)
      ∙ omega arith in
    let three : bit_or ((b + 256 * a) * 2 ^ 16) (c * 2 ^ 8) ≡ (c + 256 * b + 65536 * a) * 2 ^ 8 =
      bit_or_comm ((b + 256 * a) * 2 ^ 16) (c * 2 ^ 8)
      ∙ bit_or-eq-add 16 (c * 2 ^ 8) (b + 256 * a) (omega arith)
      ∙ omega arith in
    let four =
      bit_or_comm ((c + 256 * b + 65536 * a) * 2 ^ 8) d
      ∙ bit_or-eq-add 8 d (c + 256 * b + 65536 * a) hd in
    ap (λ (t : ℕ). bit_or (bit_or t (c * 2 ^ 8)) d) two
    ∙ ap (λ (t : ℕ). bit_or t d) three
    ∙ four
    ∙ omega arith

-- With and without the builtin the bytes are reversed.
pub bswap32-builtin_bswap32 : (x : ℕ) → x < 2 ^ 32 → bswap32 x ≡ builtin_bswap32 x
unfolding bswap32 builtin_bswap32
bswap32-builtin_bswap32 x h =
    let a : u32 (bit_and x 0x000000ff << 24) ≡ x % 256 * 2 ^ 24 = omega (arith, byte_at 0 x) in
    let b : u32 (bit_and x 0x0000ff00 << 8) ≡ x / 2 ^ 8 % 256 * 2 ^ 16 =
      omega (arith, byte_at 8 x) in
    let c : bit_and x 0x00ff0000 >> 8 ≡ x / 2 ^ 16 % 256 * 2 ^ 8 = omega (arith, byte_at 16 x) in
    let d : bit_and x 0xff000000 >> 24 ≡ x / 2 ^ 24 % 256 = omega (arith, byte_at 24 x) in
    rw (a, b, c, d)
      (join_bytes (x % 256) (x / 2 ^ 8 % 256) (x / 2 ^ 16 % 256) (x / 2 ^ 24 % 256) (omega arith)
        (omega arith) (omega arith))

bswap16_lem : (x : ℕ) → x < 2 ^ 16 → bswap16 x ≡ x / 2 ^ 8 + 2 ^ 8 * (x % 256)
unfolding bswap16
bswap16_lem x h =
    let a : bit_and x 0x00ff << 8 ≡ x % 256 * 2 ^ 8 = omega (arith, byte_at 0 x) in
    let b : bit_and x 0xff00 >> 8 ≡ x / 2 ^ 8 = omega (arith, byte_at 8 x) in
    let joined : bit_or (x % 256 * 2 ^ 8) (x / 2 ^ 8) ≡ x / 2 ^ 8 + 2 ^ 8 * (x % 256) =
      bit_or_comm (x % 256 * 2 ^ 8) (x / 2 ^ 8)
      ∙ bit_or-eq-add 8 (x / 2 ^ 8) (x % 256) (omega (arith, h)) in
    rw (a, b, joined) (omega (arith, h))

builtin_bswap32_self : (x : ℕ) → x < 2 ^ 32 → builtin_bswap32 (builtin_bswap32 x) ≡ x
unfolding builtin_bswap32
builtin_bswap32_self x h = omega arith

bswap16_self : (x : ℕ) → x < 2 ^ 16 → bswap16 (bswap16 x) ≡ x
bswap16_self x h =
    let e = bswap16_lem x h in
    rw e (bswap16_lem (x / 2 ^ 8 + 2 ^ 8 * (x % 256)) (omega (arith, h)) ∙ omega (arith, h))

-- Whatever the byte order of the machine, a value of either width is the same again after it has
-- been brought into network order and back.
pub network_to_host-host_to_network :
    (big : Bool) (x y : ℕ)
    → x < 2 ^ 32
    → y < 2 ^ 16
    → (network_to_host32 big (host_to_network32 big x) ≡ x)
      × (network_to_host16 big (host_to_network16 big y) ≡ y)
unfolding network_to_host32 host_to_network32 network_to_host16 host_to_network16
network_to_host-host_to_network true x y h k = (builtin_bswap32_self x h, bswap16_self y k)
network_to_host-host_to_network false x y h k = (refl, refl)
