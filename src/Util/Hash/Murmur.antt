-- ===== src/Util/Hash/Murmur.antt =====
-- svr/library/networking/NetworkUtil.cpp: murmur_hash_64. YOJIMBO_LITTLE_ENDIAN is not defined by
-- the build, so that each 64-bit word is taken with its bytes swapped.
use rudp_network.Prelude.{
  ℕ, zero, suc, ◌+◌, ◌*◌, ◌/◌, ◌^◌, List, [], ◌∷◌, length, bit_xor, ◌<<◌, ◌>>◌, u64, drop, arith,
  ◌<◌,
}
use rudp_network.Memory.{val}
use rudp_network.Bits.{bit_xor-lt}

abbrev pub m : ℕ
m = 0xc6a4a7935bd1e995

-- The loaded word after the four swaps: its bytes, the last lowest.
unfoldable pub swapped_word : List ℕ → ℕ
swapped_word (b0 ∷ b1 ∷ b2 ∷ b3 ∷ b4 ∷ b5 ∷ b6 ∷ b7 ∷ bs) =
    val (b7 ∷ b6 ∷ b5 ∷ b4 ∷ b3 ∷ b2 ∷ b1 ∷ b0 ∷ [])
swapped_word _ = 0

-- One word joins the hash.
unfoldable pub murmur_word : ℕ → ℕ → ℕ
murmur_word k h =
    let k1 = u64 (k * m) in let k2 = u64 (bit_xor k1 (k1 >> 47) * m) in u64 (bit_xor h k2 * m)

-- The loop over `words` words.
unfoldable pub murmur_words : ℕ → List ℕ → ℕ → ℕ
unfolding swapped_word murmur_word
murmur_words zero bytes h = h
murmur_words (suc n) bytes h = murmur_words n (drop 8 bytes) (murmur_word (swapped_word bytes) h)

-- The switch on the bytes that are left, which falls through from the last byte to the first, at
-- bit 0.
unfoldable pub xor_each : ℕ → List ℕ → ℕ → ℕ
xor_each bit [] h = h
xor_each bit (b ∷ bs) h = bit_xor (xor_each (bit + 8) bs h) (b << bit)

unfoldable pub murmur_rest : List ℕ → ℕ → ℕ
unfolding xor_each
murmur_rest [] h = h
murmur_rest (b ∷ bs) h = u64 (xor_each 0 (b ∷ bs) h * m)

-- `key` is the bytes of the key.
unfoldable pub murmur_hash_64 : List ℕ → ℕ → ℕ
unfolding murmur_words murmur_rest
murmur_hash_64 key seed =
    let n = length key in
    let h0 = bit_xor seed (u64 (n * m)) in
    let h1 = murmur_words (n / 8) key h0 in
    let h2 = murmur_rest (drop (n / 8 * 8) key) h1 in
    let h3 = u64 (bit_xor h2 (h2 >> 47) * m) in bit_xor h3 (h3 >> 47)

-- The result is a uint64_t.
pub murmur_hash_64-lt : (key : List ℕ) (seed : ℕ) → murmur_hash_64 key seed < 2 ^ 64
unfolding murmur_hash_64
murmur_hash_64-lt key seed =
    let n : ℕ = length key in
    let h2 : ℕ =
      murmur_rest (drop (n / 8 * 8) key) (murmur_words (n / 8) key (bit_xor seed (u64 (n * m)))) in
    let h3 : ℕ = u64 (bit_xor h2 (h2 >> 47) * m) in
    bit_xor-lt 64 h3 (h3 >> 47) (omega arith) (omega arith)
