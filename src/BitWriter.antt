-- ===== src/BitWriter.antt =====
-- svr/library/networking/BitWriter.h: the writer that packs bits into 32-bit words through a
-- 64-bit scratch. `none` is a failed assert, an access outside the buffer, a shift by a
-- negative count, or an int m_numBits that overflows. The other int counters are natural numbers:
-- they stay below m_numBits.
pub mod Refines
pub mod Append
pub mod Flush
pub mod Words
pub mod Bytes
use rudp_network.Prelude.{
  ℕ, zero, suc, ◌+◌, ◌-◌, ◌*◌, ◌/◌, ◌%◌, ◌^◌, bit_and, bit_or, List, Option, none, some, ◌>>=◌,
  assert, ltb, leb, ◌==◌, if◌then◌else◌, u32, u64, ◌<<◌, ◌>>◌, low_mask, Bool, true, false, [], ◌∷◌,
  length, take, drop, min,
}
use rudp_network.Prelude.Int.{ℤ, pos, negsuc, ◌-ℤ◌}
use rudp_network.Memory.{load32, store32, read_at, write_at}

pub record BitWriter : Type 0 where
  pub buffer : List ℕ
  pub scratch : ℕ
  pub num_bits : ℕ
  pub num_words : ℕ
  pub bits_written : ℕ
  pub word_index : ℕ
  pub scratch_bits : ℤ

unfoldable pub init : List ℕ → ℕ → Option BitWriter
init buffer bytes = assert (bytes % 4 == 0) (
    assert (ltb (bytes / 4 * 32) (2 ^ 31)) (
      some (record {
        buffer = buffer;
        scratch = 0;
        num_bits = bytes / 4 * 32;
        num_words = bytes / 4;
        bits_written = 0;
        word_index = 0;
        scratch_bits = pos 0;
      })))

-- A shift of a 64-bit value is defined by counts from 0 to 63.
abbrev pub shift_count : ℤ → Option ℕ
shift_count (pos s) = if ltb s 64 then some s else none
shift_count (negsuc s) = none

abbrev pub is_zero : ℤ → Bool
is_zero (pos n) = n == 0
is_zero (negsuc n) = false

-- The low 32 bits of the scratch go to the buffer.
unfoldable pub flush_word : BitWriter → Option BitWriter
unfolding ◌-ℤ◌
flush_word w = assert (ltb w.word_index w.num_words) do
  buffer ← store32 w.word_index (u32 (bit_and w.scratch 0xFFFFFFFF)) w.buffer
  some (record w {
    buffer = buffer;
    scratch = w.scratch >> 32;
    scratch_bits = w.scratch_bits -ℤ pos 32;
    word_index = w.word_index + 1;
  })

-- `value` joins the scratch above its `s` bits.
unfoldable pub push_bits : ℕ → ℕ → ℕ → BitWriter → BitWriter
push_bits value bits s w = record w {
  scratch = bit_or w.scratch (u64 (bit_and value (low_mask bits) << s));
  scratch_bits = pos (s + bits);
}

unfoldable pub write_bits : ℕ → ℕ → BitWriter → Option BitWriter
unfolding push_bits flush_word
write_bits value bits w = assert (ltb 0 bits) (
    assert (leb bits 32) (
      assert (leb (w.bits_written + bits) w.num_bits) do
        s ← shift_count w.scratch_bits
        w' ←
            if leb 32 (s + bits)
            then flush_word (push_bits value bits s w)
            else some (push_bits value bits s w)
        some (record w' { bits_written = w'.bits_written + bits })))

unfoldable pub align_bits : BitWriter → ℕ
align_bits w = (8 - w.bits_written % 8) % 8

unfoldable pub write_align : BitWriter → Option BitWriter
write_align w =
    if w.bits_written % 8 == 0
    then some w
    else (write_bits 0 (8 - w.bits_written % 8) w >>= λ w'.
        assert (w'.bits_written % 8 == 0) (some w'))

unfoldable pub flush_bits : BitWriter → Option BitWriter
flush_bits w = if is_zero w.scratch_bits then some w else flush_word w

-- The loops over the bytes before and after the whole words.
unfoldable pub write_each : List ℕ → BitWriter → Option BitWriter
write_each [] w = some w
write_each (b ∷ bs) w = do w' ← write_bits b 8 w; write_each bs w'

-- The copy of whole words.
unfoldable pub write_words : List ℕ → BitWriter → Option BitWriter
write_words src w =
    let words = length src / 4 in
    if words == 0
    then some w
    else assert (w.bits_written % 32 == 0) do
      buffer ← write_at (4 * w.word_index) src w.buffer
      some (record w {
        buffer = buffer;
        bits_written = w.bits_written + words * 32;
        word_index = w.word_index + words;
        scratch = 0;
      })

-- `src` is the `bytes` bytes at `data`.
unfoldable pub write_bytes : List ℕ → BitWriter → Option BitWriter
unfolding write_each write_words flush_bits align_bits
write_bytes src w = assert (align_bits w == 0) (
    assert (leb (w.bits_written + length src * 8) w.num_bits) (
      let bytes = length src in
      let head = min ((4 - w.bits_written % 32 / 8) % 4) bytes in
      write_each (take head src) w >>= λ w1. if head == bytes then some w1 else do
        w2 ← flush_bits w1
        let words = (bytes - head) / 4
        w3 ← assert (align_bits w2 == 0) (write_words (take (words * 4) (drop head src)) w2)
        w4 ← assert (align_bits w3 == 0) (write_each (drop (head + words * 4) src) w3)
        assert (align_bits w4 == 0) (some w4)))

unfoldable pub bits_available : BitWriter → ℕ
bits_available w = w.num_bits - w.bits_written

unfoldable pub bytes_written : BitWriter → ℕ
bytes_written w = (w.bits_written + 7) / 8

unfoldable pub total_bytes : BitWriter → ℕ
total_bytes w = w.num_words * 4
