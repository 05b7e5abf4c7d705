-- ===== src/BitReader.antt =====
-- svr/library/networking/BitReader.h: the reader that takes bits out of 32-bit words through a
-- 64-bit scratch. `none` is a failed assert, a load outside the buffer, or an int m_numBits that
-- overflows. The other int counters are natural numbers: they stay below m_numBits and
-- m_wordIndex * 32, and below 2^27 bytes `m_bitsRead + bits` is an int for a field of 32 bits too.
pub mod Refines
pub mod Bytes
use rudp_network.Prelude.{
  ℕ, zero, suc, ◌+◌, ◌-◌, ◌*◌, ◌/◌, ◌%◌, ◌^◌, bit_and, bit_or, List, [], ◌∷◌, ◌++◌, Option, none,
  some, ◌>>=◌, assert, ltb, leb, ◌==◌, if◌then◌else◌, u8, u32, u64, ◌<<◌, ◌>>◌, low_mask, Bool,
  true, false, min,
}
use rudp_network.Memory.{load32, read_at}

pub record BitReader : Type 0 where
  pub buffer : List ℕ
  pub scratch : ℕ
  pub num_bits : ℕ
  pub num_bytes : ℕ
  pub bits_read : ℕ
  pub scratch_bits : ℕ
  pub word_index : ℕ

-- The members that the constructor sets.
unfoldable pub opened : List ℕ → ℕ → BitReader
opened buffer bytes = record {
  buffer = buffer;
  scratch = 0;
  num_bits = bytes * 8;
  num_bytes = bytes;
  bits_read = 0;
  scratch_bits = 0;
  word_index = 0;
}

unfoldable pub init : List ℕ → ℕ → Option BitReader
unfolding opened
init buffer bytes = assert (ltb (bytes * 8) (2 ^ 31)) (some (opened buffer bytes))

unfoldable pub would_overflow : ℕ → BitReader → Bool
would_overflow bits r = ltb r.num_bits (r.bits_read + bits)

-- The next word of the buffer joins the scratch above its bits.
unfoldable pub refill : BitReader → Option BitReader
refill r = do
  word ← load32 r.word_index r.buffer
  some (record r {
    scratch = bit_or r.scratch (u64 (word << r.scratch_bits));
    scratch_bits = r.scratch_bits + 32;
    word_index = r.word_index + 1;
  })

-- The low `bits` bits of the scratch.
unfoldable pub take_bits : ℕ → BitReader → Option (ℕ × BitReader)
take_bits bits r = assert (leb bits r.scratch_bits) (
    some (
      u32 (bit_and r.scratch (low_mask bits)),
      record r { scratch = r.scratch >> bits; scratch_bits = r.scratch_bits - bits },
    ))

unfoldable pub read_bits : ℕ → BitReader → Option (ℕ × BitReader)
unfolding refill take_bits
read_bits bits r = assert (ltb 0 bits) (
    assert (leb bits 32) (
      assert (leb (r.bits_read + bits) r.num_bits) (
        let r1 = record r { bits_read = r.bits_read + bits } in
        assert (leb r1.scratch_bits 64)
          do r2 ← if ltb r1.scratch_bits bits then refill r1 else some r1; take_bits bits r2)))

-- ReadAlign fails when a padding bit is set.
unfoldable pub read_align : BitReader → Option (Bool × BitReader)
read_align r =
    if r.bits_read % 8 == 0
    then some (true, r)
    else (read_bits (8 - r.bits_read % 8) r >>= λ p.
        assert ((p.1).bits_read % 8 == 0) (some (p.0 == 0, p.1)))

unfoldable pub align_bits : BitReader → ℕ
align_bits r = (8 - r.bits_read % 8) % 8

-- The loops over the bytes before and after the whole words.
unfoldable pub read_each : ℕ → BitReader → Option (List ℕ × BitReader)
read_each zero r = some ([], r)
read_each (suc n) r = do p ← read_bits 8 r; q ← read_each n p.1; some (u8 p.0 ∷ q.0, q.1)

-- The copy of whole words. It clears the count of scratch bits and leaves the scratch itself.
unfoldable pub read_words : ℕ → BitReader → Option (List ℕ × BitReader)
read_words words r =
    if words == 0
    then some ([], r)
    else assert (r.bits_read % 32 == 0) do
      out ← read_at (4 * r.word_index) (words * 4) r.buffer
      some (
        out,
        record r {
          bits_read = r.bits_read + words * 32;
          word_index = r.word_index + words;
          scratch_bits = 0;
        },
      )

unfoldable pub read_bytes : ℕ → BitReader → Option (List ℕ × BitReader)
unfolding read_each read_words align_bits
read_bytes bytes r = assert (align_bits r == 0) (
    assert (leb (r.bits_read + bytes * 8) r.num_bits) (
      let head = min ((4 - r.bits_read % 32 / 8) % 4) bytes in
      read_each head r >>= λ h. if head == bytes then some h else do
        let words = (bytes - head) / 4
        w ← assert (align_bits h.1 == 0) (read_words words h.1)
        t ← assert (align_bits w.1 == 0) (read_each (bytes - (head + words * 4)) w.1)
        assert (align_bits t.1 == 0) (some (h.0 ++ (w.0 ++ t.0), t.1))))

unfoldable pub bytes_read : BitReader → ℕ
bytes_read r = r.word_index * 4

unfoldable pub bits_remaining : BitReader → ℕ
bits_remaining r = r.num_bits - r.bits_read

unfoldable pub bytes_remaining : BitReader → ℕ
unfolding bits_remaining
bytes_remaining r = bits_remaining r / 8

unfoldable pub total_bytes : BitReader → ℕ
total_bytes r = r.num_bits / 8
