-- ===== src/BitWriter/Refines.antt =====
-- The abstract view of a BitWriter: one number, the stream, whose `bits_written` low bits are what
-- has been written, the first field lowest.
use native.Mathlib.Nat.{div-add-mod}
use rudp_network.Prelude.{
  ℕ, ◌+◌, ◌*◌, ◌/◌, ◌%◌, ◌^◌, ◌≤◌, ◌<◌, ◌≡◌, refl, ap, arith, length, some, bit_and, ◌>>◌, u32,
}
use rudp_network.Prelude.Int.{pos, ◌-ℤ◌}
use rudp_network.Bits.{two-pow-add, bit_and-low_mask}
use rudp_network.Memory.{val, IsBytes}
use rudp_network.Memory.Access.{store32-Written}
use rudp_network.BitWriter.{BitWriter, flush_word}

-- The words below `word_index` and the scratch above them are the stream.
pub record Refines (w : BitWriter) (stream : ℕ) : Type 0 where
  pub pending : ℕ
  pub scratch_bits : w.scratch_bits ≡ pos pending
  pub pending_lt : pending < 32
  pub position : w.bits_written ≡ 32 * w.word_index + pending
  pub size : w.num_bits ≡ 32 * w.num_words
  pub room : 4 * w.num_words ≤ length w.buffer
  pub within : w.bits_written ≤ w.num_bits
  pub bytes : IsBytes w.buffer
  pub scratch_lt : w.scratch < 2 ^ pending
  pub stored : val w.buffer % 2 ^ (32 * w.word_index) + 2 ^ (32 * w.word_index) * w.scratch ≡ stream

-- What a call leaves alone: the extent of the buffer.
pub record SameBuffer (w w' : BitWriter) : Type 0 where
  pub num_words : w'.num_words ≡ w.num_words
  pub num_bits : w'.num_bits ≡ w.num_bits
  pub length_buffer : length w'.buffer ≡ length w.buffer

-- Moving the low word of the scratch to the buffer keeps the stream.
pub record Flushed (w w' : BitWriter) : Type 0 where
  pub same : SameBuffer w w'
  pub bytes : IsBytes w'.buffer
  pub bits_written : w'.bits_written ≡ w.bits_written
  pub word_index : w'.word_index ≡ w.word_index + 1
  pub scratch : w'.scratch ≡ w.scratch / 2 ^ 32
  pub scratch_bits : w'.scratch_bits ≡ w.scratch_bits -ℤ pos 32
  pub stored :
      val w'.buffer % 2 ^ (32 * w'.word_index) + 2 ^ (32 * w'.word_index) * w'.scratch
      ≡ val w.buffer % 2 ^ (32 * w.word_index) + 2 ^ (32 * w.word_index) * w.scratch

-- The word and what is left of the scratch, in their places.
word_moved :
    (i x a b : ℕ)
    → b % 2 ^ (8 * (4 * i + 4)) ≡ a % 2 ^ (8 * (4 * i)) + 2 ^ (8 * (4 * i)) * (x % 2 ^ 32)
    → b % 2 ^ (32 * (i + 1)) + 2 ^ (32 * (i + 1)) * (x / 2 ^ 32)
      ≡ a % 2 ^ (32 * i) + 2 ^ (32 * i) * x
word_moved i x a b h =
    let e : 32 * (i + 1) ≡ 32 * i + 32 = omega arith in
    let f : 8 * (4 * i + 4) ≡ 32 * i + 32 = omega arith in
    let g : 8 * (4 * i) ≡ 32 * i = omega arith in
    omega (
      arith,
      ap (λ (t : ℕ). b % 2 ^ t) e,
      ap (λ (t : ℕ). b % 2 ^ t) f,
      ap (λ (t : ℕ). a % 2 ^ t) g,
      ap (λ (t : ℕ). 2 ^ t * (x % 2 ^ 32)) g,
      ap (λ (t : ℕ). 2 ^ t * (x / 2 ^ 32)) e,
      ap (λ (t : ℕ). t * (x / 2 ^ 32)) (two-pow-add (32 * i) 32),
      ap (λ (t : ℕ). 2 ^ (32 * i) * t) (div-add-mod x (2 ^ 32)),
    )

pub flush_word-Flushed :
    (w : BitWriter)
    → w.word_index < w.num_words
    → 4 * w.num_words ≤ length w.buffer
    → IsBytes w.buffer
    → (w' : BitWriter) × (flush_word w ≡ some w') × Flushed w w'
unfolding flush_word
flush_word-Flushed w in_range room bytes =
    let word = u32 (bit_and w.scratch 0xFFFFFFFF) in
    let store = store32-Written w.word_index word w.buffer (omega arith) bytes (omega arith) in
    let e : word ≡ w.scratch % 2 ^ 32 = omega (arith, bit_and-low_mask 32 w.scratch) in
    (
      record w {
        buffer = store.0;
        scratch = w.scratch >> 32;
        scratch_bits = w.scratch_bits -ℤ pos 32;
        word_index = w.word_index + 1;
      },
      ground (arith, store.1),
      record {
        same = record { num_words = refl; num_bits = refl; length_buffer = store.2.same_length };
        bytes = store.2.bytes;
        bits_written = refl;
        word_index = refl;
        scratch = refl;
        scratch_bits = refl;
        stored =
            word_moved w.word_index w.scratch (val w.buffer) (val store.0)
              (omega (arith, store.2.low, ap (λ (t : ℕ). 2 ^ (8 * (4 * w.word_index)) * t) e));
      },
    )
