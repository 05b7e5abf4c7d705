-- ===== src/BitWriter/Flush.antt =====
-- svr/library/networking/BitWriter.h: FlushBits, WriteAlign and the constructor against the stream.
use native.Mathlib.Nat.{zero-mod}
use native.Mathlib.Decide.{ℕ_discrete}
use rudp_network.Prelude.{
  ◌<◌, ℕ, ◌+◌, ◌-◌, ◌*◌, ◌/◌, ◌%◌, ◌^◌, ◌≤◌, ◌≡◌, refl, ap, subst, arith, List, length, some,
}
use rudp_network.Prelude.Int.{pos}
use rudp_network.Bits.{two-pow_mono}
use rudp_network.Memory.{val, IsBytes}
use rudp_network.BitWriter.{BitWriter, init, write_align, flush_bits}
use rudp_network.BitWriter.Refines.{Refines, SameBuffer, flush_word-Flushed}
use rudp_network.BitWriter.Append.{write_bits-Appended}

-- What FlushBits leaves: the whole words of the buffer hold the stream.
pub record FlushedOut (w : BitWriter) (stream : ℕ) (w' : BitWriter) : Type 0 where
  pub same : SameBuffer w w'
  pub bits_written : w'.bits_written ≡ w.bits_written
  pub bytes : IsBytes w'.buffer
  pub covers : w.bits_written ≤ 32 * w'.word_index
  pub in_buffer : w'.word_index ≤ w.num_words
  pub stored : val w'.buffer % 2 ^ (32 * w'.word_index) ≡ stream

-- FlushBits returns, and then the words of the buffer up to the word index write down the stream.
pub flush_bits-FlushedOut :
    (w : BitWriter) {stream : ℕ}
    → Refines w stream
    → (w' : BitWriter) × (flush_bits w ≡ some w') × FlushedOut w stream w'
unfolding flush_bits
flush_bits-FlushedOut w r = elim (ℕ_discrete r.pending 0) [
  | yes none_left ↦ (
    w,
    ground (arith, r.scratch_bits),
    record {
      same = record { num_words = refl; num_bits = refl; length_buffer = refl };
      bits_written = refl;
      bytes = r.bytes;
      covers = omega (arith, r.position);
      in_buffer = omega (arith, r.position, r.size, r.within);
      stored =
          let e : w.scratch ≡ 0 = omega (arith, r.scratch_lt, ap (λ (t : ℕ). 2 ^ t) none_left) in
          omega (arith, r.stored, ap (λ (t : ℕ). 2 ^ (32 * w.word_index) * t) e);
    },
  )
  | no some_left ↦
      let f = flush_word-Flushed w (omega (arith, r.position, r.size, r.within)) r.room r.bytes in
      (
        f.0,
        ground (arith, r.scratch_bits, f.1),
        record {
          same = record {
            num_words = f.2.same.num_words;
            num_bits = f.2.same.num_bits;
            length_buffer = f.2.same.length_buffer;
          };
          bits_written = f.2.bits_written;
          bytes = f.2.bytes;
          covers = omega (arith, r.position, r.pending_lt, f.2.word_index);
          in_buffer = omega (arith, r.position, r.size, r.within, f.2.word_index);
          stored =
              let e : f.0.scratch ≡ 0 = omega (
                arith,
                r.scratch_lt,
                two-pow_mono {a = r.pending} {b = 31} (omega (arith, r.pending_lt)),
                f.2.scratch,
              ) in
              omega (arith, r.stored, f.2.stored, ap (λ (t : ℕ). 2 ^ (32 * f.0.word_index) * t) e);
        },
      )
]

-- WriteAlign of a writer over whole bytes returns, pads with zero bits up to the next byte, and
-- keeps the stream.
pub write_align-Refines :
    (w : BitWriter) {stream : ℕ}
    → Refines w stream
    → w.num_bits % 8 ≡ 0
    → (w' : BitWriter) × (write_align w ≡ some w')
      × SameBuffer w w'
      × (w'.bits_written ≡ (w.bits_written + 7) / 8 * 8)
      × Refines w' stream
unfolding write_align
write_align-Refines w {stream} r whole = elim (ℕ_discrete (w.bits_written % 8) 0) [
  | yes aligned ↦ (
    w,
    ground arith,
    record { num_words = refl; num_bits = refl; length_buffer = refl },
    omega arith,
    r,
  )
  | no ragged ↦
      let a =
        write_bits-Appended 0 (8 - w.bits_written % 8) w r (omega arith) (omega arith)
          (omega (arith, r.within)) in
      (
        a.0,
        ground (arith, a.1, a.2.bits_written),
        a.2.same,
        omega (arith, a.2.bits_written),
        subst (Refines a.0)
            (omega (
              arith,
              ap (λ (t : ℕ). 2 ^ w.bits_written * t) (zero-mod (2 ^ (8 - w.bits_written % 8))),
            ))
            a.2.refines,
      )
]

-- A new writer holds the empty stream.
pub init-Refines :
    (buffer : List ℕ) (bytes : ℕ)
    → IsBytes buffer
    → bytes % 4 ≡ 0
    → bytes ≤ length buffer
    → bytes < 2 ^ 28
    → (w : BitWriter) × (init buffer bytes ≡ some w)
      × Refines w 0
      × (w.bits_written ≡ 0)
      × (w.num_bits ≡ 8 * bytes)
      × (length w.buffer ≡ length buffer)
      × (w.num_words ≡ bytes / 4)
unfolding init
init-Refines buffer bytes b four room small = (
  record {
    buffer = buffer;
    scratch = 0;
    num_bits = bytes / 4 * 32;
    num_words = bytes / 4;
    bits_written = 0;
    word_index = 0;
    scratch_bits = pos 0;
  },
  ground arith,
  record {
    pending = 0;
    scratch_bits = refl;
    pending_lt = omega arith;
    position = omega arith;
    size = omega arith;
    room = omega arith;
    within = omega arith;
    bytes = b;
    scratch_lt = omega arith;
    stored = omega arith;
  },
  refl,
  omega arith,
  refl,
  refl,
)
