-- ===== src/Serialize/Fields.antt =====
-- The serialize_ macros on one value: what a writing stream writes is what a reading stream reads.
use native.Mathlib.Nat.{mod-eq_of_lt}
use rudp_network.Prelude.{
  ℕ, ◌+◌, ◌*◌, ◌/◌, ◌%◌, ◌^◌, ◌≤◌, ◌<◌, ◌≡◌, refl, ap, subst, ◌∙◌, arith, u32, u64, ◌<<◌, bit_and,
  bit_or,
}
use rudp_network.Prelude.Int.{ℤ, ◌≤ℤ◌}
use rudp_network.Bits.{two-pow_mono, bit_and-low_mask, bit_or-eq-add, bit_or_comm, join-lt}
use rudp_network.Util.BitsRequired.{IsWidth}
use rudp_network.Stream.{write_stream, read_stream}
use rudp_network.Stream.Advance.{
  IsRange, Width, gap, gap-lt, Wrote, write_integer-Wrote, read_integer-Readed, write_bits-Wrote,
  read_bits-Readed,
}
use rudp_network.Stream.Codec.{Codec, Wrote-both, Readed-both, field_parts}
use rudp_network.Serialize.{serialize_int, serialize_bits, serialize_uint64}

-- serialize_int, on a value of the range that the variable's type holds.
pub int_codec :
    (store : ℤ → ℤ) (min max v before : ℤ) (bits : ℕ)
    → IsRange min max
    → Width min max bits
    → IsWidth (gap min max) bits
    → min ≤ℤ v
    → v ≤ℤ max
    → store v ≡ v
    → Codec
        (serialize_int write_stream store min max)
        (serialize_int read_stream store min max)
        v
        before
        v
        bits
unfolding serialize_int
int_codec store min max v before bits r width w lo hi same = record {
  code = gap min v;
  code_lt = gap-lt min max v r lo hi width w;
  writes = λ s stream q fits.
      let a = write_integer-Wrote min max v r lo hi width w s q fits in
      (a.0, ground (arith, a.1, r.ordered), a.2);
  reads = λ s rest q fits field.
      let a = read_integer-Readed min max v r lo hi width w s before q fits field in
      (a.0, ground (arith, a.1, r.ordered, same), a.2);
}

-- serialize_bits, on a value of `bits` bits that the variable's type holds.
pub bits_codec :
    (store : ℕ → ℕ) (bits v before : ℕ)
    → 0 < bits
    → bits ≤ 32
    → v < 2 ^ bits
    → store v ≡ v
    → Codec
        (serialize_bits write_stream store bits)
        (serialize_bits read_stream store bits)
        v
        before
        v
        bits
unfolding serialize_bits
bits_codec store bits v before h k small same =
    let fits32 : v < 2 ^ 32 = omega (arith, two-pow_mono k) in
    let e : u32 v % 2 ^ bits ≡ v =
      ap (λ (t : ℕ). t % 2 ^ bits) (mod-eq_of_lt fits32) ∙ mod-eq_of_lt small in
    record {
      code = v;
      code_lt = small;
      writes = λ s stream q fits.
          let a = write_bits-Wrote s (u32 v) bits q h k fits in
          (a.0, ground (arith, a.1), subst (λ (t : ℕ). Wrote s stream t bits a.0) e a.2);
      reads = λ s rest q fits field.
          let a = read_bits-Readed s (u32 before) bits q h k fits in
          (a.0, ground (arith, a.1, field, same), a.2);
    }

-- The words of a uint64_t.
words :
    (v : ℕ)
    → v < 2 ^ 64
    → (bit_and v 0xFFFFFFFF ≡ v % 2 ^ 32)
      × (v / 2 ^ 32 < 2 ^ 32)
      × (bit_or (u64 ((v / 2 ^ 32) << 32)) (v % 2 ^ 32) ≡ v)
words v h = (
  bit_and-low_mask 32 v,
  omega arith,
  rw (mod-eq_of_lt {n = (v / 2 ^ 32) << 32} {m = 2 ^ 64} (omega arith)) (
      bit_or_comm (v / 2 ^ 32 * 2 ^ 32) (v % 2 ^ 32)
      ∙ bit_or-eq-add 32 (v % 2 ^ 32) (v / 2 ^ 32) (omega arith)
      ∙ omega arith),
)

module _ (v before : ℕ) (small : v < 2 ^ 64) where
  abbrev low :
      Codec
        (serialize_bits write_stream (λ x. x) 32)
        (serialize_bits read_stream (λ x. x) 32)
        (v % 2 ^ 32)
        (before % 2 ^ 32)
        (v % 2 ^ 32)
        32
  low =
      bits_codec (λ x. x) 32 (v % 2 ^ 32) (before % 2 ^ 32) (omega arith) (omega arith)
        (omega arith) refl

  abbrev high :
      Codec
        (serialize_bits write_stream (λ x. x) 32)
        (serialize_bits read_stream (λ x. x) 32)
        (v / 2 ^ 32)
        (before / 2 ^ 32)
        (v / 2 ^ 32)
        32
  high =
      bits_codec (λ x. x) 32 (v / 2 ^ 32) (before / 2 ^ 32) (omega arith) (omega arith)
        (omega arith) refl

  -- serialize_uint64: the low word first.
  pub uint64_codec :
      Codec (serialize_uint64 write_stream) (serialize_uint64 read_stream) v before v 64
  unfolding serialize_uint64
  uint64_codec = record {
    code = low.code + 2 ^ 32 * high.code;
    code_lt = join-lt 32 32 low.code high.code low.code_lt high.code_lt;
    writes = λ s stream q fits.
        let a = low.writes s stream q (omega arith) in
        let b =
          high.writes a.0 _ a.2.writing (omega (arith, a.2.bits_written, a.2.same.num_bits)) in
        (
          b.0,
          ground (arith, words v small, a.1, b.1),
          Wrote-both stream low.code high.code 32 32 a.2 b.2,
        );
    reads = λ s rest q fits field.
        let parts = field_parts rest low.code high.code 32 32 low.code_lt field in
        let a = low.reads s rest q (omega arith) parts.0 in
        let b =
          high.reads a.0 (rest / 2 ^ 32) a.2.reading (omega (arith, a.2.bits_read, a.2.num_bits))
            parts.1 in
        (
          b.0,
          ground (arith, words v small, bit_and-low_mask 32 before, a.1, b.1),
          Readed-both rest 32 32 a.2 b.2,
        );
  }
