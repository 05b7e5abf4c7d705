-- ===== src/BitWriter/Append.antt =====
-- svr/library/networking/BitWriter.h: WriteBits against the stream: every call appends its field
-- above the bits that are there.
use native.Mathlib.Nat.{mod-lt, mod-eq_of_lt}
use native.Mathlib.Decide.{dec_le}
use rudp_network.Prelude.{
  ℕ, ◌+◌, ◌-◌, ◌*◌, ◌%◌, ◌^◌, ◌≤◌, ◌<◌, ◌≡◌, refl, ap, subst, arith, some, bit_and, bit_or,
  low_mask, ◌<<◌, u64, ◌∙◌,
}
use rudp_network.Prelude.Int.{pos, ◌-ℤ◌}
use rudp_network.Bits.{
  two-pow-pos, two-pow-add, two-pow_mono, join-lt, high-lt, bit_or-eq-add, bit_and-low_mask,
}
use rudp_network.Memory.{val}
use rudp_network.BitWriter.{BitWriter, push_bits, write_bits}
use rudp_network.BitWriter.Refines.{Refines, SameBuffer, flush_word-Flushed}

-- The scratch with the new field above its `s` bits.
pushed :
    (s bits value scratch : ℕ)
    → s < 32
    → bits ≤ 32
    → scratch < 2 ^ s
    → (bit_or scratch (u64 (bit_and value (low_mask bits) << s))
        ≡ scratch + 2 ^ s * (value % 2 ^ bits))
      × (scratch + 2 ^ s * (value % 2 ^ bits) < 2 ^ (s + bits))
pushed s bits value scratch hs hb h =
    let v = value % 2 ^ bits in
    let v_lt : v < 2 ^ bits = mod-lt value (two-pow-pos bits) in
    let sum_lt : scratch + 2 ^ s * v < 2 ^ (s + bits) = join-lt s bits scratch v h v_lt in
    let no_wrap : v * 2 ^ s < 2 ^ 64 =
      omega (arith, sum_lt, two-pow_mono {a = s + bits} {b = 64} (omega arith)) in
    (rw (bit_and-low_mask bits value, mod-eq_of_lt no_wrap) (bit_or-eq-add s scratch v h), sum_lt)

-- What a successful write leaves.
pub record Appended (w : BitWriter) (stream bits value : ℕ) (w' : BitWriter) : Type 0 where
  pub same : SameBuffer w w'
  pub bits_written : w'.bits_written ≡ w.bits_written + bits
  pub refines : Refines w' (stream + 2 ^ w.bits_written * (value % 2 ^ bits))

module _ (value bits : ℕ) (w : BitWriter) {stream : ℕ} (r : Refines w stream) (pos_bits : 0 < bits)
    (word_bits : bits ≤ 32) (fits : w.bits_written + bits ≤ w.num_bits) where
  abbrev p : ℕ
  p = r.pending

  abbrev v : ℕ
  v = value % 2 ^ bits

  abbrev w1 : BitWriter
  w1 = record w { scratch = w.scratch + 2 ^ p * v; scratch_bits = pos (p + bits) }

  push : push_bits value bits p w ≡ w1
  unfolding push_bits
  push =
      ap (λ (t : ℕ). record w { scratch = t; scratch_bits = pos (p + bits) })
        (pushed p bits value w.scratch r.pending_lt word_bits r.scratch_lt).0

  joined :
      val w.buffer % 2 ^ (32 * w.word_index) + 2 ^ (32 * w.word_index) * (w.scratch + 2 ^ p * v)
      ≡ stream + 2 ^ w.bits_written * v
  joined =
      let e : w.bits_written ≡ 32 * w.word_index + p = omega (arith, r.position) in
      omega (
        arith,
        r.stored,
        ap (λ (t : ℕ). 2 ^ t * v) e,
        ap (λ (t : ℕ). t * v) (two-pow-add (32 * w.word_index) p),
      )

  abbrev Result : Type 0
  Result = (w' : BitWriter) × (write_bits value bits w ≡ some w') × Appended w stream bits value w'

  -- The field fits the scratch.
  stays : p + bits < 32 → Result
  unfolding write_bits
  stays small = (
    record w1 { bits_written = w.bits_written + bits },
    ground (arith, r.scratch_bits, push, r.pending_lt),
    record {
      same = record { num_words = refl; num_bits = refl; length_buffer = refl };
      bits_written = refl;
      refines = record {
        pending = p + bits;
        scratch_bits = refl;
        pending_lt = small;
        position = omega (arith, r.position);
        size = r.size;
        room = r.room;
        within = fits;
        bytes = r.bytes;
        scratch_lt = (pushed p bits value w.scratch r.pending_lt word_bits r.scratch_lt).1;
        stored = joined;
      };
    },
  )

  -- The scratch overflows into the next word of the buffer.
  spills : 32 ≤ p + bits → Result
  unfolding write_bits
  spills big =
      let f =
        flush_word-Flushed w1 (omega (arith, r.position, r.size, r.pending_lt)) r.room r.bytes in
      (
        record f.0 { bits_written = f.0.bits_written + bits },
        ground (arith, r.scratch_bits, push, r.pending_lt, f.1),
        record {
          same = record {
            num_words = f.2.same.num_words;
            num_bits = f.2.same.num_bits;
            length_buffer = f.2.same.length_buffer;
          };
          bits_written = ap (λ (t : ℕ). t + bits) f.2.bits_written;
          refines = record {
            pending = p + bits - 32;
            scratch_bits = f.2.scratch_bits ∙ above big;
            pending_lt = omega (arith, r.pending_lt);
            position = omega (arith, r.position, f.2.word_index, f.2.bits_written);
            size = omega (arith, r.size, f.2.same.num_words, f.2.same.num_bits);
            room = omega (arith, r.room, f.2.same.num_words, f.2.same.length_buffer);
            within = omega (arith, f.2.same.num_bits, f.2.bits_written);
            bytes = f.2.bytes;
            scratch_lt = rw f.2.scratch (high-lt 32 (p + bits - 32) w1.scratch below);
            stored = f.2.stored ∙ joined;
          };
        },
      )
    where
      above : 32 ≤ p + bits → pos (p + bits) -ℤ pos 32 ≡ pos (p + bits - 32)
      above h = unfold ◌-ℤ◌ in ground arith

      below : w1.scratch < 2 ^ (32 + (p + bits - 32))
      below =
          subst (λ (t : ℕ). w1.scratch < 2 ^ t) (omega arith)
            (pushed p bits value w.scratch r.pending_lt word_bits r.scratch_lt).1

-- A field of 1 to 32 bits that fits is written: the call returns, and the stream has the low bits
-- of the value above what was there.
pub write_bits-Appended :
    (value bits : ℕ) (w : BitWriter) {stream : ℕ}
    → Refines w stream
    → 0 < bits
    → bits ≤ 32
    → w.bits_written + bits ≤ w.num_bits
    → (w' : BitWriter) × (write_bits value bits w ≡ some w') × Appended w stream bits value w'
write_bits-Appended value bits w r h k fits = elim (dec_le 32 (r.pending + bits)) [
  | yes big ↦ spills value bits w r h k fits big
  | no small ↦ stays value bits w r h k fits (omega arith)
]
