-- ===== src/BitWriter/Words.antt =====
-- svr/library/networking/BitWriter.h: the loops of WriteBytes, over single bytes and whole words.
use rudp_network.Prelude.{
  ℕ, ◌+◌, ◌*◌, ◌/◌, ◌%◌, ◌^◌, ◌≤◌, ◌≡◌, ◌∙◌, refl, ap, subst, arith, List, [], ◌∷◌, some, length,
}
use rudp_network.Prelude.Int.{pos}
use rudp_network.Bits.{two-pow-add}
use rudp_network.Memory.{val, IsBytes}
use rudp_network.Memory.Access.{write_at-Written}
use rudp_network.BitWriter.{BitWriter, write_each, write_words, flush_bits}
use rudp_network.BitWriter.Refines.{Refines, SameBuffer}
use rudp_network.BitWriter.Append.{write_bits-Appended}

-- `bits` bits with the value `v` were appended to the stream.
pub record Extended (w : BitWriter) (stream bits v : ℕ) (w' : BitWriter) : Type 0 where
  pub same : SameBuffer w w'
  pub bits_written : w'.bits_written ≡ w.bits_written + bits
  pub refines : Refines w' (stream + 2 ^ w.bits_written * v)

pub Extended-none : (w : BitWriter) {stream : ℕ} → Refines w stream → Extended w stream 0 0 w
Extended-none w {stream} r = record {
  same = record { num_words = refl; num_bits = refl; length_buffer = refl };
  bits_written = omega arith;
  refines = subst (Refines w) (omega arith) r;
}

pub Extended-trans :
    {w w' w'' : BitWriter} {stream bits v more u : ℕ}
    → Extended w stream bits v w'
    → Extended w' (stream + 2 ^ w.bits_written * v) more u w''
    → Extended w stream (bits + more) (v + 2 ^ bits * u) w''
Extended-trans {w} {w'} {w''} {stream} {bits} {v} {more} {u} p q =
    let e : 2 ^ w'.bits_written * u ≡ 2 ^ w.bits_written * (2 ^ bits * u) =
      rw p.bits_written (omega (arith, ap (λ (t : ℕ). t * u) (two-pow-add w.bits_written bits))) in
    record {
      same = record {
        num_words = q.same.num_words ∙ p.same.num_words;
        num_bits = q.same.num_bits ∙ p.same.num_bits;
        length_buffer = q.same.length_buffer ∙ p.same.length_buffer;
      };
      bits_written = omega (arith, p.bits_written, q.bits_written);
      refines = subst (Refines w'') (omega (arith, e)) q.refines;
    }

-- Single bytes.
pub write_each-Extended :
    (src : List ℕ) (w : BitWriter) {stream : ℕ}
    → Refines w stream
    → IsBytes src
    → w.bits_written + 8 * length src ≤ w.num_bits
    → (w' : BitWriter) × (write_each src w ≡ some w')
      × Extended w stream (8 * length src) (val src) w'
unfolding write_each
write_each-Extended [] w r b fits = (w, refl, Extended-none w r)
write_each-Extended (x ∷ xs) w {stream} r (x_byte, b) fits =
    let one = write_bits-Appended x 8 w r (omega arith) (omega arith) (omega arith) in
    let first : Extended w stream 8 x one.0 = record {
      same = one.2.same;
      bits_written = one.2.bits_written;
      refines =
          subst (λ (t : ℕ). Refines one.0 (stream + 2 ^ w.bits_written * t)) (omega arith)
            one.2.refines;
    } in
    let rest =
      write_each-Extended xs one.0 first.refines b
        (omega (arith, first.bits_written, first.same.num_bits)) in
    (
      rest.0,
      rw one.1 rest.1,
      subst (λ (t : ℕ). Extended w stream t (x + 256 * val xs) rest.0) (omega arith)
          (Extended-trans first rest.2),
    )

-- At a word's border nothing is pending.
pub nothing_pending :
    (w : BitWriter) {stream : ℕ} (r : Refines w stream) → w.bits_written % 32 ≡ 0 → r.pending ≡ 0
nothing_pending w r h = omega (arith, r.position, r.pending_lt)

pub flush_bits_border :
    (w : BitWriter) {stream : ℕ}
    → Refines w stream
    → w.bits_written % 32 ≡ 0
    → flush_bits w ≡ some w
unfolding flush_bits
flush_bits_border w r h = ground (arith, r.scratch_bits, nothing_pending w r h)

-- Whole words.
pub write_words-Extended :
    (src : List ℕ) (words : ℕ) (w : BitWriter) {stream : ℕ}
    → Refines w stream
    → IsBytes src
    → length src ≡ words * 4
    → w.bits_written % 32 ≡ 0
    → w.bits_written + 8 * length src ≤ w.num_bits
    → (w' : BitWriter) × (write_words src w ≡ some w')
      × Extended w stream (8 * length src) (val src) w'
unfolding write_words
write_words-Extended [] words w r b whole border fits = (w, ground arith, Extended-none w r)
write_words-Extended (x ∷ xs) words w {stream} r b whole border fits =
    let src : List ℕ = x ∷ xs in
    let n : ℕ = length src in
    let i : ℕ = w.word_index in
    let none : r.pending ≡ 0 = nothing_pending w r border in
    let wr =
      write_at-Written (4 * i) src w.buffer (omega (arith, r.position, r.size, r.room)) r.bytes b in
    let empty : w.scratch ≡ 0 = omega (arith, r.scratch_lt, ap (λ (t : ℕ). 2 ^ t) none) in
    let low : val wr.0 % 2 ^ (32 * (i + n / 4))
        ≡ val w.buffer % 2 ^ (32 * i) + 2 ^ (32 * i) * val src =
      subst (λ (t : ℕ). val wr.0 % 2 ^ t ≡ val w.buffer % 2 ^ (32 * i) + 2 ^ (32 * i) * val src)
        (omega arith)
        (subst
          (λ (t : ℕ). val wr.0 % 2 ^ (8 * (4 * i + n)) ≡ val w.buffer % 2 ^ t + 2 ^ t * val src)
          (omega arith) wr.2.low) in
    let at : 2 ^ w.bits_written ≡ 2 ^ (32 * i) =
      ap (λ (t : ℕ). 2 ^ t) (omega (arith, r.position, none)) in
    (
      record w {
        buffer = wr.0;
        bits_written = w.bits_written + n / 4 * 32;
        word_index = i + n / 4;
        scratch = 0;
      },
      ground (arith, wr.1, border, whole),
      record {
        same = record { num_words = refl; num_bits = refl; length_buffer = wr.2.same_length };
        bits_written = omega arith;
        refines = record {
          pending = 0;
          scratch_bits = r.scratch_bits ∙ ap pos none;
          pending_lt = omega arith;
          position = omega (arith, r.position, none);
          size = r.size;
          room = omega (arith, r.room, wr.2.same_length);
          within = omega arith;
          bytes = wr.2.bytes;
          scratch_lt = omega arith;
          stored = omega (
            arith,
            low,
            r.stored,
            ap (λ (t : ℕ). 2 ^ (32 * i) * t) empty,
            ap (λ (t : ℕ). t * val src) at,
          );
        };
      },
    )
