-- ===== src/Stream/Check.antt =====
-- svr/library/networking/Serialization.h: SerializeCheck, which marks a place in the stream by the
-- hash of a name. `checks` is YOJIMBO_SERIALIZE_CHECKS, which the build leaves off. A name is the
-- memory from its first character on.
use native.Mathlib.Nat.{mod-eq_of_lt}
use rudp_network.Prelude.{
  ℕ, ◌+◌, ◌*◌, ◌/◌, ◌%◌, ◌^◌, ◌≤◌, ◌<◌, ◌≡◌, ◌∙◌, refl, ap, subst, arith, List, Bool, true, false,
  ◌==◌, Option, some, ◌>>=◌, Step,
}
use rudp_network.Bits.{two-pow-pos}
use rudp_network.Util.Hash.{hash_string, hash_string-lt}
use rudp_network.Stream.Codec.{Wrote-both, Readed-both, field_parts}
use rudp_network.Stream.Write
use rudp_network.Stream.Write.{WriteStream}
use rudp_network.Stream.Read
use rudp_network.Stream.Read.{ReadStream}
use rudp_network.Stream.Measure
use rudp_network.Stream.Measure.{MeasureStream}
use rudp_network.Stream.Advance.{
  Writing, Reading, Wrote, Readed, write_bits-Wrote, read_bits-Readed,
}
use rudp_network.BitWriter.Refines as WriterView
use rudp_network.BitWriter.Flush.{write_align-Refines}
use rudp_network.BitReader
use rudp_network.BitReader.Refines.{read_align-Aligned}
use rudp_network.Stream.Bytes.{padding}

abbrev done : {S : Type 0} → Bool → S → Option (Step S (Unit {0}))
done ok s = some (record { ok = ok; stream = s; value = tt })

unfoldable pub write_check : Bool → WriteStream → List ℕ → Option (Step WriteStream (Unit {0}))
write_check false s name = done true s
write_check true s name = do
  a ← Write.serialize_align s
  magic ← hash_string name 0
  b ← Write.serialize_bits a.stream magic 32
  done true b.stream

-- Neither an alignment that fails nor a value that cannot be read ends the function; the value is
-- then 0.
unfoldable pub read_check : Bool → ReadStream → List ℕ → Option (Step ReadStream (Unit {0}))
read_check false s name = done true s
read_check true s name = do
  a ← Read.serialize_align s
  a' ← Read.serialize_align a.stream
  b ← Read.serialize_bits a'.stream 0 32
  magic ← hash_string name 0
  done (b.value == magic) b.stream

unfoldable pub measure_check :
    Bool → MeasureStream → List ℕ → Option (Step MeasureStream (Unit {0}))
measure_check false s name = done true s
measure_check true s name = do a ← Measure.serialize_align s; Measure.counted a.stream tt 32

-- SerializeAlign of both streams, as a field of zeros.
write_align-Wrote :
    (s : WriteStream) {stream : ℕ}
    → Writing s stream
    → (s' : WriteStream) × (Write.serialize_align s
        ≡ some (record { ok = true; stream = s'; value = tt }))
      × Wrote s stream 0 (padding (s.writer).bits_written) s'
unfolding Write.serialize_align
write_align-Wrote s {stream} v =
    let a = write_align-Refines s.writer v.view (omega (arith, v.view.size)) in
    (
      record s { writer = a.0 },
      ground (arith, a.1),
      record {
        same = a.2;
        bits_written = omega (arith, a.3);
        writing = record {
          no_error = v.no_error;
          view = subst (WriterView.Refines a.0) (omega arith) a.4;
        };
      },
    )

read_align-Readed :
    (t : ReadStream) {rest : ℕ}
    → Reading t rest
    → (t.reader).bits_read + padding (t.reader).bits_read ≤ (t.reader).num_bits
    → rest % 2 ^ padding (t.reader).bits_read ≡ 0
    → (t' : ReadStream) × (Read.serialize_align t
        ≡ some (record { ok = true; stream = t'; value = tt }))
      × Readed t rest (padding (t.reader).bits_read) t'
unfolding Read.serialize_align BitReader.would_overflow BitReader.align_bits
read_align-Readed t {rest} v fits zeros =
    let pad : ℕ = padding (t.reader).bits_read in
    let a = read_align-Aligned t.reader v.view in
    let ok : a.0 ≡ true = a.3.1 zeros in
    (
      Read.advanced t pad a.1,
      ground (arith, a.2, ok, fits),
      record {
        num_bits = a.4.num_bits;
        bits_read = a.4.bits_read;
        reading = record {
          no_error = v.no_error;
          counted = omega (arith, v.counted, a.4.bits_read);
          view = a.4.refines;
        };
      },
    )

-- With the checks on, a writing stream appends zero bits up to the next byte and then the hash.
pub write_check-Wrote :
    (s : WriteStream) (name : List ℕ) {magic stream : ℕ}
    → hash_string name 0 ≡ some magic
    → Writing s stream
    → (s.writer).bits_written + (padding (s.writer).bits_written + 32) ≤ (s.writer).num_bits
    → (s' : WriteStream) × (write_check true s name
        ≡ some (record { ok = true; stream = s'; value = tt }))
      × Wrote s stream
          (2 ^ padding (s.writer).bits_written * magic)
          (padding (s.writer).bits_written + 32)
          s'
unfolding write_check
write_check-Wrote s name {magic} {stream} hash v fits =
    let pad : ℕ = padding (s.writer).bits_written in
    let a = write_align-Wrote s v in
    let b =
      write_bits-Wrote a.0 magic 32 a.2.writing (omega arith) (omega arith)
        (omega (arith, a.2.bits_written, a.2.same.num_bits, fits)) in
    let small : magic % 2 ^ 32 ≡ magic = mod-eq_of_lt (hash_string-lt name 0 (omega arith) hash) in
    let both = Wrote-both stream 0 (magic % 2 ^ 32) pad 32 a.2 b.2 in
    (
      b.0,
      rw (a.1, hash, b.1) refl,
      subst (λ (c : ℕ). Wrote s stream c (pad + 32) b.0)
          (ap (λ (m : ℕ). 0 + 2 ^ pad * m) small ∙ omega arith) both,
    )

read_check_lem :
    (t u v w : ReadStream) (name : List ℕ) {magic own : ℕ}
    → Read.serialize_align t ≡ some (record { ok = true; stream = u; value = tt })
    → Read.serialize_align u ≡ some (record { ok = true; stream = v; value = tt })
    → Read.serialize_bits v 0 32 ≡ some (record { ok = true; stream = w; value = magic })
    → hash_string name 0 ≡ some own
    → read_check true t name ≡ some (record { ok = magic == own; stream = w; value = tt })
unfolding read_check
read_check_lem t u v w name a b c hash = rw (a, b, c, hash) refl

-- With the checks on, a reading stream that finds a hash behind zero bits up to the next byte skips
-- both, and its result is whether the hash is the one of the name.
pub read_check-Readed :
    (t : ReadStream) (name : List ℕ) {magic own rest : ℕ}
    → hash_string name 0 ≡ some own
    → Reading t rest
    → (t.reader).bits_read + (padding (t.reader).bits_read + 32) ≤ (t.reader).num_bits
    → magic < 2 ^ 32
    → rest % 2 ^ (padding (t.reader).bits_read + 32) ≡ 2 ^ padding (t.reader).bits_read * magic
    → (t' : ReadStream) × (read_check true t name
        ≡ some (record { ok = magic == own; stream = t'; value = tt }))
      × Readed t rest (padding (t.reader).bits_read + 32) t'
read_check-Readed t name {magic} {own} {rest} hash v fits small field =
    let pad : ℕ = padding (t.reader).bits_read in
    let parts = field_parts rest 0 magic pad 32 (two-pow-pos pad) (field ∙ omega arith) in
    let a = read_align-Readed t v (omega (arith, fits)) parts.0 in
    let flat : padding ((a.0).reader).bits_read ≡ 0 = omega (arith, a.2.bits_read) in
    let b =
      read_align-Readed a.0 a.2.reading (omega (arith, a.2.bits_read, a.2.num_bits, fits))
        (ap (λ (k : ℕ). rest / 2 ^ pad % 2 ^ k) flat ∙ omega arith) in
    let still = subst (λ (k : ℕ). Readed a.0 (rest / 2 ^ pad) k b.0) flat b.2 in
    let c =
      read_bits-Readed b.0 0 32 still.reading (omega arith) (omega arith)
        (omega (arith, a.2.bits_read, a.2.num_bits, still.bits_read, still.num_bits, fits)) in
    let value : rest / 2 ^ pad / 2 ^ 0 % 2 ^ 32 ≡ magic = omega (arith, parts.1) in
    let last = Readed-both (rest / 2 ^ pad) 0 32 still c.2 in
    (
      c.0,
      read_check_lem t a.0 b.0 c.0 name a.1 b.1 c.1 hash
          ∙ ap (λ (m : ℕ). some (record { ok = m == own; stream = c.0; value = tt })) value,
      Readed-both rest pad 32 a.2 last,
    )

-- SerializeCheck with the checks on, of a writing stream and a reading stream, with no error, at
-- the same place within a byte and with room for the padding and 32 bits: the writing stream
-- returns true and appends zero bits up to the next byte and then the hash of its name, and the
-- reading stream, when it finds such a field, skips it and returns whether the hash is the one of
-- its own name.
pub read_check-write_check :
    (s : WriteStream) (t : ReadStream) (name name' : List ℕ) {magic own stream rest : ℕ}
    → hash_string name 0 ≡ some magic
    → hash_string name' 0 ≡ some own
    → Writing s stream
    → Reading t rest
    → (s.writer).bits_written + (padding (s.writer).bits_written + 32) ≤ (s.writer).num_bits
    → (t.reader).bits_read % 8 ≡ (s.writer).bits_written % 8
    → (t.reader).bits_read + (padding (s.writer).bits_written + 32) ≤ (t.reader).num_bits
    → rest % 2 ^ (padding (s.writer).bits_written + 32)
      ≡ 2 ^ padding (s.writer).bits_written * magic
    → (s' : WriteStream) × (t' : ReadStream) × (write_check true s name
        ≡ some (record { ok = true; stream = s'; value = tt }))
      × Wrote s stream
          (2 ^ padding (s.writer).bits_written * magic)
          (padding (s.writer).bits_written + 32)
          s'
      × (read_check true t name' ≡ some (record { ok = magic == own; stream = t'; value = tt }))
      × Readed t rest (padding (s.writer).bits_written + 32) t'
read_check-write_check s t name name' {magic} {own} {stream} {rest} hash hash' v q room place fits
      field =
    let pad : padding (t.reader).bits_read ≡ padding (s.writer).bits_written =
      omega (arith, place) in
    let w = write_check-Wrote s name hash v room in
    let r =
      subst
        (λ (k : ℕ).
          (t.reader).bits_read + (k + 32) ≤ (t.reader).num_bits
          → rest % 2 ^ (k + 32) ≡ 2 ^ k * magic
          → (t' : ReadStream) × (read_check true t name'
              ≡ some (record { ok = magic == own; stream = t'; value = tt }))
            × Readed t rest (k + 32) t')
        pad
        (λ a b. read_check-Readed t name' hash' q a (hash_string-lt name 0 (omega arith) hash) b)
        fits field in
    (w.0, r.0, w.1, w.2, r.1, r.2)
