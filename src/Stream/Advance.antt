-- ===== src/Stream/Advance.antt =====
-- SerializeBits and SerializeInteger of the writing and the reading stream against the number that
-- the stream writes down.
use native.Mathlib.Nat.{mod-eq_of_lt}
use rudp_network.Prelude.{ℕ, ◌+◌, ◌-◌, ◌*◌, ◌/◌, ◌%◌, ◌^◌, ◌≤◌, ◌<◌, ◌≡◌, subst, arith, some, true}
use rudp_network.Prelude.Int.{
  ℤ, pos, negsuc, pos_part, neg_part, ◌≤ℤ◌, ◌<ℤ◌, ◌-ℤ◌, ◌+ℤ◌, in_int32, to_uint32, to_int32,
  int32_min, int32_max,
}
use rudp_network.BitWriter.Refines.{SameBuffer}
use rudp_network.BitWriter.Refines as WriterView
use rudp_network.BitWriter.Append.{write_bits-Appended}
use rudp_network.BitReader
use rudp_network.BitReader.Refines as ReaderView
use rudp_network.BitReader.Refines.{read_bits-Taken}
use rudp_network.Util.BitsRequired.{bits_required, IsWidth, bits_required-IsWidth}
use rudp_network.Stream.Error.{ProtocolError}
use rudp_network.Stream.Write.{WriteStream}
use rudp_network.Stream.Write
use rudp_network.Stream.Read.{ReadStream}
use rudp_network.Stream.Read

-- The writing stream has no error, and its writer holds `stream`.
pub record Writing (s : WriteStream) (stream : ℕ) : Type 0 where
  pub no_error : s.error ≡ ProtocolError.none
  pub view : WriterView.Refines s.writer stream

-- The stream after `width` more bits, which write down `code`.
pub record Wrote (s : WriteStream) (stream code width : ℕ) (s' : WriteStream) : Type 0 where
  pub same : SameBuffer s.writer s'.writer
  pub bits_written : (s'.writer).bits_written ≡ (s.writer).bits_written + width
  pub writing : Writing s' (stream + 2 ^ (s.writer).bits_written * code)

-- The reading stream has no error, counts what its reader has read, and has `rest` before it.
pub record Reading (s : ReadStream) (rest : ℕ) : Type 0 where
  pub no_error : s.error ≡ ProtocolError.none
  pub counted : s.bits_read ≡ (s.reader).bits_read
  pub view : ReaderView.Refines s.reader rest

-- The stream after `width` more bits.
pub record Readed (s : ReadStream) (rest width : ℕ) (s' : ReadStream) : Type 0 where
  pub num_bits : (s'.reader).num_bits ≡ (s.reader).num_bits
  pub bits_read : (s'.reader).bits_read ≡ (s.reader).bits_read + width
  pub reading : Reading s' (rest / 2 ^ width)

-- SerializeBits of a writing stream appends the low `bits` bits of the value.
pub write_bits-Wrote :
    (s : WriteStream) (value bits : ℕ) {stream : ℕ}
    → Writing s stream
    → 0 < bits
    → bits ≤ 32
    → (s.writer).bits_written + bits ≤ (s.writer).num_bits
    → (s' : WriteStream) × (Write.serialize_bits s value bits
        ≡ some (record { ok = true; stream = s'; value = value }))
      × Wrote s stream (value % 2 ^ bits) bits s'
unfolding Write.serialize_bits
write_bits-Wrote s value bits v h k fits =
    let a = write_bits-Appended value bits s.writer v.view h k fits in
    (
      record s { writer = a.0 },
      ground (arith, a.1),
      record {
        same = a.2.same;
        bits_written = a.2.bits_written;
        writing = record { no_error = v.no_error; view = a.2.refines };
      },
    )

-- SerializeBits of a reading stream takes the low `bits` bits, where there are as many.
pub read_bits-Readed :
    (s : ReadStream) (value bits : ℕ) {rest : ℕ}
    → Reading s rest
    → 0 < bits
    → bits ≤ 32
    → (s.reader).bits_read + bits ≤ (s.reader).num_bits
    → (s' : ReadStream) × (Read.serialize_bits s value bits
        ≡ some (record { ok = true; stream = s'; value = rest % 2 ^ bits }))
      × Readed s rest bits s'
unfolding Read.serialize_bits BitReader.would_overflow
read_bits-Readed s value bits v h k fits =
    let t = read_bits-Taken bits s.reader v.view h k fits in
    (
      Read.advanced s bits t.0,
      ground (arith, t.1),
      record {
        num_bits = t.2.num_bits;
        bits_read = t.2.bits_read;
        reading = record {
          no_error = v.no_error;
          counted = omega (arith, v.counted, t.2.bits_read);
          view = t.2.refines;
        };
      },
    )

-- The distance from `a` up to `b`.
abbrev pub gap : ℤ → ℤ → ℕ
gap a b = pos_part b + neg_part a - (pos_part a + neg_part b)

-- A range of int32_t values whose width is an int32_t too.
pub record IsRange (min max : ℤ) : Type 0 where
  pub above : int32_min ≤ℤ min
  pub below : max ≤ℤ int32_max
  pub ordered : min <ℤ max
  pub narrow : gap min max < 2 ^ 31

-- The number of bits of a range, as SerializeInteger computes it.
abbrev pub Width : ℤ → ℤ → ℕ → Type 0
Width min max bits = bits_required (to_uint32 min) (to_uint32 max) ≡ some bits

range_gap :
    (min max : ℤ)
    → IsRange min max
    → ((to_uint32 max + 2 ^ 32 - to_uint32 min) % 2 ^ 32 ≡ gap min max)
      × (0 < gap min max)
      × (gap min max < 2 ^ 31)
unfolding to_uint32 ◌+ℤ◌
range_gap (pos a) (pos b) r = ground arith
range_gap (pos a) (negsuc b) r = ground arith
range_gap (negsuc a) (pos b) r = ground arith
range_gap (negsuc a) (negsuc b) r = ground arith

gap_difference :
    (min v : ℤ)
    → min ≤ℤ v
    → gap min v < 2 ^ 31
    → (in_int32 (v -ℤ min) ≡ some (v -ℤ min)) × (to_uint32 (v -ℤ min) ≡ gap min v)
unfolding to_uint32 ◌-ℤ◌ in_int32
gap_difference min v lo h = ground arith

gap_sum :
    (min v : ℤ)
    → min ≤ℤ v
    → gap min v < 2 ^ 31
    → int32_min ≤ℤ v
    → v ≤ℤ int32_max
    → in_int32 (to_int32 (gap min v) +ℤ min) ≡ some v
unfolding to_int32 ◌+ℤ◌ in_int32
gap_sum (pos a) (pos b) lo h p q = ground arith
gap_sum (pos a) (negsuc b) lo h p q = ground arith
gap_sum (negsuc a) (pos b) lo h p q = ground arith
gap_sum (negsuc a) (negsuc b) lo h p q = ground arith

-- The width of a range.
pub range-Width :
    (min max : ℤ) → IsRange min max → (bits : ℕ) × Width min max bits × IsWidth (gap min max) bits
range-Width min max r =
    let g = range_gap min max r in
    let w = bits_required-IsWidth (to_uint32 min) (to_uint32 max) (omega (arith, g.0, g.1)) in
    (w.0, w.1, subst (λ (d : ℕ). IsWidth d w.0) g.0 w.2)

module _ (min max v : ℤ) (r : IsRange min max) (lo : min ≤ℤ v) (hi : v ≤ℤ max) {bits : ℕ}
    (width : Width min max bits) (w : IsWidth (gap min max) bits) where
  pub gap-lt : gap min v < 2 ^ bits
  gap-lt = omega (arith, w.enough)

  narrow_gap : gap min v < 2 ^ 31
  narrow_gap = omega (arith, (range_gap min max r).2)

  -- SerializeInteger of a writing stream, with a value in its range and room for it, returns true
  -- and appends the value's distance from the minimum.
  pub write_integer-Wrote :
      (s : WriteStream) {stream : ℕ}
      → Writing s stream
      → (s.writer).bits_written + bits ≤ (s.writer).num_bits
      → (s' : WriteStream) × (Write.serialize_integer s v min max
          ≡ some (record { ok = true; stream = s'; value = v }))
        × Wrote s stream (gap min v) bits s'
  unfolding Write.serialize_integer
  write_integer-Wrote s {stream} q fits =
      let d = gap_difference min v lo narrow_gap in
      let a = write_bits-Appended (gap min v) bits s.writer q.view w.pos_bits w.word_bits fits in
      let e : gap min v % 2 ^ bits ≡ gap min v = mod-eq_of_lt gap-lt in
      (
        record s { writer = a.0 },
        ground (arith, width, d, a.1, r.ordered),
        record {
          same = a.2.same;
          bits_written = a.2.bits_written;
          writing = record {
            no_error = q.no_error;
            view =
                subst (λ (t : ℕ). WriterView.Refines a.0 (stream + 2 ^ (s.writer).bits_written * t))
                  e a.2.refines;
          };
        },
      )

  -- SerializeInteger of a reading stream, on a field within the packet that holds the distance of
  -- a value in the range from the minimum, returns true and gives that value.
  pub read_integer-Readed :
      (s : ReadStream) (before : ℤ) {rest : ℕ}
      → Reading s rest
      → (s.reader).bits_read + bits ≤ (s.reader).num_bits
      → rest % 2 ^ bits ≡ gap min v
      → (s' : ReadStream) × (Read.serialize_integer s before min max
          ≡ some (record { ok = true; stream = s'; value = v }))
        × Readed s rest bits s'
  unfolding Read.serialize_integer BitReader.would_overflow
  read_integer-Readed s before q fits field =
      let t = read_bits-Taken bits s.reader q.view w.pos_bits w.word_bits fits in
      let sum : in_int32 (to_int32 (gap min v) +ℤ min) ≡ some v =
        gap_sum min v lo narrow_gap (omega (arith, r.above)) (omega (arith, r.below)) in
      (
        Read.advanced s bits t.0,
        ground (arith, width, t.1, field, sum, r.ordered),
        record {
          num_bits = t.2.num_bits;
          bits_read = t.2.bits_read;
          reading = record {
            no_error = q.no_error;
            counted = omega (arith, q.counted, t.2.bits_read);
            view = t.2.refines;
          };
        },
      )
