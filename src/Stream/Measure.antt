-- ===== src/Stream/Measure.antt =====
-- svr/library/networking/Serialization.h: MeasureStream, which counts the bits that a write could
-- need. It takes the worst case for each alignment. m_bitsWritten is an int: `none` is a failed
-- assert or a count that leaves it.
use rudp_network.Prelude.{
  ℕ, ◌+◌, ◌*◌, ◌/◌, List, Option, some, true, ◌>>=◌, assert, ltb, leb, ◌^◌, Step,
}
use rudp_network.Prelude.Int.{ℤ, pos, ltb_ℤ, to_uint32, ◌-ℤ◌}
use rudp_network.Util.BitsRequired.{bits_required}
use rudp_network.Stream.Error.{ProtocolError}

pub record MeasureStream : Type 0 where
  pub error : ProtocolError
  pub total_bytes : ℕ
  pub bits_written : ℕ

unfoldable pub init : ℕ → MeasureStream
init bytes = record { error = ProtocolError.none; total_bytes = bytes; bits_written = 0 }

abbrev pub counted : {V : Type 0} → MeasureStream → V → ℕ → Option (Step MeasureStream V)
counted s value bits = assert (ltb (s.bits_written + bits) (2 ^ 31)) (
    some (record {
      ok = true;
      stream = record s { bits_written = s.bits_written + bits };
      value = value;
    }))

unfoldable pub serialize_integer : MeasureStream → ℤ → ℤ → ℤ → Option (Step MeasureStream ℤ)
serialize_integer s value min max =
    assert (ltb_ℤ min max)
      do bits ← bits_required (to_uint32 min) (to_uint32 max); counted s value bits

unfoldable pub serialize_bits : MeasureStream → ℕ → ℕ → Option (Step MeasureStream ℕ)
serialize_bits s value bits = assert (ltb 0 bits) (assert (leb bits 32) (counted s value bits))

abbrev pub align_bits : ℕ
align_bits = 7

unfoldable pub serialize_align : MeasureStream → Option (Step MeasureStream (Unit {0}))
serialize_align s = counted s tt align_bits

unfoldable pub serialize_bytes : MeasureStream → List ℕ → ℕ → Option (Step MeasureStream (List ℕ))
serialize_bytes s source bytes = counted s source (align_bits + bytes * 8)

unfoldable pub bytes_processed : MeasureStream → Option ℕ
bytes_processed s = assert (ltb (s.bits_written + 7) (2 ^ 31)) (some ((s.bits_written + 7) / 8))

unfoldable pub total_bits : MeasureStream → Option ℕ
total_bits s = assert (ltb (s.total_bytes * 8) (2 ^ 31)) (some (s.total_bytes * 8))

-- Negative where more was written than there is room for.
unfoldable pub bits_remaining : MeasureStream → Option ℤ
unfolding ◌-ℤ◌ total_bits
bits_remaining s = do total ← total_bits s; some (pos total -ℤ pos s.bits_written)
