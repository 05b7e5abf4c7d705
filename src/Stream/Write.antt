-- ===== src/Stream/Write.antt =====
-- svr/library/networking/Serialization.h: WriteStream.
use rudp_network.Prelude.{ℕ, ◌-◌, ◌*◌, List, Option, some, true, ◌>>=◌, assert, ltb, leb, Step}
use rudp_network.Prelude.Int.{ℤ, ltb_ℤ, leb_ℤ, in_int32, to_uint32, ◌-ℤ◌}
use rudp_network.Memory.{read_at}
use rudp_network.BitWriter.{BitWriter}
use rudp_network.BitWriter
use rudp_network.Util.BitsRequired.{bits_required}
use rudp_network.Stream.Error.{ProtocolError}

pub record WriteStream : Type 0 where
  pub error : ProtocolError
  pub writer : BitWriter

unfoldable pub init : List ℕ → ℕ → Option WriteStream
init buffer bytes = do
  writer ← BitWriter.init buffer bytes
  some (record { error = ProtocolError.none; writer = writer })

-- A call of the writer that succeeds; the stream itself never fails.
abbrev pub wrote : {V : Type 0} → WriteStream → V → Option BitWriter → Option (Step WriteStream V)
wrote s value m =
    m >>= λ w. some (record { ok = true; stream = record s { writer = w }; value = value })

unfoldable pub serialize_integer : WriteStream → ℤ → ℤ → ℤ → Option (Step WriteStream ℤ)
unfolding ◌-ℤ◌
serialize_integer s value min max = assert (ltb_ℤ min max) (
    assert (leb_ℤ min value) (
      assert (leb_ℤ value max) do
        bits ← bits_required (to_uint32 min) (to_uint32 max)
        difference ← in_int32 (value -ℤ min)
        wrote s value (BitWriter.write_bits (to_uint32 difference) bits s.writer)))

unfoldable pub serialize_bits : WriteStream → ℕ → ℕ → Option (Step WriteStream ℕ)
serialize_bits s value bits =
    assert (ltb 0 bits)
      (assert (leb bits 32) (wrote s value (BitWriter.write_bits value bits s.writer)))

unfoldable pub serialize_align : WriteStream → Option (Step WriteStream (Unit {0}))
serialize_align s = wrote s tt (BitWriter.write_align s.writer)

-- Align, then the first `bytes` bytes of `source`.
unfoldable pub serialize_bytes : WriteStream → List ℕ → ℕ → Option (Step WriteStream (List ℕ))
unfolding serialize_align
serialize_bytes s source bytes = do
  a ← serialize_align s
  src ← read_at 0 bytes source
  let t = a.stream
  wrote t source (BitWriter.write_bytes src t.writer)

unfoldable pub flush : WriteStream → Option WriteStream
flush s = do w ← BitWriter.flush_bits s.writer; some (record s { writer = w })

unfoldable pub bytes_processed : WriteStream → ℕ
bytes_processed s = BitWriter.bytes_written s.writer

unfoldable pub bits_processed : WriteStream → ℕ
bits_processed s = (s.writer).bits_written

unfoldable pub total_bits : WriteStream → ℕ
total_bits s = BitWriter.total_bytes s.writer * 8

unfoldable pub bits_remaining : WriteStream → ℕ
unfolding total_bits bits_processed
bits_remaining s = total_bits s - bits_processed s

unfoldable pub align_bits : WriteStream → ℕ
align_bits s = BitWriter.align_bits s.writer

unfoldable pub total_bytes : WriteStream → ℕ
total_bytes s = BitWriter.total_bytes s.writer
