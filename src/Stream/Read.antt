-- ===== src/Stream/Read.antt =====
-- svr/library/networking/Serialization.h: ReadStream.
use rudp_network.Prelude.{
  ℕ, ◌+◌, ◌*◌, ◌/◌, List, ◌++◌, Option, some, true, false, not, ◌>>=◌, assert, ltb, leb, length,
  drop, Step, if◌then◌else◌,
}
use rudp_network.Prelude.Int.{ℤ, ltb_ℤ, in_int32, to_uint32, to_int32, ◌+ℤ◌}
use rudp_network.BitReader.{BitReader}
use rudp_network.BitReader
use rudp_network.Util.BitsRequired.{bits_required}
use rudp_network.Stream.Error.{ProtocolError}

pub record ReadStream : Type 0 where
  pub error : ProtocolError
  pub bits_read : ℕ
  pub reader : BitReader

-- A stream at the start of its reader.
unfoldable pub opened : BitReader → ReadStream
opened reader = record { error = ProtocolError.none; bits_read = 0; reader = reader }

unfoldable pub init : List ℕ → ℕ → Option ReadStream
unfolding opened
init buffer bytes = do reader ← BitReader.init buffer bytes; some (opened reader)

-- `return false` with the error STREAM_OVERFLOW; nothing is stored.
abbrev pub overflow : {V : Type 0} → ReadStream → V → Option (Step ReadStream V)
overflow s value = some (record {
  ok = false;
  stream = record s { error = ProtocolError.stream_overflow };
  value = value;
})

abbrev pub advanced : ReadStream → ℕ → BitReader → ReadStream
advanced s bits r = record s { bits_read = s.bits_read + bits; reader = r }

unfoldable pub serialize_integer : ReadStream → ℤ → ℤ → ℤ → Option (Step ReadStream ℤ)
unfolding ◌+ℤ◌
serialize_integer s value min max = assert (ltb_ℤ min max) do
  bits ← bits_required (to_uint32 min) (to_uint32 max)
  if BitReader.would_overflow bits s.reader then overflow s value else do
    p ← BitReader.read_bits bits s.reader
    result ← in_int32 (to_int32 p.0 +ℤ min)
    some (record { ok = true; stream = advanced s bits p.1; value = result })

unfoldable pub serialize_bits : ReadStream → ℕ → ℕ → Option (Step ReadStream ℕ)
serialize_bits s value bits = assert (ltb 0 bits) (
    assert (leb bits 32) (
      if BitReader.would_overflow bits s.reader then overflow s value else do
        p ← BitReader.read_bits bits s.reader
        some (record { ok = true; stream = advanced s bits p.1; value = p.0 })))

-- A padding bit that is set makes it fail with no error code.
unfoldable pub serialize_align : ReadStream → Option (Step ReadStream (Unit {0}))
serialize_align s =
    let align = BitReader.align_bits s.reader in
    if BitReader.would_overflow align s.reader then overflow s tt else do
      p ← BitReader.read_align s.reader
      if p.0
          then some (record { ok = true; stream = advanced s align p.1; value = tt })
          else some (record { ok = false; stream = record s { reader = p.1 }; value = tt })

-- Align, then store into the first `bytes` bytes of `target`: a shorter target is a store outside
-- it.
unfoldable pub serialize_bytes : ReadStream → List ℕ → ℕ → Option (Step ReadStream (List ℕ))
unfolding serialize_align
serialize_bytes s target bytes = do
  a ← serialize_align s
  let t = a.stream
  if not a.ok
      then some (record { ok = false; stream = t; value = target })
      else if BitReader.would_overflow (bytes * 8) t.reader
      then overflow t target
      else do
        p ← BitReader.read_bytes bytes t.reader
        assert (leb bytes (length target)) (
            some (record {
              ok = true;
              stream = advanced t (bytes * 8) p.1;
              value = p.0 ++ drop bytes target;
            }))

unfoldable pub bytes_processed : ReadStream → ℕ
bytes_processed s = (s.bits_read + 7) / 8

unfoldable pub bits_remaining : ReadStream → ℕ
bits_remaining s = BitReader.bits_remaining s.reader

unfoldable pub align_bits : ReadStream → ℕ
align_bits s = BitReader.align_bits s.reader

unfoldable pub bytes_read : ReadStream → ℕ
bytes_read s = BitReader.bytes_read s.reader
