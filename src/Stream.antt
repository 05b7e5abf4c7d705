-- ===== src/Stream.antt =====
-- svr/library/networking/Serialization.h: WriteStream, ReadStream and MeasureStream, and what the
-- templates over a stream need of them. The build has YOJIMBO_SERIALIZE_CHECKS off, so
-- SerializeCheck (Check) does nothing. The context pointer is not kept: no packet of the library
-- reads it.
pub mod Error
pub mod Advance
pub mod Start
pub mod Codec
pub mod Returns
pub mod Bytes
pub mod Write
pub mod Read
pub mod Measure
pub mod Check
use rudp_network.Prelude.{ℕ, List, Option, Bool, true, false, Step}
use rudp_network.Prelude.Int.{ℤ}

-- What `template <typename Stream>` code calls. The value that a reading stream stores is in the
-- result; a writing stream returns the one that it was given.
pub record Stream : Type 1 where
  pub State : Type 0
  pub is_writing : Bool
  pub is_reading : Bool
  pub serialize_integer : State → ℤ → ℤ → ℤ → Option (Step State ℤ)
  pub serialize_bits : State → ℕ → ℕ → Option (Step State ℕ)
  pub serialize_bytes : State → List ℕ → ℕ → Option (Step State (List ℕ))
  pub serialize_align : State → Option (Step State (Unit {0}))

abbrev pub write_stream : Stream
write_stream = record {
  State = Write.WriteStream;
  is_writing = true;
  is_reading = false;
  serialize_integer = Write.serialize_integer;
  serialize_bits = Write.serialize_bits;
  serialize_bytes = Write.serialize_bytes;
  serialize_align = Write.serialize_align;
}

abbrev pub read_stream : Stream
read_stream = record {
  State = Read.ReadStream;
  is_writing = false;
  is_reading = true;
  serialize_integer = Read.serialize_integer;
  serialize_bits = Read.serialize_bits;
  serialize_bytes = Read.serialize_bytes;
  serialize_align = Read.serialize_align;
}

abbrev pub measure_stream : Stream
measure_stream = record {
  State = Measure.MeasureStream;
  is_writing = true;
  is_reading = false;
  serialize_integer = Measure.serialize_integer;
  serialize_bits = Measure.serialize_bits;
  serialize_bytes = Measure.serialize_bytes;
  serialize_align = Measure.serialize_align;
}
