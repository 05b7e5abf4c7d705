-- ===== src/Processor.antt =====
-- svr/library/networking/PacketProcessor.h and PacketProcessor.cpp: the buffer into which packets
-- are written, with one prefix byte. The scratch buffer is never used.
pub mod RoundTrip
pub mod Returns
pub mod Datagram
use rudp_network.Prelude.{
  ℕ, ◌+◌, ◌-◌, ◌%◌, ◌≤◌, List, Option, none, some, Bool, true, false, ◌>>=◌, assert, leb, ltb, ◌==◌,
  if◌then◌else◌,
}
use rudp_network.Serialize.{Serializer}
use rudp_network.Stream.Write.{WriteStream}
use rudp_network.Stream.Read.{ReadStream}
use rudp_network.Packet.{Packet, PacketInfo}
use rudp_network.Packet.Factory.{PacketFactory, Junk}
use rudp_network.Network

pub data ProcessorError : Type 0 where
  no_error key_is_null packet_too_small write_packet_failed read_packet_failed : ProcessorError
  encrypt_failed decrypt_failed : ProcessorError

abbrev pub max_prefix_bytes : ℕ
max_prefix_bytes = 9

pub record PacketProcessor : Type 0 where
  pub protocol_id : ℕ
  pub error : ProcessorError
  pub max_packet_size : ℕ
  pub absolute_max_packet_size : ℕ
  pub packet_buffer : List ℕ

-- `allocate n` is what `new uint8_t[n]` holds.
unfoldable pub new_processor : (ℕ → List ℕ) → ℕ → ℕ → PacketProcessor
new_processor allocate protocol_id max_packet_size = record {
  protocol_id = protocol_id;
  error = ProcessorError.no_error;
  max_packet_size =
      max_packet_size + (if max_packet_size % 4 == 0 then 0 else 4 - max_packet_size % 4);
  absolute_max_packet_size = max_packet_size + max_prefix_bytes;
  packet_buffer = allocate (max_packet_size + max_prefix_bytes);
}

abbrev pub info_of : PacketProcessor → PacketInfo
info_of p = record {
  raw_format = false;
  prefix_bytes = 1;
  protocol_id = p.protocol_id;
  allowed_packet_types = none;
}

-- No header is passed.
abbrev pub no_header : {St : Type 0} → Serializer St (Unit {0})
no_header s h = some (record { ok = true; stream = s; value = h })

-- The result is the number of bytes of `packet_buffer` that are the packet, or null.
unfoldable pub write_packet :
    PacketFactory → Packet → PacketProcessor → Option (PacketProcessor × Option ℕ)
write_packet factory packet p = do
  w ←
      Network.write_packet no_header no_header (info_of p) factory packet p.packet_buffer
        p.max_packet_size none
  let p' = record p { error = ProcessorError.no_error; packet_buffer = w.buffer }
  if w.bytes == 0
      then some (record p' { error = ProcessorError.write_packet_failed }, none)
      else assert (leb w.bytes p.max_packet_size) (some (p', some w.bytes))

unfoldable pub read_packet :
    PacketFactory → Junk → List ℕ → ℕ → PacketProcessor → Option (PacketProcessor × Option Packet)
read_packet factory junk packet_data packet_bytes p = do
  r ← Network.read_packet no_header no_header (info_of p) factory junk packet_data packet_bytes none
  elim r.packet [
    | none ↦ some (record p { error = ProcessorError.read_packet_failed }, none)
    | some packet ↦ some (record p { error = ProcessorError.no_error }, some packet)
  ]
