-- ===== src/Network.antt =====
-- svr/library/networking/Network.cpp: WritePacket and ReadPacket. The optional header is an object
-- of the caller, given by its two Serialize functions. The singleton factory is an argument.
pub mod Checksum
pub mod Prefix
pub mod Field
pub mod RoundTrip
pub mod Datagram
pub mod Errors
pub mod Returns
use rudp_network.Prelude.{
  ℕ, zero, suc, ◌+◌, ◌-◌, ◌*◌, ◌%◌, ◌^◌, List, Option, none, some, Bool, true, false, not, ◌>>=◌,
  assert, ltb, leb, ◌==◌, Step, if◌then◌else◌, length,
}
use rudp_network.Prelude.Int.{ℤ, pos}
use rudp_network.Memory.{bytes_of, read_at, write_at}
use rudp_network.Util.Crc.{calculate_crc32}
use rudp_network.Stream.{write_stream, read_stream}
use rudp_network.Stream.Error.{ProtocolError}
use rudp_network.Stream.Write
use rudp_network.Stream.Write.{WriteStream}
use rudp_network.Stream.Read
use rudp_network.Stream.Read.{ReadStream}
use rudp_network.Serialize.{Serializer}
use rudp_network.Packet.{Packet, PacketInfo, get_type}
use rudp_network.Packet.Serialize.{serialize}
use rudp_network.Packet.Factory.{PacketFactory, Junk, create_packet}

-- The result of WritePacket and the buffer that it filled.
pub record Written : Type 0 where
  pub bytes : ℕ
  pub buffer : List ℕ

-- The result of ReadPacket: the packet, or null and the error code.
pub record ReadResult (H : Type 0) : Type 0 where
  pub packet : Option Packet
  pub error : ProtocolError
  pub header : Option H

-- The loops that skip the prefix.
unfoldable pub write_prefix : ℕ → WriteStream → Option WriteStream
write_prefix zero s = some s
write_prefix (suc n) s = do r ← Write.serialize_bits s 0 8; write_prefix n r.stream

unfoldable pub read_prefix : ℕ → ReadStream → Option ReadStream
read_prefix zero s = some s
read_prefix (suc n) s = do r ← Read.serialize_bits s 0 8; read_prefix n r.stream

-- An absent header is a null pointer.
unfoldable pub serialize_header : {St H : Type 0} → Serializer St H → Serializer St (Option H)
serialize_header f s none = some (record { ok = true; stream = s; value = none })
serialize_header f s (some h) = do
  r ← f s h
  some (record { ok = r.ok; stream = r.stream; value = some r.value })

-- The checksum over the protocol id in the sender's memory and `bytes` bytes behind the prefix.
unfoldable pub protocol_crc : ℕ → ℕ
protocol_crc protocol_id = calculate_crc32 (bytes_of 4 protocol_id) 0

-- WritePacket puts the checksum over the four zero bytes that stand for it.
unfoldable pub write_checksum : PacketInfo → ℕ → List ℕ → Option (List ℕ)
unfolding protocol_crc
write_checksum info bytes buffer = do
  packet_data ← read_at info.prefix_bytes (bytes - info.prefix_bytes) buffer
  let crc = calculate_crc32 packet_data (protocol_crc info.protocol_id)
  write_at info.prefix_bytes (bytes_of 4 crc) buffer

-- The length `bufferSize - 4 - prefixBytes` is an int that becomes a size_t.
unfoldable pub expected_checksum : PacketInfo → ℕ → List ℕ → Option ℕ
unfolding protocol_crc
expected_checksum info buffer_size buffer = do
  let zeros = calculate_crc32 (bytes_of 4 0) (protocol_crc info.protocol_id)
  let count = (buffer_size + 2 ^ 64 - 4 - info.prefix_bytes) % 2 ^ 64
  packet_data ← read_at (info.prefix_bytes + 4) count buffer
  some (calculate_crc32 packet_data zeros)

unfoldable pub is_error : ProtocolError → Bool
is_error ProtocolError.none = false
is_error _ = true

module _ {H : Type 0} (write_header : Serializer WriteStream H)
    (read_header : Serializer ReadStream H) where
  -- From the header on.
  unfoldable pub write_body : PacketInfo → PacketFactory → Packet → WriteStream → Option Written
  unfolding write_checksum is_error
  write_body info factory packet s = assert (ltb 0 factory.num_packet_types) do
    let n = factory.num_packet_types
    s1 ←
        if ltb 1 n
        then (Write.serialize_integer s (pos (get_type packet)) (pos 0) (pos (n - 1)) >>= λ r.
            some r.stream)
        else some s
    r ← serialize write_stream s1 packet
    if not r.ok then some (record { bytes = 0; buffer = (r.stream.writer).buffer }) else do
      s2 ← Write.flush r.stream
      let bytes = Write.bytes_processed s2
      buffer ←
          if info.raw_format
          then some (s2.writer).buffer
          else write_checksum info bytes (s2.writer).buffer
      some (record { bytes = if is_error s2.error then 0 else bytes; buffer = buffer })

  unfoldable pub write_packet :
      PacketInfo → PacketFactory → Packet → List ℕ → ℕ → Option H → Option Written
  unfolding write_prefix serialize_header write_body
  write_packet info factory packet buffer buffer_size header = assert (ltb 0 buffer_size) (
      assert (ltb 0 info.protocol_id) do
        s ← Write.init buffer buffer_size
        s1 ← write_prefix info.prefix_bytes s
        s2 ←
            if info.raw_format
            then some s1
            else (Write.serialize_bits s1 0 32 >>= λ r. some r.stream)
        h ← serialize_header write_header s2 header
        if not h.ok
            then some (record { bytes = 0; buffer = ((h.stream).writer).buffer })
            else write_body info factory packet h.stream)

  abbrev pub failed : ProtocolError → Option H → Option (ReadResult H)
  failed e header = some (record { packet = none; error = e; header = header })

  -- A new packet of the type read, filled from the stream.
  unfoldable pub read_new : Junk → ℤ → Option H → ReadStream → Option (ReadResult H)
  unfolding is_error
  read_new junk type header s = do
    created ← create_packet junk type
    elim created [
      | none ↦ failed ProtocolError.create_packet_failed header
      | some packet ↦ do
        r ← serialize read_stream s packet
        if not r.ok
            then failed ProtocolError.serialize_packet_failed header
            else if is_error (r.stream).error
            then failed (r.stream).error header
            else some
                (record { packet = some r.value; error = ProtocolError.none; header = header })
    ]

  -- From the header on.
  unfoldable pub read_body : PacketFactory → Junk → Option H → ReadStream → Option (ReadResult H)
  unfolding serialize_header read_new
  read_body factory junk header s = do
    h ← serialize_header read_header s header
    if not h.ok
        then failed ProtocolError.serialize_header_failed h.value
        else assert (ltb 0 factory.num_packet_types) (
            let n = factory.num_packet_types in
            if ltb 1 n
            then (Read.serialize_integer h.stream (pos 0) (pos 0) (pos (n - 1)) >>= λ t.
                if not t.ok
                then failed ProtocolError.invalid_packet_type h.value
                else read_new junk t.value h.value t.stream)
            else read_new junk (pos 0) h.value h.stream)

  unfoldable pub read_packet :
      PacketInfo → PacketFactory → Junk → List ℕ → ℕ → Option H → Option (ReadResult H)
  unfolding read_prefix expected_checksum read_body
  read_packet info factory junk buffer buffer_size header = assert (ltb 0 buffer_size) (
      assert (ltb 0 info.protocol_id) do
        t ← Read.init buffer buffer_size
        s ← read_prefix info.prefix_bytes t
        if info.raw_format then read_body factory junk header s else do
          r ← Read.serialize_bits s 0 32
          crc32 ← expected_checksum info buffer_size buffer
          if crc32 == r.value
              then read_body factory junk header r.stream
              else failed ProtocolError.crc32_mismatch header)
