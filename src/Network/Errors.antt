-- ===== src/Network/Errors.antt =====
-- ReadPacket on packets that it must not accept.
use rudp_network.Prelude.{
  ℕ, ◌+◌, ◌-◌, ◌*◌, ◌/◌, ◌%◌, ◌^◌, ◌≤◌, ◌<◌, ◌≡◌, ◌≢◌, arith, List, Option, none, some, length,
  false,
}
use rudp_network.Memory.{val, IsBytes, read_at}
use rudp_network.BitReader
use rudp_network.Stream.Error.{ProtocolError}
use rudp_network.Stream.Write.{WriteStream}
use rudp_network.Stream.Read
use rudp_network.Stream.Start.{started, init-started, started-Reading}
use rudp_network.Stream.Read.{ReadStream}
use rudp_network.Stream.Advance.{read_bits-Readed}
use rudp_network.Serialize.{Serializer}
use rudp_network.Packet.{PacketInfo}
use rudp_network.Packet.Factory.{PacketFactory, Junk}
use rudp_network.Network.{expected_checksum, read_packet}
use rudp_network.Network.Prefix.{read_prefix-Readed}

-- A negative length becomes a size_t near 2^64, and the checksum runs out of any buffer.
short_checksum :
    (info : PacketInfo) (size : ℕ) (buffer : List ℕ)
    → size < info.prefix_bytes + 4
    → info.prefix_bytes < 2 ^ 31
    → length buffer < 2 ^ 63
    → expected_checksum info size buffer ≡ none
unfolding expected_checksum read_at
short_checksum info size buffer short int fits =
    let beyond : length buffer
        < info.prefix_bytes + 4 + (size + 2 ^ 64 - 4 - info.prefix_bytes) % 2 ^ 64 =
      omega arith in
    ground (arith, beyond)

module _ {H : Type 0} (write_header : Serializer WriteStream H)
    (read_header : Serializer ReadStream H) (info : PacketInfo) (factory : PacketFactory)
    (junk : Junk) (buffer : List ℕ) (size : ℕ) (header : Option H)
    (checksummed : info.raw_format ≡ false) where
  -- A checksummed packet too short for prefix and checksum makes ReadPacket run out of any buffer
  -- below 2^63 bytes.
  pub read_packet_short :
      size < info.prefix_bytes + 4
      → info.prefix_bytes < 2 ^ 31
      → length buffer < 2 ^ 63
      → read_packet write_header read_header info factory junk buffer size header ≡ none
  unfolding read_packet
  read_packet_short short int fits =
      ground (arith, checksummed, short_checksum info size buffer short int fits)

  -- A packet of bytes, below 2^28, long enough and within its buffer, whose stored checksum is
  -- not the expected one is refused with the checksum error code, and the header is left alone.
  pub read_packet_corrupt :
      (crc : ℕ)
      → IsBytes buffer
      → (size + 3) / 4 * 4 ≤ length buffer
      → info.prefix_bytes + 4 ≤ size
      → size < 2 ^ 28
      → 0 < info.protocol_id
      → expected_checksum info size buffer ≡ some crc
      → val buffer / 2 ^ (8 * info.prefix_bytes) % 2 ^ 32 ≢ crc
      → read_packet write_header read_header info factory junk buffer size header
        ≡ some (record { packet = none; error = ProtocolError.crc32_mismatch; header = header })
  unfolding read_packet Read.opened BitReader.opened
  read_packet_corrupt crc b room enough small protocol expected differs =
      let p =
        read_prefix-Readed info.prefix_bytes (started buffer size)
          (started-Reading buffer size b room) (omega arith) in
      let start = init-started buffer size small in
      let r =
        read_bits-Readed p.0 0 32 p.2.reading (omega arith) (omega arith)
          (omega (arith, p.2.bits_read, p.2.num_bits)) in
      ground (arith, checksummed, protocol, start, p.1, r.1, expected, differs)
