-- ===== src/Processor/Datagram.antt =====
-- svr/library/networking/PacketProcessor.cpp: a packet that WritePacket leaves in the buffer, sent as
-- a datagram, read by ReadPacket of another processor.
use rudp_network.Prelude.{
  ℕ, ◌+◌, ◌*◌, ◌/◌, ◌≤◌, ◌<◌, ◌≡◌, refl, ap, ◌∙◌, arith, List, ◌++◌, none, some, length, take,
  length-take,
}
use rudp_network.Memory.{IsBytes, take-IsBytes}
use rudp_network.Network
use rudp_network.Network.RoundTrip.{CanWrite, packet_size}
use rudp_network.Network.Datagram.{write_packet-travels}
use rudp_network.Stream.Error.{ProtocolError}
use rudp_network.Packet.{Packet}
use rudp_network.Packet.Factory.{PacketFactory, Junk}
use rudp_network.Processor.{
  PacketProcessor, ProcessorError, info_of, no_header, write_packet, read_packet,
}

-- A datagram of at most `limit` bytes from which a processor for this protocol reads the packet.
pub record Carries (factory : PacketFactory) (junk : Junk) (protocol_id limit : ℕ) (packet : Packet)
    (bytes : List ℕ) : Type 0 where
  pub is_bytes : IsBytes bytes
  pub small : 5 ≤ length bytes
  pub fits : length bytes ≤ limit
  pub reads :
      (p : PacketProcessor) (tail : List ℕ)
      → p.protocol_id ≡ protocol_id
      → IsBytes tail
      → (length bytes + 3) / 4 * 4 ≤ length bytes + length tail
      → read_packet factory junk (bytes ++ tail) (length bytes) p
        ≡ some (record p { error = ProcessorError.no_error }, some packet)

module _ (factory : PacketFactory) (junk : Junk) (packet : Packet) (p : PacketProcessor)
    (c : CanWrite (info_of p) factory packet p.packet_buffer p.max_packet_size) where
  pub write_packet-Carries :
      (buffer : List ℕ) × (bytes : ℕ) × (write_packet factory packet p
        ≡ some (record p { error = ProcessorError.no_error; packet_buffer = buffer }, some bytes))
      × (length buffer ≡ length p.packet_buffer)
      × IsBytes buffer
      × Carries factory junk p.protocol_id p.max_packet_size packet (take bytes buffer)
  unfolding write_packet read_packet
  write_packet-Carries =
      let w = write_packet-travels no_header no_header junk c in
      let n : ℕ = packet_size 1 c.type_bits packet in
      let positive : 0 < n = omega arith in
      let fits : n ≤ p.max_packet_size = omega (arith, c.room) in
      let size : length (take n w.0) ≡ n =
        omega (arith, length-take n w.0, w.2, c.allocated, fits) in
      (
        w.0,
        n,
        ground (arith, w.1, positive, fits),
        w.2,
        w.3,
        record {
          is_bytes = take-IsBytes n w.0 w.3;
          small = omega (arith, size);
          fits = omega (arith, size, fits);
          reads = λ q tail same b room.
              let read : Network.read_packet no_header no_header (info_of q) factory junk
                    (take n w.0 ++ tail) n none
                  ≡ some
                      (record { packet = some packet; error = ProtocolError.none; header = none }) =
                ap
                  (λ (id : ℕ).
                    Network.read_packet no_header no_header
                      (info_of (record q { protocol_id = id })) factory junk (take n w.0 ++ tail) n
                      none)
                  same
                ∙ w.4 tail b (omega (arith, size, room)) in
              rw size (rw read refl);
        },
      )
