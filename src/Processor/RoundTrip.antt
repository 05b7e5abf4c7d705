-- ===== src/Processor/RoundTrip.antt =====
-- svr/library/networking/PacketProcessor.cpp: what one processor writes another one reads.
use rudp_network.Prelude.{ℕ, ◌≤◌, ◌<◌, ◌≡◌, refl, ap, ◌∙◌, arith, none, some}
use rudp_network.Network
use rudp_network.Network.RoundTrip.{CanWrite, read_packet-write_packet}
use rudp_network.Stream.Error.{ProtocolError}
use rudp_network.Packet.{Packet}
use rudp_network.Packet.Factory.{PacketFactory, Junk}
use rudp_network.Processor.{
  PacketProcessor, ProcessorError, info_of, no_header, write_packet, read_packet,
}

-- When a packet fits the processor's buffer, WritePacket of the processor succeeds within the
-- maximal size and another processor with the same protocol id reads the packet from that buffer.
pub processor_read_packet-write_packet :
    (factory : PacketFactory) (junk : Junk) (packet : Packet) (sender receiver : PacketProcessor)
    → CanWrite (info_of sender) factory packet sender.packet_buffer sender.max_packet_size
    → receiver.protocol_id ≡ sender.protocol_id
    → (sender' : PacketProcessor) × (bytes : ℕ) × (write_packet factory packet sender
        ≡ some (sender', some bytes))
      × (bytes ≤ sender.max_packet_size)
      × (sender'.error ≡ ProcessorError.no_error)
      × (read_packet factory junk sender'.packet_buffer bytes receiver
          ≡ some (record receiver { error = ProcessorError.no_error }, some packet))
unfolding write_packet read_packet
processor_read_packet-write_packet factory junk packet sender receiver c same =
    let r = read_packet-write_packet no_header no_header junk c in
    let w : Network.Written = r.0 in
    let fits : w.bytes ≤ sender.max_packet_size = omega (arith, r.2, c.room) in
    let positive : 0 < w.bytes = omega (arith, r.2) in
    let read : Network.read_packet no_header no_header (info_of receiver) factory junk w.buffer
          w.bytes none
        ≡ some (record { packet = some packet; error = ProtocolError.none; header = none }) =
      ap
        (λ (id : ℕ).
          Network.read_packet no_header no_header (info_of (record receiver { protocol_id = id }))
            factory junk w.buffer w.bytes none)
        same
      ∙ r.4 in
    (
      record sender { error = ProcessorError.no_error; packet_buffer = w.buffer },
      w.bytes,
      ground (arith, r.1, fits, positive),
      fits,
      refl,
      rw read refl,
    )
