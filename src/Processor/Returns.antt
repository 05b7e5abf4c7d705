-- ===== src/Processor/Returns.antt =====
-- svr/library/networking/PacketProcessor.cpp: ReadPacket on datagrams of any content.
use rudp_network.Prelude.{
  ℕ, ◌+◌, ◌*◌, ◌/◌, ◌^◌, ◌≤◌, ◌<◌, ◌≡◌, inl, inr, refl, arith, List, Option, none, some, length,
}
use rudp_network.Memory.{IsBytes}
use rudp_network.Network.Returns.{read_packet_total}
use rudp_network.Packet.{Packet}
use rudp_network.Packet.Factory.{PacketFactory, Junk}
use rudp_network.Processor.{PacketProcessor, ProcessorError, info_of, no_header, read_packet}

-- It returns, with a packet or with null, and sets the error only.
pub processor_read_packet_total :
    (factory : PacketFactory) (junk : Junk) (buffer : List ℕ) (size : ℕ) (p : PacketProcessor)
    → 0 < p.protocol_id
    → 5 ≤ size
    → (size + 3) / 4 * 4 ≤ length buffer
    → size < 2 ^ 27
    → IsBytes buffer
    → 1 < factory.num_packet_types
    → factory.num_packet_types < 2 ^ 31
    → (e : ProcessorError) × (o : Option Packet) × (read_packet factory junk buffer size p
        ≡ some (record p { error = e }, o))
unfolding read_packet
processor_read_packet_total factory junk buffer size p id enough room int b many types =
    let r =
      read_packet_total no_header no_header junk (info_of p) factory buffer size refl id
        (omega arith) room int b many types in
    elim r.2 [
      | inl (null, e) ↦ (ProcessorError.read_packet_failed, none, ground (arith, r.1, null))
      | inr (packet, read, e) ↦ (ProcessorError.no_error, some packet, ground (arith, r.1, read))
    ]
