-- ===== src/SocketInterface/Writing.antt =====
-- svr/library/networking/SocketInterface.cpp: a whole call of WritePackets.
use rudp_network.Prelude.{zero, suc, ℕ, ◌≡◌, List, [], ◌∷◌, ◌++◌}
use rudp_network.Address.{Address}
use rudp_network.Packet.{Packet}
use rudp_network.Packet.Factory.{PacketFactory, Junk}
use rudp_network.Network.RoundTrip.{CanWrite}
use rudp_network.Processor.{PacketProcessor, ProcessorError, info_of}
use rudp_network.Processor.Datagram.{Carries}
use rudp_network.Socket
use rudp_network.Socket.{Os, Socket}
use rudp_network.Socket.Inbox.{Datagram}
use rudp_network.SocketInterface.{SocketInterface, PacketEntry, Counters, next}

-- What the library relies on of sendto: it hands on each datagram, behind those before.
pub record Outbox (os : Os) : Type 0 where
  pub sent : os.State → List Datagram
  pub sendto_sends :
      (w : os.State) (to : Address) (bytes : List ℕ)
      → sent (os.sendto w to bytes).1 ≡ sent w ++ (to, bytes) ∷ []

-- Every packet of a queue may be written with this processor.
abbrev pub CanWriteAll : PacketFactory → PacketProcessor → List PacketEntry → Type 0
CanWriteAll factory p [] = Unit
CanWriteAll factory p (e ∷ es) =
    CanWrite (info_of p) factory e.packet p.packet_buffer p.max_packet_size
    × CanWriteAll factory p es

-- The datagrams carry the packets of the entries to their addresses, in their order.
abbrev pub CarryAll :
    PacketFactory → Junk → PacketProcessor → List PacketEntry → List Datagram → Type 0
CarryAll factory junk p [] [] = Unit
CarryAll factory junk p [] (d ∷ ds) = ⊥
CarryAll factory junk p (e ∷ es) [] = ⊥
CarryAll factory junk p (e ∷ es) ((to, bytes) ∷ ds) =
    (to ≡ e.address)
    × Carries factory junk p.protocol_id p.max_packet_size e.packet bytes
    × CarryAll factory junk p es ds

-- The counters after `n` packets are written.
abbrev pub count_written : ℕ → Counters → Counters
count_written zero c = c
count_written (suc n) c = count_written n (record c {
  packets_written = next c.packets_written;
  unencrypted_packets_written = next c.unencrypted_packets_written;
})

-- The interface after `n` packets are written: the send queue is empty, and the rest is as it was.
pub record Written (i : SocketInterface) (n : ℕ) (i' : SocketInterface) : Type 0 where
  pub send_queue : i'.send_queue ≡ []
  pub receive_queue : i'.receive_queue ≡ i.receive_queue
  pub socket : i'.socket ≡ i.socket
  pub protocol_id : (i'.processor).protocol_id ≡ (i.processor).protocol_id
  pub packet_size : (i'.processor).max_packet_size ≡ (i.processor).max_packet_size
  pub counters : i'.counters ≡ count_written n i.counters

module _ (os : Os) (outbox : Outbox os) (factory : PacketFactory) (junk : Junk)
    (popped : PacketEntry → PacketEntry) (intact : (e : PacketEntry) → popped e ≡ e) where
  abbrev wrote : SocketInterface → List PacketEntry → List ℕ → SocketInterface
  wrote i rest buffer = record i {
    send_queue = rest;
    processor = record i.processor { error = ProcessorError.no_error; packet_buffer = buffer };
    counters = record i.counters {
      packets_written = next (i.counters).packets_written;
      unencrypted_packets_written = next (i.counters).unencrypted_packets_written;
    };
  }
