-- ===== src/SocketInterface/Delivery.antt =====
-- svr/library/networking/SocketInterface.cpp: WritePackets on one side and ReadPackets on the other.
use rudp_network.Prelude.{ℕ, zero, suc, ◌≡◌, refl, ap, List, [], ◌∷◌, ◌++◌, true, length}
use rudp_network.Address.{Address, is_valid}
use rudp_network.Packet.Factory.{PacketFactory, Junk}
use rudp_network.Processor.{PacketProcessor, ProcessorError}
use rudp_network.Socket.{Os}
use rudp_network.Socket.Inbox.{Inbox, Datagram}
use rudp_network.SocketInterface.{SocketInterface, PacketEntry, Counters, next}
use rudp_network.SocketInterface.Writing.{Outbox, CarryAll}

-- The datagrams as they come in from the sender's address.
abbrev pub arrivals : Address → List Datagram → List Datagram
arrivals from [] = []
arrivals from ((to, bytes) ∷ ds) = (from, bytes) ∷ arrivals from ds

-- The entries of the receive queue for the packets of the send queue.
abbrev pub entries_from : Address → List PacketEntry → List PacketEntry
entries_from from [] = []
entries_from from (e ∷ es) =
    record { sequence = 0; address = from; packet = e.packet } ∷ entries_from from es

-- The counters after `n` packets are read.
abbrev pub count_read : ℕ → Counters → Counters
count_read zero c = c
count_read (suc n) c = count_read n (record c {
  packets_read = next c.packets_read;
  unencrypted_packets_read = next c.unencrypted_packets_read;
})

-- The interface after it read the packets `new`.
pub record Delivered (j : SocketInterface) (new : List PacketEntry) (j' : SocketInterface)
    : Type 0 where
  pub receive_queue : j'.receive_queue ≡ j.receive_queue ++ new
  pub send_queue : j'.send_queue ≡ j.send_queue
  pub counters : j'.counters ≡ count_read (length new) j.counters

module _ (os : Os) (inbox : Inbox os) (factory : PacketFactory) (junk : Junk)
    (sender : PacketProcessor) (from : Address) (valid : is_valid from ≡ true) where
  abbrev took : PacketEntry → SocketInterface → SocketInterface
  took e j = record j {
    processor = record j.processor { error = ProcessorError.no_error };
    receive_queue =
        j.receive_queue ++ record { sequence = 0; address = from; packet = e.packet } ∷ [];
    counters = record j.counters {
      packets_read = next (j.counters).packets_read;
      unencrypted_packets_read = next (j.counters).unencrypted_packets_read;
    };
  }

length-CarryAll :
    (factory : PacketFactory) (junk : Junk) (p : PacketProcessor) (es : List PacketEntry)
    (ds : List Datagram)
    → CarryAll factory junk p es ds
    → length ds ≡ length es
length-CarryAll factory junk p [] [] c = refl
length-CarryAll factory junk p [] (d ∷ ds) c = absurd c
length-CarryAll factory junk p (e ∷ es) [] c = absurd c
length-CarryAll factory junk p (e ∷ es) ((to, bytes) ∷ ds) (at, c, cs) =
    ap suc (length-CarryAll factory junk p es ds cs)

-- The network between the two sides: every datagram that the sender handed to sendto waits at the
-- receiver, in order, with the sender's address.
pub record Link (os : Os) (outbox : Outbox os) (os' : Os) (inbox : Inbox os') (from : Address)
    : Type 0 where
  pub deliver : os.State → os'.State
  pub delivers : (w : os.State) → inbox.pending (deliver w) ≡ arrivals from (outbox.sent w)
