-- ===== src/SocketInterface/Loop.antt =====
-- svr/library/networking/SocketInterface.cpp: the rounds of the loop of ReadPackets, by what waits.
use rudp_network.Prelude.{
  ℕ, suc, ◌≤◌, ◌<◌, ◌≡◌, refl, List, [], ◌∷◌, ◌++◌, some, true, false, length, drop, ◌==◌,
}
use rudp_network.Address.{Address, is_valid}
use rudp_network.Packet.Factory.{PacketFactory, Junk}
use rudp_network.Socket.{Os, is_open}
use rudp_network.Socket.Inbox.{Inbox, Datagram, receive_packet_empty, receive_packet_next}
use rudp_network.SocketInterface.{SocketInterface, next, accept, read_loop}

-- The packet buffer after a datagram came.
abbrev pub overwrite : List ℕ → List ℕ → List ℕ
overwrite bytes stack = bytes ++ drop (length bytes) stack

module _ (os : Os) (inbox : Inbox os) (factory : PacketFactory) (junk : Junk) (fuel : ℕ)
    (stack : List ℕ) (i : SocketInterface) (w : os.State) (opened : is_open i.socket ≡ true)
    (sized : 0 < (i.processor).max_packet_size) where
  abbrev n : ℕ
  n = (i.processor).max_packet_size

  pub read_loop_empty :
      inbox.pending w ≡ []
      → read_loop os factory (suc fuel) junk stack i w ≡ some (i, (os.recvfrom w n).1)
  unfolding read_loop
  read_loop_empty h =
      let e = receive_packet_empty os inbox i.socket w n opened sized h in rw (e, read_loop) refl

  module _ (from : Address) (bytes : List ℕ) (ds : List Datagram)
      (h : inbox.pending w ≡ (from, bytes) ∷ ds) (valid : is_valid from ≡ true)
      (positive : 0 < length bytes) (fits : length bytes ≤ n) where
    pub read_loop_full :
        (length i.receive_queue == i.receive_queue_size) ≡ true
        → read_loop os factory (suc fuel) junk stack i w
          ≡ some (
            record i {
              counters = record i.counters {
                receive_queue_overflow = next (i.counters).receive_queue_overflow;
              };
            },
            (os.recvfrom w n).1,
          )
    unfolding read_loop
    read_loop_full full =
        let e =
          receive_packet_next os inbox i.socket w n opened sized from bytes ds h valid positive
            fits in
        rw (e, read_loop) (rw full refl)

    pub read_loop_accepts :
        (j : SocketInterface)
        → (length i.receive_queue == i.receive_queue_size) ≡ false
        → accept factory junk from (overwrite bytes stack) (length bytes) i ≡ some j
        → read_loop os factory (suc fuel) junk stack i w
          ≡ read_loop os factory fuel junk (overwrite bytes stack) j (os.recvfrom w n).1
    unfolding read_loop
    read_loop_accepts j room a =
        let e =
          receive_packet_next os inbox i.socket w n opened sized from bytes ds h valid positive
            fits in
        rw (e, read_loop) (rw (room, a) refl)
