-- ===== src/Examples/Inboxes.antt =====
-- Datagrams that wait: an operating system that keeps them in a list.
use rudp_network.Prelude.{
  ◌+◌, ◌≤◌, ◌≡◌, inl, refl, arith, List, [], ◌∷◌, Option, none, some, length, replicate,
}
use rudp_network.Memory.{IsBytes, append-IsBytes}
use rudp_network.Network
use rudp_network.Network.Returns.{IsAnswer, read_packet_total}
use rudp_network.Processor.{no_header}
use rudp_network.Session.{SessionManager, empty_manager}
use rudp_network.Session.Invariant.{IsConsistent, empty-IsConsistent}
use rudp_network.Socket.{Os}
use rudp_network.Socket.Inbox.{Inbox, Datagram}
use rudp_network.Server.{receive_packets}
use rudp_network.Server.Run.{receive_packets_total}
use rudp_network.SocketInterface.{SocketInterface}
use rudp_network.Logger
use rudp_network.Examples.Packets as Sample
use rudp_network.Examples.Packets.{zeros-IsBytes}
use rudp_network.Examples.Queues as Queue
use rudp_network.Examples.Queues.{peer_valid}
use rudp_network.Examples.Requests.{datagram, client, client_valid, socket, socket_open, usable}

abbrev arrive : List Datagram → Option Datagram × List Datagram
arrive [] = (none, [])
arrive (d ∷ ds) = (some d, ds)

abbrev pub list_os : Os
list_os = record {
  State = List Datagram;
  recvfrom = λ w n. arrive w;
  sendto = λ w to bytes. (length bytes, w);
}

abbrev pub list_inbox : Inbox list_os
list_inbox = record {
  pending = λ w. w;
  recvfrom_empty = λ w n h. rw h refl;
  recvfrom_next = λ w n d ds h fits. (rw h refl, rw h refl);
  recvfrom_keeps_empty = λ w n h. rw h refl;
  sendto_keeps = λ w to bytes. refl;
}

-- A request, and a datagram that is none.
abbrev pub waiting : List Datagram
waiting = (client, datagram) ∷ (client, 9 ∷ []) ∷ []

pub datagram-IsBytes : IsBytes datagram
datagram-IsBytes =
    append-IsBytes (101 ∷ 0 ∷ 0 ∷ 77 ∷ []) (replicate 8 0)
      (omega arith, (omega arith, (omega arith, (omega arith, tt)))) (zeros-IsBytes 8)

read_packet_total_example :
    (r : Network.ReadResult (Unit {0})) × (Network.read_packet no_header no_header Sample.info
        Sample.factory Sample.junk Sample.memory 12 none
      ≡ some r)
    × IsAnswer r
read_packet_total_example =
    read_packet_total no_header no_header Sample.junk Sample.info Sample.factory Sample.memory 12
      refl (omega arith) (omega arith) (omega arith) (omega arith) (zeros-IsBytes 32) (omega arith)
      (omega arith)

receive_packets_total_example :
    (m' : SessionManager) × (w' : List Datagram) × (receive_packets list_os Logger.lerror 3
        Sample.junk
        (replicate 512 0)
        socket
        (replicate 500 0)
        empty_manager
        waiting
      ≡ some (m', w'))
    × IsConsistent m'
    × (m'.sid_gen ≤ 0 + 2)
    × (w' ≡ [])
receive_packets_total_example =
    receive_packets_total list_os list_inbox Sample.junk (replicate 512 0) socket Logger.lerror
      socket_open usable (zeros-IsBytes 512) (omega arith) 3 (replicate 500 0) empty_manager waiting
      (inl (omega arith))
      (
        client_valid,
        datagram-IsBytes,
        omega arith,
        omega arith,
        (client_valid, (omega arith, tt), omega arith, omega arith, tt),
      )
      (omega arith) (zeros-IsBytes 500) refl empty-IsConsistent (omega arith)

-- Room for three more packets.
abbrev interface : SocketInterface
interface = record Queue.interface { receive_queue_size = 4 }
