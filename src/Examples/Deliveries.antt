-- ===== src/Examples/Deliveries.antt =====
-- Two packets that one interface sends and another receives.
use rudp_network.Prelude.{refl, List, [], ◌∷◌, ◌++◌, none, length}
use rudp_network.Packet.{Packet}
use rudp_network.Socket.{Os}
use rudp_network.Socket.Inbox.{Datagram}
use rudp_network.SocketInterface.{SocketInterface, PacketEntry}
use rudp_network.SocketInterface.Writing.{Outbox}
use rudp_network.SocketInterface.Delivery.{Link, arrivals}
use rudp_network.Examples.Packets as Sample
use rudp_network.Examples.Queues as Queue
use rudp_network.Examples.Queues.{peer, beat}
use rudp_network.Examples.Requests.{client}
use rudp_network.Examples.Inboxes.{list_os, list_inbox}

-- An operating system that keeps what is sent in a list.
abbrev log_os : Os
log_os = record {
  State = List Datagram;
  recvfrom = λ w n. (none, w);
  sendto = λ w to bytes. (length bytes, w ++ (to, bytes) ∷ []);
}

abbrev log_outbox : Outbox log_os
log_outbox = record { sent = λ w. w; sendto_sends = λ w to bytes. refl }

abbrev wire : Link log_os log_outbox list_os list_inbox client
wire = record { deliver = arrivals client; delivers = λ w. refl }

abbrev entry : Packet → PacketEntry
entry p = record { sequence = 0; address = peer; packet = p }

abbrev sender : SocketInterface
sender = record Queue.interface { send_queue = entry beat ∷ entry Sample.request ∷ [] }

abbrev receiver : SocketInterface
receiver = record Queue.interface { receive_queue_size = 3 }
