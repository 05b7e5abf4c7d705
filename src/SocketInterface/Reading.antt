-- ===== src/SocketInterface/Reading.antt =====
-- svr/library/networking/SocketInterface.cpp: a whole call of ReadPackets.
use rudp_network.Prelude.{◌%◌, ◌^◌, ◌<◌, ◌≡◌, ◌⊎◌, List, [], ◌++◌, Option, some, true, length}
use rudp_network.Address.{Address}
use rudp_network.Packet.Factory.{PacketFactory, Junk}
use rudp_network.Socket.{Os, is_open}
use rudp_network.Socket.Inbox.{Inbox}
use rudp_network.SocketInterface.{SocketInterface, PacketEntry}
use rudp_network.SocketInterface.Queues.{IsSound}

-- What ReadPackets needs of an interface: a protocol, an open socket, and a positive packet size in
-- whole words, as the processor's constructor leaves it.
pub record CanRead (i : SocketInterface) : Type 0 where
  pub sound : IsSound i
  pub protocol : 0 < (i.processor).protocol_id
  pub words : (i.processor).max_packet_size % 4 ≡ 0
  pub positive : 0 < (i.processor).max_packet_size
  pub opened : is_open i.socket ≡ true
  pub int_size : (i.processor).max_packet_size < 2 ^ 27

-- The interface after it received the entries `new`.
pub record Received (i : SocketInterface) (new : List PacketEntry) (i' : SocketInterface)
    : Type 0 where
  pub can_read : CanRead i'
  pub queue : i'.receive_queue ≡ i.receive_queue ++ new
  pub size : i'.receive_queue_size ≡ i.receive_queue_size
  pub packet_size : (i'.processor).max_packet_size ≡ (i.processor).max_packet_size
  pub send_queue : i'.send_queue ≡ i.send_queue

module _ (os : Os) (inbox : Inbox os) (factory : PacketFactory) (junk : Junk)
    (many : 1 < factory.num_packet_types) (types : factory.num_packet_types < 2 ^ 31) where
  -- Every datagram was read, or the queue is full.
  abbrev Finished : SocketInterface → Option (SocketInterface × os.State) → Type 0
  Finished i r =
      (i' : SocketInterface) × (w' : os.State) × (new : List PacketEntry) × (r ≡ some (i', w'))
      × Received i new i'
      × ((inbox.pending w' ≡ []) ⊎ (length i'.receive_queue ≡ i'.receive_queue_size))
