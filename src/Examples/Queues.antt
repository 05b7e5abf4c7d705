-- ===== src/Examples/Queues.antt =====
-- An interface with room for one packet to send and one packet received.
use rudp_network.Prelude.{
  ◌<◌, ◌≡◌, refl, arith, [], ◌∷◌, ◌++◌, some, length, true, false, ◌⊎◌, replicate,
}
use rudp_network.Prelude.Int.{pos}
use rudp_network.Address.{Address, from_bytes, is_valid, same_type}
use rudp_network.Packet.{Packet, heartbeat}
use rudp_network.Processor.{PacketProcessor, ProcessorError}
use rudp_network.Socket.{SocketError, is_error}
use rudp_network.SocketInterface.{SocketInterface, no_counts, next, send_packet}
use rudp_network.SocketInterface.Queues.{IsSound, send_packet-IsSound}

abbrev pub peer : Address
peer = from_bytes 127 0 0 1 9000

abbrev pub beat : Packet
beat = heartbeat (record { cmd = 105; sid = 4 })

abbrev pub processor : PacketProcessor
processor = record {
  protocol_id = 7;
  error = ProcessorError.no_error;
  max_packet_size = 32;
  absolute_max_packet_size = 41;
  packet_buffer = replicate 41 0;
}

abbrev pub interface : SocketInterface
interface = record {
  protocol_id = 7;
  send_queue_size = 1;
  receive_queue_size = 1;
  socket = record { error = SocketError.no_error; port = some 9000; handle = pos 3 };
  processor = processor;
  send_queue = [];
  receive_queue = record { sequence = 0; address = peer; packet = beat } ∷ [];
  counters = no_counts;
}

pub peer_valid : is_valid peer ≡ true
unfolding is_valid from_bytes same_type
peer_valid = refl

pub usable : is_error interface.socket ≡ false
unfolding is_error
usable = refl

pub interface-IsSound : IsSound interface
unfolding is_valid from_bytes same_type
interface-IsSound = record {
  send_bound = omega arith;
  receive_bound = omega arith;
  send_valid = refl;
  receive_valid = refl;
}

send_packet-IsSound_example :
    (i' : SocketInterface) × (send_packet peer beat 5 interface ≡ some i')
    × IsSound i'
    × (((length interface.send_queue < interface.send_queue_size)
          × (i'.send_queue
              ≡ interface.send_queue ++ record { sequence = 5; address = peer; packet = beat } ∷ [])
          × (i'.counters ≡ record interface.counters {
            packets_sent = next (interface.counters).packets_sent;
          }))
        ⊎ ((length interface.send_queue ≡ interface.send_queue_size)
            × (i'.send_queue ≡ interface.send_queue)
            × (i'.counters ≡ record interface.counters {
              send_queue_overflow = next (interface.counters).send_queue_overflow;
            })))
send_packet-IsSound_example =
    send_packet-IsSound peer beat 5 interface interface-IsSound peer_valid usable
