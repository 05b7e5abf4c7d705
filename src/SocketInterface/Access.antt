-- ===== src/SocketInterface/Access.antt =====
-- svr/library/networking/SocketInterface.cpp: the destructor, and what asks the interface for its
-- state.
use rudp_network.Prelude.{ℕ, List, [], ◌∷◌, Option, some, Bool, ◌>>=◌, assert, get_elem?}
use rudp_network.Prelude.Int.{ℤ, pos, pos_part, leb_ℤ, ltb_ℤ}
use rudp_network.Packet.{Packet}
use rudp_network.Packet.Factory
use rudp_network.Packet.Factory.{Junk}
use rudp_network.Socket
use rudp_network.Socket.{is_error}
use rudp_network.SocketInterface.{SocketInterface, Counters, clear_send_queue, clear_receive_queue}

-- ~SocketInterface(): both queues are cleared, and then the socket is closed; the result is what it
-- closes. The processor is not deleted.
unfoldable pub destroy : SocketInterface → Option (Option ℤ)
unfolding clear_send_queue clear_receive_queue
destroy i = do
  i' ← clear_send_queue i
  i'' ← clear_receive_queue i'
  some (Socket.destroy i''.socket)

-- m_counters, in the order of the enumeration.
unfoldable pub counter_list : Counters → List ℕ
counter_list c =
    c.packets_sent ∷ c.packets_received ∷ c.packets_read ∷ c.packets_written ∷ c.send_queue_overflow
    ∷ c.receive_queue_overflow ∷ c.read_packet_failures ∷ c.write_packet_failures
    ∷ c.encrypt_packet_failures ∷ c.decrypt_packet_failures ∷ c.encrypted_packets_read
    ∷ c.encrypted_packets_written ∷ c.unencrypted_packets_read ∷ c.unencrypted_packets_written
    ∷ c.encryption_mapping_failures ∷ []

-- GetCounter
unfoldable pub get_counter : ℤ → SocketInterface → Option ℕ
unfolding counter_list
get_counter index i =
    assert (leb_ℤ (pos 0) index)
      (assert (ltb_ℤ index (pos 15)) (get_elem? (counter_list i.counters) (pos_part index)))

-- IsError
unfoldable pub interface_is_error : SocketInterface → Bool
interface_is_error i = is_error i.socket

-- CreatePacket, of the one factory.
unfoldable pub create_packet : Junk → ℤ → Option (Option Packet)
create_packet junk type = Factory.create_packet junk type

-- GetMaxPacketSize
unfoldable pub get_max_packet_size : SocketInterface → ℕ
get_max_packet_size i = (i.processor).max_packet_size
