-- ===== src/SocketInterface.antt =====
-- svr/library/networking/SocketInterface.h and SocketInterface.cpp: the queues between the
-- application and the socket, with their counters. The code reads a queue entry through a reference
-- after it popped the entry, which is undefined: what it then reads is the parameter `popped`.
pub mod Queues
pub mod Loop
pub mod Reading
pub mod Writing
pub mod Delivery
pub mod Access
use rudp_network.Prelude.{
  ℕ, zero, suc, ◌+◌, ◌-◌, ◌%◌, ◌≤◌, List, [], ◌∷◌, ◌++◌, Option, none, some, Bool, true, false, not,
  ◌>>=◌, assert, leb, ltb, ◌==◌, if◌then◌else◌, length, take, drop, get_elem?, u64, ◌&&◌,
}
use rudp_network.Address.{Address, is_valid}
use rudp_network.Packet.{Packet}
use rudp_network.Prelude.Int.{ℤ, pos, pos_part, leb_ℤ, ltb_ℤ}
use rudp_network.Packet.Factory
use rudp_network.Packet.Factory.{PacketFactory, Junk}
use rudp_network.Processor
use rudp_network.Processor.{PacketProcessor, ProcessorError}
use rudp_network.Socket
use rudp_network.Socket.{Socket, Os, is_error}

-- m_counters, by name.
pub record Counters : Type 0 where
  pub packets_sent : ℕ
  pub packets_received : ℕ
  pub packets_read : ℕ
  pub packets_written : ℕ
  pub send_queue_overflow : ℕ
  pub receive_queue_overflow : ℕ
  pub read_packet_failures : ℕ
  pub write_packet_failures : ℕ
  pub encrypt_packet_failures : ℕ
  pub decrypt_packet_failures : ℕ
  pub encrypted_packets_read : ℕ
  pub encrypted_packets_written : ℕ
  pub unencrypted_packets_read : ℕ
  pub unencrypted_packets_written : ℕ
  pub encryption_mapping_failures : ℕ

-- memset of the counters.
abbrev pub no_counts : Counters
no_counts = record {
  packets_sent = 0;
  packets_received = 0;
  packets_read = 0;
  packets_written = 0;
  send_queue_overflow = 0;
  receive_queue_overflow = 0;
  read_packet_failures = 0;
  write_packet_failures = 0;
  encrypt_packet_failures = 0;
  decrypt_packet_failures = 0;
  encrypted_packets_read = 0;
  encrypted_packets_written = 0;
  unencrypted_packets_read = 0;
  unencrypted_packets_written = 0;
  encryption_mapping_failures = 0;
}

-- `++` on a uint64_t.
abbrev pub next : ℕ → ℕ
next n = u64 (n + 1)

pub record PacketEntry : Type 0 where
  pub sequence : ℕ
  pub address : Address
  pub packet : Packet

pub record SocketInterface : Type 0 where
  pub protocol_id : ℕ
  pub send_queue_size : ℕ
  pub receive_queue_size : ℕ
  pub socket : Socket
  pub processor : PacketProcessor
  pub send_queue : List PacketEntry
  pub receive_queue : List PacketEntry
  pub counters : Counters

unfoldable pub new_interface :
    PacketFactory → (ℕ → List ℕ) → ℕ → Socket → ℕ → ℕ → ℕ → Option SocketInterface
new_interface factory allocate protocol_id socket max_packet_size send_size receive_size =
    assert (ltb 0 protocol_id) (
      assert (ltb 0 send_size) (
        assert (ltb 0 receive_size) (
          assert (ltb 0 factory.num_packet_types) (
            some (record {
              protocol_id = protocol_id;
              send_queue_size = send_size;
              receive_queue_size = receive_size;
              socket = socket;
              processor = Processor.new_processor allocate protocol_id max_packet_size;
              send_queue = [];
              receive_queue = [];
              counters = no_counts;
            })))))

-- ClearSendQueue and ClearReceiveQueue stop at an entry with no valid address.
abbrev pub all_valid : List PacketEntry → Bool
all_valid [] = true
all_valid (e ∷ es) = is_valid e.address && all_valid es

unfoldable pub clear_send_queue : SocketInterface → Option SocketInterface
clear_send_queue i = assert (all_valid i.send_queue) (some (record i { send_queue = [] }))

unfoldable pub clear_receive_queue : SocketInterface → Option SocketInterface
clear_receive_queue i = assert (all_valid i.receive_queue) (some (record i { receive_queue = [] }))

unfoldable pub send_packet : Address → Packet → ℕ → SocketInterface → Option SocketInterface
send_packet address packet sequence i = assert (is_valid address) (
    if is_error i.socket
    then some i
    else if leb i.send_queue_size (length i.send_queue)
    then some (record i {
      counters = record i.counters { send_queue_overflow = next (i.counters).send_queue_overflow };
    })
    else some (record i {
      send_queue =
          i.send_queue ++ record { sequence = sequence; address = address; packet = packet } ∷ [];
      counters = record i.counters { packets_sent = next (i.counters).packets_sent };
    }))

-- The oldest received packet and its sender, both read behind the pop.
unfoldable pub receive_packet :
    (PacketEntry → PacketEntry)
    → SocketInterface
    → Option (SocketInterface × Option (Address × Packet))
receive_packet popped i = if is_error i.socket then some (i, none) else elim i.receive_queue [
  | [] ↦ some (i, none)
  | entry ∷ rest ↦ assert (is_valid (popped entry).address) (
      some (
        record i {
          receive_queue = rest;
          counters = record i.counters { packets_received = next (i.counters).packets_received };
        },
        some ((popped entry).address, (popped entry).packet),
      ))
]

-- The switch on the processor's error after a write.
unfoldable pub count_write_failure : ProcessorError → Counters → Counters
count_write_failure ProcessorError.key_is_null c = record c {
  encryption_mapping_failures = next c.encryption_mapping_failures;
}
count_write_failure ProcessorError.encrypt_failed c = record c {
  encrypt_packet_failures = next c.encrypt_packet_failures;
}
count_write_failure ProcessorError.write_packet_failed c = record c {
  write_packet_failures = next c.write_packet_failures;
}
count_write_failure _ c = c

-- The switch on the processor's error after a read, as the source pairs them.
unfoldable pub count_read_failure : ProcessorError → Counters → Counters
count_read_failure ProcessorError.key_is_null c = record c {
  encryption_mapping_failures = next c.encryption_mapping_failures;
}
count_read_failure ProcessorError.decrypt_failed c = record c {
  encrypt_packet_failures = next c.encrypt_packet_failures;
}
count_read_failure ProcessorError.packet_too_small c = record c {
  decrypt_packet_failures = next c.decrypt_packet_failures;
}
count_read_failure ProcessorError.read_packet_failed c = record c {
  read_packet_failures = next c.read_packet_failures;
}
count_read_failure _ c = c

-- A datagram that the processor takes joins the receive queue.
unfoldable pub accept :
    PacketFactory → Junk → Address → List ℕ → ℕ → SocketInterface → Option SocketInterface
unfolding count_read_failure
accept factory junk from buffer bytes i = do
  r ← Processor.read_packet factory junk buffer bytes i.processor
  let c = i.counters
  elim r.1 [
    | none ↦ some (record i { processor = r.0; counters = count_read_failure (r.0).error c })
    | some packet ↦ some (record i {
      processor = r.0;
      receive_queue =
          i.receive_queue ++ record { sequence = 0; address = from; packet = packet } ∷ [];
      counters = record c {
        packets_read = next c.packets_read;
        unencrypted_packets_read = next c.unencrypted_packets_read;
      };
    })
  ]

module _ (os : Os) (factory : PacketFactory) where
  -- One round of the loop of WritePackets, from the pop on.
  unfoldable pub write_entry :
      PacketEntry → SocketInterface → os.State → Option (SocketInterface × os.State)
  unfolding count_write_failure
  write_entry entry i w = do
    r ← Processor.write_packet factory entry.packet i.processor
    let c = i.counters
    elim r.1 [
      | none ↦ some (record i { processor = r.0; counters = count_write_failure (r.0).error c }, w)
      | some bytes ↦ do
        s ← Socket.send_packet os entry.address (take bytes (r.0).packet_buffer) i.socket w
        some (
          record i {
            processor = r.0;
            counters = record c {
              packets_written = next c.packets_written;
              unencrypted_packets_written = next c.unencrypted_packets_written;
            };
          },
          s.1,
        )
    ]

module _ (os : Os) (factory : PacketFactory) (popped : PacketEntry → PacketEntry) where
  unfoldable pub write_loop :
      List PacketEntry → SocketInterface → os.State → Option (SocketInterface × os.State)
  write_loop [] i w = some (i, w)
  write_loop (entry ∷ rest) i w = assert (is_valid entry.address) do
    r ← write_entry os factory (popped entry) (record i { send_queue = rest }) w
    write_loop rest r.0 r.1

  unfoldable pub write_packets : SocketInterface → os.State → Option (SocketInterface × os.State)
  unfolding write_loop
  write_packets i w = write_loop i.send_queue i w

module _ (os : Os) (factory : PacketFactory) where
  -- `stack` is the packet buffer of `maxPacketSize` bytes, which each datagram overwrites from
  -- the start. `none` also when the fuel runs out.
  unfoldable pub read_loop :
      ℕ → Junk → List ℕ → SocketInterface → os.State → Option (SocketInterface × os.State)
  unfolding accept
  read_loop zero junk stack i w = none
  read_loop (suc fuel) junk stack i w =
      Socket.receive_packet os i.socket (i.processor).max_packet_size w >>= λ (received, w').
      elim received [
        | none ↦ some (i, w')
        | some (from, bytes) ↦
            let buffer = bytes ++ drop (length bytes) stack in
            if length i.receive_queue == i.receive_queue_size
            then some (
              record i {
                counters = record i.counters {
                  receive_queue_overflow = next (i.counters).receive_queue_overflow;
                };
              },
              w',
            )
            else (accept factory junk from buffer (length bytes) i >>= λ i'.
                read_loop fuel junk buffer i' w')
      ]
