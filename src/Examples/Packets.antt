-- ===== src/Examples/Packets.antt =====
-- A connection request, written and read, and the packets that are refused.
use rudp_network.Prelude.{
  ℕ, zero, suc, ◌≡◌, ◌↔◌, ◌⊎◌, refl, arith, List, none, some, true, false, replicate,
}
use rudp_network.Prelude.Int.{pos, to_uint32, ◌≤ℤ◌}
use rudp_network.Memory.{IsBytes}
use rudp_network.Util.BitsRequired.{bits_required}
use rudp_network.Stream.Error.{ProtocolError}
use rudp_network.Packet.{Packet, PacketInfo, start_req, get_type}
use rudp_network.Packet.Factory.{PacketFactory, Junk}
use rudp_network.Packet.Kind.{test_packet_num_types}
use rudp_network.Util.Crc.{calculate_crc32, crc32_loop, crc32_step, crc32_table}
use rudp_network.Memory.{read_at}
use rudp_network.Network.{protocol_crc}
use rudp_network.Network
use rudp_network.Network.{expected_checksum, write_checksum}
use rudp_network.Network.RoundTrip.{CanWrite}
use rudp_network.Network.Errors.{read_packet_short, read_packet_corrupt}
use rudp_network.Processor.{PacketProcessor, ProcessorError, no_header}
use rudp_network.Socket.{Answers, is_error, new_socket}
use rudp_network.Socket.{socket_type_ipv4}
use rudp_network.Socket.Open.{new_socket_ipv4}

pub zeros-IsBytes : (n : ℕ) → IsBytes (replicate n 0)
zeros-IsBytes zero = tt
zeros-IsBytes (suc n) = (omega arith, zeros-IsBytes n)

abbrev pub memory : List ℕ
memory = replicate 32 0

abbrev pub info : PacketInfo
info = record { raw_format = false; prefix_bytes = 1; protocol_id = 7; allowed_packet_types = none }

abbrev pub factory : PacketFactory
factory = record { num_packet_types = test_packet_num_types }

abbrev pub junk : Junk
junk = record { cmd = 200; sid = 9; uid = 77; reason = 3 }

abbrev pub request : Packet
request = start_req (record { cmd = 1; sid = 0; uid = 0x123456789AB })

pub type_width_example : bits_required (to_uint32 (pos 0)) (to_uint32 (pos 105)) ≡ some 7
unfolding bits_required to_uint32
type_width_example = refl

pub can_write_example : CanWrite info factory request memory 32
unfolding get_type
can_write_example = record {
  has_checksum = refl;
  protocol = omega arith;
  well_formed = (omega arith, omega arith, omega arith);
  many_types = omega arith;
  int_types = omega arith;
  known_type = omega arith;
  type_bits = 7;
  type_width = type_width_example;
  bytes = zeros-IsBytes 32;
  words = refl;
  allocated = omega arith;
  int_size = omega arith;
  room = omega arith;
}

abbrev processor : PacketProcessor
processor = record {
  protocol_id = 7;
  error = ProcessorError.no_error;
  max_packet_size = 32;
  absolute_max_packet_size = 41;
  packet_buffer = memory;
}

read_packet_short_example :
    Network.read_packet no_header no_header info factory junk memory 4 none ≡ none
read_packet_short_example =
    read_packet_short no_header no_header info factory junk memory 4 none refl (omega arith)
      (omega arith) (omega arith)

abbrev blank_crc : ℕ
blank_crc = 1288834301

expected_example : expected_checksum info 12 memory ≡ some blank_crc
unfolding expected_checksum protocol_crc read_at calculate_crc32 crc32_loop crc32_step crc32_table
expected_example = refl

read_packet_corrupt_example :
    Network.read_packet no_header no_header info factory junk memory 12 none
    ≡ some (record { packet = none; error = ProtocolError.crc32_mismatch; header = none })
read_packet_corrupt_example =
    read_packet_corrupt no_header no_header info factory junk memory 12 none refl blank_crc
      (zeros-IsBytes 32) (omega arith) (omega arith) (omega arith) (omega arith) expected_example
      (omega arith)

abbrev failed_bind : Answers
failed_bind = record { socket = pos 3; setsockopt_ok = true; bind_ok = false; fcntl_ok = true }

new_socket_ipv4_example :
    (is_error (new_socket 9000 socket_type_ipv4 failed_bind) ≡ true)
    ↔ ((pos 3 ≤ℤ pos 0) ⊎ (false ≡ false) ⊎ (true ≡ false))
new_socket_ipv4_example = new_socket_ipv4 9000 failed_bind
