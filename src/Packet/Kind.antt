-- ===== src/Packet/Kind.antt =====
-- svr/library/networking/PacketFactory.h: enum TestPacketTypes.
use rudp_network.Prelude.{ℕ}

abbrev pub test_packet_a : ℕ
test_packet_a = 0

abbrev pub test_packet_b : ℕ
test_packet_b = 1

abbrev pub test_packet_c : ℕ
test_packet_c = 2

abbrev pub rudp_cmd_data : ℕ
rudp_cmd_data = 100

abbrev pub rudp_cmd_connection_start_req : ℕ
rudp_cmd_connection_start_req = 101

abbrev pub rudp_cmd_connection_start_rsp : ℕ
rudp_cmd_connection_start_rsp = 102

abbrev pub rudp_cmd_connection_stop_req : ℕ
rudp_cmd_connection_stop_req = 103

abbrev pub rudp_cmd_connection_stop_rsp : ℕ
rudp_cmd_connection_stop_rsp = 104

abbrev pub rudp_cmd_heartbeat : ℕ
rudp_cmd_heartbeat = 105

abbrev pub test_packet_num_types : ℕ
test_packet_num_types = 106
