-- ===== src/Packet.antt =====
-- svr/library/networking/Packet.h and PacketFactory.h: the packets, their types and their
-- Serialize functions.
pub mod Kind
pub mod Serialize
pub mod Factory
pub mod Codecs
pub mod RoundTrip
pub mod Measured
pub mod Returns
use rudp_network.Prelude.{ℕ, List, Bool, Option}
use rudp_network.Prelude.Int.{ℤ}

pub record TestPacketA : Type 0 where
  pub a : ℤ
  pub b : ℤ
  pub c : ℤ

pub record TestPacketB : Type 0 where
  pub x : ℤ
  pub y : ℤ

-- The sixteen bytes `data`.
pub record TestPacketC : Type 0 where
  pub bytes : List ℕ

pub record ConnectionHeartBeat : Type 0 where
  pub cmd : ℕ
  pub sid : ℕ

pub record ConnectionStartReq : Type 0 where
  pub cmd : ℕ
  pub sid : ℕ
  pub uid : ℕ

pub record ConnectionStartRsp : Type 0 where
  pub cmd : ℕ
  pub sid : ℕ

pub record ConnectionStopReq : Type 0 where
  pub cmd : ℕ
  pub sid : ℕ
  pub reason : ℕ

pub record ConnectionStopRsp : Type 0 where
  pub cmd : ℕ
  pub sid : ℕ
  pub reason : ℕ

-- An object of one of the classes derived from Packet.
pub data Packet : Type 0 where
  test_a : TestPacketA → Packet
  test_b : TestPacketB → Packet
  test_c : TestPacketC → Packet
  heartbeat : ConnectionHeartBeat → Packet
  start_req : ConnectionStartReq → Packet
  start_rsp : ConnectionStartRsp → Packet
  stop_req : ConnectionStopReq → Packet
  stop_rsp : ConnectionStopRsp → Packet

-- GetType: the constructors pass their class's type to Packet.
unfoldable pub get_type : Packet → ℕ
get_type (test_a p) = Kind.test_packet_a
get_type (test_b p) = Kind.test_packet_b
get_type (test_c p) = Kind.test_packet_c
get_type (heartbeat p) = Kind.rudp_cmd_heartbeat
get_type (start_req p) = Kind.rudp_cmd_connection_start_req
get_type (start_rsp p) = Kind.rudp_cmd_connection_start_rsp
get_type (stop_req p) = Kind.rudp_cmd_connection_stop_req
get_type (stop_rsp p) = Kind.rudp_cmd_connection_stop_rsp

pub record PacketInfo : Type 0 where
  pub raw_format : Bool
  pub prefix_bytes : ℕ
  pub protocol_id : ℕ
  pub allowed_packet_types : Option (List ℕ)
