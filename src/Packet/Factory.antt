-- ===== src/Packet/Factory.antt =====
-- svr/library/networking/PacketFactory.h and PacketFactory.cpp: the factory, a singleton that
-- keeps the number of packet types. A destroyed packet is no longer used by the code, so that
-- DestroyPacket changes nothing here.
use rudp_network.Prelude.{ℕ, List, [], ◌∷◌, Option, none, some, ◌==◌, if◌then◌else◌}
use rudp_network.Prelude.Int.{ℤ, pos, negsuc}
use rudp_network.Packet.{
  Packet, test_a, test_b, test_c, heartbeat, start_req, start_rsp, stop_req, stop_rsp,
}
use rudp_network.Packet.Kind

pub record PacketFactory : Type 0 where
  pub num_packet_types : ℕ

-- What the members that a constructor leaves alone hold: any values of their types.
pub record Junk : Type 0 where
  pub cmd : ℕ
  pub sid : ℕ
  pub uid : ℕ
  pub reason : ℕ

-- data[i] = i.
abbrev counting_bytes : List ℕ
counting_bytes = 0 ∷ 1 ∷ 2 ∷ 3 ∷ 4 ∷ 5 ∷ 6 ∷ 7 ∷ 8 ∷ 9 ∷ 10 ∷ 11 ∷ 12 ∷ 13 ∷ 14 ∷ 15 ∷ []

-- The switch on a type that is not negative; no case is a null pointer.
unfoldable pub new_packet : Junk → ℕ → Option Packet
new_packet junk type =
    if type == Kind.test_packet_a
    then some (test_a (record { a = pos 1; b = pos 2; c = pos 3 }))
    else if type == Kind.test_packet_b
    then some (test_b (record { x = pos 0; y = pos 1 }))
    else if type == Kind.test_packet_c
    then some (test_c (record { bytes = counting_bytes }))
    else if type == Kind.rudp_cmd_connection_start_req
    then some (start_req (record { cmd = junk.cmd; sid = junk.sid; uid = junk.uid }))
    else if type == Kind.rudp_cmd_connection_start_rsp
    then some (start_rsp (record { cmd = junk.cmd; sid = junk.sid }))
    else if type == Kind.rudp_cmd_connection_stop_req
    then some (stop_req (record { cmd = junk.cmd; sid = junk.sid; reason = junk.reason }))
    else if type == Kind.rudp_cmd_connection_stop_rsp
    then some (stop_rsp (record { cmd = junk.cmd; sid = junk.sid; reason = junk.reason }))
    else if type == Kind.rudp_cmd_heartbeat
    then some (heartbeat (record { cmd = junk.cmd; sid = junk.sid }))
    else none

-- The outer option is the assert on the sign.
unfoldable pub create_packet : Junk → ℤ → Option (Option Packet)
unfolding new_packet
create_packet junk (pos type) = some (new_packet junk type)
create_packet junk (negsuc n) = none

unfoldable pub set_num_packet_types : ℕ → PacketFactory → PacketFactory
set_num_packet_types num f = record f { num_packet_types = num }
