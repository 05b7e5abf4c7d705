-- ===== src/Examples/Requests.antt =====
-- A connection request of the user 77 to a server without sessions.
use rudp_network.Prelude.{
  ◌>>=◌, ℕ, ◌+◌, ◌≡◌, refl, arith, List, [], ◌∷◌, ◌++◌, none, some, true, false, length, replicate,
}
use rudp_network.Prelude.Int.{pos}
use rudp_network.Memory.{load32, read_at}
use rudp_network.BitReader
use rudp_network.Stream.{read_stream}
use rudp_network.Stream.Read
use rudp_network.Stream.Read.{ReadStream}
use rudp_network.Serialize
use rudp_network.Packet.{ConnectionStartReq}
use rudp_network.Packet.Kind
use rudp_network.Packet.Factory.{Junk}
use rudp_network.Packet.Serialize.{serialize_start_req, serialize_start_rsp}
use rudp_network.Address.{Address, from_bytes, is_valid, same_type}
use rudp_network.Session.{Session, SessionManager, empty_manager, get_session_by_uid}
use rudp_network.Session.Invariant.{IsConsistent, empty-IsConsistent}
use rudp_network.Socket.{Socket, SocketError, Os, is_error, is_open}
use rudp_network.Server.{read_request, write_response, process_start}
use rudp_network.Server.Response.{write_response_read}
use rudp_network.Server.Start.{process_start-IsConsistent}
use rudp_network.Examples.Packets.{zeros-IsBytes}

-- An operating system that delivers nothing and sends everything.
abbrev quiet_os : Os
quiet_os = record {
  State = ℕ;
  recvfrom = λ w n. (none, w);
  sendto = λ w to bytes. (length bytes, w + 1);
}

abbrev junk : Junk
junk = record { cmd = 200; sid = 9; uid = 5; reason = 3 }

abbrev pub datagram : List ℕ
datagram = 101 ∷ 0 ∷ 0 ∷ 77 ∷ 0 ∷ 0 ∷ 0 ∷ 0 ∷ 0 ∷ 0 ∷ 0 ∷ 0 ∷ []

abbrev request : ConnectionStartReq
request = record { cmd = Kind.rudp_cmd_connection_start_req; sid = 0; uid = 77 }

read_request_example : read_request junk datagram 11 ≡ some request
unfolding read_request serialize_start_req Serialize.serialize_bits Serialize.serialize_uint64
    Read.init Read.opened Read.serialize_bits BitReader.init BitReader.opened
    BitReader.would_overflow BitReader.read_bits BitReader.refill BitReader.take_bits load32 read_at
read_request_example = refl

abbrev pub client : Address
client = from_bytes 10 0 0 2 4000

pub client_valid : is_valid client ≡ true
unfolding is_valid from_bytes same_type
client_valid = refl

abbrev pub socket : Socket
socket = record { error = SocketError.no_error; port = some 9000; handle = pos 3 }

pub usable : is_error socket ≡ false
unfolding is_error
usable = refl

pub socket_open : is_open socket ≡ true
unfolding is_open
socket_open = refl

write_response_read_example :
    (bytes : List ℕ) × (s : ReadStream) × (write_response (replicate 512 0) 1 ≡ some bytes)
    × (length bytes ≡ 3)
    × ((Read.init (bytes ++ 7 ∷ []) 3 >>= λ t.
          serialize_start_rsp read_stream t (record { cmd = 0; sid = 0 }))
        ≡ some (record {
          ok = true;
          stream = s;
          value = record { cmd = Kind.rudp_cmd_connection_start_rsp; sid = 1 };
        }))
write_response_read_example =
    write_response_read (replicate 512 0) (7 ∷ []) 1 (record { cmd = 0; sid = 0 })
      (zeros-IsBytes 512) (omega arith) (omega arith) (omega arith, tt) (omega arith)

process_start-IsConsistent_example :
    (m' : SessionManager) × (s : Session) × (bytes : List ℕ) × (process_start quiet_os junk
        (replicate 512 0)
        socket
        client
        datagram
        11
        empty_manager
        0
      ≡ some (m', 0 + 1))
    × IsConsistent m'
    × (get_session_by_uid 77 m' ≡ some s)
    × (s.sid ≡ 0 + 1)
    × (m'.sid_gen ≡ 0 + 1)
    × (s.peer ≡ client)
    × (write_response (replicate 512 0) s.sid ≡ some bytes)
    × (length bytes ≡ 3)
process_start-IsConsistent_example =
    process_start-IsConsistent quiet_os junk (replicate 512 0) socket client datagram 11
      empty_manager 0 request read_request_example empty-IsConsistent (omega arith)
      (zeros-IsBytes 512) (omega arith) client_valid socket_open usable
