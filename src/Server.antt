-- ===== src/Server.antt =====
-- svr/library/networking/Server.h and Server.cpp: the server that answers connection requests.
-- Of the log lines only the assert in one of them is kept, which depends on the logger's level;
-- heartbeats, data and stops are received and ignored by the source.
pub mod Response
pub mod Start
pub mod Run
pub mod Main
use rudp_network.Prelude.{
  ℕ, zero, suc, leb, List, ◌++◌, Option, none, some, ◌>>=◌, ◌==◌, if◌then◌else◌, length, take, drop,
  get_or,
}
use rudp_network.Address.{Address, get_address4}
use rudp_network.Logger.{ldebug}
use rudp_network.Packet.{ConnectionStartReq}
use rudp_network.Packet.Kind
use rudp_network.Packet.Factory.{Junk}
use rudp_network.Packet.Serialize.{serialize_start_req, serialize_start_rsp}
use rudp_network.Session.{SessionManager, produce_session, set_peer}
use rudp_network.Socket
use rudp_network.Socket.{Socket, Os}
use rudp_network.Stream.{write_stream, read_stream}
use rudp_network.Stream.Write
use rudp_network.Stream.Read

abbrev pub max_pkg_length : ℕ
max_pkg_length = 500

abbrev pub response_buffer_size : ℕ
response_buffer_size = 512

-- The request that the server reads: its members hold any values before, and the result of
-- SerializeRead is not looked at.
unfoldable pub read_request : Junk → List ℕ → ℕ → Option ConnectionStartReq
unfolding serialize_start_req
read_request junk buffer len = do
  s ← Read.init buffer len
  r ← serialize_start_req read_stream s (record { cmd = junk.cmd; sid = junk.sid; uid = junk.uid })
  some r.value

-- The bytes of the response, in a buffer with any contents before.
unfoldable pub write_response : List ℕ → ℕ → Option (List ℕ)
unfolding serialize_start_rsp
write_response stack sid = do
  s ← Write.init stack response_buffer_size
  r ←
      serialize_start_rsp write_stream s
        (record { cmd = Kind.rudp_cmd_connection_start_rsp; sid = sid })
  f ← Write.flush r.stream
  some (take (Write.bytes_processed f) (f.writer).buffer)

-- The DEBUG of each datagram, in a process whose logger has this level: its argument
-- `from.GetAddress4()`.
unfoldable pub log_sender : ℕ → Address → Option (Unit {0})
unfolding get_address4
log_sender level from =
    if leb ldebug level then (get_address4 from >>= λ shown. some tt) else some tt

module _ (os : Os) where
  -- `need_create` is always true, so that a session is always produced.
  unfoldable pub process_start :
      Junk
      → List ℕ
      → Socket
      → Address
      → List ℕ
      → ℕ
      → SessionManager
      → os.State
      → Option (SessionManager × os.State)
  unfolding read_request write_response
  process_start junk stack socket from buffer len m w = do
    request ← read_request junk buffer len
    produced ← produce_session request.uid m
    let m' = set_peer (produced.1).sid from produced.0
    response ← write_response stack (produced.1).sid
    sent ← Socket.send_packet os from response socket w
    some (m', sent.1)

  -- The switch on the first byte.
  unfoldable pub handle :
      Junk
      → List ℕ
      → Socket
      → Address
      → List ℕ
      → ℕ
      → SessionManager
      → os.State
      → Option (SessionManager × os.State)
  unfolding process_start
  handle junk stack socket from msg n m w =
      if get_or msg 0 0 == Kind.rudp_cmd_connection_start_req
      then process_start junk stack socket from msg n m w
      else some (m, w)

  -- The loop of ReceivePackets, in a process whose logger has this level; `msg` is its buffer of
  -- 500 bytes. `none` also when the fuel runs out.
  unfoldable pub receive_packets :
      ℕ
      → ℕ
      → Junk
      → List ℕ
      → Socket
      → List ℕ
      → SessionManager
      → os.State
      → Option (SessionManager × os.State)
  unfolding handle log_sender
  receive_packets level zero junk stack socket msg m w = none
  receive_packets level (suc fuel) junk stack socket msg m w =
      Socket.receive_packet os socket max_pkg_length w >>= λ (received, w'). elim received [
        | none ↦ some (m, w')
        | some (from, bytes) ↦
            let msg' = bytes ++ drop (length bytes) msg in
            log_sender level from >>= λ logged.
            handle junk stack socket from msg' (length bytes) m w' >>= λ r.
            receive_packets level fuel junk stack socket msg' r.0 r.1
      ]

  -- Tick
  unfoldable pub tick :
      ℕ
      → ℕ
      → Junk
      → List ℕ
      → Socket
      → List ℕ
      → SessionManager
      → os.State
      → Option (SessionManager × os.State)
  unfolding receive_packets
  tick level fuel junk stack socket msg m w = receive_packets level fuel junk stack socket msg m w

-- Server(), with its one member; ~Server() deletes the socket.
unfoldable pub new_server : Socket.Answers → Socket
new_server answers = Socket.new_socket 8888 Socket.socket_type_ipv4 answers
