-- ===== src/Server/Start.antt =====
-- svr/library/networking/Server.cpp: ProcessStart as a whole.
use rudp_network.Prelude.{
  ℕ, ◌+◌, ◌≤◌, ◌<◌, ◌≡◌, ◌∙◌, refl, arith, List, [], ◌∷◌, some, true, false, length, ltb, lt→ltb,
  ◌==◌,
}
use rudp_network.Address.{Address, is_valid}
use rudp_network.Packet.{ConnectionStartReq}
use rudp_network.Packet.Factory.{Junk}
use rudp_network.Memory.{IsBytes}
use rudp_network.Session.{Session, SessionManager, get_session_by_uid, set_peer}
use rudp_network.Session.Invariant.{IsConsistent, produce_session-IsConsistent}
use rudp_network.Session.Peer.{set_peer-IsConsistent}
use rudp_network.Socket
use rudp_network.Socket.{Socket, Os, is_error, is_open}
use rudp_network.Server.{read_request, write_response, process_start}
use rudp_network.Server.Response.{write_response_read}

-- Sending bytes to a valid address through a socket with no error hands them to sendto.
sent_packet :
    (os : Os) (address : Address) (bytes : List ℕ) (s : Socket) (w : os.State)
    → 0 < length bytes
    → is_valid address ≡ true
    → is_open s ≡ true
    → is_error s ≡ false
    → Socket.send_packet os address bytes s w
      ≡ some ((os.sendto w address bytes).0 == length bytes, (os.sendto w address bytes).1)
unfolding Socket.send_packet
sent_packet os address bytes s w h valid opened usable =
    let some_bytes : ltb 0 (length bytes) ≡ true = lt→ltb _ _ h in
    rw (some_bytes, valid, opened, usable) refl

-- ProcessStart on a request that is read, from a valid address, through an open socket with no
-- error, in a manager whose maps agree and whose counter fits 16 bits, returns, keeps the maps in
-- agreement, gives the user a session with the next id and the sender as its peer, and hands the
-- three bytes of the response with this id to the socket.
pub process_start-IsConsistent :
    (os : Os) (junk : Junk) (stack : List ℕ) (socket : Socket) (from : Address) (buffer : List ℕ)
    (len : ℕ) (m : SessionManager) (w : os.State) (request : ConnectionStartReq)
    → read_request junk buffer len ≡ some request
    → IsConsistent m
    → m.sid_gen + 1 < 65536
    → IsBytes stack
    → 512 ≤ length stack
    → is_valid from ≡ true
    → is_open socket ≡ true
    → is_error socket ≡ false
    → (m' : SessionManager) × (s : Session) × (bytes : List ℕ) × (process_start os junk stack socket
          from buffer len m w
        ≡ some (m', (os.sendto w from bytes).1))
      × IsConsistent m'
      × (get_session_by_uid request.uid m' ≡ some s)
      × (s.sid ≡ m.sid_gen + 1)
      × (m'.sid_gen ≡ m.sid_gen + 1)
      × (s.peer ≡ from)
      × (write_response stack s.sid ≡ some bytes)
      × (length bytes ≡ 3)
unfolding process_start
process_start-IsConsistent os junk stack socket from buffer len m w request read v fits b room valid
      opened usable =
    let p = produce_session-IsConsistent request.uid m v fits in
    let q = set_peer-IsConsistent (p.1).sid request.uid from p.1 p.0 p.4 p.5 p.3 in
    let r =
      write_response_read stack (0 ∷ []) (p.1).sid (record { cmd = 0; sid = 0 }) b room
        (omega (arith, p.6, fits)) (omega arith, tt) (omega arith) in
    let sent = sent_packet os from r.0 socket w (omega (arith, r.3)) valid opened usable in
    (
      set_peer (p.1).sid from p.0,
      record p.1 { peer = from },
      r.0,
      rw (read, p.2, r.2, sent) refl,
      q.0,
      q.1,
      p.6,
      q.2 ∙ p.7,
      refl,
      r.2,
      r.3,
    )
