-- ===== src/Server/Run.antt =====
-- svr/library/networking/Server.cpp: a whole call of ReceivePackets.
use rudp_network.Prelude.{
  ℕ, zero, suc, ◌⊎◌, leb, leb-false, ◌+◌, ◌≤◌, ◌<◌, ◌≡◌, ◌∙◌, refl, arith, List, [], ◌∷◌, ◌++◌,
  Option, some, true, false, length, inl, inr, drop, get_or, ◌==◌, Bool-cases, length-append,
  length-drop,
}
use rudp_network.Address.{Address, AddressType, is_valid, get_address4, same_type}
use rudp_network.Logger.{ldebug}
use rudp_network.Memory.{IsBytes, val, append-IsBytes, drop-IsBytes}
use rudp_network.Packet.{ConnectionStartReq}
use rudp_network.Packet.Kind
use rudp_network.Packet.Factory.{Junk}
use rudp_network.Packet.Returns.{serialize_start_req-Returns}
use rudp_network.Stream.Start.{started, init-started, started-Reading}
use rudp_network.Session.{SessionManager}
use rudp_network.Session.Invariant.{IsConsistent}
use rudp_network.Socket.{Socket, Os, is_error, is_open}
use rudp_network.Socket.Inbox.{Inbox, Datagram, AllSized, receive_packet_empty, receive_packet_next}
use rudp_network.Server.{read_request, handle, log_sender, receive_packets}
use rudp_network.Server.Start.{process_start-IsConsistent}

-- A request of any bytes is read, if only in part.
read_request_total :
    (junk : Junk) (msg : List ℕ) (len : ℕ)
    → IsBytes msg
    → length msg ≡ 500
    → len ≤ 500
    → (request : ConnectionStartReq) × (read_request junk msg len ≡ some request)
unfolding read_request
read_request_total junk msg len b size fits =
    let o =
      serialize_start_req-Returns (started msg len) (val msg)
        (started-Reading msg len b (omega arith))
        (record { cmd = junk.cmd; sid = junk.sid; uid = junk.uid }) in
    (o.value, rw (init-started msg len (omega arith), o.returns) refl)

-- Every sender is IPv4.
abbrev pub AllIpv4 : List Datagram → Type 0
AllIpv4 [] = Unit
AllIpv4 ((from, bytes) ∷ ds) = (from.type ≡ AddressType.ipv4) × AllIpv4 ds

-- The DEBUG of a datagram can be evaluated: the logger's level is below debug, or the sender is
-- IPv4.
log_sender_ipv4 :
    (level : ℕ) (from : Address) (bytes : List ℕ) (ds : List Datagram)
    → (level < ldebug) ⊎ AllIpv4 ((from, bytes) ∷ ds)
    → (log_sender level from ≡ some tt) × ((level < ldebug) ⊎ AllIpv4 ds)
unfolding log_sender get_address4 same_type
log_sender_ipv4 level from bytes ds (inl quiet) =
    (rw (leb-false ldebug level quiet) refl, inl quiet)
log_sender_ipv4 level from bytes ds (inr (ipv4, more)) = (
  elim (Bool-cases (leb ldebug level)) [
    | inl shown ↦ rw (shown, ipv4) refl
    | inr hidden ↦ rw hidden refl
  ],
  inr more,
)

module _ (os : Os) (inbox : Inbox os) (junk : Junk) (stack : List ℕ) (socket : Socket) (level : ℕ)
    (opened : is_open socket ≡ true) (usable : is_error socket ≡ false)
    (bytes_stack : IsBytes stack) (room : 512 ≤ length stack) where
  -- One datagram is answered, or ignored.
  handle_total :
      (from : Address) (msg : List ℕ) (len : ℕ) (m : SessionManager) (w : os.State)
      → is_valid from ≡ true
      → IsBytes msg
      → length msg ≡ 500
      → len ≤ 500
      → IsConsistent m
      → m.sid_gen + 1 < 65536
      → (m' : SessionManager) × (w' : os.State) × (handle os junk stack socket from msg len m w
          ≡ some (m', w'))
        × IsConsistent m'
        × (m'.sid_gen ≤ m.sid_gen + 1)
        × (inbox.pending w' ≡ inbox.pending w)
  unfolding handle
  handle_total from msg len m w valid b size fits v few =
      elim (Bool-cases (get_or msg 0 0 == Kind.rudp_cmd_connection_start_req)) [
        | inl start ↦
            let request = read_request_total junk msg len b size fits in
            let p =
              process_start-IsConsistent os junk stack socket from msg len m w request.0 request.1 v
                few bytes_stack room valid opened usable in
            (
              p.0,
              (os.sendto w from p.2).1,
              rw start p.3,
              p.4,
              omega (arith, p.7),
              inbox.sendto_keeps w from p.2,
            )
        | inr other ↦ (m, w, rw other refl, v, omega arith, refl)
      ]

  abbrev Finished : Option (SessionManager × os.State) → ℕ → Type 0
  Finished r limit =
      (m' : SessionManager) × (w' : os.State) × (r ≡ some (m', w'))
      × IsConsistent m'
      × (m'.sid_gen ≤ limit)
      × (inbox.pending w' ≡ [])

  drained :
      (fuel : ℕ) (ds : List Datagram) (msg : List ℕ) (m : SessionManager) (w : os.State)
      → inbox.pending w ≡ ds
      → (level < ldebug) ⊎ AllIpv4 ds
      → AllSized 1 500 ds
      → length ds < fuel
      → IsBytes msg
      → length msg ≡ 500
      → IsConsistent m
      → m.sid_gen + length ds < 65536
      → Finished (receive_packets os level fuel junk stack socket msg m w) (m.sid_gen + length ds)
  unfolding receive_packets
  drained zero ds msg m w h k a few b size v limit = absurd (omega arith)
  drained (suc fuel) [] msg m w h k a few b size v limit = (
    m,
    (os.recvfrom w 500).1,
    rw (receive_packet_empty os inbox socket w 500 opened (omega arith) h, receive_packets) refl,
    v,
    omega arith,
    inbox.recvfrom_keeps_empty w 500 h,
  )
  drained (suc fuel) ((from, bytes) ∷ ds) msg m w h k (valid, is_bytes, low, high, a) few b size v
        limit =
      let received =
        receive_packet_next os inbox socket w 500 opened (omega arith) from bytes ds h valid low
          high in
      let shown = log_sender_ipv4 level from bytes ds k in
      let w1 : os.State = (os.recvfrom w 500).1 in
      let msg' : List ℕ = bytes ++ drop (length bytes) msg in
      let b' : IsBytes msg' =
        append-IsBytes bytes (drop (length bytes) msg) is_bytes
          (drop-IsBytes (length bytes) msg b) in
      let size' : length msg' ≡ 500 = omega (
        arith,
        length-append bytes (drop (length bytes) msg),
        length-drop (length bytes) msg,
        size,
        high,
      ) in
      let one = handle_total from msg' (length bytes) m w1 valid b' size' high v (omega arith) in
      let left : inbox.pending one.1 ≡ ds =
        one.5 ∙ (inbox.recvfrom_next w 500 (from, bytes) ds h high).1 in
      let rest =
        drained fuel ds msg' one.0 one.1 left shown.1 a (omega arith) b' size' one.3
          (omega (arith, one.4, limit)) in
      (
        rest.0,
        rest.1,
        rw (received, receive_packets) (rw (shown.0, one.2) rest.2),
        rest.3,
        omega (arith, rest.4, one.4),
        rest.5,
      )

  -- ReceivePackets with more fuel than waiting datagrams, in a state whose datagrams come from
  -- IPv4 or IPv6 senders and have 1 to 500 bytes of any content, and which are all from IPv4
  -- senders unless the logger's level is below debug, with an open, usable socket and buffers of
  -- bytes in the sizes of the source, in a manager whose maps agree and whose counter stays
  -- within 16 bits: it ends with no fault, the maps agree again, and no datagram is left.
  pub receive_packets_total :
      (fuel : ℕ) (msg : List ℕ) (m : SessionManager) (w : os.State)
      → (level < ldebug) ⊎ AllIpv4 (inbox.pending w)
      → AllSized 1 500 (inbox.pending w)
      → length (inbox.pending w) < fuel
      → IsBytes msg
      → length msg ≡ 500
      → IsConsistent m
      → m.sid_gen + length (inbox.pending w) < 65536
      → (m' : SessionManager) × (w' : os.State) × (receive_packets os level fuel junk stack socket
            msg m w
          ≡ some (m', w'))
        × IsConsistent m'
        × (m'.sid_gen ≤ m.sid_gen + length (inbox.pending w))
        × (inbox.pending w' ≡ [])
  receive_packets_total fuel msg m w k a few b size v limit =
      drained fuel (inbox.pending w) msg m w refl k a few b size v limit
