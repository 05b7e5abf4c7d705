-- ===== src/Socket/Inbox.antt =====
-- What the library relies on of recvfrom on a bound, non-blocking socket: the datagrams that have
-- arrived come out whole and in order, and sending does not disturb them.
use rudp_network.Prelude.{
  ℕ, ◌≤◌, ◌<◌, ◌≡◌, List, [], ◌∷◌, none, some, true, length, refl, arith, ltb, lt→ltb,
}
use rudp_network.Address.{Address, is_valid}
use rudp_network.Memory.{IsBytes}
use rudp_network.Socket
use rudp_network.Socket.{Os, Socket, is_open}

abbrev pub Datagram : Type 0
Datagram = Address × List ℕ

-- The datagrams that wait in a state, oldest first.
pub record Inbox (os : Os) : Type 0 where
  pub pending : os.State → List Datagram
  pub recvfrom_empty : (w : os.State) (n : ℕ) → pending w ≡ [] → (os.recvfrom w n).0 ≡ none
  pub recvfrom_next :
      (w : os.State) (n : ℕ) (d : Datagram) (ds : List Datagram)
      → pending w ≡ d ∷ ds
      → length d.1 ≤ n
      → ((os.recvfrom w n).0 ≡ some d) × (pending (os.recvfrom w n).1 ≡ ds)
  pub recvfrom_keeps_empty :
      (w : os.State) (n : ℕ) → pending w ≡ [] → pending (os.recvfrom w n).1 ≡ []
  pub sendto_keeps :
      (w : os.State) (to : Address) (bytes : List ℕ) → pending (os.sendto w to bytes).1 ≡ pending w

-- Datagrams from IPv4 or IPv6 senders, with at least `low` bytes and at most `high`.
abbrev pub AllSized : ℕ → ℕ → List Datagram → Type 0
AllSized low high [] = Unit
AllSized low high ((from, bytes) ∷ ds) =
    (is_valid from ≡ true)
    × IsBytes bytes
    × (low ≤ length bytes)
    × (length bytes ≤ high)
    × AllSized low high ds

module _ (os : Os) (inbox : Inbox os) (s : Socket) (w : os.State) (n : ℕ)
    (opened : is_open s ≡ true) (positive : 0 < n) where
  pub receive_packet_empty :
      inbox.pending w ≡ [] → Socket.receive_packet os s n w ≡ some (none, (os.recvfrom w n).1)
  unfolding Socket.receive_packet
  receive_packet_empty h =
      let sized : ltb 0 n ≡ true = lt→ltb _ _ positive in
      rw (opened, sized, inbox.recvfrom_empty w n h, Socket.receive_packet) refl

  pub receive_packet_next :
      (from : Address) (bytes : List ℕ) (ds : List Datagram)
      → inbox.pending w ≡ (from, bytes) ∷ ds
      → is_valid from ≡ true
      → 0 < length bytes
      → length bytes ≤ n
      → Socket.receive_packet os s n w ≡ some (some (from, bytes), (os.recvfrom w n).1)
  unfolding Socket.receive_packet
  receive_packet_next from bytes ds h valid some_bytes fits =
      let sized : ltb 0 n ≡ true = lt→ltb _ _ positive in
      let e = (inbox.recvfrom_next w n (from, bytes) ds h fits).0 in
      rw (opened, sized, e, Socket.receive_packet) (ground (arith, valid))
