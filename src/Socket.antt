-- ===== src/Socket.antt =====
-- svr/library/networking/Socket.h and Socket.cpp: the UDP socket. The calls of the operating
-- system are parameters.
use rudp_network.Prelude.{
  ℕ, ◌+◌, ◌%◌, List, [], Option, none, some, Bool, true, false, not, ◌>>=◌, assert, ltb, leb, ◌==◌,
  length, if◌then◌else◌, ◌&&◌,
}
use rudp_network.Prelude.Int.{ℤ, pos, leb_ℤ, eqb_ℤ}
use rudp_network.Address.{Address, AddressType, is_valid}
pub mod Open
pub mod Inbox

pub data SocketType : Type 0 where
  socket_type_ipv4 socket_type_ipv6 : SocketType

pub data SocketError : Type 0 where
  no_error create_failed set_non_blocking_failed sockopt_ipv6_only_failed : SocketError
  bind_ipv4_failed bind_ipv6_failed : SocketError

-- `port` is indeterminate until the socket is bound.
pub record Socket : Type 0 where
  pub error : SocketError
  pub port : Option ℕ
  pub handle : ℤ

unfoldable pub is_error : Socket → Bool
is_error s = elim s.error [ SocketError.no_error ↦ false | _ ↦ true ]

-- The assert of `m_socket`.
unfoldable pub is_open : Socket → Bool
unfolding eqb_ℤ
is_open s = not (eqb_ℤ s.handle (pos 0))

-- ~Socket(): the handle that it closes, if any.
unfoldable pub destroy : Socket → Option ℤ
unfolding eqb_ℤ
destroy s = if eqb_ℤ s.handle (pos 0) then none else some s.handle

-- The answers of the operating system to the calls of the constructor.
pub record Answers : Type 0 where
  pub socket : ℤ
  pub setsockopt_ok : Bool
  pub bind_ok : Bool
  pub fcntl_ok : Bool

-- SOCKET_ERROR_BIND_IPV6_FAILED as an int.
abbrev pub bind_ipv6_code : ℤ
bind_ipv6_code = pos 5

-- From the bind on. The IPv6 branch stores its error in `m_socket`.
unfoldable pub bind : ℕ → SocketType → Answers → Socket → Socket
bind port SocketType.socket_type_ipv6 a s =
    if not a.bind_ok
    then record s { handle = bind_ipv6_code }
    else if not a.fcntl_ok
    then record s { port = some port; error = SocketError.set_non_blocking_failed }
    else record s { port = some port }
bind port SocketType.socket_type_ipv4 a s =
    if not a.bind_ok
    then record s { error = SocketError.bind_ipv4_failed }
    else if not a.fcntl_ok
    then record s { port = some port; error = SocketError.set_non_blocking_failed }
    else record s { port = some port }

abbrev pub is_ipv6 : SocketType → Bool
is_ipv6 SocketType.socket_type_ipv4 = false
is_ipv6 SocketType.socket_type_ipv6 = true

unfoldable pub new_socket : ℕ → SocketType → Answers → Socket
unfolding bind
new_socket port type a =
    let s : Socket = record { error = SocketError.no_error; port = none; handle = a.socket } in
    if leb_ℤ a.socket (pos 0)
    then record s { error = SocketError.create_failed }
    else if is_ipv6 type && not a.setsockopt_ok
    then record s { error = SocketError.sockopt_ipv6_only_failed }
    else bind port type a s

-- The operating system's datagram calls: what recvfrom delivers of the next datagram, if there is
-- one, and how many bytes sendto takes.
pub record Os : Type 1 where
  pub State : Type 0
  pub recvfrom : State → ℕ → Option (Address × List ℕ) × State
  pub sendto : State → Address → List ℕ → ℕ × State

module _ (os : Os) where
  -- A sender of another family than IPv4 and IPv6, on which the conversion of its address stops,
  -- is an address that is not valid.
  unfoldable pub receive_packet :
      Socket → ℕ → os.State → Option (Option (Address × List ℕ) × os.State)
  unfolding is_open is_valid
  receive_packet s max_packet_size w = assert (is_open s) (
      assert (ltb 0 max_packet_size) (
        let (received, w') = os.recvfrom w max_packet_size in
        elim received [
          | none ↦ some (none, w')
          | some (from, bytes) ↦
              if length bytes == 0
              then some (none, w')
              else assert (is_valid from) (some (some (from, bytes), w'))
        ]))

  unfoldable pub send_packet : Address → List ℕ → Socket → os.State → Option (Bool × os.State)
  unfolding is_error is_open is_valid
  send_packet address bytes s w = assert (ltb 0 (length bytes)) (
      assert (is_valid address) (
        assert (is_open s) (
          assert (not (is_error s))
            (let (sent, w') = os.sendto w address bytes in some (sent == length bytes, w')))))
