-- ===== src/Socket/Open.antt =====
-- svr/library/networking/Socket.cpp: what the constructor reports.
use rudp_network.Prelude.{ℕ, ◌≡◌, ◌↔◌, ◌⊎◌, true, false, arith}
use rudp_network.Prelude.Int.{pos, ◌≤ℤ◌, ◌<ℤ◌}
use rudp_network.Socket.{
  socket_type_ipv4, socket_type_ipv6, Answers, new_socket, is_error, bind_ipv6_code,
}

-- An IPv4 socket has an error exactly when one of the system calls that it makes failed.
pub new_socket_ipv4 :
    (port : ℕ) (a : Answers)
    → (is_error (new_socket port socket_type_ipv4 a) ≡ true)
      ↔ ((a.socket ≤ℤ pos 0) ⊎ (a.bind_ok ≡ false) ⊎ (a.fcntl_ok ≡ false))
unfolding new_socket is_error
new_socket_ipv4 port a = ground arith

-- The handle of an IPv4 socket is the one that the system gave.
pub new_socket_ipv4-handle :
    (port : ℕ) (a : Answers) → (new_socket port socket_type_ipv4 a).handle ≡ a.socket
unfolding new_socket
new_socket_ipv4-handle port a = ground arith

-- An IPv6 socket that was created and configured but whose bind failed has no error, and the
-- error code stands in its handle.
pub new_socket_ipv6_bind :
    (port : ℕ) (a : Answers)
    → pos 0 <ℤ a.socket
    → a.setsockopt_ok ≡ true
    → a.bind_ok ≡ false
    → (is_error (new_socket port socket_type_ipv6 a) ≡ false)
      × ((new_socket port socket_type_ipv6 a).handle ≡ bind_ipv6_code)
unfolding new_socket is_error
new_socket_ipv6_bind port a h k e = ground arith
