-- ===== src/Examples/Programs.antt =====
-- The server's program, during two ticks.
use rudp_network.Prelude.{
  ℕ, ◌≤◌, ◌≡◌, ◌++◌, refl, arith, List, [], ◌∷◌, some, true, replicate, length, length-replicate,
}
use rudp_network.Prelude.Int.{pos, ◌+ℤ◌}
use rudp_network.Address.{from_bytes}
use rudp_network.Socket
use rudp_network.Socket.Inbox.{Datagram}
use rudp_network.Logger
use rudp_network.Logger.Text.{codes, c_string, print_int, padded, digits}
use rudp_network.Logger.Line.{header}
use rudp_network.Logger.Rotate.{is_empty}
use rudp_network.Examples.Packets.{zeros-IsBytes}
use rudp_network.Logger.Emitted.{head_of}
use rudp_network.Server.Main.{Round, Process, Runs, main, main_total}
use rudp_network.Examples.Packets as Sample
use rudp_network.Examples.Requests.{client_valid}
use rudp_network.Examples.Inboxes.{list_os, list_inbox, waiting, datagram-IsBytes}
use rudp_network.Examples.Logs.{today, site}

abbrev round : List Datagram → Round
round ds = record {
  datagrams = ds;
  fuel = 3;
  junk = Sample.junk;
  stack = replicate 512 0;
  msg = replicate 500 0;
}

abbrev rounds : List Round
rounds = round waiting ∷ round [] ∷ []

abbrev answers : Socket.Answers
answers = record { socket = pos 3; setsockopt_ok = true; bind_ok = true; fcntl_ok = true }

fits : length (head_of today site (codes "DEBUG")) ≤ 4094
unfolding header print_int padded digits ◌+ℤ◌ c_string
fits = omega arith

main_total_example :
    (p : Process) × (w' : List Datagram) × (main list_os
        (λ w ds. w ++ ds)
        today
        site
        (codes "start")
        answers
        rounds
        (Logger.new_logger (pos 7))
        Sample.factory
        []
      ≡ some (p, w'))
    × Runs today site (codes "start") (Logger.new_logger (pos 7)) p
    × (w' ≡ [])
unfolding is_empty from_bytes
main_total_example =
    main_total list_os list_inbox (λ w ds. w ++ ds) (λ w ds. refl) today site (codes "start")
      answers rounds (Logger.new_logger (pos 7)) Sample.factory [] refl
      (length-replicate {A = ℕ} 4096 7) fits (omega arith) refl refl
      (
        (refl, (refl, tt)),
        (
          client_valid,
          datagram-IsBytes,
          omega arith,
          omega arith,
          (client_valid, (omega arith, tt), omega arith, omega arith, tt),
        ),
        omega arith,
        zeros-IsBytes 500,
        refl,
        zeros-IsBytes 512,
        omega arith,
        (tt, tt, omega arith, zeros-IsBytes 500, refl, zeros-IsBytes 512, omega arith, tt),
      )
      (omega arith) refl
