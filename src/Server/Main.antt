-- ===== src/Server/Main.antt =====
-- svr/service/first/first.cpp: the program that creates the server and ticks it for ever. A run of
-- it is what happens during some number of ticks. Of what it logs only the line of main is kept.
use rudp_network.Prelude.{
  ℕ, ◌+◌, ◌≤◌, ◌<◌, ◌≡◌, ◌∙◌, refl, sym, ap, inr, subst, arith, List, [], ◌∷◌, ◌++◌, Option, some,
  true, false, ◌>>=◌, length,
}
use rudp_network.Prelude.Int.{pos, eqb_ℤ, ◌<ℤ◌}
use rudp_network.Memory.{IsBytes}
use rudp_network.Packet.Kind
use rudp_network.Packet.Factory.{PacketFactory, Junk, set_num_packet_types}
use rudp_network.Session.{SessionManager, empty_manager}
use rudp_network.Session.Invariant.{IsConsistent, empty-IsConsistent}
use rudp_network.Socket
use rudp_network.Socket.{Socket, Os, SocketType, is_error, is_open}
use rudp_network.Socket.Open.{new_socket_ipv4, new_socket_ipv4-handle}
use rudp_network.Socket.Inbox.{Inbox, Datagram, AllSized}
use rudp_network.Logger
use rudp_network.Logger.{Logger}
use rudp_network.Logger.Text.{codes}
use rudp_network.Logger.Rotate.{is_empty}
use rudp_network.Logger.Rotation.{maybe_rotate-unnamed}
use rudp_network.Logger.Trimmed.{line_of}
use rudp_network.Logger.Log.{Logged, Site, hlog, out_fd}
use rudp_network.Logger.Emitted.{head_of, emitted, logv-emitted}
use rudp_network.Server.{new_server, tick}
use rudp_network.Server.Run.{AllIpv4, receive_packets_total}

-- One tick: the datagrams that arrive before it, and what its locals and new packets hold.
pub record Round : Type 0 where
  pub datagrams : List Datagram
  pub fuel : ℕ
  pub junk : Junk
  pub stack : List ℕ
  pub msg : List ℕ

-- What the program holds while it runs.
pub record Process : Type 0 where
  pub logged : Logged
  pub factory : PacketFactory
  pub server : Socket
  pub manager : SessionManager

module _ (os : Os) (arrive : os.State → List Datagram → os.State) where
  -- `while (true) { server.Tick(); }`, as far as the rounds go.
  unfoldable pub ticks :
      ℕ → Socket → List Round → SessionManager → os.State → Option (SessionManager × os.State)
  unfolding tick
  ticks level socket [] m w = some (m, w)
  ticks level socket (r ∷ rounds) m w = do
    (m', w') ← tick os level r.fuel r.junk r.stack socket r.msg m (arrive w r.datagrams)
    ticks level socket rounds m' w'

  -- main, from a logger and a factory as they are at the start; `text` is the line that DEBUG
  -- formats.
  unfoldable pub main :
      Logger.Answers
      → Site
      → List ℕ
      → Socket.Answers
      → List Round
      → Logger
      → PacketFactory
      → os.State
      → Option (Process × os.State)
  unfolding ticks new_server set_num_packet_types
  main clock site text answers rounds logger factory w = do
    logged ← hlog clock site Logger.ldebug text (Logger.set_log_level Logger.ldebug logger)
    let factory' = set_num_packet_types Kind.test_packet_num_types factory
    let socket = new_server answers
    (m, w') ← ticks (logged.logger).level socket rounds empty_manager w
    some (record { logged = logged; factory = factory'; server = socket; manager = m }, w')

-- The server's socket is usable when the system calls succeed.
new_server-usable :
    (answers : Socket.Answers)
    → pos 0 <ℤ answers.socket
    → answers.bind_ok ≡ true
    → answers.fcntl_ok ≡ true
    → is_error (new_server answers) ≡ false
unfolding new_server
new_server-usable answers h b f = ground (arith, new_socket_ipv4 8888 answers)

-- The constructor keeps the handle that the system gives.
new_server-open :
    (answers : Socket.Answers) → pos 0 <ℤ answers.socket → is_open (new_server answers) ≡ true
unfolding new_server is_open eqb_ℤ
new_server-open answers h = rw (new_socket_ipv4-handle 8888 answers) (ground (arith, h))

-- How many datagrams arrive in all.
abbrev pub arrivals : List Round → ℕ
arrivals [] = 0
arrivals (r ∷ rounds) = length r.datagrams + arrivals rounds

-- Datagrams of 1 to 500 bytes from IPv4 senders, fuel for them, and buffers of bytes in the sizes of
-- the source.
abbrev pub AllServed : List Round → Type 0
AllServed [] = Unit
AllServed (r ∷ rounds) =
    AllIpv4 r.datagrams
    × AllSized 1 500 r.datagrams
    × (length r.datagrams < r.fuel)
    × IsBytes r.msg
    × (length r.msg ≡ 500)
    × IsBytes r.stack
    × (512 ≤ length r.stack)
    × AllServed rounds

-- The logger of the program while it runs.
abbrev pub debugging : Logger → Logger
debugging logger = Logger.set_log_level Logger.ldebug logger

abbrev pub first_line : Logger.Answers → Site → List ℕ → List ℕ
first_line clock site text = line_of (head_of clock site (codes "DEBUG") ++ text)

hlog-first :
    (clock : Logger.Answers) (site : Site) (text : List ℕ) (logger : Logger)
    → is_empty logger.filename ≡ true
    → length site.stack ≡ 4096
    → length (head_of clock site (codes "DEBUG")) ≤ 4094
    → hlog clock site Logger.ldebug text (debugging logger)
      ≡ some (record {
        logger = debugging logger;
        calls = emitted clock Logger.ldebug (out_fd logger) (first_line clock site text);
        aborted = false;
      })
unfolding hlog Logger.set_log_level out_fd
hlog-first clock site text logger unnamed stack fits =
    logv-emitted clock site Logger.ldebug text (debugging logger) (omega arith) refl
      (maybe_rotate-unnamed clock (debugging logger) unnamed) stack fits

-- What the program holds, and has logged, after the ticks.
pub record Runs (clock : Logger.Answers) (site : Site) (text : List ℕ) (logger : Logger)
    (p : Process) : Type 0 where
  pub logged : p.logged ≡ record {
    logger = debugging logger;
    calls = emitted clock Logger.ldebug (out_fd logger) (first_line clock site text);
    aborted = false;
  }
  pub factory : (p.factory).num_packet_types ≡ Kind.test_packet_num_types
  pub usable : is_error p.server ≡ false
  pub consistent : IsConsistent p.manager

module _ (os : Os) (inbox : Inbox os) (arrive : os.State → List Datagram → os.State)
    (arrives : (w : os.State) (ds : List Datagram)
      → inbox.pending (arrive w ds) ≡ inbox.pending w ++ ds) where
  pub ticks_total :
      (level : ℕ) (socket : Socket) (rounds : List Round) (m : SessionManager) (w : os.State)
      → is_open socket ≡ true
      → is_error socket ≡ false
      → AllServed rounds
      → IsConsistent m
      → m.sid_gen + arrivals rounds < 65536
      → inbox.pending w ≡ []
      → (m' : SessionManager) × (w' : os.State) × (ticks os arrive level socket rounds m w
          ≡ some (m', w'))
        × IsConsistent m'
        × (m'.sid_gen ≤ m.sid_gen + arrivals rounds)
        × (inbox.pending w' ≡ [])
  unfolding ticks tick
  ticks_total level socket [] m w opened usable a v limit empty =
      (m, w, refl, v, omega arith, empty)
  ticks_total level socket (r ∷ rounds) m w opened usable
        (ipv4, sized, enough, b, size, b', room, a) v limit empty =
      let waiting : inbox.pending (arrive w r.datagrams) ≡ r.datagrams =
        arrives w r.datagrams ∙ ap (λ (ds : List Datagram). ds ++ r.datagrams) empty in
      let count : length (inbox.pending (arrive w r.datagrams)) ≡ length r.datagrams =
        ap length waiting in
      let one =
        receive_packets_total os inbox r.junk r.stack socket level opened usable b' room r.fuel
          r.msg m (arrive w r.datagrams) (inr (subst AllIpv4 (sym waiting) ipv4))
          (subst (AllSized 1 500) (sym waiting) sized) (omega (arith, count, enough)) b size v
          (omega (arith, count, limit)) in
      let rest =
        ticks_total level socket rounds one.0 one.1 opened usable a one.3
          (omega (arith, one.4, count, limit)) one.5 in
      (rest.0, rest.1, rw (one.2) rest.2, rest.3, omega (arith, rest.4, one.4, count), rest.5)

  -- The program, with a logger that has no file and whose first line has a header of at most 4094
  -- characters and a buffer of 4096 bytes, with system calls for its socket that succeed, during
  -- any number of ticks before each of which datagrams of 1 to 500 bytes from IPv4 senders
  -- arrive, fewer than 65536 in all, with fuel for them and buffers of bytes in the sizes of the
  -- source, and with no datagram waiting at the start: every tick returns, the first line is
  -- written at the debug level, the factory has all packet types, the socket has no error, the
  -- maps of the sessions agree, and no datagram is left.
  pub main_total :
      (clock : Logger.Answers) (site : Site) (text : List ℕ) (answers : Socket.Answers)
      (rounds : List Round) (logger : Logger) (factory : PacketFactory) (w : os.State)
      → is_empty logger.filename ≡ true
      → length site.stack ≡ 4096
      → length (head_of clock site (codes "DEBUG")) ≤ 4094
      → pos 0 <ℤ answers.socket
      → answers.bind_ok ≡ true
      → answers.fcntl_ok ≡ true
      → AllServed rounds
      → arrivals rounds < 65536
      → inbox.pending w ≡ []
      → (p : Process) × (w' : os.State) × (main os arrive clock site text answers rounds logger
            factory w
          ≡ some (p, w'))
        × Runs clock site text logger p
        × (inbox.pending w' ≡ [])
  unfolding main set_num_packet_types Logger.set_log_level
  main_total clock site text answers rounds logger factory w unnamed stack fits created bound set a
        limit empty =
      let usable : is_error (new_server answers) ≡ false =
        new_server-usable answers created bound set in
      let logs = hlog-first clock site text logger unnamed stack fits in
      let run =
        ticks_total Logger.ldebug (new_server answers) rounds empty_manager w
          (new_server-open answers created) usable a empty-IsConsistent (omega (arith, limit))
          empty in
      (
        record {
          logged = record {
            logger = debugging logger;
            calls = emitted clock Logger.ldebug (out_fd logger) (first_line clock site text);
            aborted = false;
          };
          factory = set_num_packet_types Kind.test_packet_num_types factory;
          server = new_server answers;
          manager = run.0;
        },
        run.1,
        rw (logs, run.2) refl,
        record { logged = refl; factory = refl; usable = usable; consistent = run.3 },
        run.5,
      )
