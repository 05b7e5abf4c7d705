-- ===== src/Session.antt =====
-- svr/library/networking/Session.h and Session.cpp: sessions, found by id and by user. A session
-- pointer is the key under which m_session_map holds it; Start, Stop and Timeout are empty.
pub mod Invariant
pub mod Wrap
pub mod Peer
use rudp_network.Prelude.{
  ℕ, ◌+◌, ◌%◌, ◌^◌, List, [], Option, none, some, Bool, true, false, ◌>>=◌, assert, ltb, u16,
  if◌then◌else◌,
}
use rudp_network.Address.{Address, clear}
use rudp_network.Dict.{find, insert, erase}

pub record Session : Type 0 where
  pub sid : ℕ
  pub uid : ℕ
  pub peer : Address

-- `sid_gen` is an int.
pub record SessionManager : Type 0 where
  pub session_map : List (ℕ × Session)
  pub uid_sid_map : List (ℕ × ℕ)
  pub sid_gen : ℕ

abbrev pub empty_manager : SessionManager
empty_manager = record { session_map = []; uid_sid_map = []; sid_gen = 0 }

unfoldable pub get_session : ℕ → SessionManager → Option Session
get_session sid m = find sid m.session_map

unfoldable pub get_session_by_uid : ℕ → SessionManager → Option Session
unfolding get_session
get_session_by_uid uid m = do sid ← find uid m.uid_sid_map; get_session sid m

unfoldable pub destroy_session : ℕ → SessionManager → SessionManager
destroy_session sid m = elim (find sid m.session_map) [
  | none ↦ m
  | some s ↦ record m {
    uid_sid_map = erase s.uid m.uid_sid_map;
    session_map = erase sid m.session_map;
  }
]

-- The session of `uid`, if there is one, is destroyed first.
unfoldable pub destroy_of_uid : ℕ → SessionManager → SessionManager
unfolding get_session_by_uid destroy_session
destroy_of_uid uid m = elim (get_session_by_uid uid m) [
  | none ↦ m
  | some s ↦ destroy_session s.sid m
]

-- A new session under the next id, which set_sid cuts to 16 bits.
unfoldable pub add_session : ℕ → SessionManager → Option (SessionManager × Session)
add_session uid m = assert (ltb (m.sid_gen + 1) (2 ^ 31)) (
    let s : Session = record { sid = u16 (m.sid_gen + 1); uid = uid; peer = clear } in
    some (
      record m {
        sid_gen = m.sid_gen + 1;
        session_map = insert s.sid s m.session_map;
        uid_sid_map = insert uid s.sid m.uid_sid_map;
      },
      s,
    ))

unfoldable pub produce_session : ℕ → SessionManager → Option (SessionManager × Session)
unfolding destroy_of_uid add_session
produce_session uid m = add_session uid (destroy_of_uid uid m)

-- `set_peer` through the pointer to the session under `sid`.
unfoldable pub set_peer : ℕ → Address → SessionManager → SessionManager
set_peer sid peer m = elim (find sid m.session_map) [
  | none ↦ m
  | some s ↦ record m { session_map = insert sid (record s { peer = peer }) m.session_map }
]
