-- ===== src/Examples/Sessions.antt =====
-- A manager with one session, below and at the end of its 16-bit ids.
use rudp_network.Prelude.{
  ℕ, ◌+◌, ◌≡◌, ◌≢◌, refl, sym, ap, ◌∙◌, arith, [], ◌∷◌, Option, none, some, u16,
}
use rudp_network.Address.{clear}
use rudp_network.Dict.{find}
use rudp_network.Session.{
  Session, SessionManager, empty_manager, get_session, get_session_by_uid, destroy_session,
  produce_session,
}
use rudp_network.Session.Invariant.{
  IsConsistent, empty-IsConsistent, destroy_session-IsConsistent, produce_session-IsConsistent,
}
use rudp_network.Session.Wrap.{produce_session_shared}

produce_session-IsConsistent_example :
    (m' : SessionManager) × (s : Session) × (produce_session 77 empty_manager ≡ some (m', s))
    × IsConsistent m'
    × (get_session s.sid m' ≡ some s)
    × (get_session_by_uid 77 m' ≡ some s)
    × (s.sid ≡ 0 + 1)
    × (m'.sid_gen ≡ 0 + 1)
produce_session-IsConsistent_example =
    produce_session-IsConsistent 77 empty_manager empty-IsConsistent (omega arith)

abbrev first : Session
first = record { sid = 1; uid = 77; peer = clear }

sid_of : Option Session → ℕ
sid_of none = 0
sid_of (some s) = s.sid

uid_of : Option Session → ℕ
uid_of none = 0
uid_of (some s) = s.uid

abbrev one_session : SessionManager
one_session = record { session_map = (1, first) ∷ []; uid_sid_map = (77, 1) ∷ []; sid_gen = 1 }

one_session-IsConsistent : IsConsistent one_session
unfolding find sid_of uid_of
one_session-IsConsistent = record {
  by_uid = λ uid sid h.
      let e : (uid ≡ 77) × (sid ≡ 1) = ground (arith, h) in
      (first, ground (arith, e), ground (arith, e));
  by_sid = λ sid s h.
      let one : sid ≡ 1 = ground (arith, h) in
      let got : some first ≡ some s =
        sym (ap (λ (n : ℕ). find n one_session.session_map) one) ∙ h in
      let own_sid : 1 ≡ s.sid = ap sid_of got in
      let own_uid : 77 ≡ s.uid = ap uid_of got in
      (omega (arith, own_sid, one), omega (arith, one), ground (arith, own_uid, one));
}

destroy_session-IsConsistent_example : IsConsistent (destroy_session 1 one_session)
destroy_session-IsConsistent_example =
    destroy_session-IsConsistent 1 one_session one_session-IsConsistent

-- 65536 sessions later the id 1 comes up again.
abbrev worn_manager : SessionManager
worn_manager = record one_session { sid_gen = 65536 }

other_taken : find 77 worn_manager.uid_sid_map ≡ some (u16 (worn_manager.sid_gen + 1))
unfolding find
other_taken = refl

newcomer_absent : find 78 worn_manager.uid_sid_map ≡ none
unfolding find
newcomer_absent = refl

produce_session_shared_example :
    (m' : SessionManager) × (s : Session) × (produce_session 78 worn_manager ≡ some (m', s))
    × (get_session_by_uid 77 m' ≡ some s)
    × (s.uid ≢ 77)
produce_session_shared_example =
    produce_session_shared 78 77 worn_manager (omega arith) (omega arith) newcomer_absent
      other_taken
