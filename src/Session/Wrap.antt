-- ===== src/Session/Wrap.antt =====
-- svr/library/networking/Session.cpp: the session counter past 16 bits.
use rudp_network.Prelude.{
  ℕ, ◌+◌, ◌^◌, ◌<◌, ◌≡◌, ◌≢◌, refl, sym, ap, ◌∙◌, arith, none, some, ltb, lt→ltb, true, u16,
}
use rudp_network.Address.{clear}
use rudp_network.Dict.{find, insert, find-insert}
use rudp_network.Session.{
  Session, SessionManager, get_session, get_session_by_uid, destroy_of_uid, add_session,
  produce_session,
}

no_session :
    (uid : ℕ) (m : SessionManager) → find uid m.uid_sid_map ≡ none → destroy_of_uid uid m ≡ m
unfolding destroy_of_uid get_session_by_uid
no_session uid m h = ground (arith, h)

fresh : ℕ → SessionManager → Session
fresh uid m = record { sid = u16 (m.sid_gen + 1); uid = uid; peer = clear }

grown : ℕ → SessionManager → SessionManager
unfolding fresh
grown uid m = record {
  sid_gen = m.sid_gen + 1;
  session_map = insert (u16 (m.sid_gen + 1)) (fresh uid m) m.session_map;
  uid_sid_map = insert uid (u16 (m.sid_gen + 1)) m.uid_sid_map;
}

add_session_any :
    (uid : ℕ) (m : SessionManager)
    → m.sid_gen + 1 < 2 ^ 31
    → add_session uid m ≡ some (grown uid m, fresh uid m)
unfolding add_session grown fresh
add_session_any uid m int =
    let ok : ltb (m.sid_gen + 1) (2 ^ 31) ≡ true = lt→ltb _ _ int in rw ok refl

reached :
    (uid other : ℕ) (m : SessionManager)
    → other ≢ uid
    → find other m.uid_sid_map ≡ some (u16 (m.sid_gen + 1))
    → get_session_by_uid other (grown uid m) ≡ some (fresh uid m)
unfolding get_session_by_uid get_session grown
reached uid other m differ taken =
    let n : ℕ = u16 (m.sid_gen + 1) in
    let e : find other (insert uid n m.uid_sid_map) ≡ some n =
      find-insert uid other n m.uid_sid_map ∙ ground (arith, taken) in
    let f : find n (insert n (fresh uid m) m.session_map) ≡ some (fresh uid m) =
      find-insert n n (fresh uid m) m.session_map ∙ ground arith in
    ground (arith, e, f)

-- When the next id, cut to 16 bits, is the one of another user's session, and the new user has no
-- session, then after ProduceSession the other user's id leads to the new user's session.
pub produce_session_shared :
    (uid other : ℕ) (m : SessionManager)
    → other ≢ uid
    → m.sid_gen + 1 < 2 ^ 31
    → find uid m.uid_sid_map ≡ none
    → find other m.uid_sid_map ≡ some (u16 (m.sid_gen + 1))
    → (m' : SessionManager) × (s : Session) × (produce_session uid m ≡ some (m', s))
      × (get_session_by_uid other m' ≡ some s)
      × (s.uid ≢ other)
unfolding produce_session fresh
produce_session_shared uid other m differ int absent taken = (
  grown uid m,
  fresh uid m,
  ap (add_session uid) (no_session uid m absent) ∙ add_session_any uid m int,
  reached uid other m differ taken,
  λ same. differ (sym same),
)
