-- ===== src/Session/Peer.antt =====
-- svr/library/networking/Session.h: setting the peer of a session keeps the manager's maps.
use rudp_network.Prelude.{
  ℕ, ◌≤◌, ◌≡◌, sym, ap, subst, ◌∙◌, arith, none, some, ◌==◌, inl, inr, Bool-cases, Option-cases,
}
use rudp_network.Address.{Address}
use rudp_network.Dict.{find, insert, find-insert}
use rudp_network.Session.{Session, SessionManager, get_session, get_session_by_uid, set_peer}
use rudp_network.Session.Invariant.{IsConsistent, get_session_by_uid_found, sid_of, uid_of}

moved : ℕ → Address → Session → SessionManager → SessionManager
moved sid peer s m = record m { session_map = insert sid (record s { peer = peer }) m.session_map }

set_peer_found :
    (sid : ℕ) (peer : Address) (s : Session) (m : SessionManager)
    → find sid m.session_map ≡ some s
    → set_peer sid peer m ≡ moved sid peer s m
unfolding set_peer moved
set_peer_found sid peer s m h = ground (arith, h)

moved-IsConsistent :
    (sid : ℕ) (peer : Address) (s : Session) (m : SessionManager)
    → find sid m.session_map ≡ some s
    → IsConsistent m
    → IsConsistent (moved sid peer s m)
unfolding moved sid_of uid_of
moved-IsConsistent sid peer s m present v =
    let s' : Session = record s { peer = peer } in
    let own = v.by_sid sid s present in
    record {
      by_uid = λ uid k h.
          let t = v.by_uid uid k h in
          let f = find-insert sid k s' m.session_map in
          elim (Bool-cases (sid == k)) [
            | inl same ↦
                let k_sid : k ≡ sid = ground (arith, same) in
                let is_s : some t.0 ≡ some s =
                  sym t.1 ∙ ap (λ (n : ℕ). find n m.session_map) k_sid ∙ present in
                (s', f ∙ ground (arith, same), sym (ap uid_of is_s) ∙ t.2)
            | inr other ↦ (t.0, f ∙ ground (arith, other, t.1), t.2)
          ];
      by_sid = λ k t h.
          let f = find-insert sid k s' m.session_map in
          elim (Bool-cases (sid == k)) [
            | inl same ↦
                let sid_k : sid ≡ k = ground (arith, same) in
                let is_s : some s' ≡ some t = ground (arith, same) ∙ sym f ∙ h in
                let sids : s.sid ≡ t.sid = ap sid_of is_s in
                let uids : s.uid ≡ t.uid = ap uid_of is_s in
                (
                  sym sids ∙ own.0 ∙ sid_k,
                  subst (λ (n : ℕ). n ≤ m.sid_gen) sid_k own.1,
                  ap (λ (n : ℕ). find n m.uid_sid_map) (sym uids) ∙ own.2 ∙ ap some sid_k,
                )
            | inr other ↦ v.by_sid k t (ground (arith, f, h, other))
          ];
    }

none_some : {s : Session} → ¬ (none ≡ some s)
none_some h = cc

no_user :
    (uid : ℕ) (m : SessionManager) → find uid m.uid_sid_map ≡ none → get_session_by_uid uid m ≡ none
unfolding get_session_by_uid
no_user uid m h = ground (arith, h)

-- The session that a user's id leads to is the user's.
own_uid :
    (uid : ℕ) (s : Session) (m : SessionManager)
    → IsConsistent m
    → get_session_by_uid uid m ≡ some s
    → s.uid ≡ uid
unfolding uid_of
own_uid uid s m v h = elim (Option-cases (find uid m.uid_sid_map)) [
  | inl absent ↦ absurd (none_some (sym (no_user uid m absent) ∙ h))
  | inr (k, found) ↦
      let t = v.by_uid uid k found in
      let same : some s ≡ some t.0 = sym h ∙ get_session_by_uid_found uid k m t.0 found t.1 in
      ap uid_of same ∙ t.2
]

-- set_peer on a session that the manager has: the maps agree as before, and the user's session is
-- the same one with the new peer; the counter stays.
pub set_peer-IsConsistent :
    (sid uid : ℕ) (peer : Address) (s : Session) (m : SessionManager)
    → get_session sid m ≡ some s
    → get_session_by_uid uid m ≡ some s
    → IsConsistent m
    → IsConsistent (set_peer sid peer m)
      × (get_session_by_uid uid (set_peer sid peer m) ≡ some (record s { peer = peer }))
      × ((set_peer sid peer m).sid_gen ≡ m.sid_gen)
unfolding get_session moved
set_peer-IsConsistent sid uid peer s m present by_user v =
    let e : set_peer sid peer m ≡ moved sid peer s m = set_peer_found sid peer s m present in
    let user : find uid m.uid_sid_map ≡ some sid =
      ap (λ (n : ℕ). find n m.uid_sid_map) (sym (own_uid uid s m v by_user))
      ∙ (v.by_sid sid s present).2 in
    let s' : Session = record s { peer = peer } in
    let here : find sid (insert sid s' m.session_map) ≡ some s' =
      find-insert sid sid s' m.session_map ∙ ground arith in
    (
      subst IsConsistent (sym e) (moved-IsConsistent sid peer s m present v),
      ap (get_session_by_uid uid) e
          ∙ get_session_by_uid_found uid sid (moved sid peer s m) s' user here,
      ap (λ (n : SessionManager). n.sid_gen) e,
    )
