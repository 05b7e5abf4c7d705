-- ===== src/Session/Invariant.antt =====
-- svr/library/networking/Session.cpp: the two maps of the SessionManager agree.
use rudp_network.Prelude.{
  u16, ltb, lt→ltb, subst, Bool-cases, ℕ, ◌+◌, ◌^◌, ◌≤◌, ◌<◌, ◌≡◌, ◌≢◌, refl, sym, ap, ◌∙◌, arith,
  List, Option, none, some, true, ◌==◌, inl, inr, Option-cases,
}
use rudp_network.Address.{clear}
use rudp_network.Dict.{find, insert, erase, find-insert, find-erase}
use rudp_network.Session.{
  Session, SessionManager, empty_manager, get_session, get_session_by_uid, destroy_session,
  destroy_of_uid, add_session, produce_session,
}

-- Every user's id leads to the session of that user, every session is the one that its user's id
-- leads to, and the ids in use were given out before the counter would need 17 bits.
pub record IsConsistent (m : SessionManager) : Type 0 where
  pub by_uid :
      (uid sid : ℕ)
      → find uid m.uid_sid_map ≡ some sid
      → (s : Session) × (find sid m.session_map ≡ some s) × (s.uid ≡ uid)
  pub by_sid :
      (sid : ℕ) (s : Session)
      → find sid m.session_map ≡ some s
      → (s.sid ≡ sid) × (sid ≤ m.sid_gen) × (find s.uid m.uid_sid_map ≡ some sid)

pub empty-IsConsistent : IsConsistent empty_manager
unfolding find
empty-IsConsistent = record { by_uid = λ uid sid h. cc; by_sid = λ sid s h. cc }

unfoldable pub sid_of : Option Session → ℕ
sid_of none = 0
sid_of (some s) = s.sid

unfoldable pub uid_of : Option Session → ℕ
uid_of none = 0
uid_of (some s) = s.uid

pub same_uid :
    (sid k : ℕ) (s t : Session) (map : List (ℕ × Session))
    → find sid map ≡ some s
    → find k map ≡ some t
    → sid ≡ k
    → s.uid ≡ t.uid
unfolding uid_of
same_uid sid k s t map h1 h2 same = ap uid_of (sym h1 ∙ ap (λ (n : ℕ). find n map) same ∙ h2)

same_sid :
    (sid k uid uid' : ℕ) (map : List (ℕ × ℕ))
    → find uid map ≡ some sid
    → find uid' map ≡ some k
    → uid ≡ uid'
    → sid ≡ k
same_sid sid k uid uid' map h1 h2 same = cc

erased : ℕ → Session → SessionManager → SessionManager
erased sid s m = record m {
  uid_sid_map = erase s.uid m.uid_sid_map;
  session_map = erase sid m.session_map;
}

erased-IsConsistent :
    (sid : ℕ) (s : Session) (m : SessionManager)
    → find sid m.session_map ≡ some s
    → IsConsistent m
    → IsConsistent (erased sid s m)
unfolding erased
erased-IsConsistent sid s m present v =
    let agrees = v.by_sid sid s present in
    record {
      by_uid = λ uid k h.
          let e = find-erase s.uid uid m.uid_sid_map in
          let kept : (s.uid ≢ uid) × (find uid m.uid_sid_map ≡ some k) = ground (arith, e, h) in
          let t = v.by_uid uid k kept.1 in
          let other : sid ≢ k =
            λ same. kept.0 (same_uid sid k s t.0 m.session_map present t.1 same ∙ t.2) in
          (t.0, ground (arith, find-erase sid k m.session_map, other, t.1), t.2);
      by_sid = λ k t h.
          let e = find-erase sid k m.session_map in
          let kept : (sid ≢ k) × (find k m.session_map ≡ some t) = ground (arith, e, h) in
          let a = v.by_sid k t kept.1 in
          let other : s.uid ≢ t.uid =
            λ same. kept.0 (same_sid sid k s.uid t.uid m.uid_sid_map agrees.2 a.2 same) in
          (a.0, a.1, ground (arith, find-erase s.uid t.uid m.uid_sid_map, other, a.2));
    }

-- DestroySession keeps the two maps in agreement.
pub destroy_session-IsConsistent :
    (sid : ℕ) (m : SessionManager) → IsConsistent m → IsConsistent (destroy_session sid m)
unfolding destroy_session erased
destroy_session-IsConsistent sid m v = elim (Option-cases (find sid m.session_map)) [
  | inl absent ↦ subst IsConsistent {x = m} (ground (arith, absent)) v
  | inr (s, present) ↦
      subst IsConsistent {x = erased sid s m} (ground (arith, present))
        (erased-IsConsistent sid s m present v)
]

pub get_session_by_uid_found :
    (uid sid : ℕ) (m : SessionManager) (s : Session)
    → find uid m.uid_sid_map ≡ some sid
    → find sid m.session_map ≡ some s
    → get_session_by_uid uid m ≡ some s
unfolding get_session_by_uid get_session
get_session_by_uid_found uid sid m s h k = ground (arith, h, k)

get_session_found :
    (sid : ℕ) (m : SessionManager) (s : Session)
    → find sid m.session_map ≡ some s
    → get_session sid m ≡ some s
unfolding get_session
get_session_found sid m s h = h

destroy_found :
    (uid : ℕ) (m : SessionManager) (s : Session)
    → get_session_by_uid uid m ≡ some s
    → find s.sid m.session_map ≡ some s
    → destroy_of_uid uid m ≡ erased s.sid s m
unfolding destroy_of_uid destroy_session erased
destroy_found uid m s h k = ground (arith, h, k)

-- ProduceSession first removes the session of the user.
destroy_of_uid-IsConsistent :
    (uid : ℕ) (m : SessionManager)
    → IsConsistent m
    → IsConsistent (destroy_of_uid uid m)
      × (find uid (destroy_of_uid uid m).uid_sid_map ≡ none)
      × ((destroy_of_uid uid m).sid_gen ≡ m.sid_gen)
unfolding destroy_of_uid get_session_by_uid erased
destroy_of_uid-IsConsistent uid m v = elim (Option-cases (find uid m.uid_sid_map)) [
  | inl absent ↦
      let same : destroy_of_uid uid m ≡ m = ground (arith, absent) in
      (
        subst IsConsistent (sym same) v,
        ap (λ (n : SessionManager). find uid n.uid_sid_map) same ∙ absent,
        ap (λ (n : SessionManager). n.sid_gen) same,
      )
  | inr (sid, present) ↦
      let t = v.by_uid uid sid present in
      let a = v.by_sid sid t.0 t.1 in
      let own : find (t.0).sid m.session_map ≡ some t.0 =
        ap (λ (n : ℕ). find n m.session_map) a.0 ∙ t.1 in
      let is_erased : destroy_of_uid uid m ≡ erased (t.0).sid t.0 m =
        destroy_found uid m t.0 (get_session_by_uid_found uid sid m t.0 present t.1) own in
      (
        subst IsConsistent (sym is_erased) (erased-IsConsistent (t.0).sid t.0 m own v),
        ap (λ (n : SessionManager). find uid n.uid_sid_map) is_erased
            ∙ ground (arith, find-erase (t.0).uid uid m.uid_sid_map, t.2),
        ap (λ (n : SessionManager). n.sid_gen) is_erased,
      )
]

added : ℕ → SessionManager → SessionManager
added uid m = record {
  sid_gen = m.sid_gen + 1;
  session_map =
      insert (m.sid_gen + 1) (record { sid = m.sid_gen + 1; uid = uid; peer = clear })
        m.session_map;
  uid_sid_map = insert uid (m.sid_gen + 1) m.uid_sid_map;
}

clash :
    (uid uid' k : ℕ) (map : List (ℕ × ℕ))
    → find uid map ≡ none
    → find uid' map ≡ some k
    → uid ≢ uid'
clash uid uid' k map h1 h2 same = cc

added-IsConsistent :
    (uid : ℕ) (m : SessionManager)
    → find uid m.uid_sid_map ≡ none
    → IsConsistent m
    → IsConsistent (added uid m)
unfolding added sid_of uid_of
added-IsConsistent uid m absent v =
    let n : ℕ = m.sid_gen + 1 in
    let s : Session = record { sid = n; uid = uid; peer = clear } in
    record {
      by_uid = λ k sid h.
          let e = find-insert uid k n m.uid_sid_map in
          let f = find-insert n sid s m.session_map in
          elim (Bool-cases (uid == k)) [
            | inl same ↦ (s, ground (arith, e, f, h, same), ground (arith, same))
            | inr other ↦
                let t = v.by_uid k sid (ground (arith, e, h, other)) in
                let a = v.by_sid sid t.0 t.1 in (t.0, ground (arith, f, t.1, a.1), t.2)
          ];
      by_sid = λ k t h.
          let f = find-insert n k s m.session_map in
          let e = find-insert uid t.uid n m.uid_sid_map in
          elim (Bool-cases (n == k)) [
            | inl same ↦
                let is_new : some t ≡ some s = sym h ∙ f ∙ ground (arith, same) in
                let own_sid : t.sid ≡ n = ap sid_of is_new in
                let own_uid : t.uid ≡ uid = ap uid_of is_new in
                (
                  ground (arith, own_sid, same),
                  ground (arith, same),
                  ground (arith, own_uid, e, same),
                )
            | inr other ↦
                let a = v.by_sid k t (ground (arith, f, h, other)) in
                let ne : uid ≢ t.uid = λ same. clash uid t.uid k m.uid_sid_map absent a.2 same in
                (a.0, omega (arith, a.1), ground (arith, e, ne, a.2))
          ];
    }

add_session_small :
    (uid : ℕ) (m : SessionManager)
    → m.sid_gen + 1 < 65536
    → add_session uid m
      ≡ some (added uid m, record { sid = m.sid_gen + 1; uid = uid; peer = clear })
unfolding add_session added
add_session_small uid m fits =
    let cut : u16 (m.sid_gen + 1) ≡ m.sid_gen + 1 = omega arith in
    let int : ltb (m.sid_gen + 1) (2 ^ 31) ≡ true = lt→ltb _ _ (omega arith) in rw (cut, int) refl

-- ProduceSession in a manager whose maps agree, while the counter fits 16 bits, returns, keeps
-- the maps in agreement, and the new session has the next id and is found by its id and by its
-- user.
pub produce_session-IsConsistent :
    (uid : ℕ) (m : SessionManager)
    → IsConsistent m
    → m.sid_gen + 1 < 65536
    → (m' : SessionManager) × (s : Session) × (produce_session uid m ≡ some (m', s))
      × IsConsistent m'
      × (get_session s.sid m' ≡ some s)
      × (get_session_by_uid uid m' ≡ some s)
      × (s.sid ≡ m.sid_gen + 1)
      × (m'.sid_gen ≡ m.sid_gen + 1)
unfolding produce_session added
produce_session-IsConsistent uid m v fits =
    let d = destroy_of_uid-IsConsistent uid m v in
    let m1 : SessionManager = destroy_of_uid uid m in
    let n : ℕ = m1.sid_gen + 1 in
    let s : Session = record { sid = n; uid = uid; peer = clear } in
    let own : find n (added uid m1).session_map ≡ some s =
      find-insert n n s m1.session_map ∙ ground arith in
    let by_user : find uid (added uid m1).uid_sid_map ≡ some n =
      find-insert uid uid n m1.uid_sid_map ∙ ground arith in
    (
      added uid m1,
      s,
      add_session_small uid m1 (omega (arith, d.2)),
      added-IsConsistent uid m1 d.1 d.0,
      get_session_found n (added uid m1) s own,
      get_session_by_uid_found uid n (added uid m1) s by_user own,
      omega (arith, d.2),
      omega (arith, d.2),
    )
