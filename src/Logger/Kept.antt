-- ===== src/Logger/Kept.antt =====
-- svr/library/commlib/logging.cpp: what logging leaves alone.
use rudp_network.Prelude.{
  ℕ, ◌≡◌, refl, sym, subst, List, [], Bool, true, false, ltb, leb, Option, none, some, Option-cases,
  Bool-cases, inl, inr, if◌then◌else◌, get_elem?,
}
use rudp_network.Prelude.Int.{eqb_ℤ}
use rudp_network.Logger.{Logger, Answers, Call}
use rudp_network.Logger.Level.{level_strs}
use rudp_network.Logger.Rotate.{maybe_rotate, exchange_and_move, period, is_empty}
use rudp_network.Logger.Rotation.{maybe_rotate_lem}
use rudp_network.Logger.Line.{build_line}
use rudp_network.Logger.Emitted.{head_of}
use rudp_network.Logger.Log.{Logged, Site, logv, hlog, fatalif}

-- What logging leaves alone.
pub record Keeps (l l' : Logger) : Type 0 where
  pub fd_same : l'.fd ≡ l.fd
  pub level_same : l'.level ≡ l.level
  pub filename_same : l'.filename ≡ l.filename

pub Keeps-refl : (l : Logger) → Keeps l l
Keeps-refl l = record { fd_same = refl; level_same = refl; filename_same = refl }

-- The result, if there is one, has the property.
abbrev pub Always : {A : Type 0} → (A → Type 0) → Option A → Type 0
Always P none = Unit
Always P (some a) = P a

pub Always-if :
    {A : Type 0} (P : A → Type 0) (b : Bool) (x y : Option A)
    → Always P x
    → Always P y
    → Always P (if b then x else y)
Always-if P true x y h k = h
Always-if P false x y h k = k

pub Always-get :
    {A : Type 0} (P : A → Type 0) {o : Option A} {a : A} → Always P o → o ≡ some a → P a
Always-get P h e = subst (Always P) (e) h

module _ (os : Answers) (l : Logger) where
  abbrev stamped : Logger
  stamped = record l { last_rotate = os.now; real_rotate = os.now }

  abbrev KeptBy : Logger × List Call → Type 0
  KeptBy r = Keeps l r.0

  exchange_and_move-Keeps : Always KeptBy (exchange_and_move os l)
  unfolding exchange_and_move
  exchange_and_move-Keeps = elim (Option-cases (period os stamped l.real_rotate)) [
    | inl e ↦ rw e tt
    | inr (before, e) ↦ elim (Option-cases (period os stamped os.now)) [
      | inl e' ↦ rw (e, e') tt
      | inr (here, e') ↦
          rw (e, e') (record { fd_same = refl; level_same = refl; filename_same = refl })
    ]
  ]

  maybe_rotate-Keeps : Always KeptBy (maybe_rotate os l)
  unfolding maybe_rotate
  maybe_rotate-Keeps = elim (Bool-cases (is_empty l.filename)) [
    | inl empty ↦ rw empty (Keeps-refl l)
    | inr named ↦ elim (Option-cases (period os l os.now)) [
      | inl e ↦ rw (named, e) tt
      | inr (here, e) ↦ elim (Option-cases (period os l l.last_rotate)) [
        | inl e' ↦ rw (named, e, e') tt
        | inr (last, e') ↦ subst (Always KeptBy) (sym (maybe_rotate_lem os l e e')) (
            Always-if KeptBy (is_empty l.filename) (some (l, [])) _ (Keeps-refl l) (
              Always-if KeptBy (eqb_ℤ here last) (some (l, [])) (exchange_and_move os l)
                (Keeps-refl l) exchange_and_move-Keeps))
      ]
    ]
  ]

pub logv-Keeps :
    (os : Answers) (site : Site) (level : ℕ) (message : List ℕ) (l : Logger)
    → Always (λ r. Keeps l r.logger) (logv os site level message l)
unfolding logv
logv-Keeps os site level message l = elim (Bool-cases (ltb l.level level)) [
  | inl quiet ↦ rw quiet (Keeps-refl l)
  | inr loud ↦ elim (Option-cases (maybe_rotate os l)) [
    | inl e ↦ rw (loud, e) tt
    | inr ((rotated, moves), e) ↦
        let keeps = Always-get (KeptBy os l) (maybe_rotate-Keeps os l) e in
        elim (Option-cases (get_elem? level_strs level)) [
          | inl e' ↦ rw (loud, e, e') tt
          | inr (str, e') ↦
              elim (Option-cases (build_line (head_of os site str) message site.stack)) [
                | inl e'' ↦ rw (loud, e, e', e'') tt
                | inr ((buffer, count), e'') ↦ rw (loud, e, e', e'') keeps
              ]
        ]
  ]
]

pub fatalif-Keeps :
    (os : Answers) (site : Site) (b : Bool) (message : List ℕ) (l : Logger)
    → Always (λ r. Keeps l r.logger) (fatalif os site b message l)
unfolding fatalif hlog
fatalif-Keeps os site true message l =
    Always-if (λ (r : Logged). Keeps l r.logger) (leb 0 l.level) (logv os site 0 message l)
      (some (record { logger = l; calls = []; aborted = false })) (logv-Keeps os site 0 message l)
      (Keeps-refl l)
fatalif-Keeps os site false message l = Keeps-refl l
