-- ===== src/Logger/Invariant.antt =====
-- svr/library/commlib/logging.h and logging.cpp: every state that the calls of the logger's members
-- lead to.
use rudp_network.Prelude.{
  ℕ, zero, suc, ◌≤◌, ◌≡◌, refl, arith, List, Bool, true, false, not, ◌||◌, Option, none, some,
  Option-cases, Bool-cases, inl, inr, if◌then◌else◌, get_elem?,
}
use rudp_network.Prelude.Int.{ℤ, pos, negsuc, ◌+ℤ◌, ltb_ℤ}
use rudp_network.Logger.{
  Logger, Answers, new_logger, set_log_level, to_log_level, adjust_log_level, set_rotate_interval,
  no_file, lall,
}
use rudp_network.Logger.Level.{set_log_level_by_name, get_log_level_str, find_level, level_strs}
use rudp_network.Logger.Text.{codes, c_string}
use rudp_network.Logger.Rotate.{is_empty}
use rudp_network.Logger.Log.{Logged, Site, logv, fatalif, set_file_name}
use rudp_network.Logger.Kept.{Keeps, Always, Always-if, Always-get, logv-Keeps, fatalif-Keeps}

-- A call of a member that does not end the program.
pub data Op : Type 0 where
  level_op : ℕ → Op
  name_op : List ℕ → Op
  adjust_op : ℤ → Op
  interval_op : ℤ → Op
  file_op : Answers → Answers → Site → List ℕ → Op
  log_op : Answers → Site → ℕ → List ℕ → Op

unfoldable pub going_on : Option Logged → Option Logger
going_on none = none
going_on (some logged) = if logged.aborted then none else some logged.logger

unfoldable pub apply : Op → Logger → Option Logger
unfolding set_log_level set_log_level_by_name adjust_log_level going_on set_file_name logv
apply (level_op level) l = some (set_log_level level l)
apply (name_op name) l = some (set_log_level_by_name name l)
apply (adjust_op adjust) l = adjust_log_level adjust l
apply (interval_op interval) l = some (set_rotate_interval interval l)
apply (file_op os later site name) l = going_on (set_file_name os later site name l)
apply (log_op os site level message) l = going_on (logv os site level message l)

-- The states of a logger that is constructed at some time.
pub data Reach : Logger → Type 0 where
  start : (now : ℤ) → Reach (new_logger now)
  then_call : {l l' : Logger} (op : Op) → Reach l → apply op l ≡ some l' → Reach l'

-- The level is a value of the enumeration, and a logger with a file name has a descriptor.
pub record IsSound (l : Logger) : Type 0 where
  pub level_range : l.level ≤ lall
  pub opened : (is_empty l.filename || not (no_file l.fd)) ≡ true

-- What a call must keep sound.
Keeps-IsSound : {l l' : Logger} → Keeps l l' → IsSound l → IsSound l'
Keeps-IsSound k s = record {
  level_range = rw (k.level_same) s.level_range;
  opened = rw (k.fd_same, k.filename_same) s.opened;
}

opened-no_file : (fd : ℤ) → ltb_ℤ fd (pos 0) ≡ false → no_file fd ≡ false
unfolding no_file
opened-no_file (pos n) h = refl
opened-no_file (negsuc n) h = absurd (ground arith)

or-true : (b : Bool) → (b || true) ≡ true
or-true true = refl
or-true false = refl

set_file_name-IsSound :
    (os later : Answers) (site : Site) (name : List ℕ) (l : Logger)
    → IsSound l
    → Always (λ r. IsSound r.logger) (set_file_name os later site name l)
unfolding set_file_name
set_file_name-IsSound os later site name l s = elim (Bool-cases (ltb_ℤ os.opened (pos 0))) [
  | inl fails ↦ rw fails s
  | inr opens ↦ elim (Bool-cases (no_file l.fd)) [
    | inl none_yet ↦
        rw (opens, none_yet)
          (record {
            level_range = s.level_range;
            opened = rw (opened-no_file os.opened opens) (or-true (is_empty name));
          })
    | inr open_yet ↦
        let fails = if os.duplicates then false else true in
        let named = record l { filename = name } in
        let sound : IsSound named = record {
          level_range = s.level_range;
          opened = rw open_yet (or-true (is_empty name));
        } in
        elim (Option-cases (fatalif later site fails (codes "dup2 failed") named)) [
          | inl e ↦ rw (opens, open_yet, e) tt
          | inr (logged, e) ↦
              rw (opens, open_yet, e)
                (Keeps-IsSound
                  (Always-get (λ (r : Logged). Keeps named r.logger)
                    (fatalif-Keeps later site fails (codes "dup2 failed") named) e)
                  sound)
        ]
  ]
]

going_on-IsSound :
    (o : Option Logged) → Always (λ r. IsSound r.logger) o → Always IsSound (going_on o)
unfolding going_on
going_on-IsSound none h = tt
going_on-IsSound (some logged) h = Always-if IsSound logged.aborted none (some logged.logger) tt h

set_log_level-IsSound : (level : ℕ) (l : Logger) → IsSound l → IsSound (set_log_level level l)
unfolding set_log_level
set_log_level-IsSound level l s = record { level_range = omega arith; opened = s.opened }

adjust_log_level-IsSound :
    (adjust : ℤ) (l : Logger) → IsSound l → Always IsSound (adjust_log_level adjust l)
unfolding adjust_log_level
adjust_log_level-IsSound adjust l s = elim (Option-cases (to_log_level (pos l.level +ℤ adjust))) [
  | inl e ↦ rw e tt
  | inr (level, e) ↦ rw e (set_log_level-IsSound level l s)
]

apply-IsSound : (op : Op) (l : Logger) → IsSound l → Always IsSound (apply op l)
unfolding apply set_log_level_by_name
apply-IsSound (level_op level) l s = set_log_level-IsSound level l s
apply-IsSound (name_op name) l s =
    set_log_level-IsSound (find_level (c_string name) 0 level_strs) l s
apply-IsSound (adjust_op adjust) l s = adjust_log_level-IsSound adjust l s
apply-IsSound (interval_op interval) l s = record { level_range = s.level_range; opened = s.opened }
apply-IsSound (file_op os later site name) l s =
    going_on-IsSound (set_file_name os later site name l)
      (set_file_name-IsSound os later site name l s)
apply-IsSound (log_op os site level message) l s =
    going_on-IsSound (logv os site level message l) (logged (logv os site level message l) keeps)
  where
    keeps : Always (λ r. Keeps l r.logger) (logv os site level message l)
    keeps = logv-Keeps os site level message l

    logged :
        (o : Option Logged) → Always (λ r. Keeps l r.logger) o → Always (λ r. IsSound r.logger) o
    logged none h = tt
    logged (some r) h = Keeps-IsSound h s

reached-IsSound : {l : Logger} → Reach l → IsSound l
unfolding is_empty
reached-IsSound (start now) = record { level_range = omega arith; opened = refl }
reached-IsSound (then_call {l = l} op r e) =
    Always-get IsSound (apply-IsSound op l (reached-IsSound r)) e

level_strs-total : (k : ℕ) → k ≤ lall → (str : List ℕ) × (get_elem? level_strs k ≡ some str)
level_strs-total zero h = (codes "FATAL", refl)
level_strs-total (suc zero) h = (codes "ERROR", refl)
level_strs-total (suc (suc zero)) h = (codes "UERR", refl)
level_strs-total (suc (suc (suc zero))) h = (codes "WARN", refl)
level_strs-total (suc (suc (suc (suc zero)))) h = (codes "INFO", refl)
level_strs-total (suc (suc (suc (suc (suc zero))))) h = (codes "DEBUG", refl)
level_strs-total (suc (suc (suc (suc (suc (suc zero)))))) h = (codes "TRACE", refl)
level_strs-total (suc (suc (suc (suc (suc (suc (suc zero))))))) h = (codes "ALL", refl)
level_strs-total (suc (suc (suc (suc (suc (suc (suc (suc k)))))))) h = absurd (omega arith)

-- In every state that calls of the logger's members lead to from its construction, the level is
-- one of the enumeration and has a name, and a logger with a file name has a descriptor.
pub Reach-IsSound :
    {l : Logger} → Reach l → IsSound l × ((str : List ℕ) × (get_log_level_str l ≡ some str))
unfolding get_log_level_str
Reach-IsSound {l} r = let s = reached-IsSound r in (s, level_strs-total l.level s.level_range)
