-- ===== src/Logger/Rotation.antt =====
-- svr/library/commlib/logging.cpp: how often the log file is renamed.
use rudp_network.Prelude.{
  ℕ, suc, ◌+◌, ◌≡◌, ◌∙◌, refl, sym, ap, if-same, arith, List, [], ◌∷◌, ◌++◌, Bool, true, false,
  Option, some, ◌>>=◌, Bool-cases, inl, inr, if◌then◌else◌,
}
use rudp_network.Prelude.Int.{eqb_ℤ, ℤ, pos, negsuc}
use rudp_network.Logger.{Logger, Answers, Call}
use rudp_network.Logger.Rotate.{period, is_empty, move_file, exchange_and_move, maybe_rotate}

eqb_ℤ-refl : (z : ℤ) → eqb_ℤ z z ≡ true
unfolding eqb_ℤ
eqb_ℤ-refl (pos n) = ground arith
eqb_ℤ-refl (negsuc n) = ground arith

eqb_ℤ→≡ : (a b : ℤ) → eqb_ℤ a b ≡ true → a ≡ b
unfolding eqb_ℤ
eqb_ℤ→≡ (pos a) (pos b) h = ground arith
eqb_ℤ→≡ (negsuc a) (negsuc b) h = ground arith
eqb_ℤ→≡ (pos a) (negsuc b) h = absurd (cc h)
eqb_ℤ→≡ (negsuc a) (pos b) h = absurd (cc h)

-- The logger once a thread has taken over the rotation.
abbrev stamped : Answers → Logger → Logger
stamped os l = record l { last_rotate = os.now; real_rotate = os.now }

module _ (os : Answers) (l : Logger) {here before : ℤ} (at : period os l os.now ≡ some here)
    (was : period os l l.real_rotate ≡ some before) where
  pub exchange_and_move_lem :
      exchange_and_move os l
      ≡ some (stamped os l, if eqb_ℤ before here then [] else move_file os (stamped os l))
  unfolding exchange_and_move period
  exchange_and_move_lem = rw (was, at) refl

pub maybe_rotate_lem :
    (os : Answers) (l : Logger) {here last : ℤ}
    → period os l os.now ≡ some here
    → period os l l.last_rotate ≡ some last
    → maybe_rotate os l ≡ (
        if is_empty l.filename
        then some (l, [])
        else if eqb_ℤ here last
        then some (l, [])
        else exchange_and_move os l)
unfolding maybe_rotate
maybe_rotate_lem os l at e = rw (at, e) refl

-- Nothing happens to a file that has been rotated, or to a logger without one.
maybe_rotate-idle :
    (os : Answers) (l : Logger) {here : ℤ}
    → period os l os.now ≡ some here
    → period os l l.last_rotate ≡ some here
    → maybe_rotate os l ≡ some (l, [])
unfolding maybe_rotate
maybe_rotate-idle os l {here} at last =
    rw (at, last, eqb_ℤ-refl here) (if-same (is_empty l.filename) (some (l, [])))

pub maybe_rotate-unnamed :
    (os : Answers) (l : Logger) → is_empty l.filename ≡ true → maybe_rotate os l ≡ some (l, [])
unfolding maybe_rotate
maybe_rotate-unnamed os l h = rw h refl

-- The period of a time does not depend on what the time is compared with.
period-zone :
    (os os' : Answers) (l l' : Logger) (time : ℤ)
    → os'.timezone ≡ os.timezone
    → l'.rotate_interval ≡ l.rotate_interval
    → period os' l' time ≡ period os l time
unfolding period
period-zone os os' l l' time zone interval = rw (zone, interval) refl

-- MaybeRotate, when the periods of the clock and of both kept times are defined, returns, and a
-- second call in the same period and time zone returns, asks the system for nothing and leaves
-- the logger as it is, whatever failed in the first.
pub maybe_rotate_once :
    (os os' : Answers) (l : Logger) {here last before : ℤ}
    → period os l os.now ≡ some here
    → period os l l.last_rotate ≡ some last
    → period os l l.real_rotate ≡ some before
    → os'.timezone ≡ os.timezone
    → period os' l os'.now ≡ some here
    → (l' : Logger) × (calls : List Call) × (maybe_rotate os l ≡ some (l', calls))
      × (maybe_rotate os' l' ≡ some (l', []))
maybe_rotate_once os os' l {here} {last} {before} at e was zone again =
    elim (Bool-cases (is_empty l.filename)) [
      | inl empty ↦ (l, [], rw (first, empty) refl, maybe_rotate-unnamed os' l empty)
      | inr named ↦ elim (Bool-cases (eqb_ℤ here last)) [
        | inl fresh ↦ (
          l,
          [],
          rw (first, named, fresh) refl,
          maybe_rotate-idle os' l again (
              period-zone os os' l l l.last_rotate zone refl
              ∙ e
              ∙ ap some (sym (eqb_ℤ→≡ here last fresh))),
        )
        | inr old ↦ (
          stamped os l,
          if eqb_ℤ before here then [] else move_file os (stamped os l),
          rw (first, named, old) (exchange_and_move_lem os l at was),
          maybe_rotate-idle os' (stamped os l)
              (period-zone os' os' l (stamped os l) os'.now refl refl ∙ again)
              (period-zone os os' l (stamped os l) os.now zone refl ∙ at),
        )
      ]
    ]
  where
    first : maybe_rotate os l ≡ (
        if is_empty l.filename
        then some (l, [])
        else if eqb_ℤ here last
        then some (l, [])
        else exchange_and_move os l)
    first = maybe_rotate_lem os l at e

-- How many calls rename a file.
unfoldable pub renames : List Call → ℕ
renames [] = 0
renames (Call.rename old new ∷ calls) = suc (renames calls)
renames (Call.open_file name ∷ calls) = renames calls
renames (Call.dup2 from to ∷ calls) = renames calls
renames (Call.close fd ∷ calls) = renames calls
renames (Call.write fd bytes ∷ calls) = renames calls
renames (Call.syslog text ∷ calls) = renames calls
renames (Call.complain ∷ calls) = renames calls

renames-append : (xs ys : List Call) → renames (xs ++ ys) ≡ renames xs + renames ys
unfolding renames
renames-append [] ys = omega arith
renames-append (Call.rename old new ∷ xs) ys = omega (arith, renames-append xs ys)
renames-append (Call.open_file name ∷ xs) ys = renames-append xs ys
renames-append (Call.dup2 from to ∷ xs) ys = renames-append xs ys
renames-append (Call.close fd ∷ xs) ys = renames-append xs ys
renames-append (Call.write fd bytes ∷ xs) ys = renames-append xs ys
renames-append (Call.syslog text ∷ xs) ys = renames-append xs ys
renames-append (Call.complain ∷ xs) ys = renames-append xs ys

renames-move_file : (os : Answers) (l : Logger) → renames (move_file os l) ≡ 1
unfolding renames move_file
renames-move_file os l = ground arith

-- Threads that have all found the period over, in the order in which they take the old time.
unfoldable pub run_exchanges : List Answers → Logger → Option (Logger × List Call)
unfolding exchange_and_move
run_exchanges [] l = some (l, [])
run_exchanges (os ∷ threads) l = do
  (after, calls) ← exchange_and_move os l
  (last, more) ← run_exchanges threads after
  some (last, calls ++ more)

-- The clocks of all threads are in one period, and the time zone is the same for all.
abbrev pub AllWithin : ℤ → ℤ → Logger → List Answers → Type 0
AllWithin here zone l [] = Unit
AllWithin here zone l (os ∷ threads) =
    (os.timezone ≡ zone) × (period os l os.now ≡ some here) × AllWithin here zone l threads

AllWithin-stamped :
    (here zone : ℤ) (os : Answers) (l : Logger) (threads : List Answers)
    → AllWithin here zone l threads
    → AllWithin here zone (stamped os l) threads
AllWithin-stamped here zone os l [] h = tt
AllWithin-stamped here at_zone os l (o ∷ threads) (zone, at, h) = (
  zone,
  period-zone o o l (stamped os l) o.now refl refl ∙ at,
  AllWithin-stamped here at_zone os l threads h,
)

-- Once one thread has taken over the period, no other does anything.
run_exchanges-idle :
    {here : ℤ} (os : Answers) (l : Logger) (threads : List Answers)
    → period os l l.real_rotate ≡ some here
    → AllWithin here os.timezone l threads
    → (last : Logger) × (run_exchanges threads l ≡ some (last, []))
unfolding run_exchanges
run_exchanges-idle os l [] was h = (l, refl)
run_exchanges-idle {here} os l (o ∷ threads) was (zone, at, h) =
    let (last, rest) =
      run_exchanges-idle os (stamped o l) threads
        (period-zone o os l (stamped o l) o.now (sym zone) refl ∙ at)
        (AllWithin-stamped here os.timezone o l threads h) in
    let step = exchange_and_move_lem o l at (period-zone os o l l l.real_rotate zone refl ∙ was) in
    (last, rw (step, eqb_ℤ-refl here, rest) refl)

-- Threads that have all found the period over, with clocks in one period and one time zone, in
-- the order in which they exchange the time of the last rotation: all return, and together they
-- rename the file once, or never when that time was in the period already.
pub run_exchanges_once :
    (os : Answers) (l : Logger) (threads : List Answers) {here before : ℤ}
    → period os l os.now ≡ some here
    → period os l l.real_rotate ≡ some before
    → AllWithin here os.timezone l threads
    → (last : Logger) × (calls : List Call) × (run_exchanges (os ∷ threads) l ≡ some (last, calls))
      × (renames calls ≡ (if eqb_ℤ before here then 0 else 1))
unfolding run_exchanges renames
run_exchanges_once os l threads {here} {before} at was h =
    let step = exchange_and_move_lem os l at was in
    let (last, rest) =
      run_exchanges-idle os (stamped os l) threads
        (period-zone os os l (stamped os l) os.now refl refl ∙ at)
        (AllWithin-stamped here os.timezone os l threads h) in
    let moves = if eqb_ℤ before here then [] else move_file os (stamped os l) in
    (last, moves ++ [], rw (step, rest) refl, counted (eqb_ℤ before here))
  where
    counted :
        (b : Bool)
        → renames ((if b then [] else move_file os (stamped os l)) ++ []) ≡ (if b then 0 else 1)
    counted true = refl
    counted false = omega (
      arith,
      renames-append (move_file os (stamped os l)) [],
      renames-move_file os (stamped os l),
    )
