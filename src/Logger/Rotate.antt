-- ===== src/Logger/Rotate.antt =====
-- svr/library/commlib/logging.cpp: the rotation of the log file. A `long` has 64 bits.
use rudp_network.Prelude.{
  ℕ, zero, suc, ◌/◌, List, [], ◌∷◌, ◌++◌, Bool, true, false, Option, some, none, ◌>>=◌,
  if◌then◌else◌, take,
}
use rudp_network.Prelude.Int.{ℤ, pos, negsuc, ◌+ℤ◌, ◌-ℤ◌, ltb_ℤ, in_int64, eqb_ℤ}
use rudp_network.Logger.{Logger, Tm, Answers, Call}
use rudp_network.Logger.Text.{c_string, print_int}

unfoldable pub negate : ℕ → ℤ
negate zero = pos 0
negate (suc n) = negsuc n

-- a / b of C++, cut towards zero; a division by zero is undefined.
unfoldable pub divide : ℤ → ℤ → Option ℤ
unfolding negate
divide a (pos zero) = none
divide (pos n) (pos (suc k)) = some (pos (n / suc k))
divide (negsuc n) (pos (suc k)) = some (negate (suc n / suc k))
divide (pos n) (negsuc k) = some (negate (n / suc k))
divide (negsuc n) (negsuc k) = in_int64 (pos (suc n / suc k))

-- (time - timezone) / rotateInterval_
unfoldable pub period : Answers → Logger → ℤ → Option ℤ
unfolding divide ◌-ℤ◌
period os l time = do local ← in_int64 (time -ℤ os.timezone); divide local l.rotate_interval

unfoldable pub is_empty : List ℕ → Bool
is_empty [] = true
is_empty (c ∷ cs) = false

-- "%s.%d%02d%02d%02d%02d", cut to the 4095 characters that fit.
unfoldable pub rotated_name : List ℕ → Tm → List ℕ
unfolding c_string print_int
rotated_name filename tm = take 4095 (
    c_string filename
    ++ (46
        ∷ (print_int 0 (tm.tm_year +ℤ pos 1900)
            ++ (print_int 2 (tm.tm_mon +ℤ pos 1)
                ++ (print_int 2 tm.tm_mday ++ (print_int 2 tm.tm_hour ++ print_int 2 tm.tm_min))))))

-- The end of maybeRotate: the file gets another name, and the descriptor a new file.
unfoldable pub move_file : Answers → Logger → List Call
unfolding rotated_name c_string
move_file os l =
    let name = c_string l.filename in
    let first = Call.rename name (rotated_name l.filename (os.localtime os.now)) in
    if os.renames
    then (if ltb_ℤ os.opened (pos 0)
        then first ∷ Call.open_file name ∷ Call.complain ∷ []
        else first ∷ Call.open_file name ∷ Call.dup2 os.opened l.fd ∷ Call.close os.opened ∷ [])
    else first ∷ Call.complain ∷ []

-- From the store to lastRotate_ on: what a thread does that has found the period over.
unfoldable pub exchange_and_move : Answers → Logger → Option (Logger × List Call)
unfolding period move_file
exchange_and_move os l = do
  let stamped = record l { last_rotate = os.now; real_rotate = os.now }
  before ← period os stamped l.real_rotate
  here ← period os stamped os.now
  some (stamped, if eqb_ℤ before here then [] else move_file os stamped)

-- maybeRotate
unfoldable pub maybe_rotate : Answers → Logger → Option (Logger × List Call)
unfolding period is_empty exchange_and_move
maybe_rotate os l = if is_empty l.filename then some (l, []) else do
  here ← period os l os.now
  last ← period os l l.last_rotate
  if eqb_ℤ here last then some (l, []) else exchange_and_move os l
