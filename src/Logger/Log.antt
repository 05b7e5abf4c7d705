-- ===== src/Logger/Log.antt =====
-- svr/library/commlib/logging.cpp: logv, the macros over it, and setFileName.
use rudp_network.Prelude.{
  ℕ, List, [], ◌∷◌, ◌++◌, Bool, true, false, ◌==◌, ltb, leb, Option, some, ◌>>=◌, if◌then◌else◌,
  take, drop, get_elem?,
}
use rudp_network.Prelude.Int.{ℤ, pos, ltb_ℤ}
use rudp_network.Logger.{Logger, Answers, Call, no_file, lfatal, lerror}
use rudp_network.Logger.Text.{codes, c_string}
use rudp_network.Logger.Level.{level_strs}
use rudp_network.Logger.Rotate.{maybe_rotate}
use rudp_network.Logger.Line.{header, build_line}

-- The logger after a call, what the call asked the system to do, and whether it ended the program.
pub record Logged : Type 0 where
  pub logger : Logger
  pub calls : List Call
  pub aborted : Bool

-- Where logv is called from, the bytes in its buffer before, and the thread's `tid`, which nothing
-- sets.
pub record Site : Type 0 where
  pub file : List ℕ
  pub line : ℤ
  pub stack : List ℕ

abbrev pub tid : ℕ
tid = 0

-- fd_ == -1 ? 1 : fd_
unfoldable pub out_fd : Logger → ℤ
unfolding no_file
out_fd l = if no_file l.fd then pos 1 else l.fd

-- The calls once the line is built: write, syslog from the 27th byte on, and for a fatal message
-- the standard error.
unfoldable pub emit : Answers → ℕ → ℤ → List ℕ → ℕ → List Call
unfolding c_string
emit os level fd buffer count =
    Call.write fd (take count buffer)
    ∷ ((if os.writes then [] else Call.complain ∷ [])
        ++ ((if leb level lerror then Call.syslog (c_string (drop 27 buffer)) ∷ [] else [])
            ++ (if level == lfatal then Call.complain ∷ [] else [])))

-- logv of a level of the enumeration; `message` is what vsnprintf makes of the format.
unfoldable pub logv : Answers → Site → ℕ → List ℕ → Logger → Option Logged
unfolding maybe_rotate header build_line out_fd emit
logv os site level message l =
    if ltb l.level level then some (record { logger = l; calls = []; aborted = false }) else do
      (rotated, moves) ← maybe_rotate os l
      level_str ← get_elem? level_strs level
      let head =
          header (os.localtime os.now) os.microseconds tid level_str (c_string site.file) site.line
      (buffer, count) ← build_line head message site.stack
      some (record {
        logger = rotated;
        calls = moves ++ emit os level (out_fd rotated) buffer count;
        aborted = level == lfatal;
      })

-- The macro hlog, which TRACE, DEBUG, INFO, WARN, ERROR and FATAL use.
unfoldable pub hlog : Answers → Site → ℕ → List ℕ → Logger → Option Logged
unfolding logv
hlog os site level message l =
    if leb level l.level
    then logv os site level message l
    else some (record { logger = l; calls = []; aborted = false })

-- FATALIF and CHECK
unfoldable pub fatalif : Answers → Site → Bool → List ℕ → Logger → Option Logged
unfolding hlog
fatalif os site true message l = hlog os site lfatal message l
fatalif os site false message l = some (record { logger = l; calls = []; aborted = false })

-- EXITIF: a true condition ends the program, behind a message of the level ERROR.
unfoldable pub exitif : Answers → Site → Bool → List ℕ → Logger → Option Logged
unfolding hlog
exitif os site true message l = do
  logged ← hlog os site lerror message l
  some (record logged { aborted = true })
exitif os site false message l = some (record { logger = l; calls = []; aborted = false })

-- setFileName; a message that ends the program keeps it from closing the descriptor. `later` is what
-- the system answers during that message.
unfoldable pub set_file_name : Answers → Answers → Site → List ℕ → Logger → Option Logged
unfolding no_file fatalif c_string
set_file_name os later site filename l =
    let opening = Call.open_file (c_string filename) in
    let named = record l { filename = filename } in
    if ltb_ℤ os.opened (pos 0)
    then some (record { logger = l; calls = opening ∷ Call.complain ∷ []; aborted = false })
    else if no_file l.fd
    then some
        (record { logger = record named { fd = os.opened }; calls = opening ∷ []; aborted = false })
    else do
      logged ←
          fatalif later site (if os.duplicates then false else true) (codes "dup2 failed") named
      some (record logged {
        calls =
            opening
            ∷ Call.dup2 os.opened l.fd
            ∷ (logged.calls ++ (if logged.aborted then [] else Call.close os.opened ∷ []));
      })
