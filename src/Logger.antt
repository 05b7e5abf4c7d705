-- ===== src/Logger.antt =====
-- svr/library/commlib/logging.h and logging.cpp: the logger. Its state, the answers that it gets
-- from the operating system, and what it asks the system to do. Texts are lists of bytes.
pub mod Text
pub mod Level
pub mod Rotate
pub mod Line
pub mod Log
pub mod Names
pub mod Rotation
pub mod Trimmed
pub mod Written
pub mod Header
pub mod Emitted
pub mod Kept
pub mod Invariant
use rudp_network.Prelude.{
  ℕ, List, [], ◌∷◌, Bool, true, false, Option, some, none, ◌>>=◌, ◌==◌, leb, if◌then◌else◌, min,
  max,
}
use rudp_network.Prelude.Int.{ℤ, pos, negsuc, ◌+ℤ◌, ◌-ℤ◌, ltb_ℤ, leb_ℤ}

-- A LogLevel is its number.
abbrev pub lfatal : ℕ
lfatal = 0

abbrev pub lerror : ℕ
lerror = 1

abbrev pub luerr : ℕ
luerr = 2

abbrev pub lwarn : ℕ
lwarn = 3

abbrev pub linfo : ℕ
linfo = 4

abbrev pub ldebug : ℕ
ldebug = 5

abbrev pub ltrace : ℕ
ltrace = 6

abbrev pub lall : ℕ
lall = 7

-- `real_rotate` is the atomic one.
pub record Logger : Type 0 where
  pub fd : ℤ
  pub level : ℕ
  pub last_rotate : ℤ
  pub real_rotate : ℤ
  pub rotate_interval : ℤ
  pub filename : List ℕ

-- Logger() at the time `now`; then -1 stands for no file.
abbrev pub new_logger : ℤ → Logger
new_logger now = record {
  fd = negsuc 0;
  level = linfo;
  last_rotate = now;
  real_rotate = now;
  rotate_interval = pos 86400;
  filename = [];
}

-- setLogLevel(LogLevel)
unfoldable pub set_log_level : ℕ → Logger → Logger
set_log_level level l = record l { level = min lall (max lfatal level) }

-- The conversion of an int to LogLevel, which is undefined outside the values of the enumeration.
unfoldable pub to_log_level : ℤ → Option ℕ
to_log_level (pos n) = if leb n lall then some n else none
to_log_level (negsuc n) = none

-- adjustLogLevel
unfoldable pub adjust_log_level : ℤ → Logger → Option Logger
unfolding to_log_level set_log_level
adjust_log_level adjust l = do
  level ← to_log_level (pos l.level +ℤ adjust)
  some (set_log_level level l)

-- setRotateInterval
abbrev pub set_rotate_interval : ℤ → Logger → Logger
set_rotate_interval interval l = record l { rotate_interval = interval }

-- A struct tm, by the members that are printed.
pub record Tm : Type 0 where
  pub tm_year : ℤ
  pub tm_mon : ℤ
  pub tm_mday : ℤ
  pub tm_hour : ℤ
  pub tm_min : ℤ
  pub tm_sec : ℤ

-- What the system answers during one call of the logger: time and gettimeofday, the time zone that
-- tzset stored, localtime_r, whether rename gives 0, the descriptor that open gives (negative when
-- it fails), whether dup2 gives one, and whether write writes all.
pub record Answers : Type 0 where
  pub now : ℤ
  pub microseconds : ℤ
  pub timezone : ℤ
  pub localtime : ℤ → Tm
  pub renames : Bool
  pub opened : ℤ
  pub duplicates : Bool
  pub writes : Bool

-- What the logger asks the system to do. `complain` is a line on the standard error.
pub data Call : Type 0 where
  open_file : List ℕ → Call
  rename : List ℕ → List ℕ → Call
  dup2 : ℤ → ℤ → Call
  close : ℤ → Call
  write : ℤ → List ℕ → Call
  syslog : List ℕ → Call
  complain : Call

-- The descriptor is -1.
unfoldable pub no_file : ℤ → Bool
no_file (pos n) = false
no_file (negsuc n) = n == 0

-- ~Logger()
unfoldable pub destroy : Logger → List Call
unfolding no_file
destroy l = if no_file l.fd then [] else close l.fd ∷ []
