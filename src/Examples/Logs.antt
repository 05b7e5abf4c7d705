-- ===== src/Examples/Logs.antt =====
-- The logger at particular messages, times and names.
use rudp_network.Prelude.{
  ℕ, ◌≡◌, refl, arith, List, [], ◌∷◌, ◌++◌, true, false, some, none, replicate, length-replicate,
}
use rudp_network.Prelude.Int.{eqb_ℤ, in_int64, ℤ, pos, negsuc, ◌-ℤ◌, ◌+ℤ◌}
use rudp_network.Logger.{Logger, Answers, Call, new_logger}
use rudp_network.Logger.Text.{codes, same_but_case, lower, c_string, print_int, padded, digits}
use rudp_network.Logger.Level.{set_log_level_by_name, get_log_level_str}
use rudp_network.Logger.Names.{set_log_level_by_name-get_log_level_str}
use rudp_network.Logger.Rotate.{period, maybe_rotate}
use rudp_network.Logger.Rotation.{maybe_rotate_once, renames, run_exchanges, run_exchanges_once}
use rudp_network.Logger.Trimmed.{line_of}
use rudp_network.Logger.Log.{Site, logv, out_fd}
use rudp_network.Logger.Line.{header}
use rudp_network.Logger.Emitted.{head_of, emitted, logv-emitted, logv-overrun}
use rudp_network.Logger.Invariant.{IsSound, Op, Reach, apply, Reach-IsSound}

-- In the afternoon of a day, and a day later.
abbrev pub clock : ℤ → Answers
clock now = record {
  now = now;
  microseconds = pos 250;
  timezone = negsuc 3599;
  localtime = λ t. record {
    tm_year = pos 124;
    tm_mon = pos 4;
    tm_mday = pos 7;
    tm_hour = pos 15;
    tm_min = pos 30;
    tm_sec = pos 9;
  };
  renames = true;
  opened = pos 5;
  duplicates = true;
  writes = true;
}

abbrev pub today : Answers
today = clock (pos 1715092209)

abbrev tomorrow : Answers
tomorrow = clock (pos 1715178609)

abbrev to_file : Logger
to_file = record {
  fd = pos 4;
  level = 5;
  last_rotate = pos 1715092000;
  real_rotate = pos 1715092000;
  rotate_interval = pos 86400;
  filename = codes "svr.log";
}

abbrev pub site : Site
site = record { file = codes "Server.cpp"; line = pos 42; stack = replicate 4096 7 }

maybe_rotate_once_example :
    (l' : Logger) × (calls : List Call) × (maybe_rotate tomorrow to_file ≡ some (l', calls))
    × (maybe_rotate (clock (pos 1715178700)) l' ≡ some (l', []))
unfolding period in_int64 ◌-ℤ◌
maybe_rotate_once_example =
    maybe_rotate_once tomorrow (clock (pos 1715178700)) to_file refl refl refl refl refl

run_exchanges_once_example :
    (last : Logger) × (calls : List Call) × (run_exchanges
        (tomorrow ∷ clock (pos 1715178610) ∷ tomorrow ∷ [])
        to_file
      ≡ some (last, calls))
    × (renames calls ≡ 1)
unfolding period in_int64 ◌-ℤ◌ eqb_ℤ
run_exchanges_once_example =
    run_exchanges_once tomorrow to_file (clock (pos 1715178610) ∷ tomorrow ∷ []) refl refl
      (refl, refl, (refl, refl, tt))

rotates_today : maybe_rotate today to_file ≡ some (to_file, [])
unfolding maybe_rotate period in_int64 eqb_ℤ ◌-ℤ◌
rotates_today = refl

logv-emitted_example :
    logv today site 4 (codes "started" ++ (10 ∷ [])) to_file
    ≡ some (record {
      logger = to_file;
      calls =
          emitted today 4
            (pos 4)
            (line_of (head_of today site (codes "INFO") ++ (codes "started" ++ (10 ∷ []))));
      aborted = false;
    })
unfolding header print_int padded digits ◌+ℤ◌ c_string out_fd
logv-emitted_example =
    logv-emitted today site 4 (codes "started" ++ (10 ∷ [])) to_file (omega arith) refl
      rotates_today (length-replicate {A = ℕ} 4096 7) (omega arith)

-- The name of a source file that leaves no room.
abbrev long_site : Site
long_site = record { file = replicate 4096 47; line = pos 42; stack = replicate 4096 0 }

logv-overrun_example : logv today long_site 1 (codes "started") to_file ≡ none
unfolding header print_int padded digits ◌+ℤ◌ c_string
logv-overrun_example =
    logv-overrun today long_site 1 (codes "started") to_file (omega arith) refl rotates_today refl
      (omega arith) (omega arith)

-- A logger is given a file and then a level that is out of range.
Reach-IsSound_example :
    IsSound (record {
      fd = pos 5;
      level = 7;
      last_rotate = pos 10;
      real_rotate = pos 10;
      rotate_interval = pos 86400;
      filename = codes "svr.log";
    })
    × ((str : List ℕ) × (get_log_level_str (record {
      fd = pos 5;
      level = 7;
      last_rotate = pos 10;
      real_rotate = pos 10;
      rotate_interval = pos 86400;
      filename = codes "svr.log";
    })
          ≡ some str))
unfolding apply
Reach-IsSound_example = Reach-IsSound (
    Reach.then_call (Op.level_op 9)
      (Reach.then_call (Op.file_op today tomorrow site (codes "svr.log")) (Reach.start (pos 10))
        refl)
      refl)

set_log_level_by_name-get_log_level_str_example :
    set_log_level_by_name (codes "dEbug") (new_logger (pos 10))
    ≡ record (new_logger (pos 10)) { level = 5 }
unfolding get_log_level_str same_but_case lower c_string
set_log_level_by_name-get_log_level_str_example =
    set_log_level_by_name-get_log_level_str to_file (new_logger (pos 10)) (codes "DEBUG")
      (codes "dEbug") refl refl
