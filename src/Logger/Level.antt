-- ===== src/Logger/Level.antt =====
-- svr/library/commlib/logging.cpp: the names of the levels.
use rudp_network.Prelude.{ℕ, suc, List, [], ◌∷◌, Option, if◌then◌else◌, get_elem?}
use rudp_network.Logger.{Logger, set_log_level, linfo}
use rudp_network.Logger.Text.{codes, c_string, same_but_case}

-- levelStrs_
abbrev pub level_strs : List (List ℕ)
level_strs =
    codes "FATAL"
    ∷ codes "ERROR"
    ∷ codes "UERR"
    ∷ codes "WARN"
    ∷ codes "INFO"
    ∷ codes "DEBUG"
    ∷ codes "TRACE"
    ∷ codes "ALL"
    ∷ []

-- The loop over the names, from the index `i` on.
unfoldable pub find_level : List ℕ → ℕ → List (List ℕ) → ℕ
unfolding same_but_case
find_level name i [] = linfo
find_level name i (s ∷ strs) =
    let more = find_level name (suc i) strs in if same_but_case s name then i else more

-- setLogLevel(const string&)
unfoldable pub set_log_level_by_name : List ℕ → Logger → Logger
unfolding find_level c_string set_log_level
set_log_level_by_name name l = set_log_level (find_level (c_string name) 0 level_strs) l

-- getLogLevelStr
unfoldable pub get_log_level_str : Logger → Option (List ℕ)
get_log_level_str l = get_elem? level_strs l.level
