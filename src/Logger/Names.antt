-- ===== src/Logger/Names.antt =====
-- svr/library/commlib/logging.cpp: the levels and their names.
use rudp_network.Prelude.{
  ℕ, zero, suc, ◌+◌, ◌<◌, ◌≡◌, refl, ap, arith, List, [], ◌∷◌, Bool, true, false, not, ◌&&◌, some,
  get_elem?, length, min, max, both,
}
use rudp_network.Logger.{Logger, set_log_level, linfo, lall}
use rudp_network.Logger.Text.{c_string, lower, same_but_case}
use rudp_network.Logger.Level.{level_strs, find_level, set_log_level_by_name, get_log_level_str}

-- Two texts that are like a third are like each other.
same_but_case-join :
    (xs ys zs : List ℕ)
    → same_but_case xs zs ≡ true
    → same_but_case ys zs ≡ true
    → same_but_case xs ys ≡ true
unfolding same_but_case
same_but_case-join [] [] zs h k = refl
same_but_case-join [] (y ∷ ys) [] h k = k
same_but_case-join [] (y ∷ ys) (z ∷ zs) h k = h
same_but_case-join (x ∷ xs) [] [] h k = h
same_but_case-join (x ∷ xs) [] (z ∷ zs) h k = k
same_but_case-join (x ∷ xs) (y ∷ ys) [] h k = absurd (cc h)
same_but_case-join (x ∷ xs) (y ∷ ys) (z ∷ zs) h k =
    let rest = same_but_case-join xs ys zs in ground (arith, rest)

-- No later name is like an earlier one.
unlike : List ℕ → List (List ℕ) → Bool
unlike s [] = true
unlike s (t ∷ strs) = not (same_but_case s t) && unlike s strs

unfoldable all_unlike : List (List ℕ) → Bool
unfolding unlike
all_unlike [] = true
all_unlike (s ∷ strs) = unlike s strs && all_unlike strs

unlike_at :
    (k : ℕ) (str s : List ℕ) (strs : List (List ℕ))
    → unlike s strs ≡ true
    → get_elem? strs k ≡ some str
    → same_but_case s str ≡ false
unfolding unlike
unlike_at k str s [] u e = absurd (cc e)
unlike_at zero str s (t ∷ strs) u e = ground arith
unlike_at (suc k) str s (t ∷ strs) u e = unlike_at k str s strs (both u).1 e

find_level_lem :
    (name : List ℕ) (i k : ℕ) (str : List ℕ) (strs : List (List ℕ))
    → all_unlike strs ≡ true
    → get_elem? strs k ≡ some str
    → same_but_case str name ≡ true
    → find_level name i strs ≡ i + k
unfolding find_level all_unlike
find_level_lem name i k str [] u e h = absurd (cc e)
find_level_lem name i zero str (s ∷ strs) u e h = ground arith
find_level_lem name i (suc k) str (s ∷ strs) u e h =
    let apart : same_but_case s str ≡ false = unlike_at k str s strs (both u).0 e in
    let like = same_but_case-join s str name in
    let later : all_unlike strs ≡ true = (both {a = unlike s strs} u).1 in
    let rest : find_level name (suc i) strs ≡ suc i + k =
      find_level_lem name (suc i) k str strs later e h in
    ground (arith, like)

find_level-none :
    (name : List ℕ) (i : ℕ) (strs : List (List ℕ))
    → ((k : ℕ) (str : List ℕ) → get_elem? strs k ≡ some str → same_but_case str name ≡ false)
    → find_level name i strs ≡ linfo
unfolding find_level
find_level-none name i [] h = refl
find_level-none name i (s ∷ strs) h =
    let rest = find_level-none name (suc i) strs (λ k. h (suc k)) in ground (arith, h 0 s refl)

get_elem?-some-lt :
    (k : ℕ) {str : List ℕ} (strs : List (List ℕ)) → get_elem? strs k ≡ some str → k < length strs
get_elem?-some-lt k [] e = absurd (cc e)
get_elem?-some-lt zero (s ∷ strs) e = omega arith
get_elem?-some-lt (suc k) (s ∷ strs) e = omega (arith, get_elem?-some-lt k strs e)

level_strs-all_unlike : all_unlike level_strs ≡ true
unfolding all_unlike unlike same_but_case lower
level_strs-all_unlike = refl

-- SetLogLevel by a name whose C string is, but for case, what getLogLevelStr gives for a logger
-- sets that logger's level, and changes nothing else.
pub set_log_level_by_name-get_log_level_str :
    (l l' : Logger) (str name : List ℕ)
    → get_log_level_str l ≡ some str
    → same_but_case str (c_string name) ≡ true
    → set_log_level_by_name name l' ≡ record l' { level = l.level }
unfolding set_log_level_by_name get_log_level_str set_log_level
set_log_level_by_name-get_log_level_str l l' str name e h =
    let found = find_level_lem (c_string name) 0 l.level str level_strs level_strs-all_unlike e h in
    let small : l.level < 8 = get_elem?-some-lt l.level level_strs e in
    let clamped : min lall (max 0 (find_level (c_string name) 0 level_strs)) ≡ l.level =
      omega (arith, found, small) in
    ap (λ (t : ℕ). record l' { level = t }) clamped

pub set_log_level_by_name-unknown :
    (l : Logger) (name : List ℕ)
    → ((k : ℕ) (str : List ℕ)
        → get_elem? level_strs k ≡ some str
        → same_but_case str (c_string name) ≡ false)
    → set_log_level_by_name name l ≡ record l { level = linfo }
unfolding set_log_level_by_name set_log_level
set_log_level_by_name-unknown l name h =
    ap (λ (t : ℕ). record l { level = min lall (max 0 t) })
      (find_level-none (c_string name) 0 level_strs h)
