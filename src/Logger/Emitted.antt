-- ===== src/Logger/Emitted.antt =====
-- svr/library/commlib/logging.cpp: what logv asks the system to do, described by the text of the
-- message and not by the buffer.
use rudp_network.Prelude.{
  u64, ◌^◌, ◌-◌, ℕ, zero, suc, ◌+◌, ◌≤◌, ◌<◌, ◌≡◌, ◌∙◌, refl, sym, ap, arith, List, [], ◌∷◌, ◌++◌,
  ◌==◌, leb, ltb-false, leb-false, none, some, if◌then◌else◌, length, take, drop, get_elem?,
  take-append-drop, append_assoc, length-append,
}
use rudp_network.Prelude.Int.{ℤ}
use rudp_network.Memory.{take-append, write_at}
use rudp_network.Logger.{Logger, Answers, Call, lfatal, lerror}
use rudp_network.Logger.Text.{c_string}
use rudp_network.Logger.Level.{level_strs}
use rudp_network.Logger.Rotate.{maybe_rotate}
use rudp_network.Logger.Line.{header, snprintf, print_both, build_line}
use rudp_network.Logger.Log.{Site, tid, out_fd, emit, logv}
use rudp_network.Logger.Trimmed.{strip, line_of}
use rudp_network.Logger.Written.{snprintf_lem, build_line-line_of}
use rudp_network.Logger.Header.{header-strip}

-- The header of a message of a level with this name.
abbrev pub head_of : Answers → Site → List ℕ → List ℕ
head_of os site level_str =
    header (os.localtime os.now) os.microseconds tid level_str (c_string site.file) site.line

-- A line goes to the file; syslog gets what stands behind the time, up to a '\0', when the message
-- is at least an error; and the standard error gets a fatal one.
abbrev pub emitted : Answers → ℕ → ℤ → List ℕ → List Call
emitted os level fd line =
    Call.write fd line
    ∷ ((if os.writes then [] else Call.complain ∷ [])
        ++ ((if leb level lerror then Call.syslog (c_string (drop 27 line)) ∷ [] else [])
            ++ (if level == lfatal then Call.complain ∷ [] else [])))

c_string-append : (xs ys : List ℕ) → c_string (xs ++ 0 ∷ ys) ≡ c_string xs
unfolding c_string
c_string-append [] ys = refl
c_string-append (x ∷ xs) ys = rw (c_string-append xs ys) refl

drop-append_le : (n : ℕ) (xs ys : List ℕ) → n ≤ length xs → drop n (xs ++ ys) ≡ drop n xs ++ ys
drop-append_le zero xs ys h = refl
drop-append_le (suc n) [] ys h = absurd (omega arith)
drop-append_le (suc n) (x ∷ xs) ys h = drop-append_le n xs ys (omega arith)

-- A buffer that holds the line and a '\0' is as good as the line.
emit-emitted :
    (os : Answers) (level : ℕ) (fd : ℤ) (buffer line : List ℕ)
    → take (length line + 1) buffer ≡ line ++ 0 ∷ []
    → 27 ≤ length line
    → emit os level fd buffer (length line) ≡ emitted os level fd line
unfolding emit
emit-emitted os level fd buffer line t h =
    let tail = drop (length line + 1) buffer in
    let split : buffer ≡ line ++ 0 ∷ tail =
      sym (take-append-drop (length line + 1) buffer)
      ∙ ap (λ (xs : List ℕ). xs ++ tail) t
      ∙ append_assoc line (0 ∷ []) tail in
    let written : take (length line) buffer ≡ line =
      ap (take (length line)) split ∙ take-append line (0 ∷ tail) in
    let logged : c_string (drop 27 buffer) ≡ c_string (drop 27 line) =
      ap (λ (xs : List ℕ). c_string (drop 27 xs)) split
      ∙ ap c_string (drop-append_le 27 line (0 ∷ tail) h)
      ∙ c_string-append (drop 27 line) tail in
    rw (written, logged) refl

-- A print behind a buffer.
snprintf-outside :
    (p size : ℕ) (text mem : List ℕ) → length mem < p → snprintf p (suc size) text mem ≡ none
unfolding snprintf write_at
snprintf-outside p size text mem h =
    rw (leb-false (p + length (take size text ++ 0 ∷ [])) (length mem) (omega (arith, h))) refl

module _ (os : Answers) (site : Site) (level : ℕ) (message : List ℕ) (l : Logger)
    {level_str : List ℕ} {rotated : Logger} {moves : List Call} (shown : level ≤ l.level)
    (named : get_elem? level_strs level ≡ some level_str)
    (rotates : maybe_rotate os l ≡ some (rotated, moves)) where
  -- Logv of a level that is shown, with a name, in a logger whose rotation returns, with a buffer
  -- of 4096 bytes of any content and a header of at most 4094: it returns, and asks the system,
  -- behind what the rotation asks, for one write of the first 4094 characters of header and
  -- message, without the newlines at their end, and a newline, for syslog of what stands behind
  -- the time when the level is at least an error, and aborts exactly on a fatal one.
  pub logv-emitted :
      length site.stack ≡ 4096
      → length (head_of os site level_str) ≤ 4094
      → logv os site level message l
        ≡ some (record {
          logger = rotated;
          calls =
              moves
              ++ emitted os level (out_fd rotated) (line_of (head_of os site level_str ++ message));
          aborted = level == lfatal;
        })
  unfolding logv line_of
  logv-emitted stack fits =
      let head = head_of os site level_str in
      let line = line_of (head ++ message) in
      let long : 27 ≤ length (strip (take 4094 (head ++ message))) =
        header-strip (os.localtime os.now) os.microseconds tid level_str (c_string site.file)
          site.line message fits in
      let (buffer, sized, built, holds) =
        build_line-line_of head message site.stack stack (omega (arith, fits))
          (omega (arith, long)) in
      let calls =
        emit-emitted os level (out_fd rotated) buffer line holds
          (omega (arith, long, length-append (strip (take 4094 (head ++ message))) (10 ∷ []))) in
      let passes = ltb-false l.level level shown in rw (passes, rotates, named, built, calls) refl

  -- Logv of a level that is shown, with a name, in a logger whose rotation returns, with a buffer
  -- of 4096 bytes, stores outside the buffer when the header has more than 4096 characters, below
  -- 2^31.
  pub logv-overrun :
      length site.stack ≡ 4096
      → 4096 < length (head_of os site level_str)
      → length (head_of os site level_str) < 2 ^ 31
      → logv os site level message l ≡ none
  unfolding logv build_line print_both
  logv-overrun stack over small =
      let head = head_of os site level_str in
      let passes = ltb-false l.level level shown in
      let (first, e, long, t) = snprintf_lem 0 4096 head site.stack (omega (arith, stack)) in
      let behind =
        snprintf-outside (length head) (2 ^ 64 - 1 - (length head - 4096)) message first
          (omega (arith, long, stack, over)) in
      let wrapped : u64 (4096 + 2 ^ 64 - length head) ≡ suc (2 ^ 64 - 1 - (length head - 4096)) =
        omega (arith, over, small) in
      rw (passes, rotates, named, e, wrapped, behind) refl
