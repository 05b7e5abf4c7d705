-- ===== src/Logger/Header.antt =====
-- svr/library/commlib/logging.cpp: the text in front of a message is at least the 27 characters
-- that syslog skips, and ends with a blank.
use rudp_network.Prelude.{
  ℕ, zero, suc, ◌+◌, ◌-◌, ◌≤◌, ◌<◌, ◌≡◌, refl, ap, arith, List, [], ◌∷◌, ◌++◌, length,
  length-append, length-replicate, ◌∙◌, take, append_assoc, replicate,
}
use rudp_network.Prelude.Int.{ℤ, pos, negsuc, ◌+ℤ◌}
use rudp_network.Logger.{Tm}
use rudp_network.Logger.Text.{digits, padded, print_int}
use rudp_network.Logger.Line.{header}
use rudp_network.Logger.Trimmed.{keep, strip}

padded-long : (width n : ℕ) → width ≤ length (padded width n)
unfolding padded
padded-long width n = omega (
  arith,
  length-append (replicate (width - length (digits 10 20 n [])) 48) (digits 10 20 n []),
  length-replicate {A = ℕ} (width - length (digits 10 20 n [])) 48,
)

print_int-long : (width : ℕ) (z : ℤ) → width ≤ length (print_int width z)
unfolding print_int
print_int-long width (pos n) = padded-long width n
print_int-long width (negsuc n) = omega (arith, padded-long (width - 1) (suc n))

-- A text of at least so many characters that ends with a blank.
data Blank : ℕ → List ℕ → Type 0 where
  blank : Blank 1 (32 ∷ [])
  char : {n : ℕ} {xs : List ℕ} (c : ℕ) → Blank n xs → Blank (suc n) (c ∷ xs)
  text :
      {m n : ℕ} {ys : List ℕ} (xs : List ℕ) → m ≤ length xs → Blank n ys → Blank (m + n) (xs ++ ys)

Blank-long : {n : ℕ} {xs : List ℕ} → Blank n xs → n ≤ length xs
Blank-long blank = omega arith
Blank-long (char c b) = omega (arith, Blank-long b)
Blank-long (text {ys = ys} xs h b) = omega (arith, h, Blank-long b, length-append xs ys)

field :
    {n : ℕ} {ys : List ℕ} (width : ℕ) (z : ℤ)
    → Blank n ys
    → Blank (width + n) (print_int width z ++ ys)
field width z b = text (print_int width z) (print_int-long width z) b

header-Blank :
    (t : Tm) (usec : ℤ) (tid : ℕ) (level_str file : List ℕ) (line : ℤ)
    → Blank 31 (header t usec tid level_str file line)
unfolding header
header-Blank t usec tid level_str file line = field {n = 27} 4 (t.tm_year +ℤ pos 1900) (
    char 47 (
      field {n = 24} 2 (t.tm_mon +ℤ pos 1) (
        char 47 (
          field {n = 21} 2 t.tm_mday (
            char 45 (
              field {n = 18} 2 t.tm_hour (
                char 58 (
                  field {n = 15} 2 t.tm_min (
                    char 58 (
                      field {n = 12} 2 t.tm_sec (
                        char 46 (
                          field {n = 5} 6 usec (
                            char 32 (
                              text {m = 0} {n = 4} (digits 16 16 tid []) (omega arith) (
                                char 32 (
                                  text {m = 0} {n = 3} level_str (omega arith) (
                                    char 32 (
                                      text {m = 0} {n = 2} file (omega arith) (
                                        char 58 (
                                          text {m = 0} {n = 1} (print_int 0 line) (omega arith)
                                            blank))))))))))))))))))))

pub header-long :
    (t : Tm) (usec : ℤ) (tid : ℕ) (level_str file : List ℕ) (line : ℤ)
    → 27 ≤ length (header t usec tid level_str file line)
header-long t usec tid level_str file line =
    omega (arith, Blank-long (header-Blank t usec tid level_str file line))

keep-nonempty : (c : ℕ) (ds : List ℕ) → 0 < length ds → length (keep c ds) ≡ suc (length ds)
unfolding keep
keep-nonempty c [] h = absurd (omega arith)
keep-nonempty c (d ∷ ds) h = refl

keep-blank : (ds : List ℕ) → 0 < length (keep 32 ds)
unfolding keep
keep-blank [] = omega arith
keep-blank (d ∷ ds) = omega arith

take-over :
    (n : ℕ) (xs ys : List ℕ) → length xs ≤ n → take n (xs ++ ys) ≡ xs ++ take (n - length xs) ys
take-over n [] ys h = ap (λ (t : ℕ). take t ys) {x = n} {y = n - 0} (omega arith)
take-over zero (x ∷ xs) ys h = absurd (omega arith)
take-over (suc n) (x ∷ xs) ys h = ap (◌∷◌ x) (
    take-over n xs ys (omega arith)
    ∙ ap (λ (t : ℕ). xs ++ take t ys) {x = n - length xs} {y = suc n - suc (length xs)}
        (omega arith))

-- What stands in front of something that stays, stays.
strip-append :
    (xs ys : List ℕ)
    → 0 < length (strip ys)
    → length xs + length (strip ys) ≤ length (strip (xs ++ ys))
unfolding strip
strip-append [] ys h = omega arith
strip-append (x ∷ xs) ys h =
    let rest = strip-append xs ys h in
    omega (arith, rest, h, keep-nonempty x (strip (xs ++ ys)) (omega (arith, rest, h)))

Blank-nonempty : {n : ℕ} {xs : List ℕ} → Blank n xs → 0 < length xs
Blank-nonempty blank = omega arith
Blank-nonempty (char c b) = omega arith
Blank-nonempty (text {ys = ys} xs h b) = omega (arith, Blank-nonempty b, length-append xs ys)

Blank-strip :
    {n : ℕ} {xs : List ℕ} (rest : List ℕ) → Blank n xs → length xs ≤ length (strip (xs ++ rest))
unfolding strip
Blank-strip rest blank = omega (arith, keep-blank (strip rest))
Blank-strip rest (char {xs = xs} c b) = omega (
  arith,
  Blank-strip rest b,
  strip-append (c ∷ []) (xs ++ rest) (omega (arith, Blank-strip rest b, Blank-nonempty b)),
)
Blank-strip rest (text {ys = ys} xs h b) = omega (
  arith,
  length-append xs ys,
  Blank-strip rest b,
  strip-append xs (ys ++ rest) (omega (arith, Blank-strip rest b, Blank-nonempty b)),
  ap (λ (zs : List ℕ). length (strip zs)) (append_assoc xs ys rest),
)

-- A header that fits stays whole, whatever the message.
pub header-strip :
    (t : Tm) (usec : ℤ) (tid : ℕ) (level_str file : List ℕ) (line : ℤ) (message : List ℕ)
    → length (header t usec tid level_str file line) ≤ 4094
    → 27 ≤ length (strip (take 4094 (header t usec tid level_str file line ++ message)))
header-strip t usec tid level_str file line message h =
    let head = header t usec tid level_str file line in
    omega (
      arith,
      header-long t usec tid level_str file line,
      Blank-strip (take (4094 - length head) message) (header-Blank t usec tid level_str file line),
      ap (λ (zs : List ℕ). length (strip zs)) (take-over 4094 head message h),
    )
