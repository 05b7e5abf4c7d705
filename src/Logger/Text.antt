-- ===== src/Logger/Text.antt =====
-- What svr/library/commlib/logging.cpp uses of C's text functions: C strings, strcasecmp in the
-- C locale, and the conversions of snprintf.
use Prim.Native.Char.{code}
use Prim.Native.String.{String}
use rudp_network.Prelude.{
  ℕ, zero, suc, ◌+◌, ◌-◌, ◌/◌, ◌%◌, List, [], ◌∷◌, ◌++◌, Bool, true, false, ◌&&◌, ◌==◌, ltb, leb,
  length, replicate, if◌then◌else◌,
}
use rudp_network.Prelude.Int.{ℤ, pos, negsuc}

abbrev pub codes : String → List ℕ
codes String.[] = []
codes (String.◌∷◌ c s) = code c ∷ codes s

-- The characters in front of the first '\0'.
unfoldable pub c_string : List ℕ → List ℕ
c_string [] = []
c_string (c ∷ cs) = let more = c_string cs in if c == 0 then [] else c ∷ more

-- tolower
unfoldable pub lower : ℕ → ℕ
lower c = if leb 65 c && leb c 90 then c + 32 else c

-- strcasecmp(a, b) == 0
unfoldable pub same_but_case : List ℕ → List ℕ → Bool
unfolding lower
same_but_case [] [] = true
same_but_case [] (b ∷ bs) = false
same_but_case (a ∷ as_rest) [] = false
same_but_case (a ∷ as_rest) (b ∷ bs) = (lower a == lower b) && same_but_case as_rest bs

-- The digits of a number below `base ^ fuel`, in front of `rest`; those above 9 are letters.
unfoldable pub digits : ℕ → ℕ → ℕ → List ℕ → List ℕ
digits base zero n rest = rest
digits base (suc fuel) n rest =
    let d = n % base in
    let c = if ltb d 10 then 48 + d else 87 + d in
    let more = digits base fuel (n / base) (c ∷ rest) in if ltb n base then c ∷ rest else more

-- Zeros in front of the digits of an int, up to the width.
unfoldable pub padded : ℕ → ℕ → List ℕ
unfolding digits
padded width n = let ds = digits 10 20 n [] in replicate (width - length ds) 48 ++ ds

-- "%0<width>d"
unfoldable pub print_int : ℕ → ℤ → List ℕ
unfolding padded
print_int width (pos n) = padded width n
print_int width (negsuc n) = 45 ∷ padded (width - 1) (suc n)
