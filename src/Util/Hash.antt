-- ===== src/Util/Hash.antt =====
-- svr/library/networking/NetworkUtil.cpp: hash_data, hash_string and murmur_hash_64. Data with a
-- length is the list of its bytes; a C string is the memory from its first character on.
pub mod Murmur
use native.Mathlib.Nat.{mod-lt}
use rudp_network.Prelude.{
  ℕ, zero, suc, ◌+◌, ◌-◌, ◌*◌, ◌/◌, ◌%◌, ◌^◌, ◌≤◌, ◌<◌, ◌≡◌, ◌∙◌, refl, ap, arith, List, [], ◌∷◌,
  ◌++◌, map, Option, none, some, Bool, true, false, ◌&&◌, ltb, leb, ◌==◌, if◌then◌else◌, bit_xor,
  ◌<<◌, ◌>>◌, u32,
}
use rudp_network.Bits.{bit_xor-lt}

-- The two mixing statements, after the addition.
unfoldable pub hash_mix : ℕ → ℕ
hash_mix hash = let h = u32 (hash + u32 (hash << 10)) in bit_xor h (h >> 6)

unfoldable pub hash_data : List ℕ → ℕ → ℕ
unfolding hash_mix
hash_data [] hash = hash
hash_data (b ∷ bs) hash = hash_data bs (hash_mix (u32 (hash + b)))

-- 'a' to 'z' become 'A' to 'Z'.
unfoldable pub upper : ℕ → ℕ
upper c = if leb 97 c && leb c 122 then c - 97 + 65 else c

-- A char as a summand of a uint32_t: it is signed.
unfoldable pub widen_char : ℕ → ℕ
widen_char c = if ltb c 128 then c else c + (2 ^ 32 - 256)

-- `none` where no character is '\0'.
unfoldable pub hash_string : List ℕ → ℕ → Option ℕ
unfolding hash_mix upper widen_char
hash_string [] hash = none
hash_string (c ∷ cs) hash =
    let rest = hash_string cs (hash_mix (u32 (hash + widen_char (upper c)))) in
    if c == 0 then some hash else rest

hash_mix-lt : (hash : ℕ) → hash_mix hash < 2 ^ 32
unfolding hash_mix
hash_mix-lt hash =
    let h : ℕ = u32 (hash + u32 (hash << 10)) in
    bit_xor-lt 32 h (h >> 6) (omega arith) (omega arith)

either :
    (b : Bool) (o : Option ℕ) (hash : ℕ) {value : ℕ}
    → hash < 2 ^ 32
    → (if b then some hash else o) ≡ some value
    → (o ≡ some value → value < 2 ^ 32)
    → value < 2 ^ 32
either true o hash h e k = ground arith
either false o hash h e k = k e

-- A hash is a uint32_t.
pub hash_string-lt :
    (text : List ℕ) (hash : ℕ) {value : ℕ}
    → hash < 2 ^ 32
    → hash_string text hash ≡ some value
    → value < 2 ^ 32
unfolding hash_string
hash_string-lt [] hash h e = absurd (cc e)
hash_string-lt (c ∷ cs) hash {value} h e =
    let next : ℕ = hash_mix (u32 (hash + widen_char (upper c))) in
    let rest : hash_string cs next ≡ some value → value < 2 ^ 32 =
      hash_string-lt cs next (hash_mix-lt (u32 (hash + widen_char (upper c)))) in
    either (c == 0) (hash_string cs next) hash h e rest

-- Characters of a string that are ASCII.
abbrev pub IsAscii : List ℕ → Type 0
IsAscii [] = Unit
IsAscii (c ∷ cs) = (0 < c) × (c < 128) × IsAscii cs

widen_upper : (c : ℕ) → c < 128 → widen_char (upper c) ≡ upper c
unfolding widen_char upper
widen_upper c h = ground arith

-- Hash_string of a string of ASCII characters is hash_data of its upper-case form.
pub hash_string-hash_data :
    (text rest : List ℕ) (hash : ℕ)
    → IsAscii text
    → hash_string (text ++ 0 ∷ rest) hash ≡ some (hash_data (map upper text) hash)
unfolding hash_string hash_data
hash_string-hash_data [] rest hash h = refl
hash_string-hash_data (c ∷ cs) rest hash (positive, ascii, h) =
    let next : ℕ = hash_mix (u32 (hash + widen_char (upper c))) in
    let same : next ≡ hash_mix (u32 (hash + upper c)) =
      ap (λ (t : ℕ). hash_mix (u32 (hash + t))) (widen_upper c ascii) in
    let first : hash_string (c ∷ (cs ++ 0 ∷ rest)) hash ≡ hash_string (cs ++ 0 ∷ rest) next =
      unfold hash_string in ground (arith, positive) in
    first
    ∙ hash_string-hash_data cs rest next h
    ∙ ap (λ (t : ℕ). some (hash_data (map upper cs) t)) same
