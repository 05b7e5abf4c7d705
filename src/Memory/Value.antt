-- ===== src/Memory/Value.antt =====
-- A list of bytes as the number that it writes down, least significant byte first.
use rudp_network.Prelude.{
  ℕ, zero, suc, ◌+◌, ◌*◌, ◌/◌, ◌%◌, ◌^◌, ◌≤◌, ◌<◌, ◌≡◌, refl, sym, ap, ap₂, ◌∙◌, subst, List, [],
  ◌∷◌, ◌++◌, arith, length, take, drop, length-take, take-append-drop,
}
use rudp_network.Bits.{two-pow-add, mod-two-pow-add, parts_of_sum}

abbrev pub val : List ℕ → ℕ
val [] = 0
val (b ∷ bs) = b + 256 * val bs

abbrev pub IsBytes : List ℕ → Type 0
IsBytes [] = Unit
IsBytes (b ∷ bs) = (b < 256) × IsBytes bs

-- The `k` low bytes of a word.
abbrev pub bytes_of : ℕ → ℕ → List ℕ
bytes_of zero w = []
bytes_of (suc k) w = (w % 256) ∷ bytes_of k (w / 256)

pub length-bytes_of : (k w : ℕ) → length (bytes_of k w) ≡ k
length-bytes_of zero w = refl
length-bytes_of (suc k) w = ap suc (length-bytes_of k (w / 256))

pub bytes_of-IsBytes : (k w : ℕ) → IsBytes (bytes_of k w)
bytes_of-IsBytes zero w = tt
bytes_of-IsBytes (suc k) w = (omega arith, bytes_of-IsBytes k (w / 256))

pub byte_pow : (n : ℕ) → 2 ^ (8 * suc n) ≡ 256 * 2 ^ (8 * n)
byte_pow n = omega (arith, two-pow-add 8 (8 * n), ap (λ (t : ℕ). 2 ^ t) (at n))
  where
    at : (n : ℕ) → 8 * suc n ≡ 8 + 8 * n
    at n = omega arith

pub val-lt : (xs : List ℕ) → IsBytes xs → val xs < 2 ^ (8 * length xs)
val-lt [] h = omega arith
val-lt (x ∷ xs) h = omega (arith, byte_pow (length xs), val-lt xs h.1)

pub val-bytes_of : (k w : ℕ) → val (bytes_of k w) ≡ w % 2 ^ (8 * k)
val-bytes_of zero w = omega arith
val-bytes_of (suc k) w =
    rw (eight k) (omega (arith, mod-two-pow-add w 8 (8 * k), val-bytes_of k (w / 256)))
  where
    eight : (k : ℕ) → 8 * suc k ≡ 8 + 8 * k
    eight k = omega arith

pub val-append : (xs ys : List ℕ) → val (xs ++ ys) ≡ val xs + 2 ^ (8 * length xs) * val ys
val-append [] ys = omega arith
val-append (x ∷ xs) ys =
    omega (arith, val-append xs ys, ap (λ (t : ℕ). t * val ys) (byte_pow (length xs)))

pub append-IsBytes : (xs ys : List ℕ) → IsBytes xs → IsBytes ys → IsBytes (xs ++ ys)
append-IsBytes [] ys h k = k
append-IsBytes (x ∷ xs) ys h k = (h.0, append-IsBytes xs ys h.1 k)

pub take-IsBytes : (n : ℕ) (xs : List ℕ) → IsBytes xs → IsBytes (take n xs)
take-IsBytes zero xs h = tt
take-IsBytes (suc n) [] h = tt
take-IsBytes (suc n) (x ∷ xs) h = (h.0, take-IsBytes n xs h.1)

pub drop-IsBytes : (n : ℕ) (xs : List ℕ) → IsBytes xs → IsBytes (drop n xs)
drop-IsBytes zero xs h = h
drop-IsBytes (suc n) [] h = tt
drop-IsBytes (suc n) (x ∷ xs) h = drop-IsBytes n xs h.1

-- A prefix and the rest, as the two parts of the number.
pub val-split :
    (n : ℕ) (xs : List ℕ) → n ≤ length xs → val xs ≡ val (take n xs) + 2 ^ (8 * n) * val (drop n xs)
val-split n xs h =
    let e : length (take n xs) ≡ n = omega (arith, length-take n xs) in
    omega (
      arith,
      ap val (take-append-drop n xs),
      val-append (take n xs) (drop n xs),
      ap (λ (t : ℕ). 2 ^ (8 * t) * val (drop n xs)) e,
    )

-- The prefix fits its width.
val-take-lt : (n : ℕ) (xs : List ℕ) → IsBytes xs → n ≤ length xs → val (take n xs) < 2 ^ (8 * n)
val-take-lt n xs b h =
    let e : length (take n xs) ≡ n = omega (arith, length-take n xs) in
    subst (λ (t : ℕ). val (take n xs) < 2 ^ (8 * t)) e (val-lt (take n xs) (take-IsBytes n xs b))

pub val-take :
    (n : ℕ) (xs : List ℕ) → IsBytes xs → n ≤ length xs → val (take n xs) ≡ val xs % 2 ^ (8 * n)
val-take n xs b h =
    sym
      (parts_of_sum (8 * n) (val (take n xs)) (val (drop n xs)) (val xs) (val-take-lt n xs b h)
        (val-split n xs h)).0

pub val-drop :
    (n : ℕ) (xs : List ℕ) → IsBytes xs → n ≤ length xs → val (drop n xs) ≡ val xs / 2 ^ (8 * n)
val-drop n xs b h =
    sym
      (parts_of_sum (8 * n) (val (take n xs)) (val (drop n xs)) (val xs) (val-take-lt n xs b h)
        (val-split n xs h)).1

pub take-append {ℓ} : {A : Type ℓ} (xs ys : List A) → take (length xs) (xs ++ ys) ≡ xs
take-append [] ys = refl
take-append (x ∷ xs) ys = ap (◌∷◌ x) (take-append xs ys)

pub drop-append {ℓ} : {A : Type ℓ} (n : ℕ) (xs ys : List A) → length xs ≡ n → drop n (xs ++ ys) ≡ ys
drop-append zero [] ys h = refl
drop-append zero (x ∷ xs) ys h = absurd (omega arith)
drop-append (suc n) [] ys h = absurd (omega arith)
drop-append (suc n) (x ∷ xs) ys h = drop-append n xs ys (omega arith)

-- Taking from what is left.
pub take-add {ℓ} :
    {A : Type ℓ} (m n : ℕ) (xs : List A) → take (m + n) xs ≡ take m xs ++ take n (drop m xs)
take-add zero n xs = ap (λ (t : ℕ). take t xs) (omega arith)
take-add {A} (suc m) n [] = add_suc-take m n
  where
    nil-take : (k : ℕ) → take {A = A} k [] ≡ []
    nil-take zero = refl
    nil-take (suc k) = refl

    add_suc-take : (m n : ℕ) → take {A = A} (suc m + n) [] ≡ [] ++ take n []
    add_suc-take m n = nil-take (suc m + n) ∙ sym (nil-take n)
take-add (suc m) n (x ∷ xs) =
    ap (λ (t : ℕ). take t (x ∷ xs)) {x = suc m + n} {y = suc (m + n)} (omega arith)
    ∙ ap (◌∷◌ x) (take-add m n xs)

pub drop-drop {ℓ} : {A : Type ℓ} (m n : ℕ) (xs : List A) → drop n (drop m xs) ≡ drop (m + n) xs
drop-drop zero n xs = ap (λ (t : ℕ). drop t xs) (omega arith)
drop-drop {A} (suc m) n [] = nil-drop n ∙ sym (nil-drop (suc m + n))
  where
    nil-drop : (k : ℕ) → drop {A = A} k [] ≡ []
    nil-drop zero = refl
    nil-drop (suc k) = refl
drop-drop (suc m) n (x ∷ xs) =
    drop-drop m n xs
    ∙ ap (λ (t : ℕ). drop t (x ∷ xs)) {x = suc (m + n)} {y = suc m + n} (omega arith)

-- Bytes are determined by their number and the number that they write down.
pub val-injective :
    (xs ys : List ℕ) → IsBytes xs → IsBytes ys → length xs ≡ length ys → val xs ≡ val ys → xs ≡ ys
val-injective [] [] h k e v = refl
val-injective [] (y ∷ ys) h k e v = absurd (omega arith)
val-injective (x ∷ xs) [] h k e v = absurd (omega arith)
val-injective (x ∷ xs) (y ∷ ys) h k e v =
    ap₂ ◌∷◌ (omega (arith, h.0, k.0))
      (val-injective xs ys h.1 k.1 (omega arith) (omega (arith, h.0, k.0)))
