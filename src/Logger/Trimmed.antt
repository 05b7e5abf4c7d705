-- ===== src/Logger/Trimmed.antt =====
-- svr/library/commlib/logging.cpp: the line that logv writes, described without the buffer, and
-- the loop that finds its end.
use rudp_network.Prelude.{
  ℕ, zero, suc, ◌≤◌, ◌<◌, ◌≡◌, ◌∙◌, refl, sym, ap, arith, List, [], ◌∷◌, ◌++◌, false, ◌==◌,
  Bool-cases, inl, inr, some, if◌then◌else◌, length, take, get_elem?, length-take, ==_iff, ◌≢◌,
}
use rudp_network.Logger.Line.{trim}

-- A text without the newlines at its end: a newline stays if anything stays behind it.
unfoldable pub keep : ℕ → List ℕ → List ℕ
keep c [] = if c == 10 then [] else c ∷ []
keep c (d ∷ ds) = c ∷ d ∷ ds

unfoldable pub strip : List ℕ → List ℕ
unfolding keep
strip [] = []
strip (c ∷ cs) = keep c (strip cs)

-- A line of the log: at most 4094 characters of the text, and one newline.
unfoldable pub line_of : List ℕ → List ℕ
unfolding strip
line_of text = strip (take 4094 text) ++ 10 ∷ []

pub take-take : (m n : ℕ) (xs : List ℕ) → m ≤ n → take m (take n xs) ≡ take m xs
take-take zero n xs h = refl
take-take (suc m) zero xs h = absurd (omega arith)
take-take (suc m) (suc n) [] h = refl
take-take (suc m) (suc n) (x ∷ xs) h = ap (◌∷◌ x) (take-take m n xs (omega arith))

pub take-append_le : (n : ℕ) (xs ys : List ℕ) → n ≤ length xs → take n (xs ++ ys) ≡ take n xs
take-append_le zero xs ys h = refl
take-append_le (suc n) [] ys h = absurd (omega arith)
take-append_le (suc n) (x ∷ xs) ys h = ap (◌∷◌ x) (take-append_le n xs ys (omega arith))

-- One more character, and what it does to the text without the newlines at its end.
take-suc :
    (n : ℕ) (mem : List ℕ)
    → n < length mem
    → (c : ℕ) × (get_elem? mem n ≡ some c) × (take (suc n) mem ≡ take n mem ++ c ∷ [])
take-suc n [] h = absurd (omega arith)
take-suc zero (x ∷ mem) h = (x, refl, refl)
take-suc (suc n) (x ∷ mem) h = let (c, e, t) = take-suc n mem (omega arith) in (c, e, ap (◌∷◌ x) t)

strip-newline : (xs : List ℕ) → strip (xs ++ 10 ∷ []) ≡ strip xs
unfolding strip keep
strip-newline [] = refl
strip-newline (x ∷ xs) = ap (keep x) (strip-newline xs)

keep-snoc : (x : ℕ) (xs : List ℕ) (c : ℕ) → keep x (xs ++ c ∷ []) ≡ x ∷ (xs ++ c ∷ [])
unfolding keep
keep-snoc x [] c = refl
keep-snoc x (y ∷ xs) c = refl

strip-other : (xs : List ℕ) (c : ℕ) → (c == 10) ≡ false → strip (xs ++ c ∷ []) ≡ xs ++ c ∷ []
unfolding strip keep
strip-other [] c h = rw h refl
strip-other (x ∷ xs) c h = ap (keep x) (strip-other xs c h) ∙ keep-snoc x xs c

-- The text without newlines at its end is a prefix.
keep-prefix :
    (x : ℕ) (ds xs : List ℕ)
    → length ds ≤ length xs
    → take (length ds) xs ≡ ds
    → (length (keep x ds) ≤ suc (length xs)) × (take (length (keep x ds)) (x ∷ xs) ≡ keep x ds)
unfolding keep
keep-prefix x [] xs h e = elim (Bool-cases (x == 10)) [
  | inl newline ↦ rw newline (omega arith, refl)
  | inr other ↦ rw other (omega arith, refl)
]
keep-prefix x (d ∷ ds) xs h e = (omega arith, ap (◌∷◌ x) e)

pub strip-prefix :
    (xs : List ℕ) → (length (strip xs) ≤ length xs) × (take (length (strip xs)) xs ≡ strip xs)
unfolding strip
strip-prefix [] = (omega arith, refl)
strip-prefix (x ∷ xs) = keep-prefix x (strip xs) xs (strip-prefix xs).0 (strip-prefix xs).1

-- The loop stops at the last character that is no newline.
pub trim_lem :
    (p : ℕ) (mem : List ℕ)
    → p ≤ length mem
    → 0 < length (strip (take p mem))
    → (last : ℕ) × (trim p mem ≡ some last) × (length (strip (take p mem)) ≡ suc last)
unfolding trim strip
trim_lem zero mem h k = absurd (omega arith)
trim_lem (suc p) mem h k =
    let (c, e, t) = take-suc p mem (omega arith) in
    elim (Bool-cases (c == 10)) [
      | inl newline ↦
          let same : strip (take (suc p) mem) ≡ strip (take p mem) =
            ap strip (t ∙ ap (λ (d : ℕ). take p mem ++ d ∷ []) ((==_iff c 10).0 newline))
            ∙ strip-newline (take p mem) in
          let (last, stops, long) =
            trim_lem p mem (omega arith) (omega (arith, k, ap length same)) in
          (last, rw (e, newline) stops, ap length same ∙ long)
      | inr other ↦
          let whole : strip (take (suc p) mem) ≡ take (suc p) mem =
            ap strip t ∙ strip-other (take p mem) c other ∙ sym t in
          (p, rw (e, other) refl, omega (arith, ap length whole, length-take (suc p) mem))
    ]

-- A text that begins with anything but a newline has something left.
pub strip-nonempty : (c : ℕ) (cs : List ℕ) → c ≢ 10 → 0 < length (strip (c ∷ cs))
unfolding strip keep
strip-nonempty c cs h = keep-nonempty c (strip cs) h
  where
    keep-nonempty : (c : ℕ) (ds : List ℕ) → c ≢ 10 → 0 < length (keep c ds)
    keep-nonempty c [] h = ground arith
    keep-nonempty c (d ∷ ds) h = omega arith
