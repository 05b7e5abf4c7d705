-- ===== src/Logger/Written.antt =====
-- svr/library/commlib/logging.cpp: what the buffer of logv holds once the line is built.
use rudp_network.Prelude.{
  u64, ◌^◌, ℕ, zero, suc, ◌+◌, ◌-◌, ◌≤◌, ◌<◌, ◌≡◌, ◌∙◌, refl, sym, ap, arith, List, [], ◌∷◌, ◌++◌,
  some, length, take, drop, length-append, length-take, length-drop, min, le→leb, append_assoc,
  append-nil,
}
use native.Mathlib.Decide.{dec_le}
use rudp_network.Memory.{write_at, take-append}
use rudp_network.Logger.Line.{snprintf, print_both, build_line}
use rudp_network.Logger.Trimmed.{strip, line_of, take-take, take-append_le, strip-prefix, trim_lem}

take-whole : (n : ℕ) (xs : List ℕ) → length xs ≤ n → take n xs ≡ xs
take-whole zero [] h = refl
take-whole zero (x ∷ xs) h = absurd (omega arith)
take-whole (suc n) [] h = refl
take-whole (suc n) (x ∷ xs) h = ap (◌∷◌ x) (take-whole n xs (omega arith))

take-append-take :
    (n k : ℕ) (xs ys : List ℕ) → n ≤ length xs + k → take n (xs ++ take k ys) ≡ take n (xs ++ ys)
take-append-take n k [] ys h = take-take n k ys (omega arith)
take-append-take zero k (x ∷ xs) ys h = refl
take-append-take (suc n) k (x ∷ xs) ys h = ap (◌∷◌ x) (take-append-take n k xs ys (omega arith))

take-min : (n : ℕ) (xs : List ℕ) → take (min (length xs) n) xs ≡ take n xs
take-min zero xs = ap (λ (t : ℕ). take t xs) {y = 0} (omega arith)
take-min (suc n) [] = ap (λ (t : ℕ). take t []) {x = min 0 (suc n)} {y = 0} (omega arith)
take-min (suc n) (x ∷ xs) =
    ap (λ (t : ℕ). take t (x ∷ xs)) {x = min (suc (length xs)) (suc n)}
      {y = suc (min (length xs) n)} (omega arith)
    ∙ ap (◌∷◌ x) (take-min n xs)

take-front : (n : ℕ) (xs ys : List ℕ) → length xs ≡ n → take n (xs ++ ys) ≡ xs
take-front n xs ys e = ap (λ (t : ℕ). take t (xs ++ ys)) (sym e) ∙ take-append xs ys

-- A text stored within a buffer, behind what is in front of it.
write_at_lem :
    (offset : ℕ) (text mem : List ℕ)
    → offset + length text ≤ length mem
    → (mem' : List ℕ) × (write_at offset text mem ≡ some mem')
      × (length mem' ≡ length mem)
      × (take (offset + length text) mem' ≡ take offset mem ++ text)
unfolding write_at
write_at_lem offset text mem h = (
  take offset mem ++ (text ++ drop (offset + length text) mem),
  rw (le→leb (offset + length text) (length mem) h) refl,
  omega (
    arith,
    length-append (take offset mem) (text ++ drop (offset + length text) mem),
    length-append text (drop (offset + length text) mem),
    length-take offset mem,
    length-drop (offset + length text) mem,
  ),
  ap (take (offset + length text))
        (sym (append_assoc (take offset mem) text (drop (offset + length text) mem)))
      ∙ take-front (offset + length text) (take offset mem ++ text)
          (drop (offset + length text) mem)
          (omega (arith, length-append (take offset mem) text, length-take offset mem)),
)

-- snprintf at the end of a buffer.
pub snprintf_lem :
    (p size : ℕ) (text mem : List ℕ)
    → p + size ≡ length mem
    → (mem' : List ℕ) × (snprintf p size text mem ≡ some mem')
      × (length mem' ≡ length mem)
      × (take (p + min (length text) (size - 1)) mem' ≡ take p mem ++ take (size - 1) text)
unfolding snprintf
snprintf_lem p zero text mem h = (
  mem,
  refl,
  refl,
  ap (λ (t : ℕ). take t mem) {x = p + min (length text) 0} {y = p} (omega arith)
      ∙ sym (append-nil (take p mem)),
)
snprintf_lem p (suc s) text mem h =
    let sized : length (take s text ++ 0 ∷ []) ≡ min (length text) s + 1 =
      omega (arith, length-append (take s text) (0 ∷ []), length-take s text) in
    let (mem', e, long, t) = write_at_lem p (take s text ++ 0 ∷ []) mem (omega (arith, sized)) in
    let q = p + min (length text) (suc s - 1) in
    let front : List ℕ = take p mem ++ take s text in
    let behind : q ≤ p + length (take s text ++ 0 ∷ []) = omega (arith, sized) in
    let filled : length front ≡ q =
      omega
        (arith, length-append (take p mem) (take s text), length-take p mem, length-take s text) in
    (
      mem',
      e,
      long,
      sym (take-take q (p + length (take s text ++ 0 ∷ [])) mem' behind)
          ∙ ap (take q) (t ∙ sym (append_assoc (take p mem) (take s text) (0 ∷ [])))
          ∙ take-front q front (0 ∷ []) filled
          ∙ ap (λ (r : ℕ). take p mem ++ take r text) {x = s} {y = suc s - 1} (omega arith),
    )

module _ (head message mem : List ℕ) (size : length mem ≡ 4096) (small : length head ≤ 4096) where
  abbrev shown : ℕ
  shown = min (length head + length message) 4094

  abbrev Printed : Type 0
  Printed =
      (printed : List ℕ) × (print_both head message mem ≡ some printed)
      × (length printed ≡ 4096)
      × (take shown printed ≡ take shown (head ++ message))

  -- The text in the buffer once both prints are done, whether or not the header filled it.
  shown-print :
      (first printed : List ℕ)
      → take (0 + min (length head) (4096 - 1)) first ≡ take (4096 - 1) head
      → take (length head + min (length message) (4096 - length head - 1)) printed
        ≡ take (length head) first ++ take (4096 - length head - 1) message
      → length first ≡ 4096
      → take shown printed ≡ take shown (head ++ message)
  shown-print first printed t t' long =
      let n = length head + min (length message) (4096 - length head - 1) in
      let room = 4096 - length head - 1 in
      let within : shown ≤ n = omega (arith, small) in
      let both : take shown printed ≡ take shown (take (length head) first ++ take room message) =
        sym (take-take shown n printed within) ∙ ap (take shown) t' in
      elim (dec_le (length head) 4095) [
        | yes fits ↦
            let whole : take (length head) first ≡ head =
              ap (λ (k : ℕ). take k first) {x = length head} {y = 0 + min (length head) (4096 - 1)}
                (omega (arith, fits))
              ∙ t
              ∙ take-whole (4096 - 1) head fits in
            both
            ∙ ap (λ (xs : List ℕ). take shown (xs ++ take room message)) whole
            ∙ take-append-take shown room head message (omega (arith, fits))
        | no full ↦
            both
            ∙ take-append_le shown (take (length head) first) (take room message)
                (omega (arith, full, long, length-take (length head) first))
            ∙ take-take shown (length head) first (omega (arith, full))
            ∙ sym (take-take shown (0 + min (length head) (4096 - 1)) first (omega (arith, full)))
            ∙ ap (take shown) t
            ∙ take-take shown (4096 - 1) head (omega arith)
            ∙ sym (take-append_le shown head message (omega (arith, full)))
      ]

  both_prints :
      (first printed : List ℕ)
      → snprintf 0 4096 head mem ≡ some first
      → snprintf (length head) (4096 - length head) message first ≡ some printed
      → print_both head message mem ≡ some printed
  unfolding print_both
  both_prints first printed e e' =
      let wrapped : u64 (4096 + 2 ^ 64 - length head) ≡ 4096 - length head = omega (arith, small) in
      rw (e, wrapped) e'

  print_both_lem : Printed
  print_both_lem =
      let (first, e, long, t) = snprintf_lem 0 4096 head mem (omega (arith, size)) in
      let (printed, e', long', t') =
        snprintf_lem (length head) (4096 - length head) message first
          (omega (arith, long, size, small)) in
      (
        printed,
        both_prints first printed e e',
        omega (arith, long, long', size),
        shown-print first printed t t' (omega (arith, long, size)),
      )

  -- The line in the buffer, with the '\0' behind it.
  pub build_line-line_of :
      0 < length (strip (take 4094 (head ++ message)))
      → (buffer : List ℕ) × (length buffer ≡ 4096)
        × (build_line head message mem ≡ some (buffer, length (line_of (head ++ message))))
        × (take (length (line_of (head ++ message)) + 1) buffer
            ≡ line_of (head ++ message) ++ 0 ∷ [])
  unfolding build_line line_of
  build_line-line_of full =
      let (printed, e, long, t) = print_both_lem in
      let cut : take shown printed ≡ take 4094 (head ++ message) =
        t
        ∙ ap (λ (k : ℕ). take (min k 4094) (head ++ message)) (sym (length-append head message))
        ∙ take-min 4094 (head ++ message) in
      let st : List ℕ = strip (take 4094 (head ++ message)) in
      let stripped : strip (take shown printed) ≡ st = ap strip cut in
      let (last, stops, count) =
        trim_lem shown printed (omega (arith, long)) (omega (arith, full, ap length stripped)) in
      let prefix = strip-prefix (take shown printed) in
      let inside : suc last ≤ shown = omega (arith, count, prefix.0, length-take shown printed) in
      let kept : take (last + 1) printed ≡ st =
        ap (λ (k : ℕ). take k printed) {x = last + 1} {y = suc last} (omega arith)
        ∙ sym (take-take (suc last) shown printed inside)
        ∙ ap (λ (k : ℕ). take k (take shown printed)) (sym count)
        ∙ prefix.1
        ∙ stripped in
      let (ended, we, wl, wt) =
        write_at_lem (last + 1) (10 ∷ []) printed (omega (arith, inside, long)) in
      let (closed, ce, cl, ct) =
        write_at_lem (last + 2) (0 ∷ []) ended (omega (arith, inside, long, wl)) in
      let counted : length (st ++ 10 ∷ []) ≡ last + 2 =
        omega (arith, length-append st (10 ∷ []), count, ap length stripped) in
      let lined : take (last + 2) ended ≡ st ++ 10 ∷ [] =
        ap (λ (k : ℕ). take k ended) {x = last + 2} {y = last + 1 + 1} (omega arith)
        ∙ wt
        ∙ ap (λ (xs : List ℕ). xs ++ 10 ∷ []) kept in
      (
        closed,
        omega (arith, long, wl, cl),
        rw (e, stops, we, ce) (ap (λ (k : ℕ). some (closed, k)) (sym counted)),
        ap (λ (k : ℕ). take (k + 1) closed) counted ∙ ct ∙ ap (λ (xs : List ℕ). xs ++ 0 ∷ []) lined,
      )
