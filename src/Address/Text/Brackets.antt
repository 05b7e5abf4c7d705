-- ===== src/Address/Text/Brackets.antt =====
-- svr/library/networking/Address.cpp: the search for the port behind an IPv6 address in brackets,
-- which does not stop at the first colon that it finds.
use rudp_network.Prelude.{
  ℕ, suc, ◌+◌, ◌-◌, ◌≤◌, ◌<◌, ◌≡◌, ◌≢◌, ◌∙◌, refl, sym, ap, ap₂, append-nil, arith, List, [], ◌∷◌,
  ◌++◌, true, false, ◌==◌, ltb, length, take, drop, get_or, length-append,
}
use rudp_network.Memory.{drop-append, drop-drop}
use rudp_network.Address.Text.{digits_from, atoi_u16, colon, bracket, Scan, scan_port, bracketed}
use rudp_network.Address.Text.Port.{get_or-append}

module _ (rounds index least back : ℕ) (s : Scan) (low : least ≤ index) (positive : 0 < index) where
  -- A character that is no colon.
  skips :
      (get_or s.text index 0 == colon) ≡ false
      → scan_port (suc rounds) index least back s ≡ scan_port rounds (index - 1) least back s
  unfolding scan_port
  skips other =
      let inside : ltb index least ≡ false = ground (arith, low) in
      let not_first : (index == 0) ≡ false = ground (arith, positive) in
      rw (other, inside, not_first) refl

  -- A colon.
  finds :
      get_or s.text index 0 ≡ colon
      → scan_port (suc rounds) index least back s
        ≡ scan_port rounds (index - 1) least back (record {
          port = atoi_u16 (drop (index + 1) s.text);
          text = take (index - back) s.text;
        })
  unfolding scan_port
  finds here =
      let test : (get_or s.text index 0 == colon) ≡ true = ap (λ (c : ℕ). c == colon) here in
      let inside : ltb index least ≡ false = ground (arith, low) in
      let not_first : (index == 0) ≡ false = ground (arith, positive) in
      rw (test, inside, not_first) refl

take_behind : (m : ℕ) (xs ys : List ℕ) → take (length xs + m) (xs ++ ys) ≡ xs ++ take m ys
take_behind m [] ys = ap (λ (t : ℕ). take t ys) {x = 0 + m} {y = m} (omega arith)
take_behind m (x ∷ xs) ys =
    ap (λ (t : ℕ). take t (x ∷ (xs ++ ys))) {y = suc (length xs + m)} (omega arith)
    ∙ ap (λ (l : List ℕ). x ∷ l) (take_behind m xs ys)

drop_behind : (m : ℕ) (xs ys : List ℕ) → drop (length xs + m) (xs ++ ys) ≡ drop m ys
drop_behind m xs ys =
    sym (drop-drop (length xs) m (xs ++ ys)) ∙ ap (drop m) (drop-append (length xs) xs ys refl)

-- atoi of one digit.
one_digit : (g : ℕ) → 48 ≤ g → g < 58 → atoi_u16 (g ∷ []) ≡ g - 48
unfolding atoi_u16 digits_from
one_digit g low high = ground (arith, low, high)

module _ (before : List ℕ) (c g x y : ℕ) (some_text : 0 < length before) (digit_low : 48 ≤ g)
    (digit_high : g < 58) (no_colon_x : x ≢ colon) (no_colon_y : y ≢ colon) where
  abbrev r : List ℕ
  r = bracket ∷ before

  abbrev n : ℕ
  n = length r

  -- From the character before the last colon of the address on.
  abbrev ys : List ℕ
  ys = c ∷ colon ∷ g ∷ 93 ∷ colon ∷ x ∷ y ∷ []

  abbrev zs : List ℕ
  zs = c ∷ colon ∷ g ∷ []

  abbrev seek : ℕ → ℕ → Scan → Scan
  seek rounds index s = scan_port rounds index 3 1 s

  -- The port is found, and the text is cut before the closing bracket.
  first_colon :
      (port : ℕ)
      → seek 6 (n + 6) (record { port = port; text = r ++ ys })
        ≡ seek 3 (n + 3) (record { port = atoi_u16 (x ∷ y ∷ []); text = r ++ zs })
  first_colon port =
      let s : Scan = record { port = port; text = r ++ ys } in
      skips 5 (n + 6) 3 1 s (omega arith) (omega arith)
        (ap (λ (t : ℕ). t == colon) (get_or-append r ys 6) ∙ ground (arith, no_colon_y))
      ∙ ap (λ (i : ℕ). seek 5 i s) {x = n + 6 - 1} {y = n + 5} (omega arith)
      ∙ skips 4 (n + 5) 3 1 s (omega arith) (omega arith)
          (ap (λ (t : ℕ). t == colon) (get_or-append r ys 5) ∙ ground (arith, no_colon_x))
      ∙ ap (λ (i : ℕ). seek 4 i s) {x = n + 5 - 1} {y = n + 4} (omega arith)
      ∙ finds 3 (n + 4) 3 1 s (omega arith) (omega arith) (get_or-append r ys 4)
      ∙ ap
          (λ (i : ℕ). seek 3 i (record {
            port = atoi_u16 (drop (n + 4 + 1) (r ++ ys));
            text = take (n + 4 - 1) (r ++ ys);
          }))
          {x = n + 4 - 1} {y = n + 3} (omega arith)
      ∙ ap₂ (λ (k : ℕ) (l : List ℕ). seek 3 (n + 3) (record { port = k; text = l }))
          (ap atoi_u16 (
            ap (λ (i : ℕ). drop i (r ++ ys)) {x = n + 4 + 1} {y = n + 5} (omega arith)
            ∙ drop_behind 5 r ys))
          (ap (λ (i : ℕ). take i (r ++ ys)) {x = n + 4 - 1} {y = n + 3} (omega arith)
            ∙ take_behind 3 r ys)

  -- The last colon of the address is taken for the one before the port.
  second_colon :
      (port : ℕ)
      → seek 3 (n + 3) (record { port = port; text = r ++ zs })
        ≡ record { port = g - 48; text = r ++ [] }
  unfolding scan_port
  second_colon port =
      let s : Scan = record { port = port; text = r ++ zs } in
      skips 2 (n + 3) 3 1 s (omega arith) (omega arith)
        (ap (λ (t : ℕ). t == colon) (get_or-append r zs 3))
      ∙ ap (λ (i : ℕ). seek 2 i s) {x = n + 3 - 1} {y = n + 2} (omega arith)
      ∙ skips 1 (n + 2) 3 1 s (omega arith) (omega arith)
          (ap (λ (t : ℕ). t == colon) (get_or-append r zs 2) ∙ ground (arith, digit_high))
      ∙ ap (λ (i : ℕ). seek 1 i s) {x = n + 2 - 1} {y = n + 1} (omega arith)
      ∙ finds 0 (n + 1) 3 1 s (omega arith) (omega arith) (get_or-append r zs 1)
      ∙ ap₂ (λ (k : ℕ) (l : List ℕ). record { port = k; text = l })
          (ap atoi_u16 (
              ap (λ (i : ℕ). drop i (r ++ zs)) {x = n + 1 + 1} {y = n + 2} (omega arith)
              ∙ drop_behind 2 r zs)
            ∙ one_digit g digit_low digit_high)
          (ap (λ (i : ℕ). take i (r ++ zs)) {x = n + 1 - 1} {y = n + 0} (omega arith)
            ∙ take_behind 0 r zs)

  -- When an address in brackets ends with a colon and one digit, behind at least two more
  -- characters, and its port has two characters that are no colons, Parse takes the digit for the
  -- port and cuts the address two characters before it.
  pub bracketed_short_port :
      bracketed (bracket ∷ (before ++ c ∷ colon ∷ g ∷ 93 ∷ colon ∷ x ∷ y ∷ []))
      ≡ record { port = g - 48; text = before }
  unfolding bracketed
  bracketed_short_port =
      let last : length (r ++ ys) - 1 ≡ n + 6 = omega (arith, length-append r ys) in
      let found : seek 6 (length (r ++ ys) - 1) (record { port = 0; text = r ++ ys })
          ≡ record { port = g - 48; text = r ++ [] } =
        ap (λ (i : ℕ). seek 6 i (record { port = 0; text = r ++ ys })) last
        ∙ first_colon 0
        ∙ second_colon (atoi_u16 (x ∷ y ∷ [])) in
      ap (λ (s : Scan). record s { text = drop 1 s.text }) found
      ∙ ap (λ (l : List ℕ). record { port = g - 48; text = l }) (append-nil before)
