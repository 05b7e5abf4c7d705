-- ===== src/Address/Text/Port.antt =====
-- svr/library/networking/Address.cpp: the search for a port, in a text with one colon at most.
use rudp_network.Prelude.{
  ℕ, zero, suc, ◌+◌, ◌-◌, ◌≤◌, ◌<◌, ◌≡◌, ◌∙◌, refl, sym, ap, arith, List, [], ◌∷◌, ◌++◌, true,
  false, ◌==◌, ltb, length, take, drop, get_or, if-same,
}
use rudp_network.Memory.{take-append, drop-append, drop-drop}
use rudp_network.Address.Text.{atoi_u16, colon, Scan, scan_port}

-- Characters of a number or the dots between them.
abbrev pub Plain : List ℕ → Type 0
Plain [] = Unit
Plain (c ∷ cs) = (46 ≤ c) × (c < 58) × Plain cs

no_colon : (cs : List ℕ) (i : ℕ) → Plain cs → (get_or cs i 0 == colon) ≡ false
no_colon [] i h = refl
no_colon (c ∷ cs) zero (low, high, h) = ground arith
no_colon (c ∷ cs) (suc i) (low, high, h) = no_colon cs i h

pub get_or-append : (xs ys : List ℕ) (m : ℕ) → get_or (xs ++ ys) (length xs + m) 0 ≡ get_or ys m 0
get_or-append [] ys m = ap (λ (t : ℕ). get_or ys t 0) {x = 0 + m} {y = m} (omega arith)
get_or-append (x ∷ xs) ys m =
    ap (λ (t : ℕ). get_or (x ∷ (xs ++ ys)) t 0) {y = suc (length xs + m)} (omega arith)
    ∙ get_or-append xs ys m

-- Without a colon nothing is found.
pub scan_port-Plain :
    (rounds index : ℕ) (s : Scan) → Plain s.text → scan_port rounds index 0 0 s ≡ s
unfolding scan_port
scan_port-Plain zero index s h = refl
scan_port-Plain (suc rounds) index s h =
    let rest = scan_port-Plain rounds (index - 1) s h in
    rw (no_colon s.text index h) (ground (arith, rest))

module _ (pre ds : List ℕ) (port : ℕ) (plain : Plain pre) (digits : Plain ds) where
  abbrev text : List ℕ
  text = pre ++ colon ∷ ds

  abbrev found : Scan
  found = record { port = atoi_u16 ds; text = pre }

  at_colon :
      (rounds : ℕ)
      → scan_port (suc rounds) (length pre + 0) 0 0 (record { port = port; text = text }) ≡ found
  unfolding scan_port
  at_colon rounds =
      let here : get_or text (length pre + 0) 0 ≡ colon = get_or-append pre (colon ∷ ds) 0 in
      let behind : drop (length pre + 0 + 1) text ≡ ds =
        ap (λ (t : ℕ). drop t text) {x = length pre + 0 + 1} {y = length pre + 1} (omega arith)
        ∙ sym (drop-drop (length pre) 1 text)
        ∙ ap (drop 1) (drop-append (length pre) pre (colon ∷ ds) refl) in
      let before : take (length pre + 0 - 0) text ≡ pre =
        ap (λ (t : ℕ). take t text) {x = length pre + 0 - 0} {y = length pre} (omega arith)
        ∙ take-append pre (colon ∷ ds) in
      let rest = scan_port-Plain rounds (length pre + 0 - 1) found plain in
      let test : (get_or text (length pre + 0) 0 == colon) ≡ true =
        ap (λ (c : ℕ). c == colon) here in
      let inside : ltb (length pre + 0) 0 ≡ false = ground arith in
      rw (test, behind, before, inside, rest) (if-same (length pre + 0 == 0) found)

  -- The search from the `m`th character behind the colon on.
  pub scan_port_lem :
      (m rounds : ℕ)
      → m ≤ length ds
      → m < rounds
      → scan_port rounds (length pre + m) 0 0 (record { port = port; text = text }) ≡ found
  unfolding scan_port
  scan_port_lem zero zero h k = absurd (omega arith)
  scan_port_lem zero (suc rounds) h k = at_colon rounds
  scan_port_lem (suc m) zero h k = absurd (omega arith)
  scan_port_lem (suc m) (suc rounds) h k =
      let plain_char : (get_or text (length pre + suc m) 0 == colon) ≡ false =
        ap (λ (c : ℕ). c == colon) (get_or-append pre (colon ∷ ds) (suc m))
        ∙ no_colon ds m digits in
      let rest = scan_port_lem m rounds (omega arith) (omega arith) in
      let index : length pre + suc m - 1 ≡ length pre + m = omega arith in
      let inside : ltb (length pre + suc m) 0 ≡ false = ground arith in
      let not_first : (length pre + suc m == 0) ≡ false = ground arith in
      rw (plain_char, inside, not_first, index) rest
