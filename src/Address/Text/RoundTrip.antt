-- ===== src/Address/Text/RoundTrip.antt =====
-- Parse of what ToString prints of an IPv4 address.
use rudp_network.Prelude.{
  ℕ, zero, suc, ◌+◌, ◌-◌, ◌≤◌, ◌<◌, ◌≡◌, ◌∙◌, refl, sym, ap, ap₂, Bool-cases, inl, inr, ==_iff,
  arith, List, [], ◌∷◌, ◌++◌, none, some, false, ◌==◌, length, take, get_or, bit_and, ◌>>◌,
  length-append,
}
use rudp_network.Address.{Address, AddressType}
use rudp_network.Address.Text.Port.{Plain, scan_port-Plain, scan_port_lem}
use rudp_network.Address.Text.{
  atoi_u16, decimal, Inet, colon, bracket, Scan, scan_port, bracketed, unbracketed, parse_ipv4,
  parse, dotted, to_string,
}
use rudp_network.Address.Text.Decimal.{
  Starts, decimal-Plain, decimal-Starts, length-decimal, decimal-append, atoi_u16-decimal,
}

module _ (word : ℕ) where
  abbrev byte : ℕ → ℕ
  byte k = bit_and (word >> k) 0xff

  -- The last three numbers, the last two, and the last one.
  abbrev from_d : List ℕ → List ℕ
  from_d xs = 46 ∷ decimal 3 (byte 24) xs

  abbrev from_c : List ℕ → List ℕ
  from_c xs = 46 ∷ decimal 3 (byte 16) (from_d xs)

  abbrev from_b : List ℕ → List ℕ
  from_b xs = 46 ∷ decimal 3 (byte 8) (from_c xs)

  abbrev lowest : ℕ
  lowest = bit_and word 0xff

  dotted-append : (xs : List ℕ) → dotted word xs ≡ dotted word [] ++ xs
  unfolding dotted
  dotted-append xs =
      ap
        (λ (l : List ℕ).
          decimal 3 lowest (46 ∷ decimal 3 (byte 8) (46 ∷ decimal 3 (byte 16) (46 ∷ l))))
        (decimal-append 3 (byte 24) [] xs)
      ∙ ap (λ (l : List ℕ). decimal 3 lowest (46 ∷ decimal 3 (byte 8) (46 ∷ l)))
          (decimal-append 3 (byte 16) (from_d []) xs)
      ∙ ap (λ (l : List ℕ). decimal 3 lowest (46 ∷ l)) (decimal-append 3 (byte 8) (from_c []) xs)
      ∙ decimal-append 3 lowest (from_b []) xs

  dotted-Plain : Plain (dotted word [])
  unfolding dotted
  dotted-Plain =
      let d : Plain (from_d []) = (omega arith, omega arith, decimal-Plain 3 (byte 24) [] tt) in
      let c : Plain (from_c []) =
        (omega arith, omega arith, decimal-Plain 3 (byte 16) (from_d []) d) in
      let b : Plain (from_b []) =
        (omega arith, omega arith, decimal-Plain 3 (byte 8) (from_c []) c) in
      decimal-Plain 3 lowest (from_b []) b

  dotted-Starts : (rest : List ℕ) → Starts (dotted word rest)
  unfolding dotted
  dotted-Starts rest = decimal-Starts 2 lowest (from_b rest)

  length-dotted : length (dotted word []) ≤ 15
  unfolding dotted
  length-dotted = omega (
    arith,
    length-decimal 3 lowest (from_b []),
    length-decimal 3 (byte 8) (from_c []),
    length-decimal 3 (byte 16) (from_d []),
    length-decimal 3 (byte 24) [],
  )

take_short : (n : ℕ) (xs : List ℕ) → length xs ≤ n → take n xs ≡ xs
take_short zero [] h = refl
take_short zero (x ∷ xs) h = absurd (omega arith)
take_short (suc n) [] h = refl
take_short (suc n) (x ∷ xs) h = ap (λ (l : List ℕ). x ∷ l) (take_short n xs (omega arith))

-- A text that starts with a digit and is no IPv6 address.
parse_as_ipv4 :
    (inet : Inet) (text : List ℕ) (b : Address)
    → Starts text
    → length text ≤ 255
    → inet.pton6 text ≡ none
    → parse inet text b ≡ parse_ipv4 inet (record { port = 0; text = text }) b
unfolding parse
parse_as_ipv4 inet text b (c, rest, e, low, high) short six =
    let first : (get_or text 0 0 == bracket) ≡ false =
      ap (λ (l : List ℕ). get_or l 0 0 == bracket) e ∙ ground (arith, high) in
    let whole : bracketed (take 255 text) ≡ record { port = 0; text = text } =
      ap bracketed (take_short 255 text short) ∙ (unfold bracketed in rw first refl) in
    rw (parse, whole) (rw six (ap (λ (s : Scan). parse_ipv4 inet s b) whole))

parse_runs :
    (inet : Inet) (text : List ℕ) (r : Scan) (word : ℕ) (b : Address)
    → Starts text
    → length text ≤ 255
    → inet.pton6 text ≡ none
    → scan_port 6 (length text - 1) 0 0 (record { port = 0; text = text }) ≡ r
    → inet.pton4 r.text ≡ some word
    → parse inet text b ≡ record b { type = AddressType.ipv4; address_ipv4 = word; port = r.port }
unfolding parse_ipv4
parse_runs inet text r word b starts short six scan four =
    let some_text : (length text == 0) ≡ false = ground (arith, ap length starts.2) in
    let found : unbracketed (record { port = 0; text = text }) ≡ r =
      (unfold unbracketed in rw some_text refl) ∙ scan in
    parse_as_ipv4 inet text b starts short six
    ∙ rw (parse_ipv4, found)
        (rw four (
          ap
            (λ (s : Scan). record b { type = AddressType.ipv4; address_ipv4 = word; port = s.port })
            found))

module _ (inet : Inet) (a b : Address) (is_ipv4 : a.type ≡ AddressType.ipv4) (port : a.port < 65536)
    (not_ipv6 : inet.pton6 (to_string inet a) ≡ none)
    (reads : inet.pton4 (dotted a.address_ipv4 []) ≡ some a.address_ipv4) where
  -- For an IPv4 address with a port of 16 bits whose text inet_pton does not take for an IPv6
  -- address, and whose dotted numbers it reads as the address: Parse of what ToString prints,
  -- into any object, gives the type, the address and the port back.
  pub parse-to_string :
      parse inet (to_string inet a) b
      ≡ record b { type = AddressType.ipv4; address_ipv4 = a.address_ipv4; port = a.port }
  unfolding to_string
  parse-to_string =
      let word : ℕ = a.address_ipv4 in
      let quad : List ℕ = dotted word [] in
      let ds : List ℕ = decimal 5 a.port [] in
      let size = length-dotted word in
      elim (Bool-cases (a.port == 0)) [
        | inl no_port ↦
            let printed : to_string inet a ≡ quad = rw (is_ipv4, no_port) refl in
            let none_found =
              scan_port-Plain 6 (length quad - 1) (record { port = 0; text = quad })
                (dotted-Plain word) in
            ap (λ (l : List ℕ). parse inet l b) printed
            ∙ parse_runs inet quad (record { port = 0; text = quad }) word b (dotted-Starts word [])
                (omega arith) (ap inet.pton6 (sym printed) ∙ not_ipv6) none_found reads
            ∙ ap (λ (p : ℕ). record b { type = AddressType.ipv4; address_ipv4 = word; port = p })
                (sym ((==_iff _ _).0 no_port))
        | inr some_port ↦
            let text : List ℕ = dotted word (colon ∷ ds) in
            let printed : to_string inet a ≡ text = rw (is_ipv4, some_port) refl in
            let split : text ≡ quad ++ colon ∷ ds = dotted-append word (colon ∷ ds) in
            let total : length text ≡ length quad + suc (length ds) =
              ap length split ∙ length-append quad (colon ∷ ds) in
            let digits = length-decimal 5 a.port [] in
            let r : Scan = record { port = atoi_u16 ds; text = quad } in
            let at : length text - 1 ≡ length quad + length ds = omega (arith, total) in
            let found : scan_port 6 (length text - 1) 0 0 (record { port = 0; text = text }) ≡ r =
              ap₂ (λ (k : ℕ) (l : List ℕ). scan_port 6 k 0 0 (record { port = 0; text = l })) at
                split
              ∙ scan_port_lem quad ds 0 (dotted-Plain word) (decimal-Plain 5 a.port [] tt)
                  (length ds) 6 (omega arith) (omega arith) in
            ap (λ (l : List ℕ). parse inet l b) printed
            ∙ parse_runs inet text r word b (dotted-Starts word (colon ∷ ds)) (omega arith)
                (ap inet.pton6 (sym printed) ∙ not_ipv6) found reads
            ∙ ap (λ (p : ℕ). record b { type = AddressType.ipv4; address_ipv4 = word; port = p })
                (atoi_u16-decimal a.port port)
      ]
