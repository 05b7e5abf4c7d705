-- ===== src/Address/Text.antt =====
-- svr/library/networking/Address.cpp: addresses as text. A C string is the list of its characters,
-- without the '\0' that ends it; a '\0' that Parse stores cuts it. inet_pton and inet_ntop are
-- parameters.
pub mod Port
pub mod Brackets
pub mod Decimal
pub mod RoundTrip
use rudp_network.Prelude.{
  ℕ, zero, suc, ◌+◌, ◌-◌, ◌*◌, ◌/◌, ◌%◌, ◌^◌, List, [], ◌∷◌, ◌++◌, Option, none, some, Bool, true,
  false, not, ◌&&◌, ◌||◌, ◌==◌, ltb, leb, length, take, drop, get_or, if◌then◌else◌, bit_and, ◌>>◌,
  u16,
}
use rudp_network.Address.{Address, AddressType, clear}

-- Digits, as far as they go, behind the number `n`.
unfoldable pub digits_from : ℕ → List ℕ → ℕ
digits_from n [] = n
digits_from n (c ∷ cs) =
    let more = digits_from (n * 10 + (c - 48)) cs in if leb 48 c && leb c 57 then more else n

-- (uint16_t) atoi: blanks, a sign, digits.
unfoldable pub atoi_u16 : List ℕ → ℕ
unfolding digits_from
atoi_u16 [] = 0
atoi_u16 (c ∷ cs) =
    let more = atoi_u16 cs in
    if c == 32 || leb 9 c && leb c 13
    then more
    else if c == 45
    then u16 (2 ^ 16 - u16 (digits_from 0 cs))
    else if c == 43
    then u16 (digits_from 0 cs)
    else u16 (digits_from 0 (c ∷ cs))

-- "%d" of a number below 10 ^ fuel, in front of `rest`.
unfoldable pub decimal : ℕ → ℕ → List ℕ → List ℕ
decimal zero n rest = rest
decimal (suc fuel) n rest =
    let more = decimal fuel (n / 10) ((48 + n % 10) ∷ rest) in
    if ltb n 10 then (48 + n) ∷ rest else more

-- What inet_pton and inet_ntop answer: the bytes of an IPv4 address as the uint32_t that they are,
-- those of an IPv6 address as eight uint16_t.
pub record Inet : Type 0 where
  pub pton4 : List ℕ → Option ℕ
  pub pton6 : List ℕ → Option (List ℕ)
  pub ntop6 : List ℕ → List ℕ

-- "%d.%d.%d.%d" of the bytes of the word.
unfoldable pub dotted : ℕ → List ℕ → List ℕ
unfolding decimal
dotted word rest = decimal 3 (bit_and word 0xff) (
    46
    ∷ decimal 3 (bit_and (word >> 8) 0xff) (
        46
        ∷ decimal 3 (bit_and (word >> 16) 0xff) (46 ∷ decimal 3 (bit_and (word >> 24) 0xff) rest)))

-- The characters ':' and '['.
abbrev pub colon : ℕ
colon = 58

abbrev pub bracket : ℕ
bracket = 91

-- The port found so far, and what is left of the text.
pub record Scan : Type 0 where
  pub port : ℕ
  pub text : List ℕ

-- The loops over the last six characters of the text, downwards from `index`, as long as it is at
-- least `least`. A colon gives the port and cuts the text `back` characters before it. Behind a cut,
-- the text has no characters any more.
unfoldable pub scan_port : ℕ → ℕ → ℕ → ℕ → Scan → Scan
unfolding atoi_u16
scan_port zero index least back s = s
scan_port (suc rounds) index least back s =
    let found : Scan =
      if get_or s.text index 0 == colon
      then record { port = atoi_u16 (drop (index + 1) s.text); text = take (index - back) s.text }
      else s in
    let more = scan_port rounds (index - 1) least back found in
    if ltb index least then s else if index == 0 then found else more

-- The port behind a text in brackets, and the text from behind the opening bracket on.
unfoldable pub bracketed : List ℕ → Scan
unfolding scan_port
bracketed text =
    let r = scan_port 6 (length text - 1) 3 1 (record { port = 0; text = text }) in
    if get_or text 0 0 == bracket
    then record r { text = drop 1 r.text }
    else record { port = 0; text = text }

-- The port behind an IPv4 address.
unfoldable pub unbracketed : Scan → Scan
unfolding scan_port
unbracketed s = let r = scan_port 6 (length s.text - 1) 0 0 s in if length s.text == 0 then s else r

module _ (inet : Inet) where
  -- From the search for a port of an IPv4 address on. `a` holds what the object holds by then.
  unfoldable pub parse_ipv4 : Scan → Address → Address
  unfolding unbracketed
  parse_ipv4 s a =
      let r = unbracketed s in
      elim (inet.pton4 r.text) [
        | some word ↦ record a { type = AddressType.ipv4; address_ipv4 = word; port = r.port }
        | none ↦ clear
      ]

  unfoldable pub parse : List ℕ → Address → Address
  unfolding bracketed parse_ipv4
  parse address_in a =
      let s = bracketed (take 255 address_in) in
      elim (inet.pton6 s.text) [
        | some words ↦ record a { type = AddressType.ipv6; address_ipv6 = words; port = s.port }
        | none ↦ parse_ipv4 s a
      ]

  -- Address(address) and Address(address, port); `a` is the memory of the object.
  unfoldable pub from_text : List ℕ → Address → Address
  unfolding parse
  from_text = parse

  unfoldable pub from_text_port : List ℕ → ℕ → Address → Address
  unfolding parse
  from_text_port text port a = record (parse text a) { port = port }

  -- What is printed when the buffer is long enough for it.
  unfoldable pub to_string : Address → List ℕ
  unfolding dotted
  to_string a = elim a.type [
    | AddressType.ipv4 ↦
        if not (a.port == 0)
        then dotted a.address_ipv4 (colon ∷ decimal 5 a.port [])
        else dotted a.address_ipv4 []
    | AddressType.ipv6 ↦
        if a.port == 0
        then inet.ntop6 a.address_ipv6
        else bracket ∷ (inet.ntop6 a.address_ipv6 ++ (93 ∷ colon ∷ decimal 5 a.port []))
    | AddressType.undefined ↦ 117 ∷ 110 ∷ 100 ∷ 101 ∷ 102 ∷ 105 ∷ 110 ∷ 101 ∷ 100 ∷ []
  ]
