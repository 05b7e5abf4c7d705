-- ===== src/Examples/Addresses.antt =====
-- The address 10.0.0.2:4000, printed and parsed, and an IPv6 address with a port of two digits.
use rudp_network.Prelude.{◌≡◌, refl, arith, [], ◌∷◌, none, some}
use rudp_network.Address.{Address, AddressType, clear}
use rudp_network.Address.Text.{Inet, parse, to_string, dotted, bracketed, decimal}
use rudp_network.Address.Text.Brackets.{bracketed_short_port}
use rudp_network.Address.Text.RoundTrip.{parse-to_string}

abbrev server : Address
server = record { type = AddressType.ipv4; address_ipv4 = 33554442; address_ipv6 = []; port = 4000 }

-- What inet_pton says of the texts at hand.
abbrev inet : Inet
inet = record { pton4 = λ text. some 33554442; pton6 = λ text. none; ntop6 = λ words. [] }

to_string_example :
    to_string inet server ≡ 49 ∷ 48 ∷ 46 ∷ 48 ∷ 46 ∷ 48 ∷ 46 ∷ 50 ∷ 58 ∷ 52 ∷ 48 ∷ 48 ∷ 48 ∷ []
unfolding to_string dotted decimal
to_string_example = refl

-- "[fe80::1]:80" leaves "fe80" and the port 1.
bracketed_short_port_example :
    bracketed (91 ∷ 102 ∷ 101 ∷ 56 ∷ 48 ∷ 58 ∷ 58 ∷ 49 ∷ 93 ∷ 58 ∷ 56 ∷ 48 ∷ [])
    ≡ record { port = 1; text = 102 ∷ 101 ∷ 56 ∷ 48 ∷ [] }
bracketed_short_port_example =
    bracketed_short_port (102 ∷ 101 ∷ 56 ∷ 48 ∷ []) 58 49 56 48 (omega arith) (omega arith)
      (omega arith) (omega arith) (omega arith)

parse-to_string_example :
    parse inet (to_string inet server) clear
    ≡ record clear { type = AddressType.ipv4; address_ipv4 = 33554442; port = 4000 }
parse-to_string_example = parse-to_string inet server clear refl (omega arith) refl refl
