-- ===== src/Address.antt =====
-- svr/library/networking/Address.h and Address.cpp: IPv4 and IPv6 addresses with a port.
pub mod Text
use rudp_network.Prelude.{
  ℕ, ◌+◌, ◌*◌, ◌/◌, ◌%◌, ◌^◌, map, Option, none, some, assert, List, [], ◌∷◌, Bool, true, false,
  not, ◌&&◌, ◌==◌, ◌<<◌, bit_or, if◌then◌else◌,
}

pub data AddressType : Type 0 where
  undefined ipv4 ipv6 : AddressType

-- The union is kept as its two views; only the one of the type is read.
pub record Address : Type 0 where
  pub type : AddressType
  pub address_ipv4 : ℕ
  pub address_ipv6 : List ℕ
  pub port : ℕ

-- Address() and Clear.
abbrev pub clear : Address
clear = record {
  type = AddressType.undefined;
  address_ipv4 = 0;
  address_ipv6 = 0 ∷ 0 ∷ 0 ∷ 0 ∷ 0 ∷ 0 ∷ 0 ∷ 0 ∷ [];
  port = 0;
}

-- Address(a, b, c, d, port) on bytes.
unfoldable pub from_bytes : ℕ → ℕ → ℕ → ℕ → ℕ → Address
from_bytes a b c d port = record {
  type = AddressType.ipv4;
  address_ipv4 = bit_or (bit_or (bit_or a (b << 8)) (c << 16)) (d << 24);
  address_ipv6 = [];
  port = port;
}

-- htons and htonl, which are also ntohs and ntohl: the build is little endian.
unfoldable pub htons : ℕ → ℕ
htons n = n % 256 * 256 + n / 256

unfoldable pub htonl : ℕ → ℕ
unfolding htons
htonl n = htons (n % 2 ^ 16) * 2 ^ 16 + htons (n / 2 ^ 16)

-- Address(address, port); the int16_t port is given as the uint16_t that it becomes.
unfoldable pub from_uint32 : ℕ → ℕ → Address
unfolding htonl
from_uint32 address port = record {
  type = AddressType.ipv4;
  address_ipv4 = htonl address;
  address_ipv6 = [];
  port = port;
}

-- Address(a, ..., h, port) and Address(address[], port) on eight words.
unfoldable pub from_words : List ℕ → ℕ → Address
unfolding htons
from_words words port = record {
  type = AddressType.ipv6;
  address_ipv4 = 0;
  address_ipv6 = map htons words;
  port = port;
}

-- What a sockaddr of the system holds, in network byte order: the address and the port.
pub data SockAddr : Type 0 where
  sockaddr_in : ℕ → ℕ → SockAddr
  sockaddr_in6 : List ℕ → ℕ → SockAddr
  other_family : SockAddr

-- Address(sockaddr_in6).
unfoldable pub from_sockaddr_in6 : List ℕ → ℕ → Address
unfolding htons
from_sockaddr_in6 words port = record {
  type = AddressType.ipv6;
  address_ipv4 = 0;
  address_ipv6 = words;
  port = htons port;
}

-- Address(addrinfo): another family clears it.
unfoldable pub from_addrinfo : SockAddr → Address
unfolding htons from_sockaddr_in6
from_addrinfo (sockaddr_in word port) = record {
  type = AddressType.ipv4;
  address_ipv4 = word;
  address_ipv6 = [];
  port = htons port;
}
from_addrinfo (sockaddr_in6 words port) = from_sockaddr_in6 words port
from_addrinfo other_family = clear

-- Address(sockaddr_storage): another family fails an assertion.
unfoldable pub from_sockaddr_storage : SockAddr → Option Address
unfolding from_addrinfo
from_sockaddr_storage other_family = none
from_sockaddr_storage addr = some (from_addrinfo addr)

unfoldable pub same_type : AddressType → AddressType → Bool
same_type AddressType.undefined AddressType.undefined = true
same_type AddressType.ipv4 AddressType.ipv4 = true
same_type AddressType.ipv6 AddressType.ipv6 = true
same_type _ _ = false

unfoldable pub is_valid : Address → Bool
is_valid a = not (same_type a.type AddressType.undefined)

-- memcmp of the eight words.
unfoldable pub same_words : List ℕ → List ℕ → Bool
same_words [] [] = true
same_words (x ∷ xs) (y ∷ ys) = x == y && same_words xs ys
same_words _ _ = false

unfoldable pub equals : Address → Address → Bool
unfolding same_type same_words
equals a b =
    if not (same_type a.type b.type)
    then false
    else if not (a.port == b.port)
    then false
    else if same_type a.type AddressType.ipv4 && a.address_ipv4 == b.address_ipv4
    then true
    else same_type a.type AddressType.ipv6 && same_words a.address_ipv6 b.address_ipv6

unfoldable pub set_port : ℕ → Address → Address
set_port port a = record a { port = port }

unfoldable pub get_address4 : Address → Option ℕ
unfolding same_type
get_address4 a = assert (same_type a.type AddressType.ipv4) (some a.address_ipv4)

unfoldable pub get_address6 : Address → Option (List ℕ)
unfolding same_type
get_address6 a = assert (same_type a.type AddressType.ipv6) (some a.address_ipv6)

-- operator !=
unfoldable pub not_equals : Address → Address → Bool
unfolding equals
not_equals a b = not (equals a b)
