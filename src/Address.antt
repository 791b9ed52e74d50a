-- ===== src/Address.antt =====
-- include/network/InetAddress.h: an IPv4 address and a port, kept in the order of the network.
-- The machine is little-endian, as the ones that the library runs on: `htons` and `htonl` swap bytes.
pub mod Swaps
pub mod RoundTrip
mod Tests
use Prim.Native.Nat.{bit_or}
use fluent_net.Prelude.{
  ℕ, zero, suc, ◌+◌, ◌*◌, ◌/◌, ◌%◌, ◌^◌, Option, none, some, List, [], ◌∷◌, ◌++◌, if◌then◌else◌,
  ltb, codes,
}
use fluent_net.Strings.{split_string, substr, to_dec}
use fluent_net.Strings.Print.{to_string}

-- The members of `sockaddr_in`, in the order of the network.
pub record InetAddress : Type 0 where
  pub sin_port : ℕ
  pub s_addr : ℕ

abbrev pub htons : ℕ → ℕ
htons n = n % 2 ^ 8 * 2 ^ 8 + n / 2 ^ 8

abbrev pub htonl : ℕ → ℕ
htonl n = htons (n % 2 ^ 16) * 2 ^ 16 + htons (n / 2 ^ 16)

-- `InetAddress(uint32_t ip, uint16_t port)`
unfoldable pub from_numbers : ℕ → ℕ → InetAddress
from_numbers ip port = record { sin_port = htons port; s_addr = htonl ip }

abbrev pub raw_port : InetAddress → ℕ
raw_port a = htons a.sin_port

abbrev pub raw_ip : InetAddress → ℕ
raw_ip a = htonl a.s_addr

-- The loop from `chunk` `n - 1` down to 0; the dot stands before each chunk but the first.
unfoldable pub chunks : ℕ → ℕ → List ℕ
chunks zero addr = []
chunks (suc chunk) addr =
    (if ltb chunk 3 then codes "." else [])
    ++ (to_string (addr / 2 ^ (chunk * 8) % 256) ++ chunks chunk addr)

unfoldable pub ip_to_string : InetAddress → List ℕ
ip_to_string a = chunks 4 (raw_ip a)

unfoldable pub address_to_string : InetAddress → List ℕ
address_to_string a = ip_to_string a ++ (codes ":" ++ to_string (raw_port a))

unfoldable pub to_string_pretty : InetAddress → List ℕ
to_string_pretty a = codes "(" ++ (address_to_string a ++ codes ")")

-- The loop over the pieces, in 32 bits.
unfoldable pub ip_from : List ℕ → ℕ → List (ℕ × ℕ) → ℕ
ip_from s ip [] = ip
ip_from s ip (p ∷ ps) = ip_from s (bit_or (ip * 2 ^ 8 % 2 ^ 32) (to_dec 32 (substr s p))) ps

unfoldable pub string_to_ip : List ℕ → ℕ
string_to_ip s = ip_from s 0 (split_string b'.' s)

-- `InetAddress(const std::string &ip, uint16_t port)`
unfoldable pub from_ip : List ℕ → ℕ → InetAddress
from_ip ip port = from_numbers (string_to_ip ip) port

-- `InetAddress(const std::string &address)`; none where its assertion fails.
unfoldable pub from_pieces : List ℕ → List (ℕ × ℕ) → Option InetAddress
from_pieces address (ip ∷ port ∷ []) =
    some (from_numbers (string_to_ip (substr address ip)) (to_dec 16 (substr address port)))
from_pieces address _ = none

unfoldable pub from_string : List ℕ → Option InetAddress
from_string address = from_pieces address (split_string b':' address)
