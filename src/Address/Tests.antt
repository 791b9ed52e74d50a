-- ===== src/Address/Tests.antt =====
-- include/network/InetAddress.h at concrete addresses.
use fluent_net.Prelude.{ℕ, ◌+◌, ◌*◌, none, some, ◌≡◌, refl, arith, codes}
use fluent_net.Strings.{split, split_rounds, skip_pivots, skip_word}
use fluent_net.Strings.Print.{print_digits}
use fluent_net.Address.{
  from_numbers, address_to_string, ip_to_string, chunks, from_pieces, from_string,
}
use fluent_net.Address.RoundTrip.{from_string-address_to_string}

-- 127.0.0.1
abbrev localhost : ℕ
localhost = 127 * 16777216 + 1

localhost_text : address_to_string (from_numbers localhost 2560) ≡ codes "127.0.0.1:2560"
unfolding address_to_string ip_to_string from_numbers chunks print_digits
localhost_text = refl

no_port : from_string (codes "127.0.0.1") ≡ none
unfolding from_string from_pieces split split_rounds skip_pivots skip_word
no_port = refl

from_string-address_to_string_example :
    from_string (address_to_string (from_numbers localhost 2560))
    ≡ some (from_numbers localhost 2560)
from_string-address_to_string_example =
    from_string-address_to_string localhost 2560 (omega arith) (omega arith)
