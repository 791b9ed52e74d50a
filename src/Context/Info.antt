-- ===== src/Context/Info.antt =====
-- include/policy/NetworksPolicy.h, `networkInfo`, and include/network/Context.h, `hashcode` and
-- `simpleInfo`: what tells connections apart in the log. A context keeps the last two; they come here
-- with what it has kept and answer with what it keeps then.
use Prim.Native.Nat.{bit_xor}
use Prim.Native.String.{String}
use fluent_net.Prelude.{
  ℕ, ◌*◌, ◌%◌, ◌^◌, List, [], ◌∷◌, ◌++◌, codes, ◌≡◌, refl, if◌then◌else◌, ◌==◌,
}
use fluent_net.Address.{InetAddress, raw_ip, raw_port, address_to_string}
use fluent_net.Strings.Print.{to_string}
use fluent_net.Context.{NetworkState, connecting, connected, disconnecting, disconnected}

unfoldable pub network_info : NetworkState → String
network_info connecting = "CONNECTING"
network_info connected = "CONNECTED"
network_info disconnecting = "DISCONNECTING"
network_info disconnected = "DISCONNECTED"

-- `hashcode()`: the value and `_hashcode`, where 0 is none yet.
unfoldable pub hashcode : ℕ → InetAddress → ℕ → ℕ × ℕ
hashcode fd address kept =
    let code =
      bit_xor (bit_xor (fd * 2 ^ 32 % 2 ^ 64) (raw_ip address)) (raw_port address * 2 ^ 24) in
    if kept == 0 then (code, code) else (kept, kept)

-- `simpleInfo()`: the text and `_cachedInfo`, where the empty text is none yet.
unfoldable pub simple_info : ℕ → InetAddress → List ℕ → List ℕ × List ℕ
simple_info fd address (c ∷ cs) = (c ∷ cs, c ∷ cs)
simple_info fd address [] =
    let text =
      codes "[" ++ (to_string fd ++ (codes ", (" ++ (address_to_string address ++ codes ")]"))) in
    (text, text)

-- Asked again, a context answers the same text, also where it has got another address since.
pub simple_info_stays :
    (fd fd' : ℕ) (address address' : InetAddress) (kept : List ℕ)
    → (let (text, kept') = simple_info fd address kept in
        simple_info fd' address' kept' ≡ (text, text))
unfolding simple_info
simple_info_stays fd fd' address address' [] = refl
simple_info_stays fd fd' address address' (c ∷ cs) = refl
