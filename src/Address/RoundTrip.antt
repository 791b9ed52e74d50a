-- ===== src/Address/RoundTrip.antt =====
-- include/network/InetAddress.h: what an address prints is read back.
use Prim.Native.Nat.{bit_or}
use mathlib.Core.List.{map}
use fluent_net.Prelude.{
  ℕ, zero, suc, ◌+◌, ◌*◌, ◌/◌, ◌%◌, ◌^◌, ◌<◌, Bool, true, false, some, List, [], ◌∷◌, ◌++◌, ◌≡◌,
  refl, sym, ap, ap₂, ◌∙◌, inl, inr, ◌⊎◌, arith, append-nil, if◌then◌else◌, ltb, length,
  length-append, All-append, codes, Lacks,
}
use fluent_net.Algorithms.BitOr.{bit_or_low}
use fluent_net.Strings.{split, substr, to_dec}
use fluent_net.Strings.Print.{to_string, some-to_string, to_string-Lacks, to_dec-to_string}
use fluent_net.Strings.Join.{AreWords, IsWord, join, split-join}
use fluent_net.Address.{
  from_numbers, chunks, ip_to_string, address_to_string, ip_from, string_to_ip, from_pieces,
  from_string,
}
use fluent_net.Address.Swaps.{htons-htons, htonl-htonl}

-- The loop of `stringToIp` over the pieces themselves.
abbrev ip_of : ℕ → List (List ℕ) → ℕ
ip_of ip [] = ip
ip_of ip (word ∷ words) = ip_of (bit_or (ip * 2 ^ 8 % 2 ^ 32) (to_dec 32 word)) words

ip_from-map :
    (s : List ℕ) (ip : ℕ) (ps : List (ℕ × ℕ)) → ip_from s ip ps ≡ ip_of ip (map (substr s) ps)
unfolding ip_from
ip_from-map s ip [] = refl
ip_from-map s ip (p ∷ ps) = ip_from-map s (bit_or (ip * 2 ^ 8 % 2 ^ 32) (to_dec 32 (substr s p))) ps

abbrev octets : ℕ → List (List ℕ)
octets addr =
    to_string (addr / 2 ^ 24 % 256)
    ∷ to_string (addr / 2 ^ 16 % 256)
    ∷ to_string (addr / 2 ^ 8 % 256)
    ∷ to_string (addr / 1 % 256)
    ∷ []

chunks-join : (addr : ℕ) → chunks 4 addr ≡ join b'.' (octets addr)
unfolding chunks
chunks-join addr = refl

to_string-IsWord : (c n : ℕ) → (c < 48) ⊎ (57 < c) → IsWord c (to_string n)
to_string-IsWord c n h = (some-to_string n, to_string-Lacks c n h)

octets-AreWords : (addr : ℕ) → AreWords b'.' (octets addr)
octets-AreWords addr =
    let word : (n : ℕ) → IsWord b'.' (to_string n) =
      λ n. to_string-IsWord b'.' n (inl (omega arith)) in
    (
      word (addr / 2 ^ 24 % 256),
      (word (addr / 2 ^ 16 % 256), (word (addr / 2 ^ 8 % 256), (word (addr / 1 % 256), tt))),
    )

-- A round of `stringToIp` on a printed octet.
octet_round :
    (ip d : ℕ)
    → ip < 2 ^ 24
    → d < 256
    → bit_or (ip * 2 ^ 8 % 2 ^ 32) (to_dec 32 (to_string d)) ≡ ip * 256 + d
octet_round ip d h g =
    let small : ip * 2 ^ 8 % 2 ^ 32 ≡ ip * 2 ^ 8 = omega arith in
    let digits : to_dec 32 (to_string d) ≡ d = to_dec-to_string 32 d (omega arith) ∙ omega arith in
    ap₂ bit_or small digits ∙ bit_or_low 8 ip d g ∙ omega arith

ip_of-octets : (addr : ℕ) → addr < 2 ^ 32 → ip_of 0 (octets addr) ≡ addr
ip_of-octets addr h =
    let d3 = addr / 2 ^ 24 % 256 in
    let d2 = addr / 2 ^ 16 % 256 in
    let d1 = addr / 2 ^ 8 % 256 in
    let d0 = addr / 1 % 256 in
    let s2 = to_string d2 in
    ap (λ n. ip_of n (to_string d2 ∷ to_string d1 ∷ to_string d0 ∷ []))
      (octet_round 0 d3 (omega arith) (omega arith))
    ∙ ap (λ n. ip_of n (to_string d1 ∷ to_string d0 ∷ []))
        (octet_round (0 * 256 + d3) d2 (omega arith) (omega arith))
    ∙ ap (λ n. ip_of n (to_string d0 ∷ []))
        (octet_round ((0 * 256 + d3) * 256 + d2) d1 (omega arith) (omega arith))
    ∙ octet_round (((0 * 256 + d3) * 256 + d2) * 256 + d1) d0 (omega arith) (omega arith)
    ∙ omega arith

string_to_ip-chunks : (addr : ℕ) → addr < 2 ^ 32 → string_to_ip (chunks 4 addr) ≡ addr
unfolding string_to_ip
string_to_ip-chunks addr h =
    let s = join b'.' (octets addr) in
    ap string_to_ip (chunks-join addr)
    ∙ ip_from-map s 0 (split b'.' s)
    ∙ ap (ip_of 0) (split-join b'.' (octets addr) (octets-AreWords addr))
    ∙ ip_of-octets addr h

dot-Lacks : (b : Bool) → Lacks b':' (if b then codes "." else [])
dot-Lacks true = (refl, tt)
dot-Lacks false = tt

-- The numbers of a text hold no colon, the dots neither.
chunks-Lacks : (n addr : ℕ) → Lacks b':' (chunks n addr)
unfolding chunks
chunks-Lacks zero addr = tt
chunks-Lacks (suc n) addr =
    let digits = to_string-Lacks b':' (addr / 2 ^ (n * 8) % 256) (inr (omega arith)) in
    All-append _ (if ltb n 3 then codes "." else []) _ (dot-Lacks (ltb n 3))
      (All-append _ (to_string (addr / 2 ^ (n * 8) % 256)) _ digits (chunks-Lacks n addr))

some-chunks : (addr : ℕ) → 0 < length (chunks 4 addr)
unfolding chunks
some-chunks addr = omega (
  arith,
  some-to_string (addr / 2 ^ 24 % 256),
  length-append (to_string (addr / 2 ^ 24 % 256))
      (b'.' ∷ (to_string (addr / 2 ^ 16 % 256) ++ chunks 2 addr)),
)

from_pieces-words :
    (address ip port : List ℕ) (ps : List (ℕ × ℕ))
    → map (substr address) ps ≡ ip ∷ port ∷ []
    → from_pieces address ps ≡ some (from_numbers (string_to_ip ip) (to_dec 16 port))
unfolding from_pieces
from_pieces-words address ip port [] e = absurd (ground arith)
from_pieces-words address ip port (p ∷ []) e = absurd (ground arith)
from_pieces-words address ip port (p ∷ q ∷ []) e = grind arith
from_pieces-words address ip port (p ∷ q ∷ r ∷ ps) e = absurd (ground arith)

text_words : (ip port : ℕ) → AreWords b':' (chunks 4 ip ∷ to_string port ∷ [])
text_words ip port =
    ((some-chunks ip, chunks-Lacks 4 ip), (to_string-IsWord b':' port (inr (omega arith)), tt))

read_text :
    (ip port : ℕ)
    → ip < 2 ^ 32
    → port < 2 ^ 16
    → from_string (chunks 4 ip ++ (codes ":" ++ to_string port)) ≡ some (from_numbers ip port)
unfolding from_string
read_text ip port h g =
    let words = chunks 4 ip ∷ to_string port ∷ [] in
    let text = join b':' words in
    let shape : chunks 4 ip ++ (codes ":" ++ to_string port) ≡ text =
      ap (λ t. chunks 4 ip ++ b':' ∷ t) (sym (append-nil (to_string port))) in
    let number : to_dec 16 (to_string port) ≡ port =
      to_dec-to_string 16 port (omega arith) ∙ omega arith in
    ap from_string shape
    ∙ from_pieces-words text (chunks 4 ip) (to_string port) (split b':' text)
        (split-join b':' words (text_words ip port))
    ∙ ap₂ (λ a b. some (from_numbers a b)) (string_to_ip-chunks ip h) number

-- The constructor from a text reads back what `toString` prints, for every address and every port.
pub from_string-address_to_string :
    (ip port : ℕ)
    → ip < 2 ^ 32
    → port < 2 ^ 16
    → from_string (address_to_string (from_numbers ip port)) ≡ some (from_numbers ip port)
unfolding address_to_string ip_to_string from_numbers
from_string-address_to_string ip port h g =
    rw (htonl-htonl ip h) (rw (htons-htons port g) (read_text ip port h g))
