-- ===== src/Dns/Reverse.antt =====
-- `Name::reverse_v4`, `Name::reverse_v6` and `Name::reverse_address` of dns/src/lib.rs.
pub mod RoundTrip
use resolvd.Prelude.{
  ℕ, zero, suc, ◌+◌, ◌-◌, ◌*◌, ◌/◌, ◌%◌, ◌^◌, Bool, not, true, false, ◌&&◌, ◌||◌, List, [], ◌∷◌,
  ◌++◌, map, Option, none, some, length, take, is_empty, ltb, leb, ◌==◌, if◌then◌else◌, Bytes,
  bytes, Result, ok, err,
}
use resolvd.Net.{IpAddr, v4, v6}
use resolvd.Dns.Name.{Name, ends_with}

-- A `u8` in decimal.
unfoldable pub decimal : ℕ → Bytes
decimal n =
    if ltb n 10
    then (48 + n) ∷ []
    else if ltb n 100
    then (48 + n / 10) ∷ (48 + n % 10) ∷ []
    else (48 + n / 100) ∷ (48 + n / 10 % 10) ∷ (48 + n % 10) ∷ []

-- A hexadecimal digit in lower case.
unfoldable pub hex_digit : ℕ → ℕ
hex_digit n = if ltb n 10 then 48 + n else 87 + n

abbrev pub in_addr : Name
in_addr = record { labels = bytes "in-addr" ∷ bytes "arpa" ∷ [] }

abbrev pub ip6 : Name
ip6 = record { labels = bytes "ip6" ∷ bytes "arpa" ∷ [] }

-- The digits of a number, the lowest first: octets for IPv4, nibbles for IPv6.
abbrev pub low_first : ℕ → ℕ → ℕ → List ℕ
low_first base zero v = []
low_first base (suc k) v = (v % base) ∷ low_first base k (v / base)

-- The labels of the text that the code prints and parses again.
unfoldable pub reverse_v4 : ℕ → Name
unfolding decimal
reverse_v4 a = record { labels = map decimal (low_first 256 4 a) ++ in_addr.labels }

unfoldable pub reverse_v6 : ℕ → Name
unfolding hex_digit
reverse_v6 a = record { labels = map (λ d. hex_digit d ∷ []) (low_first 16 32 a) ++ ip6.labels }

-- `str::parse::<u8>`: a `+` may stand in front, and the value must fit.
unfoldable pub parse_digits : ℕ → Bytes → Option ℕ
parse_digits acc [] = some acc
parse_digits acc (c ∷ s) =
    let acc' = acc * 10 + (c - 48) in
    if leb 48 c && leb c 57 && ltb acc' 256 then parse_digits acc' s else none

unfoldable pub parse_u8 : Bytes → Option ℕ
unfolding parse_digits
parse_u8 [] = none
parse_u8 (c ∷ s) =
    if c == b'+' && not (is_empty s) then parse_digits 0 s else parse_digits 0 (c ∷ s)

-- `char::to_digit(16)`
unfoldable pub hex_value : ℕ → Option ℕ
hex_value c =
    if leb 48 c && leb c 57
    then some (c - 48)
    else if leb 97 c && leb c 102
    then some (c - 87)
    else if leb 65 c && leb c 70
    then some (c - 55)
    else none

unfoldable pub nibble : Bytes → Option ℕ
unfolding hex_value
nibble [] = none
nibble (c ∷ []) = hex_value c
nibble (c ∷ d ∷ s) = none

-- The number of the digits that the labels spell, the lowest first.
unfoldable pub from_low : ℕ → (Bytes → Option ℕ) → List Bytes → Option ℕ
from_low base digit [] = some 0
from_low base digit (l ∷ ls) =
    let rest = from_low base digit ls in
    elim (digit l) [
      | none ↦ none
      | some d ↦ (elim rest [ none ↦ none | some v ↦ some (d + base * v) ])
    ]

abbrev map_ip : (ℕ → IpAddr) → Option ℕ → Option IpAddr
map_ip f none = none
map_ip f (some v) = some (f v)

unfoldable pub reverse_address : Name → Option IpAddr
unfolding ends_with from_low parse_u8 nibble
reverse_address n =
    if ends_with n in_addr && length n.labels == 6
    then map_ip v4 (from_low 256 parse_u8 (take 4 n.labels))
    else if ends_with n ip6 && length n.labels == 34
    then map_ip v6 (from_low 16 nibble (take 32 n.labels))
    else none
