-- ===== src/Dns/Reverse/RoundTrip.antt =====
-- An address is found again in the reverse name made from it.
use native.Mathlib.Nat.{pow-zero, pow-succ', mul_comm, mod-lt, mod-add-div, div-lt_iff_lt-mul}
use resolvd.Prelude.{
  subst, ℕ, zero, suc, ◌+◌, ◌*◌, ◌/◌, ◌%◌, ◌^◌, ◌<◌, ◌≡◌, refl, ap, ◌∙◌, [], ◌∷◌, map, Option, some,
  Bytes, arith,
}
use resolvd.Net.{v4, v6}
use resolvd.Dns.Name.{ends_with, name_eq, zip_all_eq}
use resolvd.Dns.Reverse.{
  decimal, hex_digit, low_first, reverse_v4, reverse_v6, parse_digits, parse_u8, hex_value, nibble,
  from_low, reverse_address,
}

parse_u8-decimal : (n : ℕ) → n < 256 → parse_u8 (decimal n) ≡ some n
unfolding parse_u8 parse_digits decimal
parse_u8-decimal n h = ground arith

nibble-hex_digit : (d : ℕ) → d < 16 → nibble (hex_digit d ∷ []) ≡ some d
unfolding nibble hex_value hex_digit
nibble-hex_digit d h = ground arith

-- The digits of a number, read back from the labels that spell them.
from_low-low_first :
    (base : ℕ) (spell : ℕ → Bytes) (digit : Bytes → Option ℕ)
    → 0 < base
    → ((d : ℕ) → d < base → digit (spell d) ≡ some d)
    → (k v : ℕ) → v < base ^ k
    → from_low base digit (map spell (low_first base k v)) ≡ some v
unfolding from_low
from_low-low_first base spell digit pos reads zero v h =
    let nothing : 0 ≡ v = omega (arith, pow-zero base) in ap (λ (x : ℕ). some x) nothing
from_low-low_first base spell digit pos reads (suc k) v h =
    let digit_lt : v % base < base = mod-lt v pos in
    let rest_lt : v / base < base ^ k =
      (div-lt_iff_lt-mul pos).1
        (subst (λ t. v < t) (pow-succ' base k ∙ mul_comm base (base ^ k)) h) in
    let whole : v % base + base * (v / base) ≡ v = mod-add-div v base in
    rw
      (
        reads (v % base) digit_lt,
        from_low-low_first base spell digit pos reads k (v / base) rest_lt,
        whole,
      )
      refl

-- The address that the reverse name of an IPv4 address denotes is that address.
pub reverse_address-reverse_v4 : (a : ℕ) → a < 2 ^ 32 → reverse_address (reverse_v4 a) ≡ some (v4 a)
unfolding reverse_address reverse_v4 ends_with name_eq zip_all_eq
reverse_address-reverse_v4 a h =
    rw (from_low-low_first 256 decimal parse_u8 (omega arith) parse_u8-decimal 4 a (omega arith))
      refl

-- The address that the reverse name of an IPv6 address denotes is that address.
pub reverse_address-reverse_v6 :
    (a : ℕ) → a < 2 ^ 128 → reverse_address (reverse_v6 a) ≡ some (v6 a)
unfolding reverse_address reverse_v6 ends_with name_eq zip_all_eq
reverse_address-reverse_v6 a h =
    rw
      (from_low-low_first 16 (λ d. hex_digit d ∷ []) nibble (omega arith) nibble-hex_digit 32 a
        (omega arith))
      refl
