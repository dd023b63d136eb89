-- ===== src/Tests/Names.antt =====
-- The theorems on names, at a few names.
use resolvd.Prelude.{ℕ, ◌%◌, ◌==◌, ◌≡◌, ◌↔◌, refl, Bool, true, [], ◌∷◌, some, bytes, ok, arith}
use resolvd.Net.{v4, v6}
use resolvd.Dns.Name.{Name, parse, from_labels, name_eq, to_lowercase, ends_with, join}
use resolvd.Dns.Case.{randomise_case}
use resolvd.Dns.Case.Equal.{name_eq_iff, ends_with_iff, HasSuffix}
use resolvd.Dns.Case.Random.{name_eq-randomise_case}
use resolvd.Dns.Reverse.{reverse_v4, reverse_v6, reverse_address}
use resolvd.Dns.Reverse.RoundTrip.{reverse_address-reverse_v4, reverse_address-reverse_v6}
use resolvd.Tests.{www}

abbrev peios : Name
peios = record { labels = bytes "peios" ∷ [] }

abbrev loud : Name
loud = record { labels = bytes "PEIOS" ∷ [] }

abbrev bare : Name
bare = record { labels = bytes "www" ∷ [] }

abbrev odd : ℕ → Bool
odd n = n % 2 == 1

parse_test : parse (bytes "www.peios.") ≡ ok www
unfolding parse
parse_test = refl

reverse_test : reverse_v4 0x0a000001 ≡ record {
  labels = bytes "1" ∷ bytes "0" ∷ bytes "0" ∷ bytes "10" ∷ bytes "in-addr" ∷ bytes "arpa" ∷ [];
}
unfolding reverse_v4
reverse_test = refl

www_labels_test : from_labels (bytes "www" ∷ bytes "peios" ∷ []) ≡ ok www
unfolding from_labels
www_labels_test = refl

name_eq_iff_example : (name_eq peios loud ≡ true) ↔ (to_lowercase peios ≡ to_lowercase loud)
name_eq_iff_example = name_eq_iff peios loud

ends_with_iff_example : (ends_with www loud ≡ true) ↔ HasSuffix www loud
ends_with_iff_example = ends_with_iff www loud

join_test : join bare peios ≡ ok www
unfolding join
join_test = refl

loud_test : name_eq peios loud ≡ true
unfolding name_eq
loud_test = refl

name_eq-randomise_case_example : name_eq (randomise_case www odd) www ≡ true
name_eq-randomise_case_example = name_eq-randomise_case www odd

reverse_address-reverse_v4_example : reverse_address (reverse_v4 0x0a000001) ≡ some (v4 0x0a000001)
reverse_address-reverse_v4_example = reverse_address-reverse_v4 0x0a000001 (omega arith)

reverse_address-reverse_v6_example :
    reverse_address (reverse_v6 0xfd000000000000000000000000000001)
    ≡ some (v6 0xfd000000000000000000000000000001)
reverse_address-reverse_v6_example =
    reverse_address-reverse_v6 0xfd000000000000000000000000000001 (omega arith)
