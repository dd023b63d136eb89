-- ===== src/Native/Parts/Addresses/RoundTrip.antt =====
-- The addresses of a reply to a lookup are read back.
use resolvd.Prelude.{
  ℕ, ◌%◌, ◌^◌, ◌≡◌, ◌≤◌, ◌<◌, refl, List, [], ◌∷◌, ◌++◌, some, All, length, length-append, Bytes,
  bytes, bytes_eq, is_utf8, ok, arith,
}
use mathlib.Core.List.{append_assoc, append-nil}
use resolvd.Msgpack.{write_map, write_array}
use resolvd.Msgpack.RoundTrip.{at, read_array-write_array}
use resolvd.Native.Messages.{AddressOut}
use resolvd.Native.Fields.{IsEntry, write_fields, for_each_field-write}
use resolvd.Native.Request.{IpText, IsIp}
use resolvd.Native.Lists.{write_all, write_items}
use resolvd.Native.Parts.Entries.{text-IsEntry, uint-IsEntry}
use resolvd.Native.Parts.RoundTrip.{write_map_pos}
use resolvd.Native.Parts.Addresses.{
  no_address, address_text, address_ttl, address_entries, write_address, address_field, address_one,
  push_addresses, read_addresses,
}

pub record IsAddressOut (x : AddressOut) : Type 0 where
  pub address : IsIp x.address
  pub ttl : x.ttl < 2 ^ 32

module _ (ip : IpText) where
  address_entries-IsEntry :
      (x : AddressOut) → IsAddressOut x → All (IsEntry (address_field ip)) (address_entries ip x)
  unfolding address_field bytes_eq is_utf8
  address_entries-IsEntry x h = (
    text-IsEntry (address_field ip) (bytes "address") (refl, omega arith) (address_text ip)
        (λ s r. refl) (ip.to_string x.address)
        (
          ip.to_string_utf8 x.address h.address,
          omega (arith, ip.length-to_string x.address h.address),
        ),
    (
      uint-IsEntry (address_field ip) (bytes "ttl") (refl, omega arith) address_ttl (λ s r. refl)
          x.ttl (omega (arith, h.ttl)),
      tt,
    ),
  )

  address_one-write_address :
      (x : AddressOut) (t : Bytes) (d : ℕ)
      → IsAddressOut x
      → address_one ip (at (write_address ip x ++ t) d)
        ≡ ok (record { address = some x.address; ttl = x.ttl }, at t d)
  unfolding address_one write_address bytes_eq
  address_one-write_address x t d h =
      let t32 : x.ttl % 2 ^ 32 ≡ x.ttl = omega (arith, h.ttl) in
      rw
        (
          append_assoc (write_map 2) (write_fields (address_entries ip x)) t,
          for_each_field-write (address_field ip) 2 (address_entries ip x) no_address t d refl
              (omega arith) (address_entries-IsEntry x h) refl,
          ip.parse-to_string x.address h.address,
          t32,
        )
        refl

  push_addresses-write_all :
      (xs out : List AddressOut) (t : Bytes) (d : ℕ)
      → All IsAddressOut xs
      → push_addresses ip (length xs) out (at (write_all (write_address ip) xs ++ t) d)
        ≡ ok (out ++ xs, at t d)
  unfolding push_addresses write_all
  push_addresses-write_all [] out t d h = rw (append-nil out) refl
  push_addresses-write_all (x ∷ xs) out t d h =
      rw
        (
          append_assoc (write_address ip x) (write_all (write_address ip) xs) t,
          address_one-write_address x (write_all (write_address ip) xs ++ t) d h.0,
          push_addresses-write_all xs (out ++ x ∷ []) t d h.1,
          append_assoc out (x ∷ []) xs,
        )
        refl

  write_address_pos : (x : AddressOut) → 1 ≤ length (write_address ip x)
  unfolding write_address
  write_address_pos x = write_map_pos 2 (write_fields (address_entries ip x))

  room : (xs : List AddressOut) → length xs ≤ length (write_all (write_address ip) xs)
  unfolding write_all
  room [] = omega arith
  room (x ∷ xs) = omega (
    arith,
    length-append (write_address ip x) (write_all (write_address ip) xs),
    write_address_pos x,
    room xs,
  )

  pub read_addresses-write_items :
      (xs out : List AddressOut) (t : Bytes) (d : ℕ)
      → length xs < 2 ^ 32
      → All IsAddressOut xs
      → read_addresses ip out (at (write_items (write_address ip) xs ++ t) d)
        ≡ ok (out ++ xs, at t d)
  unfolding read_addresses write_items
  read_addresses-write_items xs out t d small h =
      let item = write_all (write_address ip) xs in
      let whole : length xs % 2 ^ 32 ≡ length xs = omega arith in
      let fits : length xs ≤ length (item ++ t) = omega (arith, room xs, length-append item t) in
      rw
        (
          whole,
          append_assoc (write_array (length xs)) item t,
          read_array-write_array (item ++ t) d (length xs) small fits,
        )
        (push_addresses-write_all xs out t d h)
