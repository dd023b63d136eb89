-- ===== src/Native/Parts/Addresses.antt =====
-- The addresses of a reply to a lookup, in resolvd-core/src/lib.rs.
pub mod RoundTrip
use resolvd.Prelude.{
  ℕ, zero, suc, ◌%◌, ◌^◌, Bool, List, [], ◌∷◌, ◌++◌, Option, none, some, length, Bytes, bytes,
  bytes_eq, if◌then◌else◌, Result, ok, err, stuck, ◌>>=◌,
}
use resolvd.Net.{IpAddr}
use resolvd.Msgpack.{write_map, write_array, write_str, write_bin, write_uint, write_bool}
use resolvd.Msgpack.Reader.{Reader, read_str, read_bin, read_uint, read_bool, read_array}
use resolvd.Msgpack.Skip.{skip}
use resolvd.Native.{WireError, codec}
use resolvd.Native.Messages.{RecordOut, no_record, AddressOut, ScopeStatus, no_scope, CountersOut}
use resolvd.Native.Fields.{Field, for_each_field, Entry, write_fields}
use resolvd.Native.Request.{IpText, entry}
use resolvd.Native.Lists.{ReadOne, write_items, read_items, text_one}
use resolvd.Native.Parts.Arms.{text_arm, bin_arm, uint_arm, bool_arm, list_arm, skip_arm}

pub record AddressDraft : Type 0 where
  pub address : Option IpAddr
  pub ttl : ℕ

abbrev pub no_address : AddressDraft
no_address = record { address = none; ttl = 0 }

abbrev pub address_ttl : ℕ → AddressDraft → AddressDraft
address_ttl v x = record x { ttl = v % 2 ^ 32 }

-- An address that does not parse is left out.
abbrev pub push_address : List AddressOut → AddressDraft → List AddressOut
push_address out x = elim x.address [
  | none ↦ out
  | some a ↦ out ++ record { address = a; ttl = x.ttl } ∷ []
]

module _ (ip : IpText) where
  abbrev pub address_text : Bytes → AddressDraft → AddressDraft
  address_text v x = record x { address = ip.parse v }

  abbrev pub address_entries : AddressOut → List (Entry AddressDraft)
  address_entries x =
      entry (bytes "address") (write_str (ip.to_string x.address))
        (address_text (ip.to_string x.address))
      ∷ entry (bytes "ttl") (write_uint x.ttl) (address_ttl x.ttl)
      ∷ []

  unfoldable pub write_address : AddressOut → Bytes
  write_address x = write_map 2 ++ write_fields (address_entries x)

  unfoldable pub address_field : Field AddressDraft
  address_field s key r =
      if bytes_eq key (bytes "address")
      then text_arm address_text s r
      else if bytes_eq key (bytes "ttl")
      then uint_arm address_ttl s r
      else skip_arm s r

  unfoldable pub address_one : ReadOne AddressDraft
  unfolding address_field
  address_one = for_each_field address_field no_address

  unfoldable pub push_addresses : ℕ → List AddressOut → ReadOne (List AddressOut)
  push_addresses zero out r = ok (out, r)
  push_addresses (suc n) out r = do
    (x, r') ← address_one r
    push_addresses n (push_address out x) r'

  unfoldable pub read_addresses : List AddressOut → ReadOne (List AddressOut)
  unfolding push_addresses
  read_addresses out r = do (n, r') ← codec (read_array r); push_addresses n out r'
