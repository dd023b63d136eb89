-- ===== src/Native/Request.antt =====
-- `Request` of resolvd-core/src/lib.rs.
pub mod RoundTrip
use resolvd.Prelude.{
  ℕ, ◌+◌, ◌^◌, ◌≡◌, ◌≤◌, ◌<◌, Bool, true, false, [], ◌∷◌, ◌++◌, Option, none, some, length, ltb,
  Bytes, bytes, bytes_eq, is_utf8, if◌then◌else◌, Result, ok, err, stuck, ◌>>=◌, ◌>>◌, require,
  ok_or,
}
use resolvd.Net.{IpAddr, v4, v6}
use resolvd.Msgpack.{write_map, write_str, write_uint, write_bool}
use resolvd.Msgpack.Reader.{Reader, new, read_str, read_uint, read_bool}
use resolvd.Msgpack.Skip.{skip}
use resolvd.Native.{
  Family, any_family, family_text, parse_family, WireError, missing, unknown_query, codec,
  resolver_query, resolver_control,
}
use resolvd.Native.Fields.{Field, for_each_field, Entry, write_fields}

-- An address, as a number of 32 or of 128 bits.
abbrev pub IsIp : IpAddr → Type 0
IsIp (v4 a) = a < 2 ^ 32
IsIp (v6 a) = a < 2 ^ 128

-- `Display` and `FromStr` of the standard library's IpAddr: the text of an address is short and
-- parses back.
pub record IpText : Type 0 where
  pub to_string : IpAddr → Bytes
  pub parse : Bytes → Option IpAddr
  pub parse-to_string : (a : IpAddr) → IsIp a → parse (to_string a) ≡ some a
  pub to_string_utf8 : (a : IpAddr) → IsIp a → is_utf8 (to_string a) ≡ true
  pub length-to_string : (a : IpAddr) → IsIp a → length (to_string a) ≤ 64

pub data Request : Type 0 where
  resolve : (name : Bytes) (rtype : ℕ) (no_cache : Bool) → Request
  lookup : (name : Bytes) (family : Family) → Request
  reverse : (address : IpAddr) → Request
  status flush : Request

abbrev pub required_right : Request → ℕ
required_right flush = resolver_control
required_right _ = resolver_query

-- The variables of `decode`.
pub record Draft : Type 0 where
  pub query : Option Bytes
  pub name : Option Bytes
  pub rtype : Option ℕ
  pub no_cache : Bool
  pub family : Option Family
  pub address : Option Bytes

abbrev pub no_draft : Draft
no_draft = record {
  query = none;
  name = none;
  rtype = none;
  no_cache = false;
  family = none;
  address = none;
}

unfoldable pub request_field : Field Draft
request_field s key r =
    if bytes_eq key (bytes "query")
    then (do (v, r') ← codec (read_str r); ok (record s { query = some v }, r'))
    else if bytes_eq key (bytes "name")
    then (do (v, r') ← codec (read_str r); ok (record s { name = some v }, r'))
    else if bytes_eq key (bytes "type")
    then (do
      (v, r') ← codec (read_uint r)
      require (ltb v (2 ^ 16)) (missing (bytes "type"))
      ok (record s { rtype = some v }, r'))
    else if bytes_eq key (bytes "no_cache")
    then (do (v, r') ← codec (read_bool r); ok (record s { no_cache = v }, r'))
    else if bytes_eq key (bytes "family")
    then (do (v, r') ← codec (read_str r); ok (record s { family = parse_family v }, r'))
    else if bytes_eq key (bytes "address")
    then (do (v, r') ← codec (read_str r); ok (record s { address = some v }, r'))
    else (do r' ← codec (skip r); ok (s, r'))

-- A constant entry: the field as written, and the variable it fills.
abbrev pub entry : {S : Type 0} → Bytes → Bytes → (S → S) → Entry S
entry key value set = record { key = key; value = value; set = set }

abbrev pub query_entry : Bytes → Entry Draft
query_entry q = entry (bytes "query") (write_str q) (λ s. record s { query = some q })

abbrev pub name_entry : Bytes → Entry Draft
name_entry n = entry (bytes "name") (write_str n) (λ s. record s { name = some n })

abbrev pub type_entry : ℕ → Entry Draft
type_entry t = entry (bytes "type") (write_uint t) (λ s. record s { rtype = some t })

abbrev pub no_cache_entry : Bool → Entry Draft
no_cache_entry b = entry (bytes "no_cache") (write_bool b) (λ s. record s { no_cache = b })

abbrev pub family_entry : Family → Entry Draft
family_entry f =
    entry (bytes "family") (write_str (family_text f)) (λ s. record s { family = some f })

abbrev pub address_entry : Bytes → Entry Draft
address_entry a = entry (bytes "address") (write_str a) (λ s. record s { address = some a })

abbrev or_any : Option Family → Family
or_any none = any_family
or_any (some f) = f

module _ (ip : IpText) where
  unfoldable pub encode : Request → Bytes
  unfolding write_fields
  encode (resolve name rtype no_cache) =
      write_map 4
      ++ write_fields (
          query_entry (bytes "resolve")
          ∷ name_entry name
          ∷ type_entry rtype
          ∷ no_cache_entry no_cache
          ∷ [])
  encode (lookup name family) =
      write_map 3
      ++ write_fields (query_entry (bytes "lookup") ∷ name_entry name ∷ family_entry family ∷ [])
  encode (reverse address) =
      write_map 2
      ++ write_fields (query_entry (bytes "reverse") ∷ address_entry (ip.to_string address) ∷ [])
  encode status = write_map 1 ++ write_fields (query_entry (bytes "status") ∷ [])
  encode flush = write_map 1 ++ write_fields (query_entry (bytes "flush") ∷ [])

  -- The `match query.as_deref()`.
  unfoldable pub finish : Draft → Result WireError Request
  finish s = do
    q ← ok_or s.query (missing (bytes "query"))
    if bytes_eq q (bytes "resolve")
        then (do
          n ← ok_or s.name (missing (bytes "name"))
          t ← ok_or s.rtype (missing (bytes "type"))
          ok (resolve n t s.no_cache))
        else if bytes_eq q (bytes "lookup")
        then (do n ← ok_or s.name (missing (bytes "name")); ok (lookup n (or_any s.family)))
        else if bytes_eq q (bytes "reverse")
        then (do
          a ← ok_or s.address (missing (bytes "address"))
          address ← ok_or (ip.parse a) (missing (bytes "address"))
          ok (reverse address))
        else if bytes_eq q (bytes "status")
        then ok status
        else if bytes_eq q (bytes "flush")
        then ok flush
        else err (unknown_query q)

  unfoldable pub decode : Bytes → Result WireError Request
  unfolding finish request_field
  decode b = do (s, r) ← for_each_field request_field no_draft (new b); finish s
