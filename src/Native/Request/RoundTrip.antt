-- ===== src/Native/Request/RoundTrip.antt =====
-- `Request::decode` reads back what `Request::encode` wrote.
use resolvd.Prelude.{
  ℕ, ◌^◌, ◌≡◌, ◌<◌, refl, Bool, [], ◌∷◌, some, lt→ltb, Bytes, bytes, bytes_eq, is_utf8, ok, arith,
}
use resolvd.Msgpack.{write_bool}
use resolvd.Msgpack.RoundTrip.{
  IsText, write_str_pos, write_uint_pos, read_str-write_str, read_uint-write_uint,
  read_bool-write_bool,
}
use resolvd.Native.{Family, any_family, v4_family, v6_family, family_text, parse_family}
use resolvd.Native.Fields.{IsEntry, for_each_field-end}
use resolvd.Native.Request.{
  IsIp, IpText, Request, resolve, lookup, reverse, status, flush, no_draft, request_field,
  query_entry, name_entry, type_entry, no_cache_entry, family_entry, address_entry, encode, decode,
}

-- Strings that fit their headers, a type of 16 bits.
abbrev pub IsRequest : Request → Type 0
IsRequest (resolve name rtype no_cache) = IsText name × (rtype < 2 ^ 16)
IsRequest (lookup name family) = IsText name
IsRequest (reverse address) = IsIp address
IsRequest _ = Unit {0}

query_entry-IsEntry : (q : Bytes) → IsText q → IsEntry request_field (query_entry q)
unfolding request_field bytes_eq is_utf8
query_entry-IsEntry q h = record {
  key = (refl, omega arith);
  value = write_str_pos q;
  reads = λ s t d. rw (read_str-write_str q t d h.0 h.1) refl;
}

name_entry-IsEntry : (n : Bytes) → IsText n → IsEntry request_field (name_entry n)
unfolding request_field bytes_eq is_utf8
name_entry-IsEntry n h = record {
  key = (refl, omega arith);
  value = write_str_pos n;
  reads = λ s t d. rw (read_str-write_str n t d h.0 h.1) refl;
}

type_entry-IsEntry : (n : ℕ) → n < 2 ^ 16 → IsEntry request_field (type_entry n)
unfolding request_field bytes_eq is_utf8
type_entry-IsEntry n h = record {
  key = (refl, omega arith);
  value = write_uint_pos n;
  reads = λ s t d. rw (read_uint-write_uint t d n (omega (arith, h)), lt→ltb n (2 ^ 16) h) refl;
}

no_cache_entry-IsEntry : (b : Bool) → IsEntry request_field (no_cache_entry b)
unfolding request_field bytes_eq is_utf8 write_bool
no_cache_entry-IsEntry b = record {
  key = (refl, omega arith);
  value = omega arith;
  reads = λ s t d. rw (read_bool-write_bool t d b) refl;
}

family_text-IsText : (f : Family) → IsText (family_text f)
unfolding is_utf8
family_text-IsText any_family = (refl, omega arith)
family_text-IsText v4_family = (refl, omega arith)
family_text-IsText v6_family = (refl, omega arith)

parse_family-family_text : (f : Family) → parse_family (family_text f) ≡ some f
unfolding parse_family bytes_eq
parse_family-family_text any_family = refl
parse_family-family_text v4_family = refl
parse_family-family_text v6_family = refl

family_entry-IsEntry : (f : Family) → IsEntry request_field (family_entry f)
unfolding request_field bytes_eq is_utf8
family_entry-IsEntry f =
    let h = family_text-IsText f in
    record {
      key = (refl, omega arith);
      value = write_str_pos (family_text f);
      reads = λ s t d.
          rw (read_str-write_str (family_text f) t d h.0 h.1, parse_family-family_text f) refl;
    }

address_entry-IsEntry : (a : Bytes) → IsText a → IsEntry request_field (address_entry a)
unfolding request_field bytes_eq is_utf8
address_entry-IsEntry a h = record {
  key = (refl, omega arith);
  value = write_str_pos a;
  reads = λ s t d. rw (read_str-write_str a t d h.0 h.1) refl;
}

-- The kinds of request.
resolve_kind-IsText : IsText (bytes "resolve")
unfolding is_utf8
resolve_kind-IsText = (refl, omega arith)

lookup_kind-IsText : IsText (bytes "lookup")
unfolding is_utf8
lookup_kind-IsText = (refl, omega arith)

reverse_kind-IsText : IsText (bytes "reverse")
unfolding is_utf8
reverse_kind-IsText = (refl, omega arith)

status_kind-IsText : IsText (bytes "status")
unfolding is_utf8
status_kind-IsText = (refl, omega arith)

flush_kind-IsText : IsText (bytes "flush")
unfolding is_utf8
flush_kind-IsText = (refl, omega arith)

-- Every request whose strings and numbers fit is read back as it was written.
pub decode-encode_request :
    (ip : IpText) (q : Request) → IsRequest q → decode ip (encode ip q) ≡ ok q
unfolding decode encode bytes_eq
decode-encode_request ip (resolve name rtype no_cache) h =
    rw
      (for_each_field-end request_field 4
        (query_entry (bytes "resolve")
          ∷ name_entry name
          ∷ type_entry rtype
          ∷ no_cache_entry no_cache
          ∷ [])
        no_draft refl (omega arith)
        (
          query_entry-IsEntry (bytes "resolve") resolve_kind-IsText,
          (
            name_entry-IsEntry name h.0,
            (type_entry-IsEntry rtype h.1, (no_cache_entry-IsEntry no_cache, tt)),
          ),
        )
        refl)
      refl
decode-encode_request ip (lookup name family) h =
    rw
      (for_each_field-end request_field 3
        (query_entry (bytes "lookup") ∷ name_entry name ∷ family_entry family ∷ []) no_draft refl
        (omega arith)
        (
          query_entry-IsEntry (bytes "lookup") lookup_kind-IsText,
          (name_entry-IsEntry name h, (family_entry-IsEntry family, tt)),
        )
        refl)
      refl
decode-encode_request ip (reverse address) h =
    rw
      (
        for_each_field-end request_field 2
            (query_entry (bytes "reverse") ∷ address_entry (ip.to_string address) ∷ []) no_draft
            refl (omega arith)
            (
              query_entry-IsEntry (bytes "reverse") reverse_kind-IsText,
              (
                address_entry-IsEntry (ip.to_string address)
                    (ip.to_string_utf8 address h, omega (arith, ip.length-to_string address h)),
                tt,
              ),
            )
            refl,
        ip.parse-to_string address h,
      )
      refl
decode-encode_request ip status h =
    rw
      (for_each_field-end request_field 1 (query_entry (bytes "status") ∷ []) no_draft refl
        (omega arith) (query_entry-IsEntry (bytes "status") status_kind-IsText, tt) refl)
      refl
decode-encode_request ip flush h =
    rw
      (for_each_field-end request_field 1 (query_entry (bytes "flush") ∷ []) no_draft refl
        (omega arith) (query_entry-IsEntry (bytes "flush") flush_kind-IsText, tt) refl)
      refl
