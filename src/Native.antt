-- ===== src/Native.antt =====
-- resolvd-core/src/lib.rs: the messages of the native socket. A `String` is its bytes.
pub mod Fields
pub mod Request
pub mod Lists
pub mod Messages
pub mod Parts
pub mod Reply
pub mod Framing
use resolvd.Prelude.{
  ℕ, ◌+◌, Bool, true, false, List, [], ◌∷◌, Option, none, some, Bytes, bytes, bytes_eq,
  if◌then◌else◌, Result, ok, err, stuck,
}
use resolvd.Net.{IpAddr}
use resolvd.Cache.{Outcome, found, not_found, unavailable}
use resolvd.Msgpack

abbrev pub max_message_bytes : ℕ
max_message_bytes = 65_536

abbrev pub resolver_query : ℕ
resolver_query = 1

abbrev pub resolver_control : ℕ
resolver_control = 2

pub data WireError : Type 0 where
  encoding : Msgpack.Error → WireError
  missing : Bytes → WireError
  duplicate : Bytes → WireError
  unknown_query : Bytes → WireError
  too_large : ℕ → WireError
  io : WireError

-- `From<msgpack::Error>`, as `?` applies it.
abbrev pub codec : {A : Type 0} → Result Msgpack.Error A → Result WireError A
codec (ok a) = ok a
codec (err e) = err (encoding e)
codec stuck = stuck

pub data Family : Type 0 where
  any_family v4_family v6_family : Family

abbrev pub family_text : Family → Bytes
family_text any_family = bytes "any"
family_text v4_family = bytes "inet"
family_text v6_family = bytes "inet6"

unfoldable pub parse_family : Bytes → Option Family
parse_family s =
    if bytes_eq s (bytes "any")
    then some any_family
    else if bytes_eq s (bytes "inet")
    then some v4_family
    else if bytes_eq s (bytes "inet6")
    then some v6_family
    else none

abbrev pub outcome_text : Outcome → Bytes
outcome_text found = bytes "found"
outcome_text not_found = bytes "notfound"
outcome_text unavailable = bytes "unavailable"

unfoldable pub parse_outcome : Bytes → Option Outcome
parse_outcome s =
    if bytes_eq s (bytes "found")
    then some found
    else if bytes_eq s (bytes "notfound")
    then some not_found
    else if bytes_eq s (bytes "unavailable")
    then some unavailable
    else none

pub data Validation : Type 0 where
  unvalidated secure insecure bogus : Validation

abbrev pub validation_text : Validation → Bytes
validation_text unvalidated = bytes "unvalidated"
validation_text secure = bytes "secure"
validation_text insecure = bytes "insecure"
validation_text bogus = bytes "bogus"

unfoldable pub parse_validation : Bytes → Option Validation
parse_validation s =
    if bytes_eq s (bytes "unvalidated")
    then some unvalidated
    else if bytes_eq s (bytes "secure")
    then some secure
    else if bytes_eq s (bytes "insecure")
    then some insecure
    else if bytes_eq s (bytes "bogus")
    then some bogus
    else none
