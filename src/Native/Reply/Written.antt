-- ===== src/Native/Reply/Written.antt =====
-- Each field of a reply that is written is read back.
use resolvd.Prelude.{
  ℕ, ◌^◌, ◌≡◌, ◌<◌, refl, Bool, List, [], Option, some, All, length, Bytes, bytes, bytes_eq,
  is_utf8, err, arith,
}
use resolvd.Cache.{Outcome, found, not_found, unavailable}
use resolvd.Msgpack.{write_str, write_uint, write_bool}
use resolvd.Msgpack.RoundTrip.{IsText}
use resolvd.Native.{
  missing, outcome_text, parse_outcome, Validation, unvalidated, secure, insecure, bogus,
  validation_text, parse_validation,
}
use resolvd.Native.Messages.{AddressOut, CountersOut, RecordOut, ScopeStatus}
use resolvd.Native.Fields.{IsEntry}
use resolvd.Native.Request.{IpText, entry}
use resolvd.Native.Lists.{
  IsItem, write_items, write_items_pos, read_items-write_items, IsOptText, write_opt_str,
  write_opt_str_pos, read_opt_str-write_opt_str,
}
use resolvd.Native.Parts.Entries.{text-IsEntry, uint-IsEntry, bool-IsEntry, list-IsEntry, AreTexts}
use resolvd.Native.Parts.RoundTrip.{AreCounters, write_counters_pos, counters-write_counters}
use resolvd.Native.Parts.Addresses.{write_address}
use resolvd.Native.Parts.Addresses.RoundTrip.{IsAddressOut, read_addresses-write_items}
use resolvd.Native.Parts.Records.{write_record, record_one}
use resolvd.Native.Parts.Scopes.{write_scope, scope_one}
use resolvd.Native.Reply.Variables.{
  set_good, set_error, set_kind, set_outcome, set_validation, set_source, set_server, set_interface,
  set_rcode, set_canonical, set_hostname, set_netd, set_fallback_servers, set_cache_entries,
}
use resolvd.Native.Reply.Entries.{
  records_entry, scopes_entry, counters_entry, addresses_entry, good_entry, kind_entry,
  outcome_entry, validation_entry, source_entry,
}
use resolvd.Native.Reply.{reply_field}

outcome_text-IsText : (o : Outcome) → IsText (outcome_text o)
unfolding is_utf8
outcome_text-IsText found = (refl, omega arith)
outcome_text-IsText not_found = (refl, omega arith)
outcome_text-IsText unavailable = (refl, omega arith)

pub parse_outcome-outcome_text : (o : Outcome) → parse_outcome (outcome_text o) ≡ some o
unfolding parse_outcome bytes_eq
parse_outcome-outcome_text found = refl
parse_outcome-outcome_text not_found = refl
parse_outcome-outcome_text unavailable = refl

validation_text-IsText : (v : Validation) → IsText (validation_text v)
unfolding is_utf8
validation_text-IsText unvalidated = (refl, omega arith)
validation_text-IsText secure = (refl, omega arith)
validation_text-IsText insecure = (refl, omega arith)
validation_text-IsText bogus = (refl, omega arith)

pub parse_validation-validation_text :
    (v : Validation) → parse_validation (validation_text v) ≡ some v
unfolding parse_validation bytes_eq
parse_validation-validation_text unvalidated = refl
parse_validation-validation_text secure = refl
parse_validation-validation_text insecure = refl
parse_validation-validation_text bogus = refl

module _ (ip : IpText) where
  pub good_entry-IsEntry : (b : Bool) → IsEntry (reply_field ip) (good_entry b)
  unfolding reply_field bytes_eq is_utf8
  good_entry-IsEntry =
      bool-IsEntry (reply_field ip) (bytes "ok") (refl, omega arith) set_good (λ s r. refl)

  pub kind_entry-IsEntry : (k : Bytes) → IsText k → IsEntry (reply_field ip) (kind_entry k)
  unfolding reply_field bytes_eq is_utf8
  kind_entry-IsEntry =
      text-IsEntry (reply_field ip) (bytes "kind") (refl, omega arith) set_kind (λ s r. refl)

  pub outcome_entry-IsEntry : (o : Outcome) → IsEntry (reply_field ip) (outcome_entry o)
  unfolding reply_field bytes_eq is_utf8
  outcome_entry-IsEntry o =
      text-IsEntry (reply_field ip) (bytes "outcome") (refl, omega arith) set_outcome (λ s r. refl)
        (outcome_text o) (outcome_text-IsText o)

  pub validation_entry-IsEntry : (v : Validation) → IsEntry (reply_field ip) (validation_entry v)
  unfolding reply_field bytes_eq is_utf8
  validation_entry-IsEntry v =
      text-IsEntry (reply_field ip) (bytes "validation") (refl, omega arith) set_validation
        (λ s r. refl) (validation_text v) (validation_text-IsText v)

  pub source_entry-IsEntry : (x : Bytes) → IsText x → IsEntry (reply_field ip) (source_entry x)
  unfolding reply_field bytes_eq is_utf8
  source_entry-IsEntry =
      text-IsEntry (reply_field ip) (bytes "source") (refl, omega arith) set_source (λ s r. refl)

  pub error_entry-IsEntry :
      (m : Bytes)
      → IsText m
      → IsEntry (reply_field ip) (entry (bytes "error") (write_str m) (set_error m))
  unfolding reply_field bytes_eq is_utf8
  error_entry-IsEntry =
      text-IsEntry (reply_field ip) (bytes "error") (refl, omega arith) set_error (λ s r. refl)

  pub server_entry-IsEntry :
      (x : Option Bytes)
      → IsOptText x
      → IsEntry (reply_field ip) (entry (bytes "server") (write_opt_str x) (set_server x))
  unfolding reply_field bytes_eq is_utf8
  server_entry-IsEntry x h = record {
    key = (refl, omega arith);
    value = write_opt_str_pos x;
    reads = λ s t d. rw (read_opt_str-write_opt_str x t d h) refl;
  }

  pub interface_entry-IsEntry :
      (x : Option Bytes)
      → IsOptText x
      → IsEntry (reply_field ip) (entry (bytes "interface") (write_opt_str x) (set_interface x))
  unfolding reply_field bytes_eq is_utf8
  interface_entry-IsEntry x h = record {
    key = (refl, omega arith);
    value = write_opt_str_pos x;
    reads = λ s t d. rw (read_opt_str-write_opt_str x t d h) refl;
  }

  pub rcode_entry-IsEntry :
      (n : ℕ)
      → n < 2 ^ 16
      → IsEntry (reply_field ip) (entry (bytes "rcode") (write_uint n) (set_rcode n))
  unfolding reply_field bytes_eq is_utf8
  rcode_entry-IsEntry n h =
      uint-IsEntry (reply_field ip) (bytes "rcode") (refl, omega arith) set_rcode (λ s r. refl) n
        (omega (arith, h))

  pub records_entry-IsEntry :
      (xs : List RecordOut)
      → length xs < 2 ^ 32
      → All (IsItem write_record record_one) xs
      → IsEntry (reply_field ip) (records_entry xs)
  unfolding reply_field bytes_eq is_utf8
  records_entry-IsEntry xs small h = record {
    key = (refl, omega arith);
    value = write_items_pos write_record record_one xs;
    reads = λ s t d.
        rw (read_items-write_items write_record record_one xs s.answer.records t d small h) refl;
  }

  pub scopes_entry-IsEntry :
      (xs : List ScopeStatus)
      → length xs < 2 ^ 32
      → All (IsItem write_scope scope_one) xs
      → IsEntry (reply_field ip) (scopes_entry xs)
  unfolding reply_field bytes_eq is_utf8
  scopes_entry-IsEntry xs small h = record {
    key = (refl, omega arith);
    value = write_items_pos write_scope scope_one xs;
    reads = λ s t d.
        rw (read_items-write_items write_scope scope_one xs s.status.scopes t d small h) refl;
  }

  pub addresses_entry-IsEntry :
      (xs : List AddressOut)
      → length xs < 2 ^ 32
      → All IsAddressOut xs
      → IsEntry (reply_field ip) (addresses_entry ip xs)
  unfolding reply_field bytes_eq is_utf8
  addresses_entry-IsEntry xs small h = record {
    key = (refl, omega arith);
    value = write_items_pos (write_address ip) (λ r. err (missing [])) xs;
    reads = λ s t d. rw (read_addresses-write_items ip xs s.addresses.addresses t d small h) refl;
  }

  pub counters_entry-IsEntry :
      (c : CountersOut) → AreCounters c → IsEntry (reply_field ip) (counters_entry c)
  unfolding reply_field bytes_eq is_utf8
  counters_entry-IsEntry c h = record {
    key = (refl, omega arith);
    value = write_counters_pos c;
    reads = λ s t d. rw (counters-write_counters c s.status.counters t d h) refl;
  }

  pub canonical_entry-IsEntry :
      (x : Bytes)
      → IsText x
      → IsEntry (reply_field ip) (entry (bytes "canonical") (write_str x) (set_canonical x))
  unfolding reply_field bytes_eq is_utf8
  canonical_entry-IsEntry =
      text-IsEntry (reply_field ip) (bytes "canonical") (refl, omega arith) set_canonical
        (λ s r. refl)

  pub hostname_entry-IsEntry :
      (x : Bytes)
      → IsText x
      → IsEntry (reply_field ip) (entry (bytes "hostname") (write_str x) (set_hostname x))
  unfolding reply_field bytes_eq is_utf8
  hostname_entry-IsEntry =
      text-IsEntry (reply_field ip) (bytes "hostname") (refl, omega arith) set_hostname
        (λ s r. refl)

  pub netd_entry-IsEntry :
      (b : Bool) → IsEntry (reply_field ip) (entry (bytes "netd") (write_bool b) (set_netd b))
  unfolding reply_field bytes_eq is_utf8
  netd_entry-IsEntry =
      bool-IsEntry (reply_field ip) (bytes "netd") (refl, omega arith) set_netd (λ s r. refl)

  pub fallback_entry-IsEntry :
      (xs : List Bytes)
      → AreTexts xs
      → IsEntry
          (reply_field ip)
          (entry (bytes "fallback_servers") (write_items write_str xs) (set_fallback_servers xs))
  unfolding reply_field bytes_eq is_utf8
  fallback_entry-IsEntry =
      list-IsEntry (reply_field ip) (bytes "fallback_servers") (refl, omega arith)
        set_fallback_servers (λ s r. refl)

  pub cache_entries_entry-IsEntry :
      (n : ℕ)
      → n < 2 ^ 63
      → IsEntry
          (reply_field ip)
          (entry (bytes "cache_entries") (write_uint n) (set_cache_entries n))
  unfolding reply_field bytes_eq is_utf8
  cache_entries_entry-IsEntry =
      uint-IsEntry (reply_field ip) (bytes "cache_entries") (refl, omega arith) set_cache_entries
        (λ s r. refl)
