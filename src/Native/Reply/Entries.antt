-- ===== src/Native/Reply/Entries.antt =====
-- The fields of each reply of resolvd-core/src/lib.rs, in the order in which they are written.
use resolvd.Prelude.{Bool, true, List, [], ◌∷◌, ◌++◌, Bytes, bytes}
use resolvd.Cache.{Outcome}
use resolvd.Msgpack.{write_str, write_uint, write_bool}
use resolvd.Native.{outcome_text, Validation, validation_text}
use resolvd.Native.Messages.{
  RecordOut, ScopeStatus, CountersOut, AddressOut, AnswerOut, AddressesOut, StatusReport,
}
use resolvd.Native.Fields.{Entry}
use resolvd.Native.Request.{IpText, entry}
use resolvd.Native.Lists.{write_items, write_opt_str}
use resolvd.Native.Parts.Records.{write_record}
use resolvd.Native.Parts.Addresses.{write_address}
use resolvd.Native.Parts.Scopes.{write_scope}
use resolvd.Native.Parts.Counters.{write_counters}
use resolvd.Native.Reply.Variables.{
  Draft, set_good, set_kind, set_outcome, set_validation, set_source, set_server, set_interface,
  set_rcode, set_canonical, set_hostname, set_netd, set_fallback_servers, set_cache_entries,
}

abbrev pub good_entry : Bool → Entry Draft
good_entry b = entry (bytes "ok") (write_bool b) (set_good b)

abbrev pub kind_entry : Bytes → Entry Draft
kind_entry k = entry (bytes "kind") (write_str k) (set_kind k)

abbrev pub outcome_entry : Outcome → Entry Draft
outcome_entry o =
    entry (bytes "outcome") (write_str (outcome_text o)) (set_outcome (outcome_text o))

abbrev pub validation_entry : Validation → Entry Draft
validation_entry v =
    entry (bytes "validation") (write_str (validation_text v)) (set_validation (validation_text v))

abbrev pub source_entry : Bytes → Entry Draft
source_entry x = entry (bytes "source") (write_str x) (set_source x)

abbrev pub records_entry : List RecordOut → Entry Draft
records_entry xs =
    entry (bytes "records") (write_items write_record xs)
      (λ s. record s { answer = record s.answer { records = s.answer.records ++ xs } })

abbrev pub scopes_entry : List ScopeStatus → Entry Draft
scopes_entry xs =
    entry (bytes "scopes") (write_items write_scope xs)
      (λ s. record s { status = record s.status { scopes = s.status.scopes ++ xs } })

abbrev pub counters_entry : CountersOut → Entry Draft
counters_entry c =
    entry (bytes "counters") (write_counters c)
      (λ s. record s { status = record s.status { counters = c } })

abbrev pub answer_entries : AnswerOut → List (Entry Draft)
answer_entries a =
    good_entry true
    ∷ kind_entry (bytes "answer")
    ∷ outcome_entry a.outcome
    ∷ records_entry a.records
    ∷ source_entry a.source
    ∷ entry (bytes "server") (write_opt_str a.server) (set_server a.server)
    ∷ entry (bytes "interface") (write_opt_str a.interface) (set_interface a.interface)
    ∷ validation_entry a.validation
    ∷ entry (bytes "rcode") (write_uint a.rcode) (set_rcode a.rcode)
    ∷ []

abbrev pub status_entries : StatusReport → List (Entry Draft)
status_entries x =
    good_entry true
    ∷ kind_entry (bytes "status")
    ∷ entry (bytes "hostname") (write_str x.hostname) (set_hostname x.hostname)
    ∷ entry (bytes "netd") (write_bool x.netd) (set_netd x.netd)
    ∷ scopes_entry x.scopes
    ∷ entry (bytes "fallback_servers") (write_items write_str x.fallback_servers)
        (set_fallback_servers x.fallback_servers)
    ∷ entry (bytes "cache_entries") (write_uint x.cache_entries) (set_cache_entries x.cache_entries)
    ∷ counters_entry x.counters
    ∷ []

module _ (ip : IpText) where
  abbrev pub addresses_entry : List AddressOut → Entry Draft
  addresses_entry xs =
      entry (bytes "addresses") (write_items (write_address ip) xs) (λ s. record s {
        addresses = record s.addresses { addresses = s.addresses.addresses ++ xs };
      })

  abbrev pub addresses_entries : AddressesOut → List (Entry Draft)
  addresses_entries a =
      good_entry true
      ∷ kind_entry (bytes "addresses")
      ∷ outcome_entry a.outcome
      ∷ entry (bytes "canonical") (write_str a.canonical) (set_canonical a.canonical)
      ∷ addresses_entry a.addresses
      ∷ source_entry a.source
      ∷ validation_entry a.validation
      ∷ []
