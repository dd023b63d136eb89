-- ===== src/Native/Reply/RoundTrip.antt =====
-- `Reply::decode` reads back what `Reply::encode` wrote.
use resolvd.Prelude.{
  ◌%◌, ◌^◌, ◌≡◌, ◌<◌, refl, true, false, List, [], ◌∷◌, All, length, bytes, bytes_eq, is_utf8, ok,
  arith,
}
use resolvd.Msgpack.{write_str}
use resolvd.Msgpack.RoundTrip.{IsText}
use resolvd.Native.Messages.{
  RecordOut, AnswerOut, AddressesOut, StatusReport, ScopeStatus, Reply, done, failed, answered,
  located, reported,
}
use resolvd.Native.Fields.{IsEntry, for_each_field-end}
use resolvd.Native.Request.{IpText, entry}
use resolvd.Native.Lists.{IsItem, IsOptText}
use resolvd.Native.Parts.Entries.{AreTexts}
use resolvd.Native.Parts.RoundTrip.{
  IsRecordOut, record-IsItem, IsScopeStatus, scope-IsItem, AreCounters,
}
use resolvd.Native.Parts.Addresses.RoundTrip.{IsAddressOut}
use resolvd.Native.Parts.Records.{write_record, record_one}
use resolvd.Native.Parts.Scopes.{write_scope, scope_one}
use resolvd.Native.Reply.Variables.{no_draft, set_error}
use resolvd.Native.Reply.Entries.{good_entry, answer_entries, status_entries, addresses_entries}
use resolvd.Native.Reply.{reply_field, encode, decode, finish}
use resolvd.Native.Reply.Written.{
  parse_outcome-outcome_text, parse_validation-validation_text, good_entry-IsEntry,
  kind_entry-IsEntry, outcome_entry-IsEntry, validation_entry-IsEntry, source_entry-IsEntry,
  error_entry-IsEntry, server_entry-IsEntry, interface_entry-IsEntry, rcode_entry-IsEntry,
  records_entry-IsEntry, scopes_entry-IsEntry, addresses_entry-IsEntry, counters_entry-IsEntry,
  canonical_entry-IsEntry, hostname_entry-IsEntry, netd_entry-IsEntry, fallback_entry-IsEntry,
  cache_entries_entry-IsEntry,
}

-- Strings and arrays that fit their headers, numbers that fit their types, and counts below 2^63.

pub record IsAnswerOut (a : AnswerOut) : Type 0 where
  pub few : length a.records < 2 ^ 32
  pub records : All IsRecordOut a.records
  pub source : IsText a.source
  pub server : IsOptText a.server
  pub interface : IsOptText a.interface
  pub rcode : a.rcode < 2 ^ 16

pub record IsAddressesOut (a : AddressesOut) : Type 0 where
  pub canonical : IsText a.canonical
  pub few : length a.addresses < 2 ^ 32
  pub addresses : All IsAddressOut a.addresses
  pub source : IsText a.source

pub record IsStatusReport (x : StatusReport) : Type 0 where
  pub hostname : IsText x.hostname
  pub few : length x.scopes < 2 ^ 32
  pub scopes : All IsScopeStatus x.scopes
  pub fallback_servers : AreTexts x.fallback_servers
  pub cache_entries : x.cache_entries < 2 ^ 63
  pub counters : AreCounters x.counters

abbrev pub IsReply : Reply → Type 0
IsReply done = Unit {0}
IsReply (failed message) = IsText message
IsReply (answered a) = IsAnswerOut a
IsReply (located a) = IsAddressesOut a
IsReply (reported x) = IsStatusReport x

records-IsItem :
    (xs : List RecordOut) → All IsRecordOut xs → All (IsItem write_record record_one) xs
records-IsItem [] h = tt
records-IsItem (x ∷ xs) h = (record-IsItem x h.0, records-IsItem xs h.1)

scopes-IsItem :
    (xs : List ScopeStatus) → All IsScopeStatus xs → All (IsItem write_scope scope_one) xs
scopes-IsItem [] h = tt
scopes-IsItem (x ∷ xs) h = (scope-IsItem x h.0, scopes-IsItem xs h.1)

answer_kind-IsText : IsText (bytes "answer")
unfolding is_utf8
answer_kind-IsText = (refl, omega arith)

addresses_kind-IsText : IsText (bytes "addresses")
unfolding is_utf8
addresses_kind-IsText = (refl, omega arith)

status_kind-IsText : IsText (bytes "status")
unfolding is_utf8
status_kind-IsText = (refl, omega arith)

module _ (ip : IpText) where
  answer_entries-IsEntry :
      (a : AnswerOut) → IsAnswerOut a → All (IsEntry (reply_field ip)) (answer_entries a)
  answer_entries-IsEntry a h = (
    good_entry-IsEntry ip true,
    (
      kind_entry-IsEntry ip (bytes "answer") answer_kind-IsText,
      (
        outcome_entry-IsEntry ip a.outcome,
        (
          records_entry-IsEntry ip a.records h.few (records-IsItem a.records h.records),
          (
            source_entry-IsEntry ip a.source h.source,
            (
              server_entry-IsEntry ip a.server h.server,
              (
                interface_entry-IsEntry ip a.interface h.interface,
                (
                  validation_entry-IsEntry ip a.validation,
                  (rcode_entry-IsEntry ip a.rcode h.rcode, tt),
                ),
              ),
            ),
          ),
        ),
      ),
    ),
  )

  addresses_entries-IsEntry :
      (a : AddressesOut)
      → IsAddressesOut a
      → All (IsEntry (reply_field ip)) (addresses_entries ip a)
  addresses_entries-IsEntry a h = (
    good_entry-IsEntry ip true,
    (
      kind_entry-IsEntry ip (bytes "addresses") addresses_kind-IsText,
      (
        outcome_entry-IsEntry ip a.outcome,
        (
          canonical_entry-IsEntry ip a.canonical h.canonical,
          (
            addresses_entry-IsEntry ip a.addresses h.few h.addresses,
            (
              source_entry-IsEntry ip a.source h.source,
              (validation_entry-IsEntry ip a.validation, tt),
            ),
          ),
        ),
      ),
    ),
  )

  status_entries-IsEntry :
      (x : StatusReport) → IsStatusReport x → All (IsEntry (reply_field ip)) (status_entries x)
  status_entries-IsEntry x h = (
    good_entry-IsEntry ip true,
    (
      kind_entry-IsEntry ip (bytes "status") status_kind-IsText,
      (
        hostname_entry-IsEntry ip x.hostname h.hostname,
        (
          netd_entry-IsEntry ip x.netd,
          (
            scopes_entry-IsEntry ip x.scopes h.few (scopes-IsItem x.scopes h.scopes),
            (
              fallback_entry-IsEntry ip x.fallback_servers h.fallback_servers,
              (
                cache_entries_entry-IsEntry ip x.cache_entries h.cache_entries,
                (counters_entry-IsEntry ip x.counters h.counters, tt),
              ),
            ),
          ),
        ),
      ),
    ),
  )

-- Every reply whose strings, arrays and numbers fit is read back as it was written.
pub decode-encode_reply : (ip : IpText) (x : Reply) → IsReply x → decode ip (encode ip x) ≡ ok x
unfolding decode encode finish bytes_eq
decode-encode_reply ip done h =
    rw
      (for_each_field-end (reply_field ip) 1 (good_entry true ∷ []) no_draft refl (omega arith)
        (good_entry-IsEntry ip true, tt) refl)
      refl
decode-encode_reply ip (failed m) h =
    rw
      (for_each_field-end (reply_field ip) 2
        (good_entry false ∷ entry (bytes "error") (write_str m) (set_error m) ∷ []) no_draft refl
        (omega arith) (good_entry-IsEntry ip false, (error_entry-IsEntry ip m h, tt)) refl)
      refl
decode-encode_reply ip (answered a) h =
    let rcode : a.rcode % 2 ^ 16 ≡ a.rcode = omega (arith, h.rcode) in
    rw
      (
        for_each_field-end (reply_field ip) 9 (answer_entries a) no_draft refl (omega arith)
            (answer_entries-IsEntry ip a h) refl,
        parse_outcome-outcome_text a.outcome,
        parse_validation-validation_text a.validation,
        rcode,
      )
      refl
decode-encode_reply ip (located a) h =
    rw
      (
        for_each_field-end (reply_field ip) 7 (addresses_entries ip a) no_draft refl (omega arith)
            (addresses_entries-IsEntry ip a h) refl,
        parse_outcome-outcome_text a.outcome,
        parse_validation-validation_text a.validation,
      )
      refl
decode-encode_reply ip (reported x) h =
    rw
      (for_each_field-end (reply_field ip) 8 (status_entries x) no_draft refl (omega arith)
        (status_entries-IsEntry ip x h) refl)
      refl
