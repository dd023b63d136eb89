-- ===== src/Native/Reply.antt =====
-- `Reply::encode` and `Reply::decode` of resolvd-core/src/lib.rs.
pub mod Variables
pub mod Entries
pub mod Written
pub mod RoundTrip
use resolvd.Prelude.{
  ℕ, ◌%◌, ◌^◌, ◌&&◌, Bool, true, false, List, [], ◌∷◌, ◌++◌, Option, none, some, Bytes, bytes,
  bytes_eq, if◌then◌else◌, Result, ok, err, stuck, ◌>>=◌,
}
use resolvd.Cache.{Outcome, unavailable}
use resolvd.Msgpack.{write_map, write_str, write_uint, write_bool}
use resolvd.Msgpack.Reader.{Reader, new, read_str, read_uint, read_bool}
use resolvd.Msgpack.Skip.{skip}
use resolvd.Native.{
  outcome_text, parse_outcome, Validation, unvalidated, validation_text, parse_validation,
  WireError, missing, codec,
}
use resolvd.Native.Messages.{
  AnswerOut, no_answer, AddressesOut, no_addresses, StatusReport, no_status, Reply, done, failed,
  answered, located, reported,
}
use resolvd.Native.Fields.{Field, for_each_field, Entry, write_fields}
use resolvd.Native.Request.{IpText, entry}
use resolvd.Native.Lists.{write_items, read_items, text_one, write_opt_str, read_opt_str}
use resolvd.Native.Parts.Arms.{text_arm, uint_arm, bool_arm, list_arm, skip_arm}
use resolvd.Native.Parts.Records.{write_record, record_one}
use resolvd.Native.Parts.Addresses.{write_address, read_addresses}
use resolvd.Native.Parts.Scopes.{write_scope, scope_one}
use resolvd.Native.Parts.Counters.{write_counters, counter_field}
use resolvd.Native.Reply.Variables.{
  Draft, no_draft, or_unavailable, or_unvalidated, set_good, set_error, set_kind, set_outcome,
  set_validation, set_source, set_server, set_interface, set_rcode, set_canonical, set_hostname,
  set_netd, set_fallback_servers, set_cache_entries,
}
use resolvd.Native.Reply.Entries.{
  good_entry, kind_entry, outcome_entry, validation_entry, source_entry, answer_entries,
  status_entries, addresses_entries,
}

abbrev pub opt_arm :
    (Option Bytes → Draft → Draft) → Draft → Reader → Result WireError (Draft × Reader)
opt_arm set s r = do (v, r') ← read_opt_str r; ok (set v s, r')

abbrev pub records_arm : Draft → Reader → Result WireError (Draft × Reader)
records_arm s r = do
  (xs, r') ← read_items record_one s.answer.records r
  ok (record s { answer = record s.answer { records = xs } }, r')

abbrev pub scopes_arm : Draft → Reader → Result WireError (Draft × Reader)
scopes_arm s r = do
  (xs, r') ← read_items scope_one s.status.scopes r
  ok (record s { status = record s.status { scopes = xs } }, r')

abbrev pub counters_arm : Draft → Reader → Result WireError (Draft × Reader)
counters_arm s r = do
  (c, r') ← for_each_field counter_field s.status.counters r
  ok (record s { status = record s.status { counters = c } }, r')

module _ (ip : IpText) where
  abbrev pub addresses_arm : Draft → Reader → Result WireError (Draft × Reader)
  addresses_arm s r = do
    (xs, r') ← read_addresses ip s.addresses.addresses r
    ok (record s { addresses = record s.addresses { addresses = xs } }, r')

  unfoldable pub reply_field : Field Draft
  reply_field s key r =
      if bytes_eq key (bytes "ok")
      then bool_arm set_good s r
      else if bytes_eq key (bytes "error")
      then text_arm set_error s r
      else if bytes_eq key (bytes "kind")
      then text_arm set_kind s r
      else if bytes_eq key (bytes "outcome")
      then text_arm set_outcome s r
      else if bytes_eq key (bytes "validation")
      then text_arm set_validation s r
      else if bytes_eq key (bytes "source")
      then text_arm set_source s r
      else if bytes_eq key (bytes "server")
      then opt_arm set_server s r
      else if bytes_eq key (bytes "interface")
      then opt_arm set_interface s r
      else if bytes_eq key (bytes "rcode")
      then uint_arm set_rcode s r
      else if bytes_eq key (bytes "records")
      then records_arm s r
      else if bytes_eq key (bytes "canonical")
      then text_arm set_canonical s r
      else if bytes_eq key (bytes "addresses")
      then addresses_arm s r
      else if bytes_eq key (bytes "hostname")
      then text_arm set_hostname s r
      else if bytes_eq key (bytes "netd")
      then bool_arm set_netd s r
      else if bytes_eq key (bytes "fallback_servers")
      then list_arm set_fallback_servers s r
      else if bytes_eq key (bytes "cache_entries")
      then uint_arm set_cache_entries s r
      else if bytes_eq key (bytes "scopes")
      then scopes_arm s r
      else if bytes_eq key (bytes "counters")
      then counters_arm s r
      else skip_arm s r

  unfoldable pub encode : Reply → Bytes
  encode done = write_map 1 ++ write_fields (good_entry true ∷ [])
  encode (failed message) =
      write_map 2
      ++ write_fields
          (good_entry false ∷ entry (bytes "error") (write_str message) (set_error message) ∷ [])
  encode (answered a) = write_map 9 ++ write_fields (answer_entries a)
  encode (located a) = write_map 7 ++ write_fields (addresses_entries ip a)
  encode (reported x) = write_map 8 ++ write_fields (status_entries x)

  abbrev or_unspecified : Option Bytes → Bytes
  or_unspecified none = bytes "unspecified error"
  or_unspecified (some m) = m

  abbrev of_kind : Option Bytes → Draft → Reply
  of_kind none s = done
  of_kind (some k) s =
      if bytes_eq k (bytes "answer")
      then answered s.answer
      else if bytes_eq k (bytes "addresses")
      then located s.addresses
      else if bytes_eq k (bytes "status")
      then reported s.status
      else done

  -- The `match (ok, kind.as_deref())`.
  unfoldable pub finish : Draft → Result WireError Reply
  finish s = elim s.good [
    | none ↦ err (missing (bytes "ok"))
    | some b ↦ if b then ok (of_kind s.kind s) else ok (failed (or_unspecified s.error))
  ]

  unfoldable pub decode : Bytes → Result WireError Reply
  unfolding finish reply_field
  decode b = do (s, r) ← for_each_field reply_field no_draft (new b); finish s
