-- ===== src/Native/Reply/Variables.antt =====
-- The variables of `Reply::decode` of resolvd-core/src/lib.rs, and what each field does to them.
use resolvd.Prelude.{ℕ, ◌%◌, ◌^◌, Bool, List, Option, none, some, Bytes}
use resolvd.Cache.{Outcome, unavailable}
use resolvd.Native.{parse_outcome, Validation, unvalidated, parse_validation}
use resolvd.Native.Messages.{
  AnswerOut, no_answer, AddressesOut, no_addresses, StatusReport, no_status,
}

-- The variables of `decode`.
pub record Draft : Type 0 where
  pub good : Option Bool
  pub error : Option Bytes
  pub kind : Option Bytes
  pub answer : AnswerOut
  pub addresses : AddressesOut
  pub status : StatusReport

abbrev pub no_draft : Draft
no_draft = record {
  good = none;
  error = none;
  kind = none;
  answer = no_answer;
  addresses = no_addresses;
  status = no_status;
}

abbrev pub or_unavailable : Option Outcome → Outcome
or_unavailable none = unavailable
or_unavailable (some o) = o

abbrev pub or_unvalidated : Option Validation → Validation
or_unvalidated none = unvalidated
or_unvalidated (some v) = v

-- What each field does to the variables.

abbrev pub set_good : Bool → Draft → Draft
set_good b s = record s { good = some b }

abbrev pub set_error : Bytes → Draft → Draft
set_error m s = record s { error = some m }

abbrev pub set_kind : Bytes → Draft → Draft
set_kind k s = record s { kind = some k }

abbrev pub set_outcome : Bytes → Draft → Draft
set_outcome o s = record s {
  answer = record s.answer { outcome = or_unavailable (parse_outcome o) };
  addresses = record s.addresses { outcome = or_unavailable (parse_outcome o) };
}

abbrev pub set_validation : Bytes → Draft → Draft
set_validation v s = record s {
  answer = record s.answer { validation = or_unvalidated (parse_validation v) };
  addresses = record s.addresses { validation = or_unvalidated (parse_validation v) };
}

abbrev pub set_source : Bytes → Draft → Draft
set_source x s = record s {
  answer = record s.answer { source = x };
  addresses = record s.addresses { source = x };
}

abbrev pub set_server : Option Bytes → Draft → Draft
set_server x s = record s { answer = record s.answer { server = x } }

abbrev pub set_interface : Option Bytes → Draft → Draft
set_interface x s = record s { answer = record s.answer { interface = x } }

abbrev pub set_rcode : ℕ → Draft → Draft
set_rcode n s = record s { answer = record s.answer { rcode = n % 2 ^ 16 } }

abbrev pub set_canonical : Bytes → Draft → Draft
set_canonical x s = record s { addresses = record s.addresses { canonical = x } }

abbrev pub set_hostname : Bytes → Draft → Draft
set_hostname x s = record s { status = record s.status { hostname = x } }

abbrev pub set_netd : Bool → Draft → Draft
set_netd b s = record s { status = record s.status { netd = b } }

abbrev pub set_fallback_servers : List Bytes → Draft → Draft
set_fallback_servers xs s = record s { status = record s.status { fallback_servers = xs } }

abbrev pub set_cache_entries : ℕ → Draft → Draft
set_cache_entries n s = record s { status = record s.status { cache_entries = n } }
