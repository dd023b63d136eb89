-- ===== src/Native/Messages.antt =====
-- The data of a reply, of resolvd-core/src/lib.rs, with the `Default` of each.
use resolvd.Prelude.{ℕ, Bool, false, List, [], Option, none, Bytes}
use resolvd.Net.{IpAddr}
use resolvd.Cache.{Outcome, unavailable}
use resolvd.Native.{Validation, unvalidated}

pub record RecordOut : Type 0 where
  pub name : Bytes
  pub rtype : ℕ
  pub ttl : ℕ
  pub data_wire : Bytes
  pub text : Bytes

abbrev pub no_record : RecordOut
no_record = record { name = []; rtype = 0; ttl = 0; data_wire = []; text = [] }

-- `Answer`
pub record AnswerOut : Type 0 where
  pub outcome : Outcome
  pub records : List RecordOut
  pub source : Bytes
  pub server : Option Bytes
  pub interface : Option Bytes
  pub validation : Validation
  pub rcode : ℕ

abbrev pub no_answer : AnswerOut
no_answer = record {
  outcome = unavailable;
  records = [];
  source = [];
  server = none;
  interface = none;
  validation = unvalidated;
  rcode = 0;
}

pub record AddressOut : Type 0 where
  pub address : IpAddr
  pub ttl : ℕ

-- `Addresses`
pub record AddressesOut : Type 0 where
  pub outcome : Outcome
  pub canonical : Bytes
  pub addresses : List AddressOut
  pub source : Bytes
  pub validation : Validation

abbrev pub no_addresses : AddressesOut
no_addresses = record {
  outcome = unavailable;
  canonical = [];
  addresses = [];
  source = [];
  validation = unvalidated;
}

pub record ScopeStatus : Type 0 where
  pub interface : Bytes
  pub servers : List Bytes
  pub domains : List Bytes
  pub default_route : Bool
  pub exclusive : Bool
  pub metric : ℕ
  pub subnets : List Bytes
  pub demoted : List Bytes

abbrev pub no_scope : ScopeStatus
no_scope = record {
  interface = [];
  servers = [];
  domains = [];
  default_route = false;
  exclusive = false;
  metric = 0;
  subnets = [];
  demoted = [];
}

-- `Counters`
pub record CountersOut : Type 0 where
  pub queries : ℕ
  pub synthetic : ℕ
  pub cache_hits : ℕ
  pub upstream_sent : ℕ
  pub upstream_answered : ℕ
  pub upstream_failed : ℕ
  pub refused : ℕ

abbrev pub no_counters : CountersOut
no_counters = record {
  queries = 0;
  synthetic = 0;
  cache_hits = 0;
  upstream_sent = 0;
  upstream_answered = 0;
  upstream_failed = 0;
  refused = 0;
}

pub record StatusReport : Type 0 where
  pub hostname : Bytes
  pub netd : Bool
  pub scopes : List ScopeStatus
  pub fallback_servers : List Bytes
  pub cache_entries : ℕ
  pub counters : CountersOut

abbrev pub no_status : StatusReport
no_status = record {
  hostname = [];
  netd = false;
  scopes = [];
  fallback_servers = [];
  cache_entries = 0;
  counters = no_counters;
}

-- `Reply`, whose variants are Ok, Error, Answer, Addresses and Status in the code.
pub data Reply : Type 0 where
  done : Reply
  failed : (message : Bytes) → Reply
  answered : AnswerOut → Reply
  located : AddressesOut → Reply
  reported : StatusReport → Reply
