-- ===== src/Engine/State.antt =====
-- The data of resolvd/src/engine.rs. Ids are numbers, strings their bytes, instants nanoseconds; a
-- HashMap is an association list.
use resolvd.Prelude.{ℕ, Bool, List, [], Option, none, Bytes, ◌≤◌, ◌*◌}
use resolvd.Prelude.Keyed.{Table}
use resolvd.Net.{IpAddr, second}
use resolvd.Dns.Name.{Name}
use resolvd.Dns.Types.{Record, Question}
use resolvd.Cache.{Cache, Outcome}

abbrev pub server_timeout : ℕ
server_timeout = 2 * second

abbrev pub max_attempts : ℕ
max_attempts = 3

abbrev pub demotion : ℕ
demotion = 30 * second

abbrev pub max_positive_ttl : ℕ
max_positive_ttl = 86_400

abbrev pub max_negative_ttl : ℕ
max_negative_ttl = 300

abbrev pub max_in_flight : ℕ
max_in_flight = 4096

-- `netd_core::Level`, an ordered enumeration of the netd library. A level is its rank in that order.
pub record Levels : Type 0 where
  pub link : ℕ
  pub addressed : ℕ
  pub link_le_addressed : link ≤ addressed

pub record Scope : Type 0 where
  pub id : Bytes
  pub interface : Bytes
  pub servers : List IpAddr
  pub domains : List Name
  pub addresses : List (IpAddr × ℕ)
  pub default_route : Bool
  pub exclusive : Bool
  pub metric : ℕ
  pub level : ℕ

pub data Source : Type 0 where
  local synthetic hosts cache dns : Source

pub record Answer : Type 0 where
  pub outcome : Outcome
  pub records : List Record
  pub source : Source
  pub server : Option IpAddr
  pub interface : Option Bytes
  pub rcode : ℕ
  pub resolved_name : Option Name
  pub negative_ttl : ℕ

-- `Answer { outcome, ..Default::default() }`
abbrev pub plain_answer : Outcome → Answer
plain_answer o = record {
  outcome = o;
  records = [];
  source = local;
  server = none;
  interface = none;
  rcode = 0;
  resolved_name = none;
  negative_ttl = 0;
}

pub record Addresses : Type 0 where
  pub outcome : Outcome
  pub canonical : Name
  pub addresses : List (IpAddr × ℕ)
  pub source : Source

pub data Completion : Type 0 where
  answer : Answer → Completion
  addresses : Addresses → Completion

pub data Action : Type 0 where
  send :
      (tx : ℕ) (server : IpAddr) (interface : Option Bytes) (tcp : Bool) (payload : Bytes) → Action
  cancel : (tx : ℕ) → Action
  done : (qid : ℕ) (completion : Completion) → Action

pub data Family : Type 0 where
  any_family inet inet6 : Family

pub record Counters : Type 0 where
  pub queries : ℕ
  pub synthetic : ℕ
  pub cache_hits : ℕ
  pub upstream_sent : ℕ
  pub upstream_answered : ℕ
  pub upstream_failed : ℕ
  pub refused : ℕ

pub data Owner : Type 0 where
  resolve lookup : (qid : ℕ) → Owner

pub record Task : Type 0 where
  pub owner : Owner
  pub original : Name
  pub rtype : ℕ
  pub no_cache : Bool
  pub cache_invalidated : Bool
  pub candidates : List Name
  pub current : Option Name
  pub scope : Option Bytes
  pub attempt : ℕ
  pub tried : List IpAddr
  pub tx : Option ℕ

pub record Tx : Type 0 where
  pub task : ℕ
  pub dns_id : ℕ
  pub question : Question
  pub server : IpAddr
  pub tcp : Bool
  pub deadline : ℕ

pub record Lookup : Type 0 where
  pub name : Name
  pub pending : List ℕ
  pub results : List (ℕ × Answer)

-- `entropy n` is what the `n`-th call of the entropy source gives, `none` for an error, and `draws`
-- counts the calls.
pub record Engine : Type 0 where
  pub scopes : List Scope
  pub fallback_servers : List IpAddr
  pub fallback_domains : List Name
  pub hostname : Option Name
  pub hosts : Table Name (List IpAddr)
  pub cache : Cache
  pub demoted : Table (IpAddr × Bytes) ℕ
  pub tasks : Table ℕ Task
  pub txs : Table ℕ Tx
  pub lookups : Table ℕ Lookup
  pub next_id : ℕ
  pub entropy : ℕ → Option Bytes
  pub draws : ℕ
  pub counters : Counters
