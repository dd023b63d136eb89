-- ===== src/Engine/Inputs.antt =====
-- The inputs of resolvd/src/engine.rs: replies, failures and time.
pub mod Ttl
pub mod Match
use resolvd.Prelude.{
  ℕ, suc, ◌+◌, ◌*◌, ◌-◌, ◌%◌, ◌^◌, Bool, true, false, ◌&&◌, ◌||◌, not, List, [], ◌∷◌, ◌++◌, map,
  Option, none, some, is_empty, length, filter, find, leb, ltb, ◌==◌, if◌then◌else◌, Bytes, min,
  min_by, Result, ok, err, stuck, id_key,
}
use resolvd.Prelude.Keyed
use resolvd.Prelude.Keyed.{Table}
use resolvd.Net.{IpAddr, second}
use resolvd.Dns.Name.{Name, Error, name_eq}
use resolvd.Dns.Types.{Record, Message, Question, t_cname, noerror, nxdomain}
use resolvd.Dns.Message.{decode, full_rcode, single_question}
use resolvd.Cache
use resolvd.Cache.{Outcome, found, not_found, unavailable, Entry, cache_key}
use resolvd.Engine.State.{
  Levels, Engine, Task, Tx, Answer, plain_answer, Action, cancel, Source, dns, max_positive_ttl,
  Counters,
}
use resolvd.Engine.Routing.{interface_of, server_key, server_keys, demote}
use resolvd.Engine.Replies.{same_case, negative_ttl, relevant_records, or_name}
use resolvd.Engine.Settle.{Step, settle, send_query, or_default}
use resolvd.Engine.Attempts.{next_attempt, next_candidate, is_not_found}

-- The checks of a decoded message against a transaction.
abbrev pub question_matches : Tx → Option Question → Bool
question_matches t none = false
question_matches t (some q) =
    q.rtype == t.question.rtype && (q.class == t.question.class && same_case q.name t.question.name)

unfoldable pub message_matches : Tx → Message → Bool
message_matches t m =
    m.header.id == t.dns_id && (m.header.response && question_matches t (single_question m))

abbrev pub decoded_match : Tx → Result Error Message → Option Message
decoded_match t (ok m) = if message_matches t m then some m else none
decoded_match t (err e) = none
decoded_match t stuck = none

unfoldable pub matching_response : Engine → ℕ → Bytes → Option Message
matching_response e tx bytes = elim (Keyed.get tx e.txs) [
  | none ↦ none
  | some t ↦ decoded_match t (decode bytes)
]

-- The lowest TTL of some records.
unfoldable pub min_ttl : List Record → Option ℕ
min_ttl rs = elim (min_by (λ (r : Record). r.ttl) rs) [ none ↦ none | some r ↦ some r.ttl ]

abbrev pub or_nat : Option ℕ → ℕ → ℕ
or_nat none d = d
or_nat (some n) d = n

-- Records come back in the case that was sent; they are given the case the caller used.
abbrev pub restore_case : Name → Record → Record
restore_case candidate r = if name_eq r.name candidate then record r { name = candidate } else r

-- What an accepted reply amounts to.
pub record Verdict : Type 0 where
  pub outcome : Outcome
  pub records : List Record
  pub ttl : ℕ

unfoldable pub judge : Message → Name → ℕ → Verdict
unfolding min_ttl
judge m candidate rtype =
    let relevant : List Record × Name = relevant_records m.answers candidate rtype in
    let alias_ttl = or_nat (min_ttl (filter (λ r. r.rtype == t_cname) relevant.0)) (2 ^ 32 - 1) in
    let absent = full_rcode m % 2 ^ 8 == nxdomain in
    let records : List Record = if absent then [] else map (restore_case candidate) relevant.0 in
    record {
      outcome = if absent then not_found else found;
      records = records;
      ttl =
          if not absent && not (is_empty records)
          then min (or_nat (min_ttl records) 0) max_positive_ttl
          else min (negative_ttl m.authority relevant.1) alias_ttl;
    }

abbrev pub store : Name → ℕ → Bytes → Entry → ℕ → Engine → Engine
store candidate rtype scope x now e = record e {
  cache = Cache.insert (cache_key candidate rtype scope) x now e.cache;
}

-- `task.attempt.saturating_sub(1)`
abbrev pub refund : Task → Task
refund t = record t { attempt = t.attempt - 1 }

abbrev pub clear_tx : Task → Task
clear_tx t = record t { tx = none }

abbrev pub count_answered : Engine → Engine
count_answered e = record e {
  counters = record e.counters { upstream_answered = e.counters.upstream_answered + 1 };
}

abbrev pub count_failed : Engine → Engine
count_failed e = record e {
  counters = record e.counters { upstream_failed = e.counters.upstream_failed + 1 };
}

abbrev pub entry_of : Verdict → ℕ → IpAddr → ℕ → Entry
entry_of v code server now = record {
  outcome = v.outcome;
  records = v.records;
  rcode = code;
  server = server;
  expires = now + v.ttl * second;
}

abbrev pub answer_of : Engine → Bytes → Name → ℕ → IpAddr → Verdict → Answer
answer_of e scope candidate code server v = record {
  outcome = v.outcome;
  records = v.records;
  source = dns;
  server = some server;
  interface = interface_of e scope;
  rcode = code;
  resolved_name = some candidate;
  negative_ttl = if is_empty v.records then v.ttl else 0;
}

-- The cache admission: `ttl > 0 && !task.cache_invalidated`.
unfoldable pub admit : Task → Name → Bytes → Verdict → ℕ → IpAddr → ℕ → Engine → Engine
admit task candidate scope v code server now e =
    if ltb 0 v.ttl && not task.cache_invalidated
    then store candidate task.rtype scope (entry_of v code server now) now e
    else e

abbrev pub promote : IpAddr → Bytes → Engine → Engine
promote server scope e = record e { demoted = Keyed.remove (server_key server scope) e.demoted }

-- The codes that end a question here: NOERROR and NXDOMAIN, with no extended bits.
abbrev pub is_final_code : ℕ → Bool
is_final_code code = (code % 2 ^ 8 == noerror || code % 2 ^ 8 == nxdomain) && ltb code 16

module _ ⦃lv : Levels⦄ where
  -- The arm of an accepted code, for the task as it was found.
  unfoldable pub accept : ℕ → Task → IpAddr → Message → ℕ → Engine → Step
  accept id task server m now e =
      let scope : Bytes = or_default task.scope in
      let candidate : Name = or_name task.current task.original in
      let v : Verdict = judge m candidate task.rtype in
      let e₁ : Engine =
        admit task candidate scope v (full_rcode m) server now (promote server scope e) in
      if is_not_found v.outcome && not (is_empty task.candidates)
      then next_candidate id now (record e₁ { tasks = Keyed.update id refund e₁.tasks })
      else settle id (answer_of e₁ scope candidate (full_rcode m) server v) e₁

  -- A reply for a task, its transaction over.
  unfoldable pub take_reply : ℕ → Task → Tx → Message → ℕ → Engine → Step
  take_reply id task t m now e =
      if m.header.truncated && not t.tcp
      then send_query id t.server true now e
      else if is_final_code (full_rcode m)
      then accept id task t.server m now e
      else next_attempt id now (demote t.server (or_default task.scope) now (count_failed e))

  unfoldable pub received : ℕ → Bytes → ℕ → Engine → Step
  received tx bytes now e = elim (Keyed.get tx e.txs) [
    | none ↦ (e, [])
    | some t ↦ elim (matching_response e tx bytes) [
      | none ↦ (e, [])
      | some m ↦
          let e₁ : Engine = record e { txs = Keyed.remove tx e.txs } in
          elim (Keyed.get t.task e₁.tasks) [
            | none ↦ (e₁, [])
            | some task ↦
                take_reply t.task task t m now
                  (count_answered (record e₁ { tasks = Keyed.update t.task clear_tx e₁.tasks }))
          ]
    ]
  ]

-- `self.tasks.get(&t.task).and_then(|task| task.scope).unwrap_or_default()`
abbrev pub scope_of_task : Option Task → Bytes
scope_of_task none = []
scope_of_task (some t) = or_default t.scope

-- The transport failed: the server is tried last for a while.
unfoldable pub failed : ℕ → ℕ → Engine → Step
failed tx now e = elim (Keyed.get tx e.txs) [
  | none ↦ (e, [])
  | some t ↦
      let e₁ : Engine = count_failed (record e { txs = Keyed.remove tx e.txs }) in
      let e₂ : Engine = demote t.server (scope_of_task (Keyed.get t.task e₁.tasks)) now e₁ in
      next_attempt t.task now (record e₂ { tasks = Keyed.update t.task clear_tx e₂.tasks })
]

-- A local error prevented sending: the same, and the server is not blamed.
unfoldable pub local_failed : ℕ → ℕ → Engine → Step
local_failed tx now e = elim (Keyed.get tx e.txs) [
  | none ↦ (e, [])
  | some t ↦
      let e₁ : Engine = count_failed (record e { txs = Keyed.remove tx e.txs }) in
      next_attempt t.task now (record e₁ { tasks = Keyed.update t.task clear_tx e₁.tasks })
]

unfoldable pub expired_txs : ℕ → Table ℕ Tx → List ℕ
expired_txs now [] = []
expired_txs now ((tx, t) ∷ m) =
    let rest = expired_txs now m in if leb t.deadline now then tx ∷ rest else rest

unfoldable pub fail_all : List ℕ → ℕ → Engine → Step
fail_all [] now e = (e, [])
fail_all (tx ∷ txs) now e =
    let one : Step = failed tx now e in
    let rest : Step = fail_all txs now one.0 in (rest.0, cancel tx ∷ (one.1 ++ rest.1))

unfoldable pub tick : ℕ → Engine → Step
unfolding expired_txs fail_all
tick now e = fail_all (expired_txs now e.txs) now e
