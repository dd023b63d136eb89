-- ===== src/Engine/Runs.antt =====
-- The engine of resolvd/src/engine.rs as a whole: `Engine::with_entropy`, and the calls that its owner
-- makes, one after another. A call holds the engine alone, so that an execution is a list of calls.
use resolvd.Prelude.{ℕ, Bool, List, [], ◌∷◌, ◌++◌, Option, none, Bytes, arith}
use resolvd.Prelude.Keyed.{Table}
use resolvd.Net.{IpAddr}
use resolvd.Dns.Name.{Name}
use resolvd.Dns.Types.{Question}
use resolvd.Cache
use resolvd.Cache.{max_entries}
use resolvd.Engine.State.{Levels, Engine, Scope, Family}
use resolvd.Engine.Settle.{Step}
use resolvd.Engine.Inputs.{received, failed, local_failed, tick}
use resolvd.Engine.Questions.{
  set_scopes, set_fallback, set_hostname, set_hosts, flush, resolve_text, resolve_question,
  lookup_text, reverse, abandon,
}
use resolvd.Engine.Invariant.{IsEngine}
use resolvd.Engine.Invariant.Inputs.{
  received-IsEngine, failed-IsEngine, local_failed-IsEngine, tick-IsEngine,
}
use resolvd.Engine.Invariant.Questions.{
  set_scopes-IsEngine, set_fallback-IsEngine, flush-IsEngine, resolve_text-IsEngine,
  resolve_question-IsEngine, lookup_text-IsEngine, reverse-IsEngine, abandon-IsEngine,
}

unfoldable pub with_entropy : (ℕ → Option Bytes) → Engine
with_entropy entropy = record {
  scopes = [];
  fallback_servers = [];
  fallback_domains = [];
  hostname = none;
  hosts = [];
  cache = Cache.empty;
  demoted = [];
  tasks = [];
  txs = [];
  lookups = [];
  next_id = 1;
  entropy = entropy;
  draws = 0;
  counters = record {
    queries = 0;
    synthetic = 0;
    cache_hits = 0;
    upstream_sent = 0;
    upstream_answered = 0;
    upstream_failed = 0;
    refused = 0;
  };
}

-- A call of a method of `Engine` that changes it.
pub data Call : Type 0 where
  scopes_set : (scopes : List Scope) → Call
  fallback_set : (servers : List IpAddr) (domains : List Name) → Call
  hostname_set : (hostname : Option Bytes) → Call
  hosts_set : (hosts : Table Name (List IpAddr)) → Call
  flushed : Call
  resolved : (qid : ℕ) (name : Bytes) (rtype : ℕ) (no_cache : Bool) (now : ℕ) → Call
  question_resolved : (qid : ℕ) (question : Question) (now : ℕ) → Call
  looked_up : (qid : ℕ) (name : Bytes) (family : Family) (now : ℕ) → Call
  reversed : (qid : ℕ) (address : IpAddr) (now : ℕ) → Call
  abandoned : (qid : ℕ) → Call
  reply_received : (tx : ℕ) (bytes : Bytes) (now : ℕ) → Call
  transport_failed : (tx now : ℕ) → Call
  sending_failed : (tx now : ℕ) → Call
  ticked : (now : ℕ) → Call

module _ ⦃lv : Levels⦄ where
  unfoldable pub call : Call → Engine → Step
  call (scopes_set scopes) e = (set_scopes scopes e, [])
  call (fallback_set servers domains) e = (set_fallback servers domains e, [])
  call (hostname_set hostname) e = (set_hostname hostname e, [])
  call (hosts_set hosts) e = (set_hosts hosts e, [])
  call flushed e = (flush e, [])
  call (resolved qid name rtype no_cache now) e = resolve_text qid name rtype no_cache now e
  call (question_resolved qid question now) e = resolve_question qid question now e
  call (looked_up qid name family now) e = lookup_text qid name family now e
  call (reversed qid address now) e = reverse qid address now e
  call (abandoned qid) e = abandon qid e
  call (reply_received tx bytes now) e = received tx bytes now e
  call (transport_failed tx now) e = failed tx now e
  call (sending_failed tx now) e = local_failed tx now e
  call (ticked now) e = tick now e

  unfoldable pub run : List Call → Engine → Step
  run [] e = (e, [])
  run (c ∷ cs) e =
      let one : Step = call c e in let rest : Step = run cs one.0 in (rest.0, one.1 ++ rest.1)

  -- Every call keeps the invariant.
  pub call-IsEngine : (c : Call) (e : Engine) → IsEngine e → IsEngine (call c e).0
  unfolding call set_hostname
  call-IsEngine (scopes_set scopes) e h = set_scopes-IsEngine scopes e h
  call-IsEngine (fallback_set servers domains) e h = set_fallback-IsEngine servers domains e h
  call-IsEngine (hostname_set hostname) e h = record {
    tasks = h.tasks;
    txs = h.txs;
    cache = h.cache;
    entries = h.entries;
  }
  call-IsEngine (hosts_set hosts) e h = record {
    tasks = h.tasks;
    txs = h.txs;
    cache = h.cache;
    entries = h.entries;
  }
  call-IsEngine flushed e h = flush-IsEngine e h
  call-IsEngine (resolved qid name rtype no_cache now) e h =
      resolve_text-IsEngine qid name rtype no_cache now e h
  call-IsEngine (question_resolved qid question now) e h =
      resolve_question-IsEngine qid question now e h
  call-IsEngine (looked_up qid name family now) e h = lookup_text-IsEngine qid name family now e h
  call-IsEngine (reversed qid address now) e h = reverse-IsEngine qid address now e h
  call-IsEngine (abandoned qid) e h = abandon-IsEngine qid e h
  call-IsEngine (reply_received tx bytes now) e h = received-IsEngine tx bytes now e h
  call-IsEngine (transport_failed tx now) e h = failed-IsEngine tx now e h
  call-IsEngine (sending_failed tx now) e h = local_failed-IsEngine tx now e h
  call-IsEngine (ticked now) e h = tick-IsEngine now e h

  with_entropy-IsEngine : (entropy : ℕ → Option Bytes) → IsEngine (with_entropy entropy)
  unfolding with_entropy
  with_entropy-IsEngine entropy = record {
    tasks = tt;
    txs = omega arith;
    cache = omega arith;
    entries = tt;
  }

  run-keeps : (cs : List Call) (e : Engine) → IsEngine e → IsEngine (run cs e).0
  unfolding run
  run-keeps [] e h = h
  run-keeps (c ∷ cs) e h = run-keeps cs (call c e).0 (call-IsEngine c e h)

  -- Whatever calls are made of a new engine, every task it holds has an id that was given out and has
  -- spent at most `max_attempts` attempts, at most `max_in_flight` transactions are open, the cache
  -- holds at most `max_entries` entries, each of which is a found answer, or says that a name does not
  -- exist and has no records.
  pub run-IsEngine :
      (cs : List Call) (entropy : ℕ → Option Bytes) → IsEngine (run cs (with_entropy entropy)).0
  run-IsEngine cs entropy = run-keeps cs (with_entropy entropy) (with_entropy-IsEngine entropy)
