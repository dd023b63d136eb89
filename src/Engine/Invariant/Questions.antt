-- ===== src/Engine/Invariant/Questions.antt =====
-- Questions and configuration keep the engine's invariant.
use resolvd.Prelude.{
  ℕ, ◌+◌, ◌≤◌, Bool, true, false, not, List, [], ◌∷◌, map, Option, none, some, Bool-cases, inl, inr,
  Bytes, bytes_eq, arith, id_key, ==_iff, All, All-filter, length, length-filter, Result, ok, err,
  stuck,
}
use resolvd.Prelude.Keyed
use resolvd.Prelude.Keyed.{Table}
use resolvd.Net.{IpAddr}
use resolvd.Dns.Name.{Name, Error, parse}
use resolvd.Dns.Types.{Question, t_ptr}
use resolvd.Dns.Display.{display}
use resolvd.Cache
use resolvd.Cache.{max_entries, Cache}
use resolvd.Engine.State.{Levels, Engine, Task, Tx, Scope, Owner, resolve, lookup, Family}
use resolvd.Engine.Routing.{fallback_scope}
use resolvd.Engine.Attempts.{advance}
use resolvd.Engine.Questions.{
  invalidate_scope, invalidate_all, invalidate_if, has_scope, changed_scopes, set_scopes, ips_eq,
  set_fallback, flush, start_task, new_task, start_tasks, family_types, count_query, owned_by,
  cancel_tx, drop_tasks, abandon, resolve_name, resolve_parsed, resolve_text, resolve_question,
  advance_all, lookup_name, lookup_parsed, lookup_text, reverse, reverse_name,
}
use resolvd.Engine.Invariant.{IsTask, IsEntry, IsEngine}
use resolvd.Engine.Invariant.Steps.{later_tasks, same_core-IsEngine}
use resolvd.Engine.Invariant.Attempts.{advance-IsEngine}

marked_tasks :
    (next : ℕ) (b : Task → Bool) (m : Table ℕ Task)
    → All (IsTask next) m
    → All (IsTask next) (map (λ x. (x.0, invalidate_if (b x.1) x.1)) m)
marked_tasks next b [] h = tt
marked_tasks next b ((id, t) ∷ m) h = (h.0, marked_tasks next b m h.1)

invalidate_scope-IsEngine :
    (scope : Bytes) (e : Engine) → IsEngine e → IsEngine (invalidate_scope scope e)
unfolding invalidate_scope Cache.flush_scope
invalidate_scope-IsEngine scope e h = record {
  tasks = marked_tasks e.next_id (λ t. has_scope scope t.scope) e.tasks h.tasks;
  txs = h.txs;
  cache =
      omega (arith, h.cache, length-filter (λ x. not (bytes_eq x.0.scope scope)) e.cache.entries);
  entries = All-filter IsEntry (λ x. not (bytes_eq x.0.scope scope)) e.cache.entries h.entries;
}

invalidate_all-IsEngine :
    (ids : List Bytes) (e : Engine) → IsEngine e → IsEngine (invalidate_all ids e)
unfolding invalidate_all
invalidate_all-IsEngine [] e h = h
invalidate_all-IsEngine (id ∷ ids) e h =
    invalidate_all-IsEngine ids (invalidate_scope id e) (invalidate_scope-IsEngine id e h)

pub set_scopes-IsEngine :
    (scopes : List Scope) (e : Engine) → IsEngine e → IsEngine (set_scopes scopes e)
unfolding set_scopes
set_scopes-IsEngine scopes e h =
    let k = invalidate_all-IsEngine (changed_scopes e.scopes scopes) e h in
    record { tasks = k.tasks; txs = k.txs; cache = k.cache; entries = k.entries }

pub set_fallback-IsEngine :
    (servers : List IpAddr) (domains : List Name) (e : Engine)
    → IsEngine e
    → IsEngine (set_fallback servers domains e)
unfolding set_fallback
set_fallback-IsEngine servers domains e h = elim (Bool-cases (ips_eq servers e.fallback_servers)) [
  | inl same ↦
      rw (same) (record { tasks = h.tasks; txs = h.txs; cache = h.cache; entries = h.entries })
  | inr other ↦
      let k = invalidate_scope-IsEngine fallback_scope e h in
      rw (other) (record { tasks = k.tasks; txs = k.txs; cache = k.cache; entries = k.entries })
]

pub flush-IsEngine : (e : Engine) → IsEngine e → IsEngine (flush e)
unfolding flush
flush-IsEngine e h = record {
  tasks = marked_tasks e.next_id (λ t. true) e.tasks h.tasks;
  txs = h.txs;
  cache = omega arith;
  entries = tt;
}

start_task-IsEngine :
    (owner : Owner) (name : Name) (rtype : ℕ) (no_cache : Bool) (e : Engine)
    → IsEngine e
    → IsEngine (start_task owner name rtype no_cache e)
unfolding start_task
start_task-IsEngine owner name rtype no_cache e h = record {
  tasks =
      Keyed.All-insert (IsTask (e.next_id + 1)) e.next_id (new_task owner name rtype no_cache)
        e.tasks (λ b same. (omega (arith, (==_iff b e.next_id).0 same), omega arith))
        (later_tasks e h);
  txs = h.txs;
  cache = h.cache;
  entries = h.entries;
}

start_tasks-IsEngine :
    (qid : ℕ) (name : Name) (types : List ℕ) (e : Engine)
    → IsEngine e
    → IsEngine (start_tasks qid name types e).0
unfolding start_tasks
start_tasks-IsEngine qid name [] e h = h
start_tasks-IsEngine qid name (t ∷ ts) e h =
    start_tasks-IsEngine qid name ts _ (start_task-IsEngine (lookup qid) name t false e h)

cancel_tx-le : (tx : Option ℕ) (txs : Table ℕ Tx) → length (cancel_tx tx txs).0 ≤ length txs
cancel_tx-le none txs = omega arith
cancel_tx-le (some tx) txs = Keyed.length-remove tx txs

drop_tasks-keeps :
    (next qid : ℕ) (m : Table ℕ Task) (txs : Table ℕ Tx)
    → All (IsTask next) m
    → All (IsTask next) (drop_tasks qid m txs).0 × (length (drop_tasks qid m txs).1 ≤ length txs)
unfolding drop_tasks
drop_tasks-keeps next qid [] txs h = (tt, omega arith)
drop_tasks-keeps next qid ((id, t) ∷ m) txs h = elim (Bool-cases (owned_by qid t.owner)) [
  | inl mine ↦
      let (kept, fewer) = drop_tasks-keeps next qid m (cancel_tx t.tx txs).0 h.1 in
      rw (mine) (kept, omega (arith, fewer, cancel_tx-le t.tx txs))
  | inr other ↦
      let (kept, fewer) = drop_tasks-keeps next qid m txs h.1 in rw (other) ((h.0, kept), fewer)
]

pub abandon-IsEngine : (qid : ℕ) (e : Engine) → IsEngine e → IsEngine (abandon qid e).0
unfolding abandon
abandon-IsEngine qid e h =
    let (kept, fewer) = drop_tasks-keeps e.next_id qid e.tasks e.txs h.tasks in
    record { tasks = kept; txs = omega (arith, fewer, h.txs); cache = h.cache; entries = h.entries }

counted : (e : Engine) → IsEngine e → IsEngine (count_query e)
counted e h = same_core-IsEngine e e.draws (count_query e).counters h

module _ ⦃lv : Levels⦄ where
  resolve_name-IsEngine :
      (qid : ℕ) (name : Name) (rtype : ℕ) (no_cache : Bool) (now : ℕ) (e : Engine)
      → IsEngine e
      → IsEngine (resolve_name qid name rtype no_cache now e).0
  unfolding resolve_name
  resolve_name-IsEngine qid name rtype no_cache now e h =
      advance-IsEngine e.next_id now _ (start_task-IsEngine (resolve qid) name rtype no_cache e h)

  pub resolve_text-IsEngine :
      (qid : ℕ) (name : Bytes) (rtype : ℕ) (no_cache : Bool) (now : ℕ) (e : Engine)
      → IsEngine e
      → IsEngine (resolve_text qid name rtype no_cache now e).0
  unfolding resolve_text
  resolve_text-IsEngine qid name rtype no_cache now e h = parsed (parse name)
    where
      parsed :
          (name : Result Error Name)
          → IsEngine (resolve_parsed qid name rtype no_cache now (count_query e)).0
      parsed (ok name) =
          resolve_name-IsEngine qid name rtype no_cache now (count_query e) (counted e h)
      parsed (err x) = counted e h
      parsed stuck = counted e h

  pub resolve_question-IsEngine :
      (qid : ℕ) (q : Question) (now : ℕ) (e : Engine)
      → IsEngine e
      → IsEngine (resolve_question qid q now e).0
  unfolding resolve_question
  resolve_question-IsEngine qid q now e h =
      resolve_name-IsEngine qid q.name q.rtype false now (count_query e) (counted e h)

  advance_all-IsEngine :
      (ids : List ℕ) (now : ℕ) (e : Engine) → IsEngine e → IsEngine (advance_all ids now e).0
  unfolding advance_all
  advance_all-IsEngine [] now e h = h
  advance_all-IsEngine (id ∷ ids) now e h =
      advance_all-IsEngine ids now (advance id now e).0 (advance-IsEngine id now e h)

  lookup_name-IsEngine :
      (qid : ℕ) (name : Name) (family : Family) (now : ℕ) (e : Engine)
      → IsEngine e
      → IsEngine (lookup_name qid name family now e).0
  unfolding lookup_name
  lookup_name-IsEngine qid name family now e h =
      let k = start_tasks-IsEngine qid name (family_types family) e h in
      advance_all-IsEngine (start_tasks qid name (family_types family) e).1 now _
        (record { tasks = k.tasks; txs = k.txs; cache = k.cache; entries = k.entries })

  pub lookup_text-IsEngine :
      (qid : ℕ) (name : Bytes) (family : Family) (now : ℕ) (e : Engine)
      → IsEngine e
      → IsEngine (lookup_text qid name family now e).0
  unfolding lookup_text
  lookup_text-IsEngine qid name family now e h = parsed (parse name)
    where
      parsed :
          (name : Result Error Name)
          → IsEngine (lookup_parsed qid name family now (count_query e)).0
      parsed (ok name) = lookup_name-IsEngine qid name family now (count_query e) (counted e h)
      parsed (err x) = counted e h
      parsed stuck = counted e h

  pub reverse-IsEngine :
      (qid : ℕ) (address : IpAddr) (now : ℕ) (e : Engine)
      → IsEngine e
      → IsEngine (reverse qid address now e).0
  unfolding reverse
  reverse-IsEngine qid address now e h =
      resolve_text-IsEngine qid (display (reverse_name address)) t_ptr false now e h
