-- ===== src/Engine/Questions.antt =====
-- The questions and the configuration of resolvd/src/engine.rs.
use resolvd.Prelude.{
  ℕ, ◌+◌, Bool, true, false, ◌&&◌, ◌||◌, not, List, [], ◌∷◌, ◌++◌, map, Option, none, some, filter,
  any, ◌==◌, if◌then◌else◌, Bytes, bytes_eq, Result, ok, err, stuck, id_key,
}
use resolvd.Prelude.Keyed
use resolvd.Prelude.Keyed.{Table}
use resolvd.Net.{IpAddr, v4, v6, ip_eq}
use resolvd.Dns.Name.{Name, Error, parse, root, is_root}
use resolvd.Dns.Display.{display}
use resolvd.Dns.Reverse.{reverse_v4, reverse_v6}
use resolvd.Dns.Types.{Question, t_a, t_aaaa, t_ptr}
use resolvd.Cache
use resolvd.Cache.{not_found}
use resolvd.Engine.State.{
  Levels, Engine, Scope, Task, Tx, Owner, resolve, lookup, plain_answer, Action, cancel, done,
  answer, addresses, local, Family, any_family, inet, inet6,
}
use resolvd.Engine.Routing.{fallback_scope, scope_named}
use resolvd.Engine.Settle.{Step}
use resolvd.Engine.Attempts.{advance}

-- Configuration

abbrev pub has_scope : Bytes → Option Bytes → Bool
has_scope scope none = false
has_scope scope (some s) = bytes_eq s scope

abbrev pub invalidate_if : Bool → Task → Task
invalidate_if b t = record t { cache_invalidated = b || t.cache_invalidated }

unfoldable pub invalidate_scope : Bytes → Engine → Engine
invalidate_scope scope e = record e {
  cache = Cache.flush_scope scope e.cache;
  tasks = map (λ x. (x.0, invalidate_if (has_scope scope x.1.scope) x.1)) e.tasks;
}

unfoldable pub ips_eq : List IpAddr → List IpAddr → Bool
ips_eq [] [] = true
ips_eq (x ∷ xs) (y ∷ ys) = ip_eq x y && ips_eq xs ys
ips_eq _ _ = false

abbrev pub servers_changed : Option Scope → Scope → Bool
servers_changed none new = true
servers_changed (some old) new = not (ips_eq old.servers new.servers)

unfoldable pub ids : List Scope → List Bytes
ids [] = []
ids (s ∷ ss) = s.id ∷ ids ss

-- The new scopes that had other servers, or were not there, and the old ones that are gone.
unfoldable pub changed_scopes : List Scope → List Scope → List Bytes
changed_scopes olds news =
    ids (filter (λ n. servers_changed (scope_named n.id olds) n) news)
    ++ ids (filter (λ o. not (any (λ s. bytes_eq s.id o.id) news)) olds)

unfoldable pub invalidate_all : List Bytes → Engine → Engine
invalidate_all [] e = e
invalidate_all (id ∷ rest) e = invalidate_all rest (invalidate_scope id e)

unfoldable pub set_scopes : List Scope → Engine → Engine
set_scopes scopes e = record (invalidate_all (changed_scopes e.scopes scopes) e) { scopes = scopes }

unfoldable pub set_fallback : List IpAddr → List Name → Engine → Engine
set_fallback servers domains e =
    record (if ips_eq servers e.fallback_servers then e else invalidate_scope fallback_scope e) {
      fallback_servers = servers;
      fallback_domains = domains;
    }

abbrev pub usable_hostname : Result Error Name → Option Name
usable_hostname (ok n) = if is_root n then none else some n
usable_hostname (err x) = none
usable_hostname stuck = none

unfoldable pub set_hostname : Option Bytes → Engine → Engine
set_hostname h e = record e {
  hostname = elim h [ none ↦ none | some s ↦ usable_hostname (parse s) ];
}

abbrev pub set_hosts : Table Name (List IpAddr) → Engine → Engine
set_hosts hosts e = record e { hosts = hosts }

unfoldable pub flush : Engine → Engine
flush e = record e {
  cache = Cache.clear e.cache;
  tasks = map (λ x. (x.0, invalidate_if true x.1)) e.tasks;
}

-- Questions

abbrev pub new_task : Owner → Name → ℕ → Bool → Task
new_task owner name rtype no_cache = record {
  owner = owner;
  original = name;
  rtype = rtype;
  no_cache = no_cache;
  cache_invalidated = false;
  candidates = [];
  current = none;
  scope = none;
  attempt = 0;
  tried = [];
  tx = none;
}

-- The id of the new task is `next_id`.
unfoldable pub start_task : Owner → Name → ℕ → Bool → Engine → Engine
start_task owner name rtype no_cache e = record e {
  next_id = e.next_id + 1;
  tasks = Keyed.insert e.next_id (new_task owner name rtype no_cache) e.tasks;
}

abbrev pub count_query : Engine → Engine
count_query e = record e { counters = record e.counters { queries = e.counters.queries + 1 } }

abbrev pub family_types : Family → List ℕ
family_types any_family = t_a ∷ t_aaaa ∷ []
family_types inet = t_a ∷ []
family_types inet6 = t_aaaa ∷ []

-- The tasks of a lookup, one for each type, and their ids in that order.
unfoldable pub start_tasks : ℕ → Name → List ℕ → Engine → Engine × List ℕ
start_tasks qid name [] e = (e, [])
start_tasks qid name (t ∷ ts) e =
    let rest : Engine × List ℕ = start_tasks qid name ts (start_task (lookup qid) name t false e) in
    (rest.0, e.next_id ∷ rest.1)

unfoldable pub owned_by : ℕ → Owner → Bool
owned_by qid (resolve q) = q == qid
owned_by qid (lookup q) = q == qid

abbrev pub cancel_tx : Option ℕ → Table ℕ Tx → Table ℕ Tx × List Action
cancel_tx none txs = (txs, [])
cancel_tx (some tx) txs = (Keyed.remove tx txs, cancel tx ∷ [])

-- The tasks of a question are dropped, and their transactions cancelled.
unfoldable pub drop_tasks : ℕ → Table ℕ Task → Table ℕ Tx → Table ℕ Task × Table ℕ Tx × List Action
drop_tasks qid [] txs = ([], txs, [])
drop_tasks qid ((id, t) ∷ m) txs =
    let mine = owned_by qid t.owner in
    let one : Table ℕ Tx × List Action = if mine then cancel_tx t.tx txs else (txs, []) in
    let rest : Table ℕ Task × Table ℕ Tx × List Action = drop_tasks qid m one.0 in
    (if mine then rest.0 else (id, t) ∷ rest.0, rest.1, one.1 ++ rest.2)

unfoldable pub abandon : ℕ → Engine → Step
abandon qid e =
    let dropped : Table ℕ Task × Table ℕ Tx × List Action = drop_tasks qid e.tasks e.txs in
    (
      record e { tasks = dropped.0; txs = dropped.1; lookups = Keyed.remove qid e.lookups },
      dropped.2,
    )

module _ ⦃lv : Levels⦄ where
  unfoldable pub resolve_name : ℕ → Name → ℕ → Bool → ℕ → Engine → Step
  resolve_name qid name rtype no_cache now e =
      advance e.next_id now (start_task (resolve qid) name rtype no_cache e)

  abbrev pub resolve_parsed : ℕ → Result Error Name → ℕ → Bool → ℕ → Engine → Step
  resolve_parsed qid (ok name) rtype no_cache now e = resolve_name qid name rtype no_cache now e
  resolve_parsed qid (err x) rtype no_cache now e =
      (e, done qid (answer (plain_answer not_found)) ∷ [])
  resolve_parsed qid stuck rtype no_cache now e = (e, [])

  -- `Engine::resolve`
  unfoldable pub resolve_text : ℕ → Bytes → ℕ → Bool → ℕ → Engine → Step
  resolve_text qid name rtype no_cache now e =
      resolve_parsed qid (parse name) rtype no_cache now (count_query e)

  unfoldable pub resolve_question : ℕ → Question → ℕ → Engine → Step
  resolve_question qid q now e = resolve_name qid q.name q.rtype false now (count_query e)

  unfoldable pub advance_all : List ℕ → ℕ → Engine → Step
  advance_all [] now e = (e, [])
  advance_all (id ∷ rest) now e =
      let one : Step = advance id now e in
      let others : Step = advance_all rest now one.0 in (others.0, one.1 ++ others.1)

  unfoldable pub lookup_name : ℕ → Name → Family → ℕ → Engine → Step
  lookup_name qid name family now e =
      let started : Engine × List ℕ = start_tasks qid name (family_types family) e in
      advance_all started.1 now (record started.0 {
        lookups =
            Keyed.insert qid (record { name = name; pending = started.1; results = [] })
              started.0.lookups;
      })

  abbrev pub lookup_parsed : ℕ → Result Error Name → Family → ℕ → Engine → Step
  lookup_parsed qid (ok name) family now e = lookup_name qid name family now e
  lookup_parsed qid (err x) family now e = (
    e,
    done qid (
          addresses
            (record { outcome = not_found; canonical = root; addresses = []; source = local }))
        ∷ [],
  )
  lookup_parsed qid stuck family now e = (e, [])

  -- `Engine::lookup`
  unfoldable pub lookup_text : ℕ → Bytes → Family → ℕ → Engine → Step
  lookup_text qid name family now e = lookup_parsed qid (parse name) family now (count_query e)

  abbrev pub reverse_name : IpAddr → Name
  reverse_name (v4 a) = reverse_v4 a
  reverse_name (v6 a) = reverse_v6 a

  unfoldable pub reverse : ℕ → IpAddr → ℕ → Engine → Step
  reverse qid address now e = resolve_text qid (display (reverse_name address)) t_ptr false now e
