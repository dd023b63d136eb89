-- ===== src/Engine/Attempts.antt =====
-- `next_attempt`, `next_candidate` and `advance` of resolvd/src/engine.rs.
pub mod Quiet
use resolvd.Prelude.{
  ℕ, ◌+◌, ◌%◌, Bool, true, false, ◌&&◌, not, List, [], ◌∷◌, ◌++◌, Option, none, some, is_empty,
  length, get_elem?, find, leb, ◌==◌, if◌then◌else◌, Bytes, id_key,
}
use resolvd.Prelude.Keyed
use resolvd.Net.{IpAddr, has_ip, seconds_left, localhost_v4}
use resolvd.Dns.Name.{Name}
use resolvd.Cache
use resolvd.Cache.{Outcome, found, not_found, unavailable, Entry, cache_key}
use resolvd.Engine.State.{Levels, Engine, Task, Answer, plain_answer, cache, max_attempts}
use resolvd.Engine.Routing.{interface_of, servers_of, route, candidates}
use resolvd.Engine.Local.{synthetic_answer}
use resolvd.Engine.Settle.{Step, settle, send_query, or_default}

-- `servers[tried.len() % servers.len()]`, of servers that are not empty.
abbrev pub server_at : List IpAddr → ℕ → IpAddr
server_at servers i = elim (get_elem? servers i) [ none ↦ localhost_v4 | some s ↦ s ]

-- A server not yet asked, the healthiest first; else round-robin.
unfoldable pub choose_server : List IpAddr → List IpAddr → IpAddr
choose_server servers tried = elim (find (λ s. not (has_ip tried s)) servers) [
  | some s ↦ s
  | none ↦ server_at servers (length tried % length servers)
]

abbrev pub push_tried : IpAddr → Task → Task
push_tried server t = record t { tried = t.tried ++ server ∷ [] }

unfoldable pub next_attempt : ℕ → ℕ → Engine → Step
next_attempt id now e = elim (Keyed.get id e.tasks) [
  | none ↦ (e, [])
  | some task ↦
      let servers = servers_of e (or_default task.scope) now in
      let server = choose_server servers task.tried in
      if leb max_attempts task.attempt
      then settle id
          (record (plain_answer unavailable) { interface = interface_of e (or_default task.scope) })
          e
      else if is_empty servers
      then settle id (plain_answer unavailable) e
      else send_query id server false now
          (record e { tasks = Keyed.update id (push_tried server) e.tasks })
]

abbrev pub take_candidate : Name → List Name → Task → Task
take_candidate c rest t = record t { candidates = rest; current = some c; tried = [] }

abbrev pub set_scope : Bytes → Task → Task
set_scope scope t = record t { scope = some scope }

abbrev pub count_hit : Engine → Engine
count_hit e = record e { counters = record e.counters { cache_hits = e.counters.cache_hits + 1 } }

-- The answer that a cache entry gives.
unfoldable pub cached_answer : Engine → Bytes → Name → ℕ → Entry → Answer
cached_answer e scope candidate now x = record {
  outcome = x.outcome;
  records = x.records;
  source = cache;
  server = some x.server;
  interface = interface_of e scope;
  rcode = x.rcode;
  resolved_name = some candidate;
  negative_ttl = if is_empty x.records then seconds_left x.expires now else 0;
}

abbrev pub is_not_found : Outcome → Bool
is_not_found not_found = true
is_not_found _ = false

-- `(!no_cache).then(|| cache.get(...))`
abbrev pub consult_cache : Bool → Name → ℕ → Bytes → ℕ → Engine → Option Entry × Engine
consult_cache no_cache candidate rtype scope now e =
    if no_cache
    then (none, e)
    else (let (hit, c) = Cache.get (cache_key candidate rtype scope) now e.cache in
        (hit, record e { cache = c }))

abbrev pub is_none {ℓ} : {A : Type ℓ} → Option A → Bool
is_none none = true
is_none (some x) = false

abbrev pub set_candidates : List Name → Task → Task
set_candidates cs t = record t { candidates = cs }

abbrev pub is_first_visit : Task → Bool
is_first_visit t = is_none t.current && (is_empty t.candidates && t.attempt == 0)

abbrev pub count_synthetic : Engine → Engine
count_synthetic e = record e {
  counters = record e.counters { synthetic = e.counters.synthetic + 1 };
}

module _ ⦃lv : Levels⦄ where
  -- `next_candidate` of a task whose candidates are the list: the code recurs after it has taken the
  -- first of them from the task.
  unfoldable pub try_candidates : List Name → ℕ → ℕ → Engine → Step
  try_candidates [] id now e = settle id (plain_answer not_found) e
  try_candidates (c ∷ rest) id now e = elim (Keyed.get id e.tasks) [
    | none ↦ (e, [])
    | some task ↦
        let e₁ : Engine = record e { tasks = Keyed.update id (take_candidate c rest) e.tasks } in
        elim (route e₁ c) [
          | none ↦ settle id (plain_answer unavailable) e₁
          | some scope ↦
              let e₂ : Engine = record e₁ { tasks = Keyed.update id (set_scope scope) e₁.tasks } in
              let asked : Option Entry × Engine =
                consult_cache task.no_cache c task.rtype scope now e₂ in
              elim asked.0 [
                | none ↦ next_attempt id now asked.1
                | some x ↦
                    let next = try_candidates rest id now (count_hit asked.1) in
                    if is_not_found x.outcome && not (is_empty rest)
                    then next
                    else settle id (cached_answer (count_hit asked.1) scope c now x)
                        (count_hit asked.1)
              ]
        ]
  ]

  unfoldable pub next_candidate : ℕ → ℕ → Engine → Step
  next_candidate id now e = elim (Keyed.get id e.tasks) [
    | none ↦ (e, [])
    | some task ↦ try_candidates task.candidates id now e
  ]

  -- `advance` on its first visit: local answers come before any network.
  unfoldable pub begin : ℕ → Task → ℕ → Engine → Step
  begin id task now e = elim (synthetic_answer e task.original task.rtype) [
    | some x ↦ settle id x (count_synthetic e)
    | none ↦
        let cs = candidates e task.original in
        if is_empty cs
        then settle id (plain_answer not_found) e
        else next_candidate id now
            (record e { tasks = Keyed.update id (set_candidates cs) e.tasks })
  ]

  unfoldable pub advance : ℕ → ℕ → Engine → Step
  advance id now e = elim (Keyed.get id e.tasks) [
    | none ↦ (e, [])
    | some task ↦ if is_first_visit task then begin id task now e else next_candidate id now e
  ]
