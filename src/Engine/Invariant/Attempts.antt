-- ===== src/Engine/Invariant/Attempts.antt =====
-- `next_attempt`, `next_candidate` and `advance` keep the engine's invariant.
use resolvd.Prelude.{
  ℕ, ◌≤◌, Bool, true, false, ◌&&◌, not, List, [], ◌∷◌, Option, is_empty, leb, Bool-cases,
  Option-cases, inl, inr, Bytes, arith, id_key, All,
}
use resolvd.Prelude.Keyed
use resolvd.Dns.Name.{Name}
use resolvd.Cache
use resolvd.Cache.{
  Outcome, not_found, unavailable, Entry, cache_key, CacheKey, max_entries, Cache, cache_keys,
}
use resolvd.Engine.State.{Levels, Engine, Task, max_attempts}
use resolvd.Engine.Routing.{servers_of, route, candidates}
use resolvd.Engine.Local.{synthetic_answer}
use resolvd.Engine.Settle.{or_default}
use resolvd.Engine.Attempts.{
  next_attempt, try_candidates, next_candidate, advance, begin, push_tried, take_candidate,
  set_scope, set_candidates, consult_cache, choose_server, count_hit, is_not_found, is_first_visit,
  count_synthetic,
}
use resolvd.Engine.Invariant.{IsEntry, IsEngine, update_task-IsEngine}
use resolvd.Engine.Invariant.Steps.{settle-IsEngine, send_query-IsEngine, same_core-IsEngine}

pub next_attempt-IsEngine :
    (id now : ℕ) (e : Engine) → IsEngine e → IsEngine (next_attempt id now e).0
unfolding next_attempt
next_attempt-IsEngine id now e h = elim (Option-cases (Keyed.get id e.tasks)) [
  | inl gone ↦ rw (gone, next_attempt) h
  | inr (t, there) ↦ elim (Bool-cases (leb max_attempts t.attempt)) [
    | inl spent ↦ rw (there, spent, next_attempt) (settle-IsEngine id _ e h)
    | inr budget ↦ elim (Bool-cases (is_empty (servers_of e (or_default t.scope) now))) [
      | inl empty ↦ rw (there, budget, empty, next_attempt) (settle-IsEngine id _ e h)
      | inr more ↦
          let server = choose_server (servers_of e (or_default t.scope) now) t.tried in
          rw (there, budget, more, next_attempt)
            (send_query-IsEngine id server false now _
              (update_task-IsEngine e h id (push_tried server) (λ u p. p)))
    ]
  ]
]

-- A look into the cache only forgets an entry.
get-keeps :
    (k : CacheKey) (now : ℕ) (c : Cache)
    → Cache.len c ≤ max_entries
    → All IsEntry c.entries
    → (Cache.len (Cache.get k now c).1 ≤ max_entries) × All IsEntry (Cache.get k now c).1.entries
unfolding Cache.get
get-keeps k now c size entries = elim (Option-cases (Keyed.get k c.entries)) [
  | inl miss ↦ rw (miss, Cache.get) (size, entries)
  | inr (x, there) ↦ elim (Bool-cases (leb x.expires now)) [
    | inl old ↦
        rw (there, old, Cache.get)
          (
            omega (arith, Keyed.length-remove k c.entries, size),
            Keyed.All-remove IsEntry k c.entries entries,
          )
    | inr live ↦ rw (there, live, Cache.get) (size, entries)
  ]
]

consult_cache-IsEngine :
    (no_cache : Bool) (c : Name) (rtype : ℕ) (scope : Bytes) (now : ℕ) (e : Engine)
    → IsEngine e
    → IsEngine (consult_cache no_cache c rtype scope now e).1
consult_cache-IsEngine true c rtype scope now e h = h
consult_cache-IsEngine false c rtype scope now e h =
    let kept = get-keeps (cache_key c rtype scope) now e.cache h.cache h.entries in
    record { tasks = h.tasks; txs = h.txs; cache = kept.0; entries = kept.1 }

module _ ⦃lv : Levels⦄ where
  pub try_candidates-IsEngine :
      (cs : List Name) (id now : ℕ) (e : Engine)
      → IsEngine e
      → IsEngine (try_candidates cs id now e).0
  unfolding try_candidates
  try_candidates-IsEngine [] id now e h = settle-IsEngine id _ e h
  try_candidates-IsEngine (c ∷ rest) id now e h = elim (Option-cases (Keyed.get id e.tasks)) [
    | inl gone ↦ rw (gone, try_candidates) h
    | inr (t, there) ↦
        let e₁ : Engine = record e { tasks = Keyed.update id (take_candidate c rest) e.tasks } in
        let h₁ : IsEngine e₁ = update_task-IsEngine e h id (take_candidate c rest) (λ u p. p) in
        elim (Option-cases (route e₁ c)) [
          | inl no_route ↦ rw (there, no_route, try_candidates) (settle-IsEngine id _ e₁ h₁)
          | inr (scope, routed) ↦
              let e₂ : Engine = record e₁ { tasks = Keyed.update id (set_scope scope) e₁.tasks } in
              let h₂ : IsEngine e₂ = update_task-IsEngine e₁ h₁ id (set_scope scope) (λ u p. p) in
              let asked : Option Entry × Engine = consult_cache t.no_cache c t.rtype scope now e₂ in
              let h₃ : IsEngine asked.1 =
                consult_cache-IsEngine t.no_cache c t.rtype scope now e₂ h₂ in
              let hit : IsEngine (count_hit asked.1) =
                same_core-IsEngine asked.1 asked.1.draws (count_hit asked.1).counters h₃ in
              elim (Option-cases asked.0) [
                | inl miss ↦
                    rw (there, routed, miss, try_candidates)
                      (next_attempt-IsEngine id now asked.1 h₃)
                | inr (x, found_there) ↦
                    elim (Bool-cases (is_not_found x.outcome && not (is_empty rest))) [
                      | inl another ↦
                          rw (there, routed, found_there, another, try_candidates)
                            (try_candidates-IsEngine rest id now (count_hit asked.1) hit)
                      | inr last ↦
                          rw (there, routed, found_there, last, try_candidates)
                            (settle-IsEngine id _ (count_hit asked.1) hit)
                    ]
              ]
        ]
  ]

  pub next_candidate-IsEngine :
      (id now : ℕ) (e : Engine) → IsEngine e → IsEngine (next_candidate id now e).0
  unfolding next_candidate
  next_candidate-IsEngine id now e h = elim (Option-cases (Keyed.get id e.tasks)) [
    | inl gone ↦ rw (gone, next_candidate) h
    | inr (t, there) ↦ rw (there, next_candidate) (try_candidates-IsEngine t.candidates id now e h)
  ]

  begin-IsEngine :
      (id : ℕ) (t : Task) (now : ℕ) (e : Engine) → IsEngine e → IsEngine (begin id t now e).0
  unfolding begin
  begin-IsEngine id t now e h = elim (Option-cases (synthetic_answer e t.original t.rtype)) [
    | inr (x, made) ↦
        rw (made, begin)
          (settle-IsEngine id x (count_synthetic e)
            (same_core-IsEngine e e.draws (count_synthetic e).counters h))
    | inl other ↦ elim (Bool-cases (is_empty (candidates e t.original))) [
      | inl nothing ↦ rw (other, nothing, begin) (settle-IsEngine id _ e h)
      | inr several ↦
          rw (other, several, begin)
            (next_candidate-IsEngine id now _
              (update_task-IsEngine e h id (set_candidates (candidates e t.original)) (λ u p. p)))
    ]
  ]

  pub advance-IsEngine : (id now : ℕ) (e : Engine) → IsEngine e → IsEngine (advance id now e).0
  unfolding advance
  advance-IsEngine id now e h = elim (Option-cases (Keyed.get id e.tasks)) [
    | inl gone ↦ rw (gone, advance) h
    | inr (t, there) ↦ elim (Bool-cases (is_first_visit t)) [
      | inl first ↦ rw (there, first, advance) (begin-IsEngine id t now e h)
      | inr again ↦ rw (there, again, advance) (next_candidate-IsEngine id now e h)
    ]
  ]
