-- ===== src/Engine/Invariant/Inputs.antt =====
-- Replies, failures and time keep the engine's invariant.
use resolvd.Prelude.{
  ℕ, ◌%◌, ◌^◌, ◌≡◌, ◌⊎◌, true, ◌&&◌, not, List, [], ◌∷◌, is_empty, leb, ltb, ◌==◌, Bool-cases,
  Option-cases, inl, inr, Bytes, arith, id_key, All, All-filter, filter, length, refl,
}
use resolvd.Prelude.Keyed
use resolvd.Prelude.Keyed.{Table}
use resolvd.Net.{IpAddr}
use resolvd.Dns.Name.{Name}
use resolvd.Dns.Types.{Message, nxdomain}
use resolvd.Dns.Message.{full_rcode}
use resolvd.Cache
use resolvd.Cache.{
  Outcome, found, not_found, unavailable, Entry, cache_key, CacheKey, max_entries, Cache,
  cache_keys, evict_soonest, make_room, is_live, is_some, expiry,
}
use resolvd.Prelude.{min_by}
use resolvd.Cache.Bounds.{insert-bounded}
use resolvd.Engine.State.{Levels, Engine, Task, Tx}
use resolvd.Engine.Routing.{demote}
use resolvd.Engine.Replies.{or_name}
use resolvd.Engine.Settle.{or_default}
use resolvd.Engine.Attempts.{is_not_found}
use resolvd.Engine.Inputs.{
  judge, admit, entry_of, accept, promote, refund, clear_tx, count_answered, count_failed,
  is_final_code, take_reply, matching_response, received, scope_of_task, failed, local_failed,
  fail_all, tick, expired_txs,
}
use resolvd.Engine.Invariant.{IsEntry, IsEngine, update_task-IsEngine, remove_tx-IsEngine}
use resolvd.Engine.Invariant.Steps.{settle-IsEngine, send_query-IsEngine, same_core-IsEngine}
use resolvd.Engine.Invariant.Attempts.{next_attempt-IsEngine, next_candidate-IsEngine}

-- The verdict on an accepted reply is that the name is found, or that it does not exist, and then it
-- carries no records.
pub judge_outcome :
    (m : Message) (candidate : Name) (rtype : ℕ)
    → let v = judge m candidate rtype in
      (v.outcome ≡ found) ⊎ ((v.outcome ≡ not_found) × (v.records ≡ []))
unfolding judge
judge_outcome m candidate rtype = elim (Bool-cases (full_rcode m % 2 ^ 8 == nxdomain)) [
  | inl absent ↦ inr (rw (absent) refl, rw (absent) refl)
  | inr present ↦ inl (rw (present) refl)
]

evict_soonest-entries : (m : Table CacheKey Entry) → All IsEntry m → All IsEntry (evict_soonest m)
unfolding evict_soonest
evict_soonest-entries m h = elim (Option-cases (min_by expiry m)) [
  | inl empty ↦ rw (empty, evict_soonest) h
  | inr (victim, there) ↦ rw (there, evict_soonest) (Keyed.All-remove IsEntry victim.0 m h)
]

make_room-entries :
    (now : ℕ) (m : Table CacheKey Entry) → All IsEntry m → All IsEntry (make_room now m)
unfolding make_room
make_room-entries now m h =
    let kept = All-filter IsEntry (is_live now) m h in
    elim (Bool-cases (leb max_entries (length (filter (is_live now) m)))) [
      | inl full ↦ rw (full) (evict_soonest-entries (filter (is_live now) m) kept)
      | inr room ↦ rw (room) kept
    ]

insert-entries :
    (k : CacheKey) (x : Entry) (now : ℕ) (c : Cache)
    → (x.outcome ≡ found) ⊎ ((x.outcome ≡ not_found) × (x.records ≡ []))
    → All IsEntry c.entries
    → All IsEntry (Cache.insert k x now c).entries
unfolding Cache.insert
insert-entries k x now c new h =
    elim (Bool-cases
      (leb max_entries (length c.entries) && not (is_some (Keyed.get k c.entries)))) [
        | inl full ↦ rw (full) (
            Keyed.All-insert IsEntry k x (make_room now c.entries) (λ b same. new)
              (make_room-entries now c.entries h))
        | inr room ↦ rw (room) (Keyed.All-insert IsEntry k x c.entries (λ b same. new) h)
      ]

admit-IsEngine :
    (t : Task) (candidate : Name) (scope : Bytes) (m : Message) (code : ℕ) (server : IpAddr)
    (now : ℕ) (e : Engine)
    → IsEngine e
    → IsEngine (admit t candidate scope (judge m candidate t.rtype) code server now e)
unfolding admit
admit-IsEngine t candidate scope m code server now e h =
    let v = judge m candidate t.rtype in
    elim (Bool-cases (ltb 0 v.ttl && not t.cache_invalidated)) [
      | inr refused ↦ rw (refused) h
      | inl admitted ↦
          let k = cache_key candidate t.rtype scope in
          let x = entry_of v code server now in
          rw (admitted) (record {
            tasks = h.tasks;
            txs = h.txs;
            cache = insert-bounded k x now e.cache h.cache;
            entries = insert-entries k x now e.cache (judge_outcome m candidate t.rtype) h.entries;
          })
    ]

promote-IsEngine :
    (server : IpAddr) (scope : Bytes) (e : Engine) → IsEngine e → IsEngine (promote server scope e)
promote-IsEngine server scope e h = record {
  tasks = h.tasks;
  txs = h.txs;
  cache = h.cache;
  entries = h.entries;
}

demote-IsEngine :
    (server : IpAddr) (scope : Bytes) (now : ℕ) (e : Engine)
    → IsEngine e
    → IsEngine (demote server scope now e)
unfolding demote
demote-IsEngine server scope now e h = record {
  tasks = h.tasks;
  txs = h.txs;
  cache = h.cache;
  entries = h.entries;
}

module _ ⦃lv : Levels⦄ where
  accept-IsEngine :
      (id : ℕ) (t : Task) (server : IpAddr) (m : Message) (now : ℕ) (e : Engine)
      → IsEngine e
      → IsEngine (accept id t server m now e).0
  unfolding accept
  accept-IsEngine id t server m now e h =
      let scope = or_default t.scope in
      let candidate = or_name t.current t.original in
      let v = judge m candidate t.rtype in
      let e₁ : Engine =
        admit t candidate scope v (full_rcode m) server now (promote server scope e) in
      let h₁ : IsEngine e₁ =
        admit-IsEngine t candidate scope m (full_rcode m) server now (promote server scope e)
          (promote-IsEngine server scope e h) in
      elim (Bool-cases (is_not_found v.outcome && not (is_empty t.candidates))) [
        | inl another ↦
            rw (another, accept)
              (next_candidate-IsEngine id now _
                (update_task-IsEngine e₁ h₁ id refund (λ u p. omega (arith, p))))
        | inr last ↦ rw (last, accept) (settle-IsEngine id _ e₁ h₁)
      ]

  take_reply-IsEngine :
      (id : ℕ) (t : Task) (tx : Tx) (m : Message) (now : ℕ) (e : Engine)
      → IsEngine e
      → IsEngine (take_reply id t tx m now e).0
  unfolding take_reply
  take_reply-IsEngine id t tx m now e h = elim (Bool-cases (m.header.truncated && not tx.tcp)) [
    | inl cut ↦ rw (cut, take_reply) (send_query-IsEngine id tx.server true now e h)
    | inr whole ↦ elim (Bool-cases (is_final_code (full_rcode m))) [
      | inl final ↦ rw (whole, final, take_reply) (accept-IsEngine id t tx.server m now e h)
      | inr unhelpful ↦
          rw (whole, unhelpful, take_reply)
            (next_attempt-IsEngine id now _ (
              demote-IsEngine tx.server (or_default t.scope) now (count_failed e)
                (same_core-IsEngine e e.draws (count_failed e).counters h)))
    ]
  ]

  pub received-IsEngine :
      (tx : ℕ) (bytes : Bytes) (now : ℕ) (e : Engine)
      → IsEngine e
      → IsEngine (received tx bytes now e).0
  unfolding received
  received-IsEngine tx bytes now e h = elim (Option-cases (Keyed.get tx e.txs)) [
    | inl unknown ↦ rw (unknown, received) h
    | inr (t, there) ↦ elim (Option-cases (matching_response e tx bytes)) [
      | inl ignored ↦ rw (there, ignored, received) h
      | inr (m, matched) ↦
          let e₁ : Engine = record e { txs = Keyed.remove tx e.txs } in
          let h₁ : IsEngine e₁ = remove_tx-IsEngine e h tx in
          elim (Option-cases (Keyed.get t.task e₁.tasks)) [
            | inl gone ↦ rw (there, matched, gone, received) h₁
            | inr (task, task_there) ↦
                let e₂ : Engine = record e₁ { tasks = Keyed.update t.task clear_tx e₁.tasks } in
                let h₂ : IsEngine e₂ = update_task-IsEngine e₁ h₁ t.task clear_tx (λ u p. p) in
                rw (there, matched, task_there, received)
                  (take_reply-IsEngine t.task task t m now (count_answered e₂)
                    (same_core-IsEngine e₂ e₂.draws (count_answered e₂).counters h₂))
          ]
    ]
  ]

  without_tx :
      (tx : ℕ) (e : Engine)
      → IsEngine e
      → IsEngine (count_failed (record e { txs = Keyed.remove tx e.txs }))
  without_tx tx e h =
      let e₁ : Engine = record e { txs = Keyed.remove tx e.txs } in
      same_core-IsEngine e₁ e₁.draws (count_failed e₁).counters (remove_tx-IsEngine e h tx)

  pub failed-IsEngine : (tx now : ℕ) (e : Engine) → IsEngine e → IsEngine (failed tx now e).0
  unfolding failed
  failed-IsEngine tx now e h = elim (Option-cases (Keyed.get tx e.txs)) [
    | inl unknown ↦ rw (unknown, failed) h
    | inr (t, there) ↦
        let e₁ : Engine = count_failed (record e { txs = Keyed.remove tx e.txs }) in
        let scope = scope_of_task (Keyed.get t.task e₁.tasks) in
        rw (there, failed)
          (next_attempt-IsEngine t.task now _ (
            update_task-IsEngine (demote t.server scope now e₁)
              (demote-IsEngine t.server scope now e₁ (without_tx tx e h)) t.task clear_tx
              (λ u p. p)))
  ]

  pub local_failed-IsEngine :
      (tx now : ℕ) (e : Engine) → IsEngine e → IsEngine (local_failed tx now e).0
  unfolding local_failed
  local_failed-IsEngine tx now e h = elim (Option-cases (Keyed.get tx e.txs)) [
    | inl unknown ↦ rw (unknown, local_failed) h
    | inr (t, there) ↦
        rw (there, local_failed)
          (next_attempt-IsEngine t.task now _
            (update_task-IsEngine _ (without_tx tx e h) t.task clear_tx (λ u p. p)))
  ]

  fail_all-IsEngine :
      (txs : List ℕ) (now : ℕ) (e : Engine) → IsEngine e → IsEngine (fail_all txs now e).0
  unfolding fail_all
  fail_all-IsEngine [] now e h = h
  fail_all-IsEngine (tx ∷ txs) now e h =
      fail_all-IsEngine txs now (failed tx now e).0 (failed-IsEngine tx now e h)

  pub tick-IsEngine : (now : ℕ) (e : Engine) → IsEngine e → IsEngine (tick now e).0
  unfolding tick
  tick-IsEngine now e h = fail_all-IsEngine (expired_txs now e.txs) now e h
