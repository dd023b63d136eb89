-- ===== src/Engine/Invariant.antt =====
-- What holds of the engine of resolvd/src/engine.rs after any operations.
pub mod Steps
pub mod Attempts
pub mod Inputs
pub mod Questions
use resolvd.Prelude.{
  ℕ, ◌+◌, ◌≤◌, ◌<◌, ◌≡◌, ◌≢◌, ◌⊎◌, Bool, true, false, List, [], ◌∷◌, Option, none, some, length,
  All, All-weaken, arith, id_key, ==_iff,
}
use resolvd.Prelude.Keyed
use resolvd.Prelude.Keyed.{Table}
use resolvd.Cache
use resolvd.Cache.{CacheKey, Entry, Outcome, found, not_found, unavailable, max_entries}
use resolvd.Engine.State.{Engine, Task, Tx, max_attempts, max_in_flight}

abbrev pub IsTask : ℕ → ℕ × Task → Type 0
IsTask next (id, t) = (id < next) × (t.attempt ≤ max_attempts)

abbrev pub IsEntry : CacheKey × Entry → Type 0
IsEntry (k, x) = (x.outcome ≡ found) ⊎ ((x.outcome ≡ not_found) × (x.records ≡ []))

-- Tasks have ids that were given out and are within their budget of attempts, the transactions and
-- the cache are within their capacities, and a cached answer is found, or negative and without
-- records.
pub record IsEngine (e : Engine) : Type 0 where
  pub tasks : All (IsTask e.next_id) e.tasks
  pub txs : length e.txs ≤ max_in_flight
  pub cache : Cache.len e.cache ≤ max_entries
  pub entries : All IsEntry e.cache.entries

module _ (e : Engine) (h : IsEngine e) where
  pub update_task-IsEngine :
      (id : ℕ) (f : Task → Task)
      → ((t : Task) → t.attempt ≤ max_attempts → (f t).attempt ≤ max_attempts)
      → IsEngine (record e { tasks = Keyed.update id f e.tasks })
  update_task-IsEngine id f keep = record {
    tasks = Keyed.All-update (IsTask e.next_id) id f e.tasks (λ b v p. (p.0, keep v p.1)) h.tasks;
    txs = h.txs;
    cache = h.cache;
    entries = h.entries;
  }

  pub remove_task-IsEngine : (id : ℕ) → IsEngine (record e { tasks = Keyed.remove id e.tasks })
  remove_task-IsEngine id = record {
    tasks = Keyed.All-remove (IsTask e.next_id) id e.tasks h.tasks;
    txs = h.txs;
    cache = h.cache;
    entries = h.entries;
  }

  pub remove_tx-IsEngine : (tx : ℕ) → IsEngine (record e { txs = Keyed.remove tx e.txs })
  remove_tx-IsEngine tx = record {
    tasks = h.tasks;
    txs = omega (arith, Keyed.length-remove tx e.txs, h.txs);
    cache = h.cache;
    entries = h.entries;
  }

  pub task_attempts : (id : ℕ) (t : Task) → Keyed.get id e.tasks ≡ some t → t.attempt ≤ max_attempts
  task_attempts id t there =
      let (b, same, p) = Keyed.All-get (IsTask e.next_id) id t e.tasks h.tasks there in p.1
