-- ===== src/Engine/Invariant/Steps.antt =====
-- The steps of the engine keep its invariant.
use resolvd.Prelude.{
  ℕ, ◌+◌, ◌<◌, ◌≡◌, Bool, Option, none, some, is_empty, length, leb, Bool-cases, Option-cases, inl,
  inr, All, All-weaken, Bytes, arith, id_key,
}
use resolvd.Prelude.Keyed
use resolvd.Net.{IpAddr}
use resolvd.Dns.Case.{randomise_case}
use resolvd.Dns.Types.{question_in}
use resolvd.Engine.Replies.{or_name}
use resolvd.Engine.State.{
  Engine, Task, Lookup, Owner, resolve, lookup, Answer, max_attempts, max_in_flight, server_timeout,
  Counters,
}
use resolvd.Engine.Settle.{
  deliver, report, with_result, drop_tx, settle, transmit, draw, send_query, count_refused,
  sent_task, drawn_id, drawn_bit,
}
use resolvd.Engine.Invariant.{IsTask, IsEngine, remove_task-IsEngine, remove_tx-IsEngine}

report-IsEngine : (qid : ℕ) (l : Lookup) (e : Engine) → IsEngine e → IsEngine (report qid l e).0
report-IsEngine qid l e h = elim (Bool-cases (is_empty l.pending)) [
  | inl last ↦
      rw (last, report)
        (record { tasks = h.tasks; txs = h.txs; cache = h.cache; entries = h.entries })
  | inr more ↦
      rw (more, report)
        (record { tasks = h.tasks; txs = h.txs; cache = h.cache; entries = h.entries })
]

deliver-IsEngine :
    (id : ℕ) (owner : Owner) (rtype : ℕ) (x : Answer) (e : Engine)
    → IsEngine e
    → IsEngine (deliver id owner rtype x e).0
deliver-IsEngine id (resolve qid) rtype x e h = h
deliver-IsEngine id (lookup qid) rtype x e h = elim (Option-cases (Keyed.get qid e.lookups)) [
  | inl gone ↦ rw (gone, deliver) h
  | inr (l, there) ↦ rw (there, deliver) (report-IsEngine qid (with_result id rtype x l) e h)
]

drop_tx-IsEngine : (tx : Option ℕ) (e : Engine) → IsEngine e → IsEngine (drop_tx tx e)
drop_tx-IsEngine none e h = h
drop_tx-IsEngine (some tx) e h = remove_tx-IsEngine e h tx

pub settle-IsEngine : (id : ℕ) (x : Answer) (e : Engine) → IsEngine e → IsEngine (settle id x e).0
unfolding settle
settle-IsEngine id x e h = elim (Option-cases (Keyed.get id e.tasks)) [
  | inl gone ↦ rw (gone, settle) h
  | inr (t, there) ↦
      rw (there, settle)
        (deliver-IsEngine id t.owner t.rtype x _ (
          drop_tx-IsEngine t.tx (record e { tasks = Keyed.remove id e.tasks })
            (remove_task-IsEngine e h id)))
]

-- An id that is given out leaves the ids of the tasks below the next one.
pub later_tasks : (e : Engine) → IsEngine e → All (IsTask (e.next_id + 1)) e.tasks
later_tasks e h =
    All-weaken (IsTask e.next_id) (IsTask (e.next_id + 1)) e.tasks
      (λ x p. (omega (arith, p.0), p.1)) h.tasks

pub transmit-IsEngine :
    (id : ℕ) (t : Task) (server : IpAddr) (tcp : Bool) (now : ℕ) (random : Bytes) (e : Engine)
    → IsEngine e
    → t.attempt < max_attempts
    → Keyed.get id e.tasks ≡ some t
    → length e.txs < max_in_flight
    → IsEngine (transmit id t server tcp now random e).0
unfolding transmit
transmit-IsEngine id t server tcp now random e h budget there room = record {
  tasks =
      Keyed.All-update_found (IsTask (e.next_id + 1)) id (sent_task e.next_id) t e.tasks there
        (λ b p. (p.0, omega (arith, budget))) (later_tasks e h);
  txs = omega (
    arith,
    Keyed.length-insert_le e.next_id
        (record {
          task = id;
          dns_id = drawn_id random;
          question =
              question_in (randomise_case (or_name t.current t.original) (drawn_bit random))
                t.rtype;
          server = server;
          tcp = tcp;
          deadline = now + server_timeout;
        })
        e.txs,
    room,
  );
  cache = h.cache;
  entries = h.entries;
}

pub same_core-IsEngine :
    (e : Engine) (draws : ℕ) (counters : Counters)
    → IsEngine e
    → IsEngine (record e { draws = draws; counters = counters })
same_core-IsEngine e draws counters h = record {
  tasks = h.tasks;
  txs = h.txs;
  cache = h.cache;
  entries = h.entries;
}

pub send_query-IsEngine :
    (id : ℕ) (server : IpAddr) (tcp : Bool) (now : ℕ) (e : Engine)
    → IsEngine e
    → IsEngine (send_query id server tcp now e).0
unfolding send_query
send_query-IsEngine id server tcp now e h = elim (Option-cases (Keyed.get id e.tasks)) [
  | inl gone ↦ rw (gone, send_query) h
  | inr (t, there) ↦ elim (Bool-cases (leb max_attempts t.attempt)) [
    | inl spent ↦ rw (there, spent, send_query) (settle-IsEngine id _ e h)
    | inr budget ↦ elim (Bool-cases (leb max_in_flight (length e.txs))) [
      | inl full ↦
          rw (there, budget, full, send_query)
            (settle-IsEngine id _ (count_refused e)
              (same_core-IsEngine e e.draws (count_refused e).counters h))
      | inr room ↦ elim (Option-cases (e.entropy e.draws)) [
        | inl failed ↦
            rw (there, budget, room, failed, send_query)
              (settle-IsEngine id _ (count_refused (draw e))
                (same_core-IsEngine e (e.draws + 1) (count_refused e).counters h))
        | inr (random, drawn) ↦
            rw (there, budget, room, drawn, send_query)
              (transmit-IsEngine id t server tcp now random (draw e)
                (same_core-IsEngine e (e.draws + 1) e.counters h) (ground (arith, budget)) there
                (ground (arith, room)))
      ]
    ]
  ]
]
