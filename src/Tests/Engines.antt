-- ===== src/Tests/Engines.antt =====
-- The theorems on the engine, at an engine with two scopes.
use resolvd.Prelude.{
  arith, ℕ, ◌*◌, ◌≡◌, ◌↔◌, refl, true, false, List, [], ◌∷◌, Option, none, some, All, filter, Holds,
  Bytes, bytes, ok, id_key, min_by,
}
use resolvd.Prelude.Keyed
use resolvd.Net.{v4, second}
use resolvd.Dns.Name.{ends_with, label_count}
use resolvd.Dns.Types.{t_a}
use resolvd.Dns.Message.{encoded, decode}
use resolvd.Engine.Views.{Early, next_deadline, tick-Early}
use resolvd.Engine.Inputs.{tick}
use resolvd.Engine.State.{Engine, Scope}
use resolvd.Engine.Routing.{best_scope, route, exclusive_scope}
use resolvd.Engine.Routing.Best.{IsAhead, best_scope-IsAhead, best_scope-IsMatch, IsMatch}
use resolvd.Engine.Inputs.{matching_response}
use resolvd.Engine.Inputs.Match.{Answers, matching_response_iff}
use resolvd.Engine.Invariant.{IsEngine}
use resolvd.Engine.Runs.{
  with_entropy, Call, scopes_set, resolved, ticked, flushed, run, run-IsEngine,
}
use resolvd.Tests.{www, www_reply, www_tx, two_levels}
use resolvd.Dns.Name.{Name, name_eq}
use resolvd.Engine.Routing.{candidates}
use resolvd.Engine.Routing.Candidates.{IsExpansion, candidates-IsExpansion}
use resolvd.Engine.State.{Task, Answer, plain_answer, resolve, synthetic}
use resolvd.Cache.{found}
use resolvd.Dns.Types.{record_in, a}
use resolvd.Engine.Questions.{new_task}
use resolvd.Engine.Local.{synthetic_answer, address_records}
use resolvd.Engine.Attempts.{advance}
use resolvd.Engine.Attempts.Quiet.{IsQuiet, advance-IsQuiet}

abbrev wired : Scope
wired = record {
  id = bytes "eth0";
  interface = bytes "eth0";
  servers = v4 0x0a000035 ∷ [];
  domains = [];
  addresses = (v4 0x0a000002, 24) ∷ [];
  default_route = true;
  exclusive = false;
  metric = 100;
  level = 2;
}

abbrev tunnel : Scope
tunnel = record {
  id = bytes "vpn";
  interface = bytes "tun0";
  servers = v4 0x0a080035 ∷ [];
  domains = record { labels = bytes "peios" ∷ [] } ∷ [];
  addresses = [];
  default_route = false;
  exclusive = false;
  metric = 200;
  level = 2;
}

abbrev some_entropy : ℕ → Option Bytes
some_entropy n = some (7 ∷ 0 ∷ [])

abbrev calls : List Call
calls =
    scopes_set (wired ∷ tunnel ∷ [])
    ∷ resolved 1 (bytes "www.peios") t_a false 0
    ∷ ticked (3 * second)
    ∷ flushed
    ∷ []

abbrev ready : Engine
ready = record (with_entropy some_entropy) { scopes = wired ∷ tunnel ∷ [] }

-- A name of the tunnel's domain goes to the tunnel, in spite of its metric.
route_test : route ⦃lv = two_levels⦄ ready www ≡ some (bytes "vpn")
unfolding route with_entropy exclusive_scope min_by best_scope ends_with
route_test = refl

run-IsEngine_example : IsEngine (run ⦃lv = two_levels⦄ calls (with_entropy some_entropy)).0
run-IsEngine_example = run-IsEngine ⦃lv = two_levels⦄ calls some_entropy

best_scope-IsAhead_example :
    All
      (λ s.
        All
          (λ d. IsAhead (label_count d) s.metric (best_scope www (wired ∷ tunnel ∷ []) none))
          (filter (ends_with www) s.domains))
      (wired ∷ tunnel ∷ [])
best_scope-IsAhead_example = best_scope-IsAhead www (wired ∷ tunnel ∷ []) none

best_scope-IsMatch_example :
    Holds
      (λ w. IsMatch www (wired ∷ tunnel ∷ []) w.0 w.1 w.2)
      (best_scope www (wired ∷ tunnel ∷ []) none)
best_scope-IsMatch_example = best_scope-IsMatch www (wired ∷ tunnel ∷ [])

abbrev waiting : Engine
waiting = record (with_entropy some_entropy) { txs = (2, www_tx) ∷ [] }

waiting_test : Keyed.get 2 waiting.txs ≡ some www_tx
unfolding Keyed.get
waiting_test = refl

www_reply-Answers : Answers www_tx www_reply
www_reply-Answers = record { id = refl; response = refl; question = refl }

matching_response_iff_example :
    (matching_response waiting 2 (encoded www_reply) ≡ some www_reply)
    ↔ ((decode (encoded www_reply) ≡ ok www_reply) × Answers www_tx www_reply)
matching_response_iff_example =
    matching_response_iff waiting 2 www_tx (encoded www_reply) www_reply waiting_test

abbrev label : Name
label = record { labels = bytes "www" ∷ [] }

candidates-IsExpansion_example :
    All (IsExpansion ⦃lv = two_levels⦄ ready label) (candidates ⦃lv = two_levels⦄ ready label)
candidates-IsExpansion_example = candidates-IsExpansion ⦃lv = two_levels⦄ ready label refl

abbrev localhost_task : Task
localhost_task = new_task (resolve 1) (record { labels = bytes "localhost" ∷ [] }) t_a false

abbrev asked : Engine
asked = record ready { tasks = (1, localhost_task) ∷ [] }

asked_test : Keyed.get 1 asked.tasks ≡ some localhost_task
unfolding Keyed.get
asked_test = refl

abbrev localhost_answer : Answer
localhost_answer = record (plain_answer found) {
  records = record_in localhost_task.original 0 (a 0x7f000001) ∷ [];
  source = synthetic;
  resolved_name = some localhost_task.original;
}

localhost_test :
    synthetic_answer ⦃lv = two_levels⦄ asked localhost_task.original t_a ≡ some localhost_answer
unfolding synthetic_answer name_eq address_records
localhost_test = refl

advance-IsQuiet_example : IsQuiet (advance ⦃lv = two_levels⦄ 1 0 asked).1
advance-IsQuiet_example =
    advance-IsQuiet ⦃lv = two_levels⦄ 1 0 localhost_task localhost_answer asked asked_test refl
      localhost_test

-- A query in flight is due at 2 s.
early : Early 4 (next_deadline waiting)
unfolding next_deadline min_by
early = omega arith

tick-Early_example : tick 4 waiting ≡ (waiting, [])
tick-Early_example = tick-Early 4 waiting early
