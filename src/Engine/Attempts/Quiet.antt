-- ===== src/Engine/Attempts/Quiet.antt =====
-- Settling a task sends nothing, so that what resolvd/src/engine.rs answers by itself stays local.
use resolvd.Prelude.{
  ℕ, ◌≡◌, refl, Bool, true, false, List, some, is_empty, All, Bool-cases, Option-cases, inl, inr,
  id_key,
}
use resolvd.Prelude.Keyed
use resolvd.Engine.State.{
  Levels, Engine, Task, Lookup, Owner, resolve, lookup, Answer, Action, send, cancel, done,
}
use resolvd.Engine.Local.{synthetic_answer}
use resolvd.Engine.Settle.{settle, deliver, report, with_result, drop_tx}
use resolvd.Engine.Attempts.{advance, begin, is_first_visit, count_synthetic}

abbrev pub is_send : Action → Bool
is_send (send tx server interface tcp payload) = true
is_send (cancel tx) = false
is_send (done qid completion) = false

abbrev pub IsQuiet : List Action → Type 0
IsQuiet actions = All (λ a. is_send a ≡ false) actions

report-IsQuiet : (qid : ℕ) (l : Lookup) (e : Engine) → IsQuiet (report qid l e).1
report-IsQuiet qid l e = elim (Bool-cases (is_empty l.pending)) [
  | inl last ↦ rw (last, report) (refl, tt)
  | inr more ↦ rw (more, report) tt
]

deliver-IsQuiet :
    (id : ℕ) (owner : Owner) (rtype : ℕ) (x : Answer) (e : Engine)
    → IsQuiet (deliver id owner rtype x e).1
deliver-IsQuiet id (resolve qid) rtype x e = (refl, tt)
deliver-IsQuiet id (lookup qid) rtype x e = elim (Option-cases (Keyed.get qid e.lookups)) [
  | inl gone ↦ rw (gone, deliver) tt
  | inr (l, there) ↦ rw (there, deliver) (report-IsQuiet qid (with_result id rtype x l) e)
]

settle-IsQuiet : (id : ℕ) (x : Answer) (e : Engine) → IsQuiet (settle id x e).1
unfolding settle
settle-IsQuiet id x e = elim (Option-cases (Keyed.get id e.tasks)) [
  | inl gone ↦ rw (gone, settle) tt
  | inr (t, there) ↦
      rw (there, settle)
        (deliver-IsQuiet id t.owner t.rtype x
          (drop_tx t.tx (record e { tasks = Keyed.remove id e.tasks })))
]

module _ ⦃lv : Levels⦄ where
  -- The first visit of a task whose name and type have a local answer (loopback, the own name, static
  -- hosts, their reverse, `.local`) sends no query.
  pub advance-IsQuiet :
      (id now : ℕ) (t : Task) (x : Answer) (e : Engine)
      → Keyed.get id e.tasks ≡ some t
      → is_first_visit t ≡ true
      → synthetic_answer e t.original t.rtype ≡ some x
      → IsQuiet (advance id now e).1
  unfolding advance begin
  advance-IsQuiet id now t x e there first made =
      rw (there, advance, first, made, begin) (settle-IsQuiet id x (count_synthetic e))
