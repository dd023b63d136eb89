-- ===== src/Engine/Settle.antt =====
-- `Engine::settle` and `Engine::send` of resolvd/src/engine.rs. An operation returns the engine it
-- leaves and its actions.
use resolvd.Prelude.{
  ℕ, ◌+◌, ◌*◌, ◌/◌, ◌%◌, ◌^◌, Bool, not, List, [], ◌∷◌, ◌++◌, Option, none, some, is_empty, length,
  filter, get_elem?, leb, ◌==◌, if◌then◌else◌, Bytes, Result, ok, err, stuck,
}
use resolvd.Prelude.Keyed
use resolvd.Prelude.{id_key}
use resolvd.Net.{IpAddr}
use resolvd.Dns.Name.{Error}
use resolvd.Dns.Case.{randomise_case}
use resolvd.Dns.Types.{question_in}
use resolvd.Dns.Message.{query, encode}
use resolvd.Cache.{unavailable}
use resolvd.Engine.State.{
  Engine, Task, Lookup, Owner, resolve, lookup, Answer, plain_answer, Action, send, done, answer,
  addresses, max_attempts, max_in_flight, server_timeout,
}
use resolvd.Engine.Routing.{interface_of}
use resolvd.Engine.Replies.{combine, or_name}

abbrev pub Step : Type 0
Step = Engine × List Action

abbrev pub or_default : Option Bytes → Bytes
or_default none = []
or_default (some s) = s

-- `if let Some(tx) = task.tx { self.txs.remove(&tx); }`
abbrev pub drop_tx : Option ℕ → Engine → Engine
drop_tx none e = e
drop_tx (some tx) e = record e { txs = Keyed.remove tx e.txs }

abbrev pub with_result : ℕ → ℕ → Answer → Lookup → Lookup
with_result id rtype x l = record l {
  pending = filter (λ t. not (t == id)) l.pending;
  results = l.results ++ (rtype, x) ∷ [];
}

abbrev pub report : ℕ → Lookup → Engine → Step
report qid l e =
    if is_empty l.pending
    then (record e { lookups = Keyed.remove qid e.lookups }, done qid (addresses (combine l)) ∷ [])
    else (record e { lookups = Keyed.update qid (λ old. l) e.lookups }, [])

-- `match task.owner`
abbrev pub deliver : ℕ → Owner → ℕ → Answer → Engine → Step
deliver id (resolve qid) rtype x e = (e, done qid (answer x) ∷ [])
deliver id (lookup qid) rtype x e = elim (Keyed.get qid e.lookups) [
  | none ↦ (e, [])
  | some l ↦ report qid (with_result id rtype x l) e
]

unfoldable pub settle : ℕ → Answer → Engine → Step
settle id x e = elim (Keyed.get id e.tasks) [
  | none ↦ (e, [])
  | some task ↦
      deliver id task.owner task.rtype x
        (drop_tx task.tx (record e { tasks = Keyed.remove id e.tasks }))
]

abbrev pub count_refused : Engine → Engine
count_refused e = record e { counters = record e.counters { refused = e.counters.refused + 1 } }

-- The byte at an index of the 34 drawn; the code indexes within them.
abbrev pub drawn_byte : Bytes → ℕ → ℕ
drawn_byte random i = elim (get_elem? random i) [ none ↦ 0 | some b ↦ b ]

-- `u16::from_le_bytes([random[0], random[1]])` and the closure that draws case bits.
abbrev pub drawn_id : Bytes → ℕ
drawn_id random = drawn_byte random 0 + drawn_byte random 1 * 2 ^ 8

abbrev pub drawn_bit : Bytes → ℕ → Bool
drawn_bit random n = drawn_byte random (2 + n / 8) / 2 ^ (n % 8) % 2 == 1

-- The payload; a query for a well-formed name always encodes.
abbrev pub encoded_or_empty : Result Error Bytes → Bytes
encoded_or_empty (ok b) = b
encoded_or_empty (err e) = []
encoded_or_empty stuck = []

abbrev pub sent_task : ℕ → Task → Task
sent_task tx t = record t { attempt = t.attempt + 1; tx = some tx }

-- The end of `send`, with the bytes drawn.
unfoldable pub transmit : ℕ → Task → IpAddr → Bool → ℕ → Bytes → Engine → Step
transmit id task server tcp now random e =
    let name = randomise_case (or_name task.current task.original) (drawn_bit random) in
    let question = question_in name task.rtype in
    let tx = e.next_id in
    let interface : Option Bytes = elim task.scope [ none ↦ none | some s ↦ interface_of e s ] in
    (
      record e {
        next_id = tx + 1;
        txs =
            Keyed.insert tx
              (record {
                task = id;
                dns_id = drawn_id random;
                question = question;
                server = server;
                tcp = tcp;
                deadline = now + server_timeout;
              })
              e.txs;
        tasks = Keyed.update id (sent_task tx) e.tasks;
        counters = record e.counters { upstream_sent = e.counters.upstream_sent + 1 };
      },
      send tx server interface tcp (encoded_or_empty (encode (query (drawn_id random) question)))
          ∷ [],
    )

abbrev pub draw : Engine → Engine
draw e = record e { draws = e.draws + 1 }

unfoldable pub send_query : ℕ → IpAddr → Bool → ℕ → Engine → Step
send_query id server tcp now e = elim (Keyed.get id e.tasks) [
  | none ↦ (e, [])
  | some task ↦
      if leb max_attempts task.attempt
      then settle id
          (record (plain_answer unavailable) { interface = interface_of e (or_default task.scope) })
          e
      else if leb max_in_flight (length e.txs)
      then settle id (plain_answer unavailable) (count_refused e)
      else (elim (e.entropy e.draws) [
        | none ↦ settle id (plain_answer unavailable) (count_refused (draw e))
        | some random ↦ transmit id task server tcp now random (draw e)
      ])
]
