-- ===== src/ReplyQueue/Deadlines.antt =====
-- No reply outlives its deadline: expire and next_deadline of resolvd/src/reply_queue.rs.
use resolvd.Prelude.{
  ℕ, ◌+◌, ◌≤◌, ◌<◌, ◌≡◌, refl, sym, subst, List, [], ◌∷◌, none, some, false, Bytes, length,
  length-filter, drop, filter, All, All-filter, ltb, leb, ◌==◌, ltb→lt, Bool-cases, Option-cases,
  inl, inr, min_by, min_by-holds, id_key, arith,
}
use resolvd.Prelude.Keyed
use resolvd.Prelude.Keyed.{Table}
use resolvd.ReplyQueue.{
  Written, wrote, refused, Stream, Pending, Replies, write_once, enqueue_written, enqueue,
  write_timeout, max_pending_replies, service_written, service_found, service, expire,
  next_deadline, due,
}
use resolvd.ReplyQueue.Delivery.{
  IsQueue, IsPending, service-service_found, service-Sound, enqueue-Sound,
}

module _ {S : Type 0} where
  kept-later :
      (now : ℕ) (m : Table ℕ (Pending S)) → All (λ x. now < due x) (filter (λ x. ltb now (due x)) m)
  kept-later now [] = tt
  kept-later now (x ∷ m) = elim (Bool-cases (ltb now (due x))) [
    | inl later ↦ rw later (ltb→lt now (due x) later, kept-later now m)
    | inr late ↦ rw late (kept-later now m)
  ]

  next_deadline-some :
      (q : Replies S) (t : ℕ)
      → next_deadline q ≡ some t
      → (x : ℕ × Pending S) × (min_by due q.pending ≡ some x) × (due x ≡ t)
  unfolding next_deadline
  next_deadline-some q t h = elim (Option-cases (min_by due q.pending)) [
    | inl e ↦ absurd (let e' : none ≡ some t = rw (e, next_deadline) at h in cc)
    | inr (x, e) ↦ (x, e, (let e' : some (due x) ≡ some t = rw (e, next_deadline) at h in cc))
  ]

  -- After `expire` at an instant the next deadline is later: the loop does not wake up again for the
  -- replies that it dropped.
  pub next_deadline-expire :
      (now t : ℕ) (q : Replies S) → next_deadline (expire now q).1 ≡ some t → now < t
  unfolding expire
  next_deadline-expire now t q h =
      let (x, first, same) = next_deadline-some (expire now q).1 t h in
      let later : now < due x =
        min_by-holds due (λ x. now < due x) (expire now q).1.pending x first
          (kept-later now q.pending) in
      omega (arith, later, same)

  filter-late :
      (t : ℕ) (m : Table ℕ (Pending S))
      → All (λ x. due x ≤ t) m
      → filter (λ x. ltb t (due x)) m ≡ []
  filter-late t [] h = refl
  filter-late t (x ∷ m) h =
      let late : ltb t (due x) ≡ false = ground (arith, h.0) in rw late (filter-late t m h.1)

-- The calls of the main loop. What a call returns and drops is in its own theorem.
pub data Event (S : Type 0) : Type 0 where
  enqueued : (stream : S) (frame : Bytes) (now : ℕ) → Event S
  serviced : (id now : ℕ) → Event S
  expired : (now : ℕ) → Event S

-- The deadline of a reply that the call adds.
abbrev pub Timely : {S : Type 0} → ℕ → Event S → Type 0
Timely t (enqueued s frame now) = now + write_timeout ≤ t
Timely t _ = Unit {0}

module _ {S : Type 0} (w : Stream S) where
  unfoldable pub after : List (Event S) → Replies S → Replies S
  after [] q = q
  after (enqueued s frame now ∷ es) q = after es (enqueue w s frame now q).replies
  after (serviced id now ∷ es) q = after es (service w id now q).replies
  after (expired now ∷ es) q = after es (expire now q).1

  module _ (t : ℕ) where
    abbrev Due : Replies S → Type 0
    Due q = All (λ x. due x ≤ t) q.pending

    enqueue_written-Due :
        (frame : Bytes) (now : ℕ) (q : Replies S) (r : Written × S)
        → now + write_timeout ≤ t
        → Due q
        → Due (enqueue_written w frame now q r).replies
    enqueue_written-Due frame now q (refused e, s) soon h = h
    enqueue_written-Due frame now q (wrote n, s) soon h = elim (Bool-cases (n == length frame)) [
      | inl whole ↦ rw whole h
      | inr part ↦ elim (Bool-cases (leb max_pending_replies (length q.pending))) [
        | inl full ↦ rw (part, full) h
        | inr room ↦
            rw (part, room)
              (Keyed.All-insert (λ x. due x ≤ t) q.next_id _ q.pending (λ b e. soon) h)
      ]
    ]

    service_written-Due :
        (id : ℕ) (p : Pending S) (q : Replies S) (r : Written × S)
        → p.deadline ≤ t
        → Due q
        → Due (service_written w id p q r).replies
    service_written-Due id p q (refused e, s) soon h = h
    service_written-Due id p q (wrote n, s) soon h =
        elim (Bool-cases (ltb (p.sent + n) (length p.frame))) [
          | inl more ↦ rw more (Keyed.All-insert (λ x. due x ≤ t) id _ q.pending (λ b e. soon) h)
          | inr whole ↦ rw whole h
        ]

    service_found-Due :
        (id now : ℕ) (p : Pending S) (q : Replies S)
        → p.deadline ≤ t
        → Due q
        → Due (service_found w id now p q).replies
    service_found-Due id now p q soon h = elim (Bool-cases (leb p.deadline now)) [
      | inl late ↦ rw late h
      | inr early ↦
          rw early (service_written-Due id p q (write_once w p.stream (drop p.sent p.frame)) soon h)
    ]

    service-Due : (id now : ℕ) (q : Replies S) → Due q → Due (service w id now q).replies
    unfolding service
    service-Due id now q h = elim (Option-cases (Keyed.get id q.pending)) [
      | inl absent ↦ rw (absent, service) h
      | inr (p, found) ↦
          let (b, same, soon) = Keyed.All-get (λ x. due x ≤ t) id p q.pending h found in
          subst (λ x. Due x.replies) (sym (service-service_found w id now p q found))
            (service_found-Due id now p (record q { pending = Keyed.remove id q.pending }) soon
              (Keyed.All-remove (λ x. due x ≤ t) id q.pending h))
    ]

    enqueue-Due :
        (s : S) (frame : Bytes) (now : ℕ) (q : Replies S)
        → now + write_timeout ≤ t
        → Due q
        → Due (enqueue w s frame now q).replies
    unfolding enqueue
    enqueue-Due s frame now q = enqueue_written-Due frame now q (write_once w s frame)

    expire-Due : (now : ℕ) (q : Replies S) → Due q → Due (expire now q).1
    unfolding expire
    expire-Due now q h = All-filter (λ x. due x ≤ t) (λ x. ltb now (due x)) q.pending h

    after-Due : (es : List (Event S)) (q : Replies S) → All (Timely t) es → Due q → Due (after es q)
    unfolding after
    after-Due [] q soon h = h
    after-Due (enqueued s frame now ∷ es) q soon h =
        after-Due es _ soon.1 (enqueue-Due s frame now q soon.0 h)
    after-Due (serviced id now ∷ es) q soon h = after-Due es _ soon.1 (service-Due id now q h)
    after-Due (expired now ∷ es) q soon h = after-Due es _ soon.1 (expire-Due now q h)

  -- Of a queue in which no reply is due after an instant, and of any calls that add none due after
  -- it, `expire` at that instant leaves no reply in the queue.
  pub expire-after :
      (t : ℕ) (es : List (Event S)) (q : Replies S)
      → All (Timely t) es
      → All (λ x. due x ≤ t) q.pending
      → (expire t (after es q)).1.pending ≡ []
  unfolding expire
  expire-after t es q soon h = filter-late t (after es q).pending (after-Due t es q soon h)

  -- The streams that the loop hands over are fresh.
  abbrev pub Fresh : Event S → Type 0
  Fresh (enqueued s frame now) = w.sent_to s ≡ []
  Fresh _ = Unit {0}

  service-IsQueue :
      (id now : ℕ) (q : Replies S) → IsQueue w q → IsQueue w (service w id now q).replies
  unfolding service
  service-IsQueue id now q h = elim (Option-cases (Keyed.get id q.pending)) [
    | inl absent ↦ rw (absent, service) h
    | inr (p, found) ↦ (service-Sound w id now p q h found).0
  ]

  expire-IsQueue : (now : ℕ) (q : Replies S) → IsQueue w q → IsQueue w (expire now q).1
  unfolding expire
  expire-IsQueue now q h = record {
    few = omega (arith, h.few, length-filter (λ x. ltb now (due x)) q.pending);
    replies = All-filter (λ x. IsPending w x.1) (λ x. ltb now (due x)) q.pending h.replies;
  }

  -- Any calls on a sound queue leave a sound queue, where the streams handed over were sent nothing
  -- yet: at most 256 replies, each of which was sent a part of its frame, as much as is counted, and
  -- not all of it.
  pub after-IsQueue :
      (es : List (Event S)) (q : Replies S) → All Fresh es → IsQueue w q → IsQueue w (after es q)
  unfolding after
  after-IsQueue [] q fresh h = h
  after-IsQueue (enqueued s frame now ∷ es) q fresh h =
      after-IsQueue es _ fresh.1 (enqueue-Sound w s frame now q fresh.0 h).0
  after-IsQueue (serviced id now ∷ es) q fresh h =
      after-IsQueue es _ fresh.1 (service-IsQueue id now q h)
  after-IsQueue (expired now ∷ es) q fresh h = after-IsQueue es _ fresh.1 (expire-IsQueue now q h)
