-- ===== src/ReplyQueue.antt =====
-- resolvd/src/reply_queue.rs: replies whose peer does not drain them. An Instant is a count of nanoseconds.
-- The stream is a parameter: what `write` returns, and what the peer has been sent.
pub mod Delivery
pub mod Deadlines
use resolvd.Prelude.{
  ℕ, zero, suc, ◌+◌, ◌-◌, ◌%◌, ◌^◌, ◌≤◌, ◌≡◌, List, [], ◌∷◌, ◌++◌, map, Option, none, some, Bytes,
  length, take, drop, filter, ltb, leb, ◌==◌, if◌then◌else◌, min_by, id_key, Result, ok, err,
}
use resolvd.Prelude.Keyed
use resolvd.Prelude.Keyed.{Table}

abbrev pub write_timeout : ℕ
write_timeout = 1_000_000_000

abbrev pub max_pending_replies : ℕ
max_pending_replies = 256

-- The `io::ErrorKind`s that the file names, and the others.
pub data IoError : Type 0 where
  would_block interrupted write_zero timed_out : IoError
  other_kind : ℕ → IoError

-- An `io::Result<usize>`.
pub data Written : Type 0 where
  wrote : ℕ → Written
  refused : IoError → Written

-- A write sends a prefix of the bytes and returns its length, or sends nothing.
abbrev pub Sends : {S : Type 0} → (S → Bytes) → S → Bytes → Written × S → Type 0
Sends sent s b (wrote n, s') = (n ≤ length b) × (sent s' ≡ sent s ++ take n b)
Sends sent s b (refused e, s') = sent s' ≡ sent s

-- `Write + AsRawFd`: `sent_to` is what the peer of the stream has been sent.
pub record Stream (S : Type 0) : Type 0 where
  pub write : S → Bytes → Written × S
  pub as_raw_fd : S → ℕ
  pub sent_to : S → Bytes
  pub write-Sends : (s : S) (b : Bytes) → Sends sent_to s b (write s b)

pub record Pending (S : Type 0) : Type 0 where
  pub stream : S
  pub frame : Bytes
  pub sent : ℕ
  pub deadline : ℕ

pub record Replies (S : Type 0) : Type 0 where
  pub pending : Table ℕ (Pending S)
  pub next_id : ℕ

abbrev pub default_replies : {S : Type 0} → Replies S
default_replies = record { pending = []; next_id = 0 }

-- What an operation returns, the stream that it drops, and the queue after it.
pub record Step (S : Type 0) : Type 0 where
  pub result : Result IoError (Unit {0})
  pub dropped : Option S
  pub replies : Replies S

abbrev pub step : {S : Type 0} → Result IoError (Unit {0}) → Option S → Replies S → Step S
step r s q = record { result = r; dropped = s; replies = q }

-- The arms of `write_once`.
abbrev pub once : Written → Written
once (wrote zero) = refused write_zero
once (refused would_block) = wrote 0
once (refused interrupted) = wrote 0
once w = w

module _ {S : Type 0} (w : Stream S) where
  abbrev pub write_once : S → Bytes → Written × S
  write_once s b = (once (w.write s b).0, (w.write s b).1)

  -- The id is a u64.
  abbrev pub add_pending : Pending S → Replies S → Replies S
  add_pending p q = record q {
    pending = Keyed.insert q.next_id p q.pending;
    next_id = (q.next_id + 1) % 2 ^ 64;
  }

  -- `enqueue`, after its write.
  abbrev pub enqueue_written : Bytes → ℕ → Replies S → Written × S → Step S
  enqueue_written frame now q (refused e, s) = step (err e) (some s) q
  enqueue_written frame now q (wrote sent, s) =
      if sent == length frame
      then step (ok tt) (some s) q
      else if leb max_pending_replies (length q.pending)
      then step (err would_block) (some s) q
      else step (ok tt) none (
          add_pending
            record { stream = s; frame = frame; sent = sent; deadline = now + write_timeout } q)

  unfoldable pub enqueue : S → Bytes → ℕ → Replies S → Step S
  enqueue s frame now q = enqueue_written frame now q (write_once s frame)

  unfoldable pub fds : Replies S → List (ℕ × ℕ)
  fds q = map (λ x. (x.0, w.as_raw_fd x.1.stream)) q.pending

  -- `service`, after its write: `q` no longer holds the reply.
  abbrev pub service_written : ℕ → Pending S → Replies S → Written × S → Step S
  service_written id p q (refused e, s) = step (err e) (some s) q
  service_written id p q (wrote n, s) =
      if ltb (p.sent + n) (length p.frame)
      then step (ok tt) none (record q {
        pending = Keyed.insert id (record p { stream = s; sent = p.sent + n }) q.pending;
      })
      else step (ok tt) (some s) q

  abbrev pub service_found : ℕ → ℕ → Pending S → Replies S → Step S
  service_found id now p q =
      if leb p.deadline now
      then step (err timed_out) (some p.stream) q
      else service_written id p q (write_once p.stream (drop p.sent p.frame))

  unfoldable pub service : ℕ → ℕ → Replies S → Step S
  service id now q = elim (Keyed.get id q.pending) [
    | none ↦ step (ok tt) none q
    | some p ↦ service_found id now p (record q { pending = Keyed.remove id q.pending })
  ]

abbrev pub due : {S : Type 0} → ℕ × Pending S → ℕ
due x = x.1.deadline

unfoldable pub next_deadline : {S : Type 0} → Replies S → Option ℕ
unfolding min_by
next_deadline q = elim (min_by due q.pending) [ none ↦ none | some x ↦ some (due x) ]

-- How many are dropped, and the queue after it.
unfoldable pub expire : {S : Type 0} → ℕ → Replies S → ℕ × Replies S
expire now q =
    let kept = filter (λ x. ltb now (due x)) q.pending in
    (length q.pending - length kept, record q { pending = kept })
