-- ===== src/ReplyQueue/Delivery.antt =====
-- What the peer of a reply has been sent, over enqueue, service and expire of
-- resolvd/src/reply_queue.rs, and the bound of the queue.
use resolvd.Prelude.{
  ℕ, zero, suc, ◌+◌, ◌≤◌, ◌<◌, ◌≡◌, refl, ap, ◌∙◌, sym, subst, [], ◌∷◌, ◌++◌, Option, none, some,
  Bytes, length, take, drop, All, ltb, leb, ◌==◌, ltb→lt, Bool-cases, inl, inr, Result, ok, err,
  stuck, arith, id_key,
}
use resolvd.Prelude.Keyed
use mathlib.Core.List.{append-nil}
use resolvd.ReplyQueue.{
  would_block, interrupted, write_zero, timed_out, other_kind, max_pending_replies, IoError,
  Written, wrote, refused, Sends, Stream, Pending, Replies, Step, once, write_once, write_timeout,
  enqueue_written, enqueue, service_written, service_found, service,
}

take-drop : (m n : ℕ) (b : Bytes) → take m b ++ take n (drop m b) ≡ take (m + n) b
take-drop zero n b = let e : 0 + n ≡ n = omega arith in rw e refl
take-drop (suc m) zero [] = let e : suc m + 0 ≡ suc m = omega arith in rw e refl
take-drop (suc m) (suc n) [] = let e : suc m + suc n ≡ suc (m + suc n) = omega arith in rw e refl
take-drop (suc m) n (x ∷ b) =
    let e : suc m + n ≡ suc (m + n) = omega arith in rw e (ap (λ r. x ∷ r) (take-drop m n b))

take-all : (n : ℕ) (b : Bytes) → length b ≤ n → take n b ≡ b
take-all zero [] h = refl
take-all (suc n) [] h = refl
take-all zero (x ∷ b) h = absurd (omega arith)
take-all (suc n) (x ∷ b) h = ap (λ r. x ∷ r) (take-all n b (omega arith))

module _ {S : Type 0} (w : Stream S) where
  -- The peer was sent a part of the frame, all that `sent` counts, and not all of it.
  pub record IsPending (p : Pending S) : Type 0 where
    pub partial : p.sent < length p.frame
    pub prefix : w.sent_to p.stream ≡ take p.sent p.frame

  pub record IsQueue (q : Replies S) : Type 0 where
    pub few : length q.pending ≤ max_pending_replies
    pub replies : All (λ x. IsPending x.1) q.pending

  -- A stream that is dropped after a success was sent the whole frame, one that is dropped after an
  -- error a prefix of it. No error leaves the stream in the queue.
  abbrev pub Ends : Bytes → Result IoError (Unit {0}) → Option S → Type 0
  Ends frame (ok u) (some s) = w.sent_to s ≡ frame
  Ends frame (ok u) none = Unit {0}
  Ends frame (err e) (some s) = (n : ℕ) × (w.sent_to s ≡ take n frame)
  Ends frame (err e) none = ⊥
  Ends frame stuck o = ⊥

  once-Sends :
      (s : S) (b : Bytes) (r : Written) (s' : S)
      → Sends w.sent_to s b (r, s')
      → Sends w.sent_to s b (once r, s')
  once-Sends s b (wrote zero) s' h = h.1 ∙ append-nil (w.sent_to s)
  once-Sends s b (wrote (suc n)) s' h = h
  once-Sends s b (refused would_block) s' h = (omega arith, h ∙ sym (append-nil (w.sent_to s)))
  once-Sends s b (refused interrupted) s' h = (omega arith, h ∙ sym (append-nil (w.sent_to s)))
  once-Sends s b (refused write_zero) s' h = h
  once-Sends s b (refused timed_out) s' h = h
  once-Sends s b (refused (other_kind k)) s' h = h

  write_once-Sends : (s : S) (b : Bytes) → Sends w.sent_to s b (write_once w s b)
  write_once-Sends s b = once-Sends s b (w.write s b).0 (w.write s b).1 (w.write-Sends s b)

  -- What an operation on a frame leaves.
  abbrev pub Sound : Bytes → Step S → Type 0
  Sound frame x = IsQueue x.replies × Ends frame x.result x.dropped

  service_written-Sound :
      (id : ℕ) (p : Pending S) (q : Replies S) (r : Written × S)
      → IsPending p
      → length q.pending < max_pending_replies
      → All (λ x. IsPending x.1) q.pending
      → Sends w.sent_to p.stream (drop p.sent p.frame) r
      → Sound p.frame (service_written w id p q r)
  service_written-Sound id p q (refused e, s) h room all sends =
      (record { few = omega (arith, room); replies = all }, (p.sent, sends ∙ h.prefix))
  service_written-Sound id p q (wrote n, s) h room all sends =
      let total : w.sent_to s ≡ take (p.sent + n) p.frame =
        sends.1
        ∙ ap (λ b. b ++ take n (drop p.sent p.frame)) h.prefix
        ∙ take-drop p.sent n p.frame in
      elim (Bool-cases (ltb (p.sent + n) (length p.frame))) [
        | inl more ↦
            let p' : Pending S = record p { stream = s; sent = p.sent + n } in
            let now_sent : IsPending p' = record {
              partial = ltb→lt (p.sent + n) (length p.frame) more;
              prefix = total;
            } in
            rw more (
              record {
                few = omega (arith, room, Keyed.length-insert_le id p' q.pending);
                replies =
                    Keyed.All-insert (λ x. IsPending x.1) id p' q.pending (λ b e. now_sent) all;
              },
              tt,
            )
        | inr whole ↦ rw whole (
          record { few = omega (arith, room); replies = all },
          total ∙ take-all (p.sent + n) p.frame (ground (arith, whole)),
        )
      ]

  pub service-service_found :
      (id now : ℕ) (p : Pending S) (q : Replies S)
      → Keyed.get id q.pending ≡ some p
      → service w id now q
        ≡ service_found w id now p (record q { pending = Keyed.remove id q.pending })
  unfolding service
  service-service_found id now p q found = rw (found, service) refl

  service_found-Sound :
      (id now : ℕ) (p : Pending S) (q : Replies S)
      → IsPending p
      → length q.pending < max_pending_replies
      → All (λ x. IsPending x.1) q.pending
      → Sound p.frame (service_found w id now p q)
  service_found-Sound id now p q h less rest = elim (Bool-cases (leb p.deadline now)) [
    | inl late ↦ rw late (record { few = omega (arith, less); replies = rest }, (p.sent, h.prefix))
    | inr early ↦ rw early (
        service_written-Sound id p q (write_once w p.stream (drop p.sent p.frame)) h less rest
          (write_once-Sends p.stream (drop p.sent p.frame)))
  ]

  -- `service` of a reply that a sound queue holds leaves a sound queue. A stream that it drops was
  -- sent the whole frame after a success, and a prefix of the frame after an error, and after an
  -- error the stream is always dropped.
  pub service-Sound :
      (id now : ℕ) (p : Pending S) (q : Replies S)
      → IsQueue q
      → Keyed.get id q.pending ≡ some p
      → Sound p.frame (service w id now q)
  service-Sound id now p q h found =
      let (b, same, pending) = Keyed.All-get (λ x. IsPending x.1) id p q.pending h.replies found in
      let less : length (Keyed.remove id q.pending) < max_pending_replies =
        omega (arith, h.few, Keyed.length-remove_present id p q.pending found) in
      let rest = Keyed.All-remove (λ x. IsPending x.1) id q.pending h.replies in
      subst (Sound p.frame) (sym (service-service_found id now p q found)) (
        service_found-Sound id now p (record q { pending = Keyed.remove id q.pending }) pending less
          rest)

  enqueue_written-Sound :
      (start : S) (frame : Bytes) (now : ℕ) (q : Replies S) (r : Written × S)
      → w.sent_to start ≡ []
      → IsQueue q
      → Sends w.sent_to start frame r
      → Sound frame (enqueue_written w frame now q r)
  enqueue_written-Sound start frame now q (refused e, s) none_yet h sends =
      (h, (0, sends ∙ none_yet))
  enqueue_written-Sound start frame now q (wrote n, s) none_yet h sends =
      let total : w.sent_to s ≡ take n frame = sends.1 ∙ ap (λ b. b ++ take n frame) none_yet in
      elim (Bool-cases (n == length frame)) [
        | inl whole ↦ rw whole (h, total ∙ take-all n frame (ground (arith, whole)))
        | inr part ↦ elim (Bool-cases (leb max_pending_replies (length q.pending))) [
          | inl full ↦ rw (part, full) (h, (n, total))
          | inr room ↦
              let p : Pending S = record {
                stream = s;
                frame = frame;
                sent = n;
                deadline = now + write_timeout;
              } in
              let pending : IsPending p = record {
                partial = ground (arith, sends.0, part);
                prefix = total;
              } in
              rw (part, room)
                (
                  record {
                    few = ground (arith, room, Keyed.length-insert_le q.next_id p q.pending);
                    replies =
                        Keyed.All-insert (λ x. IsPending x.1) q.next_id p q.pending (λ b e. pending)
                          h.replies;
                  },
                  tt,
                )
        ]
      ]

  -- `enqueue` of a frame on a sound queue, for a stream whose peer was sent nothing yet, leaves a
  -- sound queue. A stream that it drops was sent the whole frame after a success, and a prefix of the
  -- frame after an error, and after an error the stream is always dropped.
  pub enqueue-Sound :
      (s : S) (frame : Bytes) (now : ℕ) (q : Replies S)
      → w.sent_to s ≡ []
      → IsQueue q
      → Sound frame (enqueue w s frame now q)
  unfolding enqueue
  enqueue-Sound s frame now q none_yet h =
      enqueue_written-Sound s frame now q (write_once w s frame) none_yet h
        (write_once-Sends s frame)
