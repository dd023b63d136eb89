-- ===== src/Native/Framing/RoundTrip.antt =====
-- A message that is sent is received, and a call returns the reply of the other side.
use resolvd.Prelude.{
  ℕ, ◌%◌, ◌^◌, ◌≤◌, ◌<◌, ◌≡◌, refl, ap, ◌∙◌, sym, subst, [], ◌++◌, false, Bytes, length, leb,
  leb→le, le→leb, Bool-cases, Option-cases, inl, inr, Result, ok, err, ◌>>=◌, ok_or, arith,
  ok-injective,
}
use mathlib.Core.List.{append_assoc, append-nil}
use resolvd.Native.{WireError, too_large, io, max_message_bytes}
use resolvd.Native.Messages.{Reply}
use resolvd.Native.Request as request
use resolvd.Native.Request.{IpText, Request}
use resolvd.Native.Request.RoundTrip.{IsRequest, decode-encode_request}
use resolvd.Native.Reply as reply
use resolvd.Native.Reply.RoundTrip.{IsReply, decode-encode_reply}
use resolvd.Native.Framing.{Stream, to_le_4, from_le, frame, send, recv, call}

from_le-to_le_4 : (v : ℕ) → v < 2 ^ 32 → from_le (to_le_4 v) ≡ v
from_le-to_le_4 v h = omega arith

module _ {S : Type 0} (w : Stream S) where
  write_all-flush :
      (b : Bytes) (s s' : S)
      → (ok_or (w.write_all b s) io >>= λ x. ok_or (w.flush x) io) ≡ ok s'
      → w.outgoing s' ≡ w.outgoing s ++ b
  write_all-flush b s s' h = elim (Option-cases (w.write_all b s)) [
    | inl e ↦ absurd (let e' : err io ≡ ok s' = rw e at h in cc)
    | inr (x, e) ↦ elim (Option-cases (w.flush x)) [
      | inl e₂ ↦ absurd (let e' : err io ≡ ok s' = rw (e, e₂) at h in cc)
      | inr (y, e₂) ↦
          let same : ◌≡◌ {A = Result WireError S} (ok y) (ok s') = rw (e, e₂) at h in
          subst (λ z. w.outgoing z ≡ w.outgoing s ++ b) (ok-injective same)
            (w.outgoing-flush x y e₂ ∙ w.outgoing-write_all s x b e)
    ]
  ]

  -- A send that succeeds wrote the frame of a message of at most 65,536 bytes.
  send-frame :
      (payload : Bytes) (s s' : S)
      → send w payload s ≡ ok s'
      → (length payload ≤ max_message_bytes) × (w.outgoing s' ≡ w.outgoing s ++ frame payload)
  unfolding send
  send-frame payload s s' h = elim (Bool-cases (leb (length payload) max_message_bytes)) [
    | inl fits ↦ (
      leb→le (length payload) max_message_bytes fits,
      write_all-flush (frame payload) s s' (rw (fits, send) at h),
    )
    | inr big ↦
        absurd (let e' : err (too_large (length payload)) ≡ ok s' = rw (big, send) at h in cc)
  ]

  -- A message of at most 65,536 bytes that stands in its frame is received, and what follows is left.
  recv-frame :
      (payload t : Bytes) (s : S)
      → length payload ≤ max_message_bytes
      → w.incoming s ≡ frame payload ++ t
      → (s' : S) × (recv w s ≡ ok (payload, s')) × (w.incoming s' ≡ t)
  unfolding recv
  recv-frame payload t s fits h =
      let n = length payload in
      let same : n % 2 ^ 32 ≡ n = omega (arith, fits) in
      let (s₁, four, rest) =
        w.read_exact-append s (to_le_4 (n % 2 ^ 32)) (payload ++ t)
          (h ∙ append_assoc (to_le_4 (n % 2 ^ 32)) payload t) in
      let (s₂, whole, left) = w.read_exact-append s₁ payload t rest in
      let len : from_le (to_le_4 (n % 2 ^ 32)) ≡ n =
        from_le-to_le_4 (n % 2 ^ 32) (omega arith) ∙ same in
      (s₂, rw (four, len, le→leb n max_message_bytes fits, whole) refl, left)

  -- An oversized length is refused, whatever stands behind it, even nothing.
  pub recv-too_large :
      (n : ℕ) (t : Bytes) (s : S)
      → max_message_bytes < n
      → n < 2 ^ 32
      → w.incoming s ≡ to_le_4 n ++ t
      → recv w s ≡ err (too_large n)
  unfolding recv
  recv-too_large n t s big small h =
      let (s₁, four, rest) = w.read_exact-append s (to_le_4 n) t h in
      let more : leb n max_message_bytes ≡ false = ground (arith, big) in
      rw (four, from_le-to_le_4 n small, more) refl

  -- A message that was sent, on a stream to which nothing was written before, is received on a stream
  -- that gives what was written and then more, which is left.
  pub recv-send :
      (payload t : Bytes) (a a' b : S)
      → w.outgoing a ≡ []
      → send w payload a ≡ ok a'
      → w.incoming b ≡ w.outgoing a' ++ t
      → (b' : S) × (recv w b ≡ ok (payload, b')) × (w.incoming b' ≡ t)
  recv-send payload t a a' b clean sent h =
      let (fits, written) = send-frame payload a a' sent in
      recv-frame payload t b fits
        (h ∙ ap (λ o. o ++ t) (written ∙ ap (λ o. o ++ frame payload) clean))

  -- A request and a reply that fit their types, the reply in at most 65,536 bytes. Where the send of
  -- the request on a fresh connection succeeds, the other side, which is given just what was
  -- written, receives it and decodes the request; and where the frame of the reply is what comes
  -- back, `call` returns the reply.
  pub call-reply :
      (ip : IpText) (q : Request) (x : Reply) (s s₁ peer : S)
      → IsRequest q
      → IsReply x
      → w.outgoing s ≡ []
      → send w (request.encode ip q) s ≡ ok s₁
      → w.incoming peer ≡ w.outgoing s₁
      → length (reply.encode ip x) ≤ max_message_bytes
      → w.incoming s₁ ≡ frame (reply.encode ip x)
      → ((peer' : S) × (recv w peer ≡ ok (request.encode ip q, peer'))
          × (request.decode ip (request.encode ip q) ≡ ok q))
        × ((s₂ : S) × (call w ip q s ≡ ok (x, s₂)))
  unfolding call
  call-reply ip q x s s₁ peer request_fits reply_fits clean sent heard fits answer =
      let (peer', heard', left) =
        recv-send (request.encode ip q) [] s s₁ peer clean sent
          (heard ∙ sym (append-nil (w.outgoing s₁))) in
      let (s₂, got, done) =
        recv-frame (reply.encode ip x) [] s₁ fits
          (answer ∙ sym (append-nil (frame (reply.encode ip x)))) in
      (
        (peer', heard', decode-encode_request ip q request_fits),
        (s₂, rw (sent, got, decode-encode_reply ip x reply_fits) refl),
      )
