-- ===== src/Native/Framing.antt =====
-- `send`, `recv` and `call` of resolvd-core/src/lib.rs. The stream is a parameter: `read_exact` and
-- `write_all` with `flush`, as the standard library documents them for a stream of bytes.
pub mod RoundTrip
use resolvd.Prelude.{
  ℕ, zero, suc, ◌+◌, ◌*◌, ◌/◌, ◌%◌, ◌^◌, ◌≤◌, ◌<◌, ◌≡◌, refl, ap, ◌∙◌, sym, subst, List, [], ◌∷◌,
  ◌++◌, Option, none, some, Bool, true, false, Bytes, length, ltb, leb, Bool-cases, inl, inr,
  if◌then◌else◌, Result, ok, err, stuck, ◌>>=◌, ◌>>◌, require, ok_or, arith, >>=-eq-ok,
  ok-injective,
}
use resolvd.Native.{WireError, too_large, io, max_message_bytes}
use resolvd.Native.Messages.{Reply}
use resolvd.Native.Request as request
use resolvd.Native.Request.{IpText, Request}
use resolvd.Native.Reply as reply

-- What a reader still has to give, and what a writer was given. A read that has too few bytes, or
-- a write that fails, is an `io::Error`.
pub record Stream (S : Type 0) : Type 0 where
  pub read_exact : ℕ → S → Option (Bytes × S)
  pub write_all : Bytes → S → Option S
  pub flush : S → Option S
  pub incoming : S → Bytes
  pub outgoing : S → Bytes
  pub read_exact-append :
      (s : S) (b t : Bytes)
      → incoming s ≡ b ++ t
      → (s' : S) × (read_exact (length b) s ≡ some (b, s')) × (incoming s' ≡ t)
  pub outgoing-write_all :
      (s s' : S) (b : Bytes) → write_all b s ≡ some s' → outgoing s' ≡ outgoing s ++ b
  pub outgoing-flush : (s s' : S) → flush s ≡ some s' → outgoing s' ≡ outgoing s

-- `u32::to_le_bytes` and `from_le_bytes`.
abbrev pub to_le_4 : ℕ → Bytes
to_le_4 v = (v % 256) ∷ (v / 256 % 256) ∷ (v / 65_536 % 256) ∷ (v / 16_777_216 % 256) ∷ []

abbrev pub from_le : Bytes → ℕ
from_le [] = 0
from_le (b ∷ bs) = b + 256 * from_le bs

-- The bytes that `send` writes.
abbrev pub frame : Bytes → Bytes
frame payload = to_le_4 (length payload % 2 ^ 32) ++ payload

module _ {S : Type 0} (w : Stream S) where
  unfoldable pub send : Bytes → S → Result WireError S
  send payload s = do
    require (leb (length payload) max_message_bytes) (too_large (length payload))
    s' ← ok_or (w.write_all (frame payload) s) io
    ok_or (w.flush s') io

  unfoldable pub recv : S → Result WireError (Bytes × S)
  recv s = do
    (len, s') ← ok_or (w.read_exact 4 s) io
    require (leb (from_le len) max_message_bytes) (too_large (from_le len))
    ok_or (w.read_exact (from_le len) s') io

  module _ (ip : IpText) where
    unfoldable pub call : Request → S → Result WireError (Reply × S)
    call q s = do
      s₁ ← send (request.encode ip q) s
      (b, s₂) ← recv s₁
      r ← reply.decode ip b
      ok (r, s₂)
