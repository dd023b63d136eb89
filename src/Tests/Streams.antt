-- ===== src/Tests/Streams.antt =====
-- A text of addresses and a stream, for the examples.
use resolvd.Prelude.{
  ℕ, zero, suc, ◌+◌, ◌*◌, ◌/◌, ◌%◌, ◌^◌, ◌≡◌, ◌≤◌, ◌<◌, refl, ap, sym, [], ◌∷◌, ◌++◌, All, true,
  Option, none, some, length, length-append, take, drop, take-append, leb, le→leb, ◌==◌,
  if◌then◌else◌, Bytes, is_utf8, is_utf8-ascii, arith,
}
use native.Mathlib.Numerals.{unary_clauses}
use resolvd.Net.{IpAddr, v4, v6}
use resolvd.Native.Request.{IsIp, IpText}
use resolvd.Native.Framing.{Stream}
use resolvd.ReplyQueue as queue
use resolvd.ReplyQueue.{wrote}

-- The hexadecimal digits of a number, the lowest first.
abbrev digits : ℕ → ℕ → Bytes
digits zero v = []
digits (suc k) v = (v % 16) ∷ digits k (v / 16)

abbrev value : Bytes → ℕ
value [] = 0
value (b ∷ bs) = b + 16 * value bs

value-digits : (k v : ℕ) → v < 16 ^ k → value (digits k v) ≡ v
value-digits zero v h = omega arith
value-digits (suc k) v h =
    let e : 16 ^ suc k ≡ 16 ^ k * 16 = simp unary_clauses refl in
    let small : v / 16 < 16 ^ k = omega (arith, h, e) in
    omega (arith, value-digits k (v / 16) small)

length-digits : (k v : ℕ) → length (digits k v) ≡ k
length-digits zero v = refl
length-digits (suc k) v = ap suc (length-digits k (v / 16))

digits-ascii : (k v : ℕ) → All (λ b. b < 128) (digits k v)
digits-ascii zero v = tt
digits-ascii (suc k) v = (omega arith, digits-ascii k (v / 16))

abbrev text_of : IpAddr → Bytes
text_of (v4 a) = digits 8 a
text_of (v6 a) = digits 32 a

abbrev parse : Bytes → Option IpAddr
parse b =
    if length b == 8
    then some (v4 (value b))
    else if length b == 32
    then some (v6 (value b))
    else none

pub parse-text_of : (a : IpAddr) → IsIp a → parse (text_of a) ≡ some a
parse-text_of (v4 a) h = rw (value-digits 8 a (omega (arith, h))) refl
parse-text_of (v6 a) h = rw (value-digits 32 a (omega (arith, h))) refl

pub text_of-ascii : (a : IpAddr) → IsIp a → is_utf8 (text_of a) ≡ true
text_of-ascii (v4 a) h = is_utf8-ascii (digits 8 a) (digits-ascii 8 a)
text_of-ascii (v6 a) h = is_utf8-ascii (digits 32 a) (digits-ascii 32 a)

pub length-text_of : (a : IpAddr) → IsIp a → length (text_of a) ≤ 64
length-text_of (v4 a) h = omega (arith, length-digits 8 a)
length-text_of (v6 a) h = omega (arith, length-digits 32 a)

abbrev pub digits_text : IpText
digits_text = record {
  to_string = text_of;
  parse = parse;
  parse-to_string = parse-text_of;
  to_string_utf8 = text_of-ascii;
  length-to_string = length-text_of;
}

-- A connection that takes every write.
pub record Pipe : Type 0 where
  pub incoming : Bytes
  pub outgoing : Bytes

abbrev pipe_read : ℕ → Pipe → Option (Bytes × Pipe)
pipe_read n s =
    if leb n (length s.incoming)
    then some (take n s.incoming, record s { incoming = drop n s.incoming })
    else none

abbrev pipe_write : Bytes → Pipe → Pipe
pipe_write b s = record s { outgoing = s.outgoing ++ b }

drop-prefix : (b t : Bytes) → drop (length b) (b ++ t) ≡ t
drop-prefix [] t = refl
drop-prefix (x ∷ b) t = drop-prefix b t

pub pipe_read-append :
    (s : Pipe) (b t : Bytes)
    → s.incoming ≡ b ++ t
    → (s' : Pipe) × (pipe_read (length b) s ≡ some (b, s')) × (s'.incoming ≡ t)
pipe_read-append s b t h =
    let room : leb (length b) (length (b ++ t)) ≡ true =
      le→leb (length b) (length (b ++ t)) (omega (arith, length-append b t)) in
    (record s { incoming = t }, rw (h, room, take-append b t, drop-prefix b t) refl, refl)

pub pipe_written :
    (s s' : Pipe) (b : Bytes) → some (pipe_write b s) ≡ some s' → s'.outgoing ≡ s.outgoing ++ b
pipe_written s s' b h = ap (λ x. x.outgoing) (let e : s' ≡ pipe_write b s = cc h in e)

pub pipe_flushed : (s s' : Pipe) → some s ≡ some s' → s'.outgoing ≡ s.outgoing
pipe_flushed s s' h = ap (λ x. x.outgoing) (let e : s' ≡ s = cc h in e)

abbrev pub pipe : Stream Pipe
pipe = record {
  read_exact = pipe_read;
  write_all = λ b s. some (pipe_write b s);
  flush = λ s. some s;
  incoming = λ s. s.incoming;
  outgoing = λ s. s.outgoing;
  read_exact-append = pipe_read-append;
  outgoing-write_all = pipe_written;
  outgoing-flush = pipe_flushed;
}

-- A peer that takes two bytes of each write.
abbrev trickle_write : Bytes → Bytes → queue.Written × Bytes
trickle_write s b = (wrote (length (take 2 b)), s ++ take 2 b)

pub take-take : (b : Bytes) → take (length (take 2 b)) b ≡ take 2 b
take-take [] = refl
take-take (x ∷ []) = refl
take-take (x ∷ y ∷ b) = refl

pub length-take : (b : Bytes) → length (take 2 b) ≤ length b
length-take [] = omega arith
length-take (x ∷ []) = omega arith
length-take (x ∷ y ∷ b) = omega arith

abbrev pub trickle : queue.Stream Bytes
trickle = record {
  write = trickle_write;
  as_raw_fd = λ s. 3;
  sent_to = λ s. s;
  write-Sends = λ s b. (length-take b, ap (λ t. s ++ t) (sym (take-take b)));
}
