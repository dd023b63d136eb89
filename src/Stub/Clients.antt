-- ===== src/Stub/Clients.antt =====
-- The TCP clients of resolvd/src/stub.rs. What each `read` of a call gives is an argument; the last of
-- them ends the loop, as a read that would block does.
use resolvd.Prelude.{
  ℕ, ◌+◌, ◌-◌, ◌^◌, ◌≤◌, ◌<◌, ◌≡◌, refl, ap, ◌∙◌, Bool, true, false, List, [], ◌∷◌, ◌++◌, filter,
  length, length-append, take, drop, take-append, ltb, if◌then◌else◌, Option, none, some, Bytes,
  from_be, to_be, from_be-to_be_2, id_key, Result, arith,
}
use mathlib.Core.List.{append_assoc, append-nil}
use resolvd.Prelude.Keyed
use resolvd.Prelude.Keyed.{Table}
use resolvd.Dns.Name.{max_message_size}
use resolvd.Dns.Types.{Message}
use resolvd.Stub.{parse_query}

abbrev pub tcp_timeout : ℕ
tcp_timeout = 10_000_000_000

pub record TcpClient (S : Type 0) : Type 0 where
  pub stream : S
  pub buf : Bytes
  pub since : ℕ

-- What a read gives: bytes, the end of the stream, or an error of one of three kinds.
pub data ReadOut : Type 0 where
  got : Bytes → ReadOut
  eof would_block interrupted failed : ReadOut

-- The buffer after the loop and whether the stream ended, or that the client is dropped.
pub data Filled : Type 0 where
  filled : Bytes → Bool → Filled
  dropped : Filled

unfoldable pub fill : List ReadOut → Bytes → Filled
fill [] buf = filled buf false
fill (got chunk ∷ reads) buf =
    let rest = fill reads (buf ++ chunk) in
    if ltb (2 + max_message_size) (length (buf ++ chunk)) then dropped else rest
fill (eof ∷ reads) buf = filled buf true
fill (would_block ∷ reads) buf = filled buf false
fill (interrupted ∷ reads) buf = fill reads buf
fill (failed ∷ reads) buf = dropped

-- `Option<Incoming>`: the client goes on reading, or it leaves the table with what was parsed of its
-- query, or with nothing.
pub data Progress : Type 0 where
  reading : Progress
  parsed : Result (Option Bytes) Message → Progress
  gone : Progress

abbrev pub incomplete : Bool → Progress
incomplete true = gone
incomplete false = reading

-- The bytes after the length, or that the frame is not whole.
unfoldable pub progress : Filled → Progress
progress dropped = gone
progress (filled buf end) =
    let len = from_be (take 2 buf) in
    if ltb (length buf) 2
    then incomplete end
    else if ltb (length buf) (2 + len)
    then incomplete end
    else parsed (parse_query (take len (drop 2 buf)))

module _ {S : Type 0} where
  -- The buffer of a client that goes on reading.
  abbrev pub keep : Filled → TcpClient S → TcpClient S
  keep (filled buf end) c = record c { buf = buf }
  keep dropped c = c

  abbrev pub leave : Progress → ℕ → TcpClient S → Table ℕ (TcpClient S) → Table ℕ (TcpClient S)
  leave reading id c m = Keyed.insert id c m
  leave _ id c m = Keyed.remove id m

  unfoldable pub service_client :
      ℕ → List ReadOut → Table ℕ (TcpClient S) → Progress × Table ℕ (TcpClient S)
  unfolding progress fill
  service_client id reads m = elim (Keyed.get id m) [
    | none ↦ (reading, m)
    | some c ↦ let f = fill reads c.buf in let p = progress f in (p, leave p id (keep f c) m)
  ]

  -- The first half of `expire`; the other is that of the queue of replies. `duration_since` is
  -- nothing where `since` lies ahead.
  unfoldable pub expire : ℕ → Table ℕ (TcpClient S) → Table ℕ (TcpClient S)
  expire now m = filter (λ x. ltb (now - x.1.since) tcp_timeout) m

-- The reads of a query that comes in any pieces.
abbrev pub pieces : List Bytes → List ReadOut
pieces [] = []
pieces (b ∷ bs) = got b ∷ pieces bs

abbrev pub joined : List Bytes → Bytes
joined [] = []
joined (b ∷ bs) = b ++ joined bs

fill-pieces :
    (bs : List Bytes) (buf : Bytes)
    → length (buf ++ joined bs) ≤ 2 + max_message_size
    → fill (pieces bs) buf ≡ filled (buf ++ joined bs) false
unfolding fill
fill-pieces [] buf h = rw (append-nil buf) refl
fill-pieces (b ∷ bs) buf h =
    let e : (buf ++ b) ++ joined bs ≡ buf ++ (b ++ joined bs) = append_assoc buf b (joined bs) in
    let small : length ((buf ++ b) ++ joined bs) ≤ 2 + max_message_size = rw e h in
    let fits : ltb (2 + max_message_size) (length (buf ++ b)) ≡ false =
      ground (arith, length-append (buf ++ b) (joined bs), small) in
    rw (fits, fill-pieces bs (buf ++ b) small, e) refl

drop-prefix : (s t : Bytes) → drop (length s) (s ++ t) ≡ t
drop-prefix [] t = refl
drop-prefix (x ∷ s) t = drop-prefix s t

progress-frame :
    (q t : Bytes)
    → length q < 2 ^ 16
    → progress (filled (to_be 2 (length q) ++ (q ++ t)) false) ≡ parsed (parse_query q)
unfolding progress
progress-frame q t small =
    let n : from_be (to_be 2 (length q)) ≡ length q = from_be-to_be_2 (length q) small in
    let long : ltb (length (to_be 2 (length q) ++ (q ++ t))) 2 ≡ false = ground arith in
    let whole : ltb (length (to_be 2 (length q) ++ (q ++ t))) (2 + length q) ≡ false =
      ground (arith, length-append q t) in
    rw (n, long, whole, take-append q t) refl

-- A query of less than 2 ^ 16 bytes behind its length, which with what follows it is no larger than
-- a message, is parsed as that query once all is in the buffer, in whatever pieces it was read.
pub pieces-parsed :
    (q t buf : Bytes) (bs : List Bytes)
    → length q < 2 ^ 16
    → buf ++ joined bs ≡ to_be 2 (length q) ++ (q ++ t)
    → length (q ++ t) ≤ max_message_size
    → progress (fill (pieces bs) buf) ≡ parsed (parse_query q)
pieces-parsed q t buf bs small same fits =
    let total : length (buf ++ joined bs) ≤ 2 + max_message_size =
      omega (arith, ap length same, fits) in
    ap progress (fill-pieces bs buf total ∙ ap (λ b. filled b false) same)
    ∙ progress-frame q t small
