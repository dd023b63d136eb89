-- ===== src/Dns/Records.antt =====
-- `write_rdata`, `Record::write` and `read_rdata` of dns/src/lib.rs. `write` appends to `out`; here it
-- returns what it appends, with the data length where the code patches it in afterwards.
pub mod Valid
pub mod RoundTrip
use resolvd.Prelude.{
  ℕ, zero, suc, ◌+◌, ◌*◌, ◌%◌, ◌^◌, not, Bool, List, [], ◌∷◌, ◌++◌, Option, none, some, length,
  get_elem?, take, drop, ltb, ◌==◌, if◌then◌else◌, Bytes, slice, Result, ok, err, stuck, ◌>>=◌,
  ◌>>◌, require, ok_or, to_be, from_be, min,
}
use resolvd.Dns.Name.{Name, Error, truncated, bad_rdata}
use resolvd.Dns.Wire.{write, read}
use resolvd.Dns.Types.{
  Record, RData, a, aaaa, cname, ptr, ns, soa, mx, srv, txt, opt, unknown, t_a, t_aaaa, t_ns,
  t_cname, t_soa, t_ptr, t_mx, t_txt, t_srv, t_opt,
}

-- Each string behind its length, cut at 255 bytes.
unfoldable pub write_strings : List Bytes → Bytes
write_strings [] = []
write_strings (s ∷ ss) = let n = min (length s) 255 in (n % 2 ^ 8) ∷ (take n s ++ write_strings ss)

unfoldable pub write_rdata : RData → Bytes
write_rdata (a v) = to_be 4 v
write_rdata (aaaa v) = to_be 16 v
write_rdata (cname n) = write n
write_rdata (ptr n) = write n
write_rdata (ns n) = write n
write_rdata (soa mname rname serial refresh retry expire minimum) =
    write mname
    ++ (write rname
        ++ (to_be 4 serial
            ++ (to_be 4 refresh ++ (to_be 4 retry ++ (to_be 4 expire ++ to_be 4 minimum)))))
write_rdata (mx preference exchange) = to_be 2 preference ++ write exchange
write_rdata (srv priority weight port target) =
    to_be 2 priority ++ (to_be 2 weight ++ (to_be 2 port ++ write target))
write_rdata (txt strings) = write_strings strings
write_rdata (opt b) = b
write_rdata (unknown b) = b

-- The ten bytes between a record's name and its data.
abbrev pub fixed_fields : Record → ℕ → Bytes
fixed_fields r len =
    to_be 2 r.rtype ++ (to_be 2 r.class ++ (to_be 4 r.ttl ++ to_be 2 (len % 2 ^ 16)))

unfoldable pub write_record : Record → Bytes
write_record r =
    write r.name ++ (fixed_fields r (length (write_rdata r.rdata)) ++ write_rdata r.rdata)

-- The closures of `read_rdata`.
unfoldable pub name_at : Bytes → ℕ → ℕ → Result Error (Name × ℕ)
name_at msg end pos = do
  (n, next) ← read msg pos
  require (not (ltb end next)) bad_rdata
  ok (n, next)

unfoldable pub be_at : ℕ → Bytes → ℕ → Result Error ℕ
be_at k msg pos = do b ← ok_or (slice msg pos k) bad_rdata; ok (from_be b)

-- A name that fills the data to its end.
unfoldable pub name_to_end : Bytes → ℕ → ℕ → Result Error Name
name_to_end msg end pos = do (n, next) ← name_at msg end pos; require (next == end) bad_rdata; ok n

-- The arm of TXT: the loop over `data`, on what is left of it.
unfoldable pub read_strings : ℕ → Bytes → Result Error (List Bytes)
read_strings fuel [] = ok []
read_strings zero (n ∷ rest) = stuck
read_strings (suc fuel) (n ∷ rest) = do
  s ← ok_or (slice rest 0 n) bad_rdata
  ss ← read_strings fuel (drop n rest)
  ok (s ∷ ss)

-- The five numbers of an SOA behind its names.
unfoldable pub soa_numbers : Bytes → Name → Name → ℕ → Result Error RData
soa_numbers msg mname rname p = do
  serial ← be_at 4 msg p
  refresh ← be_at 4 msg (p + 4)
  retry ← be_at 4 msg (p + 8)
  expire ← be_at 4 msg (p + 12)
  minimum ← be_at 4 msg (p + 16)
  ok (soa mname rname serial refresh retry expire minimum)

unfoldable pub read_soa : Bytes → ℕ → ℕ → Result Error RData
read_soa msg end start = do
  (mname, p) ← name_at msg end start
  (rname, q) ← name_at msg end p
  require (q + 20 == end) bad_rdata
  soa_numbers msg mname rname q

unfoldable pub read_mx : Bytes → ℕ → ℕ → ℕ → Result Error RData
read_mx msg end start len = do
  require (not (ltb len 3)) bad_rdata
  exchange ← name_to_end msg end (start + 2)
  preference ← be_at 2 msg start
  ok (mx preference exchange)

unfoldable pub read_srv : Bytes → ℕ → ℕ → ℕ → Result Error RData
read_srv msg end start len = do
  require (not (ltb len 7)) bad_rdata
  target ← name_to_end msg end (start + 6)
  priority ← be_at 2 msg start
  weight ← be_at 2 msg (start + 2)
  port ← be_at 2 msg (start + 4)
  ok (srv priority weight port target)

-- `match rtype`, on the data of a record.
unfoldable pub read_typed : Bytes → ℕ → ℕ → ℕ → Bytes → Result Error RData
read_typed msg rtype start len bytes =
    let end = start + len in
    if rtype == t_a
    then (do require (len == 4) bad_rdata; ok (a (from_be bytes)))
    else if rtype == t_aaaa
    then (do require (len == 16) bad_rdata; ok (aaaa (from_be bytes)))
    else if rtype == t_cname
    then (do n ← name_to_end msg end start; ok (cname n))
    else if rtype == t_ptr
    then (do n ← name_to_end msg end start; ok (ptr n))
    else if rtype == t_ns
    then (do n ← name_to_end msg end start; ok (ns n))
    else if rtype == t_soa
    then read_soa msg end start
    else if rtype == t_mx
    then read_mx msg end start len
    else if rtype == t_srv
    then read_srv msg end start len
    else if rtype == t_txt
    then (do ss ← read_strings (length bytes) bytes; ok (txt ss))
    else if rtype == t_opt
    then ok (opt bytes)
    else ok (unknown bytes)

unfoldable pub read_rdata : Bytes → ℕ → ℕ → ℕ → Result Error RData
read_rdata msg rtype start len = do
  bytes ← ok_or (slice msg start len) truncated
  read_typed msg rtype start len bytes
