-- ===== src/Dns/Wire.antt =====
-- `Name::write` and `Name::read` of dns/src/lib.rs.
pub mod Sound
pub mod RoundTrip
use Prim.Native.Nat.{bit_and}
use resolvd.Prelude.{
  ℕ, zero, suc, ◌+◌, ◌*◌, ◌%◌, ◌^◌, not, List, [], ◌∷◌, ◌++◌, Option, none, some, length, get_elem?,
  ltb, ◌==◌, if◌then◌else◌, Bytes, slice, Result, ok, err, stuck, ◌>>=◌, ◌>>◌, require, ok_or,
}
use resolvd.Dns.Name.{Name, Error, truncated, bad_pointer, bad_label, name_too_long, max_name_len}

-- The bytes of the labels, each behind its length as a `u8`.
unfoldable pub write_labels : List Bytes → Bytes
write_labels [] = []
write_labels (l ∷ ls) = (length l % 2 ^ 8) ∷ (l ++ write_labels ls)

unfoldable pub write : Name → Bytes
unfolding write_labels
write n = write_labels n.labels ++ (0 ∷ [])

-- The variables of the loop in `Name::read`.
pub record Cursor : Type 0 where
  pub labels : List Bytes
  pub total : ℕ
  pub p : ℕ
  pub end : Option ℕ
  pub hops : ℕ

pub data Round : Type 0 where
  finished : Name × ℕ → Round
  more : Cursor → Round

abbrev pub or_else : Option ℕ → ℕ → ℕ
or_else none d = d
or_else (some e) d = e

-- The arm of a length byte 0x00 to 0x3f.
unfoldable pub read_label : Bytes → Cursor → ℕ → Result Error Round
read_label msg c len =
    if len == 0 then ok (finished (record { labels = c.labels }, or_else c.end (c.p + 1))) else do
      label ← ok_or (slice msg (c.p + 1) len) truncated
      let total = c.total + len + 1
      require (not (ltb max_name_len (total + 1))) name_too_long
      ok (more (record c { labels = c.labels ++ label ∷ []; total = total; p = c.p + 1 + len }))

-- The arm of a pointer. The two bytes have disjoint bits, so `|` is a sum.
unfoldable pub read_pointer : Bytes → Cursor → ℕ → Result Error Round
read_pointer msg c len = do
  lo ← ok_or (get_elem? msg (c.p + 1)) truncated
  let target = bit_and len 0x3F * 2 ^ 8 + lo
  require (ltb target c.p) bad_pointer
  require (not (ltb 64 (c.hops + 1))) bad_pointer
  ok (more (record c { p = target; end = some (or_else c.end (c.p + 2)); hops = c.hops + 1 }))

-- `match len & 0xC0`
unfoldable pub read_arm : Bytes → Cursor → ℕ → Result Error Round
read_arm msg c len =
    if bit_and len 0xC0 == 0x00
    then read_label msg c len
    else if bit_and len 0xC0 == 0xC0
    then read_pointer msg c len
    else err bad_label

-- One round of the loop.
unfoldable pub read_step : Bytes → Cursor → Result Error Round
read_step msg c = do len ← ok_or (get_elem? msg c.p) truncated; read_arm msg c len

unfoldable pub read_loop : Bytes → ℕ → Cursor → Result Error (Name × ℕ)
read_loop msg zero c = stuck
read_loop msg (suc fuel) c = do
  r ← read_step msg c
  elim r [ finished x ↦ ok x | more c' ↦ read_loop msg fuel c' ]

-- A round adds two at least to `total`, which stays below 255, or one to `hops`, which stops at 64.
abbrev pub read_fuel : ℕ
read_fuel = 320

abbrev pub start : ℕ → Cursor
start pos = record { labels = []; total = 0; p = pos; end = none; hops = 0 }

-- The name at `pos`, and the position behind it.
unfoldable pub read : Bytes → ℕ → Result Error (Name × ℕ)
unfolding read_loop read_step read_arm read_label read_pointer
read msg pos = read_loop msg read_fuel (start pos)
