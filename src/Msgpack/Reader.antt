-- ===== src/Msgpack/Reader.antt =====
-- `Reader` of resolvd-core/src/msgpack.rs, less `skip`. A reader never goes back, so that its buffer
-- and position are held as the bytes from the position on; a call that fails leaves no reader, since
-- every caller gives up then.
use resolvd.Prelude.{
  ℕ, ◌-◌, ◌*◌, ◌%◌, ◌^◌, Bool, true, false, ◌&&◌, ◌||◌, not, [], ◌∷◌, Option, none, some, length,
  take, drop, leb, ltb, ◌==◌, if◌then◌else◌, Bytes, from_be, is_utf8, ℤ, pos, negsuc, Result, ok,
  err, ◌>>=◌, ◌>>◌, require,
}
use resolvd.Msgpack.{
  Error, truncated, wrong_type, utf8, Kind, nil_kind, bool_kind, int_kind, str_kind, bin_kind,
  array_kind, map_kind, other_kind,
}

pub record Reader : Type 0 where
  pub rest : Bytes
  pub depth : ℕ

abbrev pub max_depth : ℕ
max_depth = 32

abbrev pub new : Bytes → Reader
new buf = record { rest = buf; depth = 0 }

abbrev pub remaining : Reader → ℕ
remaining r = length r.rest

abbrev pub Read : Type 0 → Type 0
Read A = Result Error (A × Reader)

unfoldable pub byte : Reader → Read ℕ
byte r = elim r.rest [ [] ↦ err truncated | b ∷ t ↦ ok (b, record r { rest = t }) ]

-- `Reader::take`
unfoldable pub take_bytes : ℕ → Reader → Read Bytes
take_bytes n r =
    if leb n (length r.rest)
    then ok (take n r.rest, record r { rest = drop n r.rest })
    else err truncated

unfoldable pub be_u : ℕ → Reader → Read ℕ
be_u n r = do (s, r') ← take_bytes n r; ok (from_be s, r')

-- Which value a first byte starts.
unfoldable pub kind_of : ℕ → Kind
kind_of b =
    if b == 0xc0
    then nil_kind
    else if b == 0xc2 || b == 0xc3
    then bool_kind
    else if leb b 0x7f || (leb 0xe0 b || (leb 0xcc b && leb b 0xd3))
    then int_kind
    else if (leb 0xa0 b && leb b 0xbf) || (leb 0xd9 b && leb b 0xdb)
    then str_kind
    else if leb 0xc4 b && leb b 0xc6
    then bin_kind
    else if (leb 0x90 b && leb b 0x9f) || (b == 0xdc || b == 0xdd)
    then array_kind
    else if (leb 0x80 b && leb b 0x8f) || (b == 0xde || b == 0xdf)
    then map_kind
    else other_kind

unfoldable pub peek : Reader → Option Kind
peek r = elim r.rest [ [] ↦ none | b ∷ t ↦ some (kind_of b) ]

unfoldable pub read_nil : Reader → Read (Unit {0})
read_nil r = do (b, r') ← byte r; if b == 0xc0 then ok (tt, r') else err wrong_type

unfoldable pub read_bool : Reader → Read Bool
read_bool r = do
  (b, r') ← byte r
  if b == 0xc2 then ok (false, r') else if b == 0xc3 then ok (true, r') else err wrong_type

-- `be_u(k)? as i64`, and the same by way of a signed type of `w` bits.
abbrev unsigned_at : ℕ → Reader → Read ℤ
unsigned_at k r = do (v, r') ← be_u k r; ok (pos v, r')

abbrev signed : ℕ → ℕ → ℤ
signed w v = if ltb v (2 ^ (w - 1)) then pos v else negsuc (2 ^ w - 1 - v)

abbrev signed_at : ℕ → ℕ → Reader → Read ℤ
signed_at k w r = do (v, r') ← be_u k r; ok (signed w v, r')

-- `i64::try_from`
abbrev u64_at : Reader → Read ℤ
u64_at r = do (v, r') ← be_u 8 r; require (ltb v (2 ^ 63)) wrong_type; ok (pos v, r')

unfoldable pub int_body : ℕ → Reader → Read ℤ
int_body b r =
    if leb b 0x7f
    then ok (pos b, r)
    else if leb 0xe0 b
    then ok (signed 8 b, r)
    else if b == 0xcc
    then unsigned_at 1 r
    else if b == 0xcd
    then unsigned_at 2 r
    else if b == 0xce
    then unsigned_at 4 r
    else if b == 0xcf
    then u64_at r
    else if b == 0xd0
    then signed_at 1 8 r
    else if b == 0xd1
    then signed_at 2 16 r
    else if b == 0xd2
    then signed_at 4 32 r
    else if b == 0xd3
    then signed_at 8 64 r
    else err wrong_type

unfoldable pub read_int : Reader → Read ℤ
read_int r = do (b, r') ← byte r; int_body b r'

abbrev pub to_uint : ℤ → Reader → Read ℕ
to_uint (pos n) r = ok (n, r)
to_uint (negsuc m) r = err wrong_type

unfoldable pub read_uint : Reader → Read ℕ
read_uint r = do (v, r') ← read_int r; to_uint v r'

unfoldable pub str_length : ℕ → Reader → Read ℕ
str_length b r =
    if leb 0xa0 b && leb b 0xbf
    then ok (b % 2 ^ 5, r)
    else if b == 0xd9
    then be_u 1 r
    else if b == 0xda
    then be_u 2 r
    else if b == 0xdb
    then be_u 4 r
    else err wrong_type

unfoldable pub read_str_length : Reader → Read ℕ
read_str_length r = do (b, r') ← byte r; str_length b r'

unfoldable pub read_str : Reader → Read Bytes
read_str r = do
  (n, r₂) ← read_str_length r
  (s, r₃) ← take_bytes n r₂
  require (is_utf8 s) utf8
  ok (s, r₃)

unfoldable pub bin_length : ℕ → Reader → Read ℕ
bin_length b r =
    if b == 0xc4
    then be_u 1 r
    else if b == 0xc5
    then be_u 2 r
    else if b == 0xc6
    then be_u 4 r
    else err wrong_type

unfoldable pub read_bin_length : Reader → Read ℕ
read_bin_length r = do (b, r') ← byte r; bin_length b r'

unfoldable pub read_bin : Reader → Read Bytes
read_bin r = do (n, r₂) ← read_bin_length r; take_bytes n r₂

unfoldable pub array_length : ℕ → Reader → Read ℕ
array_length b r =
    if leb 0x90 b && leb b 0x9f
    then ok (b % 2 ^ 4, r)
    else if b == 0xdc
    then be_u 2 r
    else if b == 0xdd
    then be_u 4 r
    else err wrong_type

-- A count larger than the bytes left cannot be honest.
unfoldable pub read_array : Reader → Read ℕ
read_array r = do
  (b, r₁) ← byte r
  (n, r₂) ← array_length b r₁
  require (not (ltb (remaining r₂) n)) truncated
  ok (n, r₂)

unfoldable pub map_length : ℕ → Reader → Read ℕ
map_length b r =
    if leb 0x80 b && leb b 0x8f
    then ok (b % 2 ^ 4, r)
    else if b == 0xde
    then be_u 2 r
    else if b == 0xdf
    then be_u 4 r
    else err wrong_type

unfoldable pub read_map : Reader → Read ℕ
read_map r = do
  (b, r₁) ← byte r
  (n, r₂) ← map_length b r₁
  require (not (ltb (remaining r₂) (n * 2))) truncated
  ok (n, r₂)
