-- ===== src/Msgpack/Skip.antt =====
-- `Reader::skip` and `Reader::nested` of resolvd-core/src/msgpack.rs.
pub mod Ends
pub mod Values
pub mod Arms
pub mod Written
use resolvd.Prelude.{
  ℕ, zero, suc, ◌+◌, ◌-◌, ◌*◌, Bool, true, false, ◌&&◌, ◌||◌, not, [], ◌∷◌, leb, ltb, ◌==◌,
  if◌then◌else◌, Result, ok, err, stuck, ◌>>=◌, ◌>>◌, require,
}
use resolvd.Msgpack.{Error, truncated, unsupported, depth}
use resolvd.Msgpack.Reader.{
  Reader, max_depth, byte, take_bytes, be_u, read_str, read_bin, read_array, read_map,
}

-- The arms of `skip`. The number of a `fixed` value and the width of an `ext` are those that the code
-- reads off the same byte.
pub data Form : Type 0 where
  single : Form
  fixed : ℕ → Form
  ext : ℕ → Form
  str bin array map_form reserved : Form

abbrev fixed_size : ℕ → ℕ
fixed_size b =
    if b == 0xcc || b == 0xd0
    then 1
    else if b == 0xcd || (b == 0xd1 || b == 0xd4)
    then 2
    else if b == 0xd5
    then 3
    else if b == 0xca || (b == 0xce || b == 0xd2)
    then 4
    else if b == 0xd6
    then 5
    else if b == 0xcb || (b == 0xcf || b == 0xd3)
    then 8
    else if b == 0xd7
    then 9
    else 17

unfoldable pub form_of : ℕ → Form
form_of b =
    if leb b 0x7f || (leb 0xe0 b || (b == 0xc0 || (b == 0xc2 || b == 0xc3)))
    then single
    else if leb 0xca b && leb b 0xd8
    then fixed (fixed_size b)
    else if leb 0xc7 b && leb b 0xc9
    then ext (if b == 0xc7 then 1 else if b == 0xc8 then 2 else 4)
    else if (leb 0xa0 b && leb b 0xbf) || (leb 0xd9 b && leb b 0xdb)
    then str
    else if leb 0xc4 b && leb b 0xc6
    then bin
    else if (leb 0x90 b && leb b 0x9f) || (b == 0xdc || b == 0xdd)
    then array
    else if (leb 0x80 b && leb b 0x8f) || (b == 0xde || b == 0xdf)
    then map_form
    else reserved

abbrev pub Skipped : Type 0
Skipped = Result Error Reader

-- `(0..n).try_for_each(|_| f(r))`
unfoldable pub repeat : ℕ → (Reader → Skipped) → Reader → Skipped
repeat zero f r = ok r
repeat (suc n) f r = f r >>= repeat n f

unfoldable pub nested : (Reader → Skipped) → Reader → Skipped
nested f r = do
  require (not (ltb max_depth (r.depth + 1))) depth
  r' ← f (record r { depth = r.depth + 1 })
  ok (record r' { depth = r'.depth - 1 })

abbrev pub twice : (Reader → Skipped) → Reader → Skipped
twice f r = f r >>= f

unfoldable pub skip_fixed : ℕ → Reader → Skipped
skip_fixed n r = do (b, r₁) ← byte r; (s, r₂) ← take_bytes n r₁; ok r₂

unfoldable pub skip_ext : ℕ → Reader → Skipped
skip_ext width r = do
  (b, r₁) ← byte r
  (n, r₂) ← be_u width r₁
  (t, r₃) ← byte r₂
  (s, r₄) ← take_bytes n r₃
  ok r₄

unfoldable pub skip_form : (Reader → Skipped) → Form → Reader → Skipped
skip_form inner single r = do (b, r') ← byte r; ok r'
skip_form inner (fixed n) r = skip_fixed n r
skip_form inner (ext width) r = skip_ext width r
skip_form inner str r = do (s, r') ← read_str r; ok r'
skip_form inner bin r = do (s, r') ← read_bin r; ok r'
skip_form inner array r = do (n, r') ← read_array r; nested (repeat n inner) r'
skip_form inner map_form r = do (n, r') ← read_map r; nested (repeat n (twice inner)) r'
skip_form inner reserved r = err unsupported

-- The number counts the containers that may still be opened.
unfoldable pub skip_within : ℕ → Reader → Skipped
skip_within zero r = stuck
skip_within (suc levels) r = elim r.rest [
  | [] ↦ err truncated
  | b ∷ t ↦ skip_form (skip_within levels) (form_of b) r
]

-- A reader at depth 32 opens no other container, so that 33 levels are enough.
abbrev pub skip_fuel : ℕ
skip_fuel = 33

unfoldable pub skip : Reader → Skipped
unfolding skip_within skip_form
skip = skip_within skip_fuel
