-- ===== src/Msgpack.antt =====
-- resolvd-core/src/msgpack.rs: the MessagePack codec. The model of a `Writer` method is the bytes that
-- it adds to the buffer; a chain of calls is a concatenation.
pub mod Reader
pub mod Skip
pub mod RoundTrip
use resolvd.Prelude.{
  ℕ, ◌+◌, ◌-◌, ◌^◌, Bool, true, false, [], ◌∷◌, ◌++◌, length, leb, ltb, if◌then◌else◌, Bytes, to_be,
  ℤ, pos, negsuc,
}

pub data Error : Type 0 where
  truncated wrong_type unsupported utf8 depth : Error

-- `Type`
pub data Kind : Type 0 where
  nil_kind bool_kind int_kind str_kind bin_kind array_kind map_kind other_kind : Kind

abbrev pub write_nil : Bytes
write_nil = 0xc0 ∷ []

unfoldable pub write_bool : Bool → Bytes
write_bool v = (if v then 0xc3 else 0xc2) ∷ []

unfoldable pub write_uint : ℕ → Bytes
write_uint v =
    if ltb v 0x80
    then v ∷ []
    else if leb v 0xff
    then 0xcc ∷ v ∷ []
    else if leb v 0xffff
    then 0xcd ∷ to_be 2 v
    else if leb v 0xffff_ffff
    then 0xce ∷ to_be 4 v
    else 0xcf ∷ to_be 8 v

-- `negsuc m` is `-1 - m`; `v as i8 as u8` and the like are its two's complement.
unfoldable pub write_int : ℤ → Bytes
unfolding write_uint
write_int (pos n) = write_uint n
write_int (negsuc m) =
    if leb m 31
    then (2 ^ 8 - 1 - m) ∷ []
    else if leb m (2 ^ 7 - 1)
    then 0xd0 ∷ (2 ^ 8 - 1 - m) ∷ []
    else if leb m (2 ^ 15 - 1)
    then 0xd1 ∷ to_be 2 (2 ^ 16 - 1 - m)
    else if leb m (2 ^ 31 - 1)
    then 0xd2 ∷ to_be 4 (2 ^ 32 - 1 - m)
    else 0xd3 ∷ to_be 8 (2 ^ 64 - 1 - m)

-- What stands before the bytes of a string and of a binary.
unfoldable pub str_header : ℕ → Bytes
str_header n =
    if ltb n 32
    then (0xa0 + n) ∷ []
    else if leb n 0xff
    then 0xd9 ∷ n ∷ []
    else if leb n 0xffff
    then 0xda ∷ to_be 2 n
    else 0xdb ∷ to_be 4 n

unfoldable pub write_str : Bytes → Bytes
write_str s = str_header (length s) ++ s

unfoldable pub bin_header : ℕ → Bytes
bin_header n =
    if leb n 0xff
    then 0xc4 ∷ n ∷ []
    else if leb n 0xffff
    then 0xc5 ∷ to_be 2 n
    else 0xc6 ∷ to_be 4 n

unfoldable pub write_bin : Bytes → Bytes
write_bin b = bin_header (length b) ++ b

unfoldable pub write_array : ℕ → Bytes
write_array count =
    if ltb count 16
    then (0x90 + count) ∷ []
    else if leb count 0xffff
    then 0xdc ∷ to_be 2 count
    else 0xdd ∷ to_be 4 count

unfoldable pub write_map : ℕ → Bytes
write_map count =
    if ltb count 16
    then (0x80 + count) ∷ []
    else if leb count 0xffff
    then 0xde ∷ to_be 2 count
    else 0xdf ∷ to_be 4 count
