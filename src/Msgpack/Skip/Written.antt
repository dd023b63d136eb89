-- ===== src/Msgpack/Skip/Written.antt =====
-- `Reader::skip` of resolvd-core/src/msgpack.rs steps over a value that a `Writer` wrote.
use resolvd.Prelude.{
  ℕ, zero, suc, ◌+◌, ◌*◌, ◌≡◌, ◌≤◌, refl, ◌∙◌, ◌++◌, length, length-append, Bytes, pos, negsuc,
  arith, ok,
}
use mathlib.Core.List.{append_assoc}
use resolvd.Msgpack.{
  write_bool, write_uint, write_int, str_header, write_str, bin_header, write_bin, write_array,
  write_map,
}
use resolvd.Msgpack.Reader.{max_depth}
use resolvd.Msgpack.RoundTrip.{at, IsText, write_str_pos}
use resolvd.Msgpack.Skip.{repeat, twice, skip_within, skip_fuel, skip}
use resolvd.Msgpack.Skip.Values.{
  Value, nil, bool, uint, int, string, binary, list, table, Items, no_items, item, Fields,
  no_fields, field, count_items, count_fields, encode, encode_items, encode_fields, height,
  height_items, height_fields, IsValue, AreItems, AreFields,
}
use resolvd.Msgpack.Skip.Arms.{
  start-uint, start-nil, start-bool, start-int, start-str, start-bin, start-array, start-map,
  nested-open,
}

-- What was written takes a byte at least.
encode_pos : (v : Value) → 1 ≤ length (encode v)
unfolding encode write_bool write_uint write_int write_str write_bin str_header bin_header
    write_array write_map
encode_pos nil = omega arith
encode_pos (bool b) = omega arith
encode_pos (uint n) = ground arith
encode_pos (int (pos n)) = ground arith
encode_pos (int (negsuc n)) = ground arith
encode_pos (string s) = ground arith
encode_pos (binary s) = ground arith
encode_pos (list xs) = ground arith
encode_pos (table fs) = ground arith

count_items-le : (xs : Items) → count_items xs ≤ length (encode_items xs)
unfolding encode_items
count_items-le no_items = omega arith
count_items-le (item v xs) =
    omega (arith, length-append (encode v) (encode_items xs), encode_pos v, count_items-le xs)

count_fields-le : (fs : Fields) → count_fields fs * 2 ≤ length (encode_fields fs)
unfolding encode_fields
count_fields-le no_fields = omega arith
count_fields-le (field k v fs) = omega (
  arith,
  length-append (write_str k) (encode v ++ encode_fields fs),
  length-append (encode v) (encode_fields fs),
  write_str_pos k,
  encode_pos v,
  count_fields-le fs,
)

skip_key :
    (k : Bytes) (levels : ℕ) (t : Bytes) (d : ℕ)
    → IsText k
    → d ≤ max_depth
    → max_depth + 1 ≤ levels + d
    → skip_within levels (at (write_str k ++ t) d) ≡ ok (at t d)
unfolding skip_within
skip_key k zero t d valid low enough = absurd (omega arith)
skip_key k (suc levels) t d valid low enough = start-str levels t d k valid

mutual
  unfolding encode IsValue height skip_within repeat count_items

  -- With levels enough for the limit, `skip` takes a written value off the front of any bytes.
  skip_value :
      (v : Value) (levels : ℕ) (t : Bytes) (d : ℕ)
      → IsValue v
      → height v + d ≤ max_depth
      → max_depth + 1 ≤ levels + d
      → skip_within levels (at (encode v ++ t) d) ≡ ok (at t d)
  skip_value v zero t d valid low enough = absurd (omega arith)
  skip_value nil (suc levels) t d valid low enough = start-nil levels t d
  skip_value (bool b) (suc levels) t d valid low enough = start-bool levels t d b
  skip_value (uint n) (suc levels) t d valid low enough = start-uint levels t d n
  skip_value (int i) (suc levels) t d valid low enough = start-int levels t d i valid
  skip_value (string s) (suc levels) t d valid low enough = start-str levels t d s valid
  skip_value (binary s) (suc levels) t d valid low enough = start-bin levels t d s valid
  skip_value (list xs) (suc levels) t d valid low enough =
      let body : Bytes = encode_items xs ++ t in
      let room : count_items xs ≤ length body =
        omega (arith, count_items-le xs, length-append (encode_items xs) t) in
      rw (append_assoc (write_array (count_items xs)) (encode_items xs) t) (
        start-array levels body d (count_items xs) valid.0 room
        ∙ nested-open (repeat (count_items xs) (skip_within levels)) body t d (omega (arith, low))
            (skip_items xs levels t (d + 1) valid.1 (omega (arith, low)) (omega (arith, enough))))
  skip_value (table fs) (suc levels) t d valid low enough =
      let body : Bytes = encode_fields fs ++ t in
      let room : count_fields fs * 2 ≤ length body =
        omega (arith, count_fields-le fs, length-append (encode_fields fs) t) in
      rw (append_assoc (write_map (count_fields fs)) (encode_fields fs) t) (
        start-map levels body d (count_fields fs) valid.0 room
        ∙ nested-open (repeat (count_fields fs) (twice (skip_within levels))) body t d
            (omega (arith, low))
            (skip_fields fs levels t (d + 1) valid.1 (omega (arith, low)) (omega (arith, enough))))

  skip_items :
      (xs : Items) (levels : ℕ) (t : Bytes) (d : ℕ)
      → AreItems xs
      → height_items xs + d ≤ max_depth
      → max_depth + 1 ≤ levels + d
      → repeat (count_items xs) (skip_within levels) (at (encode_items xs ++ t) d) ≡ ok (at t d)
  skip_items no_items levels t d valid low enough = refl
  skip_items (item v xs) levels t d valid low enough =
      rw
        (
          append_assoc (encode v) (encode_items xs) t,
          skip_value v levels (encode_items xs ++ t) d valid.0 (omega (arith, low)) enough,
        )
        (skip_items xs levels t d valid.1 (omega (arith, low)) enough)

  skip_fields :
      (fs : Fields) (levels : ℕ) (t : Bytes) (d : ℕ)
      → AreFields fs
      → height_fields fs + d ≤ max_depth
      → max_depth + 1 ≤ levels + d
      → repeat (count_fields fs) (twice (skip_within levels)) (at (encode_fields fs ++ t) d)
        ≡ ok (at t d)
  skip_fields no_fields levels t d valid low enough = refl
  skip_fields (field k v fs) levels t d valid low enough =
      rw
        (
          append_assoc (write_str k) (encode v ++ encode_fields fs) t,
          append_assoc (encode v) (encode_fields fs) t,
          skip_key k levels (encode v ++ (encode_fields fs ++ t)) d valid.0 (omega (arith, low))
              enough,
          skip_value v levels (encode_fields fs ++ t) d valid.1 (omega (arith, low)) enough,
        )
        (skip_fields fs levels t d valid.2 (omega (arith, low)) enough)

-- Of a value of the protocol that fits its headers, and whose containers stay within the depth
-- limit, `skip` takes exactly the bytes that were written, whatever follows them.
pub skip-encode :
    (v : Value) (t : Bytes) (d : ℕ)
    → IsValue v
    → height v + d ≤ max_depth
    → skip (at (encode v ++ t) d) ≡ ok (at t d)
unfolding skip
skip-encode v t d valid low = skip_value v skip_fuel t d valid low (omega arith)
