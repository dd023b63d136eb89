-- ===== src/Msgpack/RoundTrip.antt =====
-- A `Reader` reads back what a `Writer` wrote, and leaves what follows.
use resolvd.Prelude.{
  ℕ, ◌-◌, ◌*◌, ◌^◌, ◌≡◌, ◌≤◌, ◌<◌, refl, Bool, true, false, [], ◌∷◌, ◌++◌, length, length-append,
  drop, take-append, le→leb, Bytes, to_be, from_be-to_be_2, from_be-to_be_4, from_be-to_be_8,
  is_utf8, ℤ, pos, negsuc, ok, err, arith, ltb, ltb→lt, Bool-cases, inl, inr, if◌then◌else◌,
}
use mathlib.Core.List.{append_assoc}
use resolvd.Msgpack.{
  wrong_type, write_nil, write_bool, write_uint, write_int, str_header, write_str, bin_header,
  write_bin, write_array, write_map,
}
use resolvd.Msgpack.Reader.{
  Reader, byte, take_bytes, be_u, read_nil, read_bool, int_body, read_int, read_uint, str_length,
  read_str_length, read_str, bin_length, read_bin_length, read_bin, array_length, read_array,
  map_length, read_map,
}

abbrev pub at : Bytes → ℕ → Reader
at t d = record { rest = t; depth = d }

-- The numbers that an `i64` holds.
abbrev pub IsI64 : ℤ → Type 0
IsI64 (pos n) = n < 2 ^ 63
IsI64 (negsuc m) = m < 2 ^ 63

-- A string that fits its header.
abbrev pub IsText : Bytes → Type 0
IsText s = (is_utf8 s ≡ true) × (length s < 2 ^ 32)

drop-append : (s t : Bytes) → drop (length s) (s ++ t) ≡ t
drop-append [] t = refl
drop-append (x ∷ s) t = drop-append s t

pub take_bytes-append :
    (s t : Bytes) (d : ℕ) → take_bytes (length s) (at (s ++ t) d) ≡ ok (s, at t d)
unfolding take_bytes
take_bytes-append s t d =
    rw
      (
        le→leb (length s) (length (s ++ t)) (omega (arith, length-append s t)),
        take-append s t,
        drop-append s t,
      )
      refl

module _ (t : Bytes) (d : ℕ) where
  be_u-to_be_1 : (v : ℕ) → v < 2 ^ 8 → be_u 1 (at (v ∷ t) d) ≡ ok (v, at t d)
  unfolding be_u
  be_u-to_be_1 v h = rw (take_bytes-append (v ∷ []) t d) (ground arith)

  be_u-to_be_2 : (v : ℕ) → v < 2 ^ 16 → be_u 2 (at (to_be 2 v ++ t) d) ≡ ok (v, at t d)
  unfolding be_u
  be_u-to_be_2 v h = rw (take_bytes-append (to_be 2 v) t d, from_be-to_be_2 v h) refl

  be_u-to_be_4 : (v : ℕ) → v < 2 ^ 32 → be_u 4 (at (to_be 4 v ++ t) d) ≡ ok (v, at t d)
  unfolding be_u
  be_u-to_be_4 v h = rw (take_bytes-append (to_be 4 v) t d, from_be-to_be_4 v h) refl

  be_u-to_be_8 : (v : ℕ) → v < 2 ^ 64 → be_u 8 (at (to_be 8 v ++ t) d) ≡ ok (v, at t d)
  unfolding be_u
  be_u-to_be_8 v h = rw (take_bytes-append (to_be 8 v) t d, from_be-to_be_8 v h) refl

  pub read_nil-write_nil : read_nil (at (write_nil ++ t) d) ≡ ok (tt, at t d)
  unfolding read_nil byte
  read_nil-write_nil = refl

  pub read_bool-write_bool : (b : Bool) → read_bool (at (write_bool b ++ t) d) ≡ ok (b, at t d)
  unfolding read_bool byte write_bool
  read_bool-write_bool true = refl
  read_bool-write_bool false = refl

  -- An unsigned number below 2 ^ 63 reads back as an integer.
  read_int-write_uint :
      (v : ℕ) → v < 2 ^ 63 → read_int (at (write_uint v ++ t) d) ≡ ok (pos v, at t d)
  unfolding read_int int_body byte write_uint
  read_int-write_uint v h =
      ground (arith, be_u-to_be_1 v, be_u-to_be_2 v, be_u-to_be_4 v, be_u-to_be_8 v)

  -- An unsigned number below 2 ^ 63 reads back.
  pub read_uint-write_uint :
      (v : ℕ) → v < 2 ^ 63 → read_uint (at (write_uint v ++ t) d) ≡ ok (v, at t d)
  unfolding read_uint
  read_uint-write_uint v h = rw (read_int-write_uint v h) refl

  read_int-write_uint_large :
      (v : ℕ) → 2 ^ 63 ≤ v → v < 2 ^ 64 → read_int (at (write_uint v ++ t) d) ≡ err wrong_type
  unfolding read_int int_body byte write_uint
  read_int-write_uint_large v large h = ground (arith, be_u-to_be_8 v h)

  -- Of the numbers of 64 bits, those below 2 ^ 63 are read back as they were written, and the others
  -- are refused as a value of the wrong type.
  pub read_uint-write_uint_cases :
      (v : ℕ)
      → v < 2 ^ 64
      → read_uint (at (write_uint v ++ t) d)
        ≡ (if ltb v (2 ^ 63) then ok (v, at t d) else err wrong_type)
  unfolding read_uint
  read_uint-write_uint_cases v h = elim (Bool-cases (ltb v (2 ^ 63))) [
    | inl small ↦ rw small (read_uint-write_uint v (ltb→lt v (2 ^ 63) small))
    | inr large ↦ rw (large, read_int-write_uint_large v (ground (arith, large)) h) refl
  ]

  pub read_int-write_int_pos :
      (n : ℕ) → n < 2 ^ 63 → read_int (at (write_int (pos n) ++ t) d) ≡ ok (pos n, at t d)
  unfolding write_int
  read_int-write_int_pos n h = read_int-write_uint n h

  pub read_int-write_int_neg :
      (m : ℕ) → m < 2 ^ 63 → read_int (at (write_int (negsuc m) ++ t) d) ≡ ok (negsuc m, at t d)
  unfolding read_int int_body byte write_int
  read_int-write_int_neg m h = ground (
    arith,
    be_u-to_be_1 (2 ^ 8 - 1 - m),
    be_u-to_be_2 (2 ^ 16 - 1 - m),
    be_u-to_be_4 (2 ^ 32 - 1 - m),
    be_u-to_be_8 (2 ^ 64 - 1 - m),
  )

  -- Every `i64` that is written reads back.
  pub read_int-write_int : (v : ℤ) → IsI64 v → read_int (at (write_int v ++ t) d) ≡ ok (v, at t d)
  read_int-write_int (pos n) h = read_int-write_int_pos n h
  read_int-write_int (negsuc m) h = read_int-write_int_neg m h

  -- The headers, read as each reader begins.
  read_str_header :
      (n : ℕ) → n < 2 ^ 32 → read_str_length (at (str_header n ++ t) d) ≡ ok (n, at t d)
  unfolding byte str_header str_length read_str_length
  read_str_header n h = ground (arith, be_u-to_be_1 n, be_u-to_be_2 n, be_u-to_be_4 n)

  read_bin_header :
      (n : ℕ) → n < 2 ^ 32 → read_bin_length (at (bin_header n ++ t) d) ≡ ok (n, at t d)
  unfolding byte bin_header bin_length read_bin_length
  read_bin_header n h = ground (arith, be_u-to_be_1 n, be_u-to_be_2 n, be_u-to_be_4 n)

  -- A count that the bytes left can hold reads back.
  pub read_array-write_array :
      (n : ℕ) → n < 2 ^ 32 → n ≤ length t → read_array (at (write_array n ++ t) d) ≡ ok (n, at t d)
  unfolding byte read_array array_length write_array
  read_array-write_array n h room = ground (arith, be_u-to_be_2 n, be_u-to_be_4 n)

  pub read_map-write_map :
      (n : ℕ) → n < 2 ^ 32 → n * 2 ≤ length t → read_map (at (write_map n ++ t) d) ≡ ok (n, at t d)
  unfolding byte read_map map_length write_map
  read_map-write_map n h room = ground (arith, be_u-to_be_2 n, be_u-to_be_4 n)

module _ (s t : Bytes) (d : ℕ) where
  -- A string reads back, and so does a binary, whatever follows it.
  pub read_str-write_str :
      is_utf8 s ≡ true → length s < 2 ^ 32 → read_str (at (write_str s ++ t) d) ≡ ok (s, at t d)
  unfolding read_str write_str
  read_str-write_str valid h =
      rw
        (
          append_assoc (str_header (length s)) s t,
          read_str_header (s ++ t) d (length s) h,
          take_bytes-append s t d,
          valid,
        )
        refl

  pub read_bin-write_bin : length s < 2 ^ 32 → read_bin (at (write_bin s ++ t) d) ≡ ok (s, at t d)
  unfolding read_bin write_bin
  read_bin-write_bin h =
      rw
        (
          append_assoc (bin_header (length s)) s t,
          read_bin_header (s ++ t) d (length s) h,
          take_bytes-append s t d,
        )
        refl

pub write_str_pos : (s : Bytes) → 1 ≤ length (write_str s)
unfolding write_str str_header
write_str_pos s = ground arith

pub write_uint_pos : (n : ℕ) → 1 ≤ length (write_uint n)
unfolding write_uint
write_uint_pos n = ground arith
