-- ===== src/Msgpack/Skip/Arms.antt =====
-- The arm that `Reader::skip` takes at the first byte of a value that a `Writer` wrote.
use resolvd.Prelude.{
  ℕ, ◌+◌, ◌-◌, ◌*◌, ◌^◌, ◌≡◌, ◌≤◌, ◌<◌, refl, ◌∙◌, Bool, true, false, [], ◌∷◌, ◌++◌, length, ltb,
  Bytes, to_be, ℤ, pos, negsuc, arith, ok, err, ◌>>=◌,
}
use resolvd.Msgpack.{
  truncated, write_nil, write_bool, write_uint, write_int, str_header, write_str, bin_header,
  write_bin, write_array, write_map,
}
use resolvd.Msgpack.Reader.{Reader, max_depth, byte, read_str, read_bin, read_array, read_map}
use resolvd.Msgpack.RoundTrip.{
  at, IsI64, IsText, take_bytes-append, read_str-write_str, read_bin-write_bin,
  read_array-write_array, read_map-write_map,
}
use resolvd.Msgpack.Skip.{
  form_of, Skipped, repeat, nested, twice, skip_fixed, skip_form, skip_within,
}

-- The arm that `skip` takes at the first byte.
abbrev start : ℕ → Reader → Skipped
start levels r = elim r.rest [
  | [] ↦ err truncated
  | b ∷ t ↦ skip_form (skip_within levels) (form_of b) r
]

module _ (levels : ℕ) (t : Bytes) (d : ℕ) where
  pub start-uint : (n : ℕ) → start levels (at (write_uint n ++ t) d) ≡ ok (at t d)
  unfolding skip_form skip_fixed form_of byte write_uint
  start-uint n = ground (
    arith,
    take_bytes-append (n ∷ []) t d,
    take_bytes-append (to_be 2 n) t d,
    take_bytes-append (to_be 4 n) t d,
    take_bytes-append (to_be 8 n) t d,
  )

  pub start-nil : start levels (at (write_nil ++ t) d) ≡ ok (at t d)
  unfolding skip_form form_of byte
  start-nil = refl

  pub start-bool : (b : Bool) → start levels (at (write_bool b ++ t) d) ≡ ok (at t d)
  unfolding skip_form form_of byte write_bool
  start-bool true = refl
  start-bool false = refl

  start-neg : (m : ℕ) → m < 2 ^ 63 → start levels (at (write_int (negsuc m) ++ t) d) ≡ ok (at t d)
  unfolding skip_form skip_fixed form_of byte write_int
  start-neg m h = ground (
    arith,
    take_bytes-append ((2 ^ 8 - 1 - m) ∷ []) t d,
    take_bytes-append (to_be 2 (2 ^ 16 - 1 - m)) t d,
    take_bytes-append (to_be 4 (2 ^ 32 - 1 - m)) t d,
    take_bytes-append (to_be 8 (2 ^ 64 - 1 - m)) t d,
  )

  pub start-int : (v : ℤ) → IsI64 v → start levels (at (write_int v ++ t) d) ≡ ok (at t d)
  unfolding write_int
  start-int (pos n) h = start-uint n
  start-int (negsuc m) h = start-neg m h

  arm-str :
      (s : Bytes)
      → start levels (at (write_str s ++ t) d)
        ≡ (do (u, r) ← read_str (at (write_str s ++ t) d); ok r)
  unfolding skip_form form_of write_str str_header
  arm-str s = ground arith

  pub start-str : (s : Bytes) → IsText s → start levels (at (write_str s ++ t) d) ≡ ok (at t d)
  start-str s h = arm-str s ∙ rw (read_str-write_str s t d h.0 h.1) refl

  arm-bin :
      (s : Bytes)
      → start levels (at (write_bin s ++ t) d)
        ≡ (do (u, r) ← read_bin (at (write_bin s ++ t) d); ok r)
  unfolding skip_form form_of write_bin bin_header
  arm-bin s = ground arith

  pub start-bin :
      (s : Bytes) → length s < 2 ^ 32 → start levels (at (write_bin s ++ t) d) ≡ ok (at t d)
  start-bin s h = arm-bin s ∙ rw (read_bin-write_bin s t d h) refl

  arm-array :
      (n : ℕ)
      → start levels (at (write_array n ++ t) d) ≡ (do
        (k, r) ← read_array (at (write_array n ++ t) d)
        nested (repeat k (skip_within levels)) r)
  unfolding skip_form form_of write_array
  arm-array n = ground arith

  pub start-array :
      (n : ℕ)
      → n < 2 ^ 32
      → n ≤ length t
      → start levels (at (write_array n ++ t) d) ≡ nested (repeat n (skip_within levels)) (at t d)
  start-array n h room = arm-array n ∙ rw (read_array-write_array t d n h room) refl

  arm-map :
      (n : ℕ)
      → start levels (at (write_map n ++ t) d) ≡ (do
        (k, r) ← read_map (at (write_map n ++ t) d)
        nested (repeat k (twice (skip_within levels))) r)
  unfolding skip_form form_of write_map
  arm-map n = ground arith

  pub start-map :
      (n : ℕ)
      → n < 2 ^ 32
      → n * 2 ≤ length t
      → start levels (at (write_map n ++ t) d)
        ≡ nested (repeat n (twice (skip_within levels))) (at t d)
  start-map n h room = arm-map n ∙ rw (read_map-write_map t d n h room) refl

-- A container at a depth below the limit.
pub nested-open :
    (f : Reader → Skipped) (t u : Bytes) (d : ℕ)
    → d < max_depth
    → f (at t (d + 1)) ≡ ok (at u (d + 1))
    → nested f (at t d) ≡ ok (at u d)
unfolding nested
nested-open f t u d room e =
    let shallow : ltb max_depth (d + 1) ≡ false = ground arith in
    let back : d + 1 - 1 ≡ d = omega arith in rw (shallow, e, back) refl
