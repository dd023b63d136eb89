-- ===== src/Native/Fields.antt =====
-- `for_each_field` of resolvd-core/src/lib.rs, and what it makes of fields that a `Writer` wrote.
use resolvd.Prelude.{
  ℕ, zero, suc, ◌*◌, ◌^◌, ◌≡◌, ◌≤◌, ◌<◌, refl, subst, Bool, true, not, List, [], ◌∷◌, ◌++◌, length,
  length-append, any, All, Bytes, bytes_eq, Result, ok, ◌>>=◌, ◌>>◌, require, arith, &&-elim, ◌&&◌,
}
use mathlib.Core.List.{append_assoc, append-nil}
use resolvd.Msgpack.{write_str, write_map}
use resolvd.Msgpack.Reader.{Reader, read_str, read_map}
use resolvd.Msgpack.RoundTrip.{at, IsText, read_str-write_str, read_map-write_map, write_str_pos}
use resolvd.Native.{WireError, duplicate, codec}

-- The closure: what a field of the key does to the caller's variables.
abbrev pub Field : Type 0 → Type 0
Field S = S → Bytes → Reader → Result WireError (S × Reader)

-- `seen.iter().any(|s| s == key)`
abbrev pub was_seen : List Bytes → Bytes → Bool
was_seen seen key = any (λ s. bytes_eq s key) seen

module _ {S : Type 0} (f : Field S) where
  unfoldable pub fields_loop : ℕ → List Bytes → S → Reader → Result WireError (S × Reader)
  fields_loop zero seen s r = ok (s, r)
  fields_loop (suc n) seen s r = do
    (key, r₁) ← codec (read_str r)
    require (not (was_seen seen key)) (duplicate key)
    (s', r₂) ← f s key r₁
    fields_loop n (seen ++ key ∷ []) s' r₂

  unfoldable pub for_each_field : S → Reader → Result WireError (S × Reader)
  unfolding fields_loop
  for_each_field s r = do (n, r') ← codec (read_map r); fields_loop n [] s r'

-- A field that is written, and what reading it does.
pub record Entry (S : Type 0) : Type 0 where
  pub key : Bytes
  pub value : Bytes
  pub set : S → S

unfoldable pub write_fields : {S : Type 0} → List (Entry S) → Bytes
write_fields [] = []
write_fields (e ∷ es) = write_str e.key ++ (e.value ++ write_fields es)

abbrev pub set_all : {S : Type 0} → List (Entry S) → S → S
set_all [] s = s
set_all (e ∷ es) s = set_all es (e.set s)

-- No key was seen before.
abbrev pub are_new : {S : Type 0} → List Bytes → List (Entry S) → Bool
are_new seen [] = true
are_new seen (e ∷ es) = not (was_seen seen e.key) && are_new (seen ++ e.key ∷ []) es

module _ {S : Type 0} (f : Field S) where
  pub record IsEntry (e : Entry S) : Type 0 where
    pub key : IsText e.key
    pub value : 1 ≤ length e.value
    pub reads : (s : S) (t : Bytes) (d : ℕ) → f s e.key (at (e.value ++ t) d) ≡ ok (e.set s, at t d)

  fields_loop-write_fields :
      (es : List (Entry S)) (seen : List Bytes) (s : S) (t : Bytes) (d : ℕ)
      → All IsEntry es
      → are_new seen es ≡ true
      → fields_loop f (length es) seen s (at (write_fields es ++ t) d) ≡ ok (set_all es s, at t d)
  unfolding fields_loop write_fields
  fields_loop-write_fields [] seen s t d h new = refl
  fields_loop-write_fields (e ∷ es) seen s t d h new =
      let (fresh, rest) =
        &&-elim (not (was_seen seen e.key)) (are_new (seen ++ e.key ∷ []) es) new in
      rw
        (
          append_assoc (write_str e.key) (e.value ++ write_fields es) t,
          append_assoc e.value (write_fields es) t,
          read_str-write_str e.key (e.value ++ (write_fields es ++ t)) d h.0.key.0 h.0.key.1,
          fresh,
          h.0.reads s (write_fields es ++ t) d,
        )
        (fields_loop-write_fields es (seen ++ e.key ∷ []) (e.set s) t d h.1 rest)

  room : (es : List (Entry S)) → All IsEntry es → length es * 2 ≤ length (write_fields es)
  unfolding write_fields
  room [] h = omega arith
  room (e ∷ es) h = omega (
    arith,
    length-append (write_str e.key) (e.value ++ write_fields es),
    length-append e.value (write_fields es),
    write_str_pos e.key,
    h.0.value,
    room es h.1,
  )

  -- A map of fields with different keys is read field by field.
  pub for_each_field-write :
      (n : ℕ) (es : List (Entry S)) (s : S) (t : Bytes) (d : ℕ)
      → length es ≡ n
      → n < 2 ^ 32
      → All IsEntry es
      → are_new [] es ≡ true
      → for_each_field f s (at (write_map n ++ (write_fields es ++ t)) d)
        ≡ ok (set_all es s, at t d)
  unfolding for_each_field
  for_each_field-write n es s t d count small h new =
      let fits : n * 2 ≤ length (write_fields es ++ t) =
        omega (arith, room es h, length-append (write_fields es) t) in
      rw (read_map-write_map (write_fields es ++ t) d n small fits, ← count)
        (fields_loop-write_fields es [] s t d h new)

  -- The same, where nothing follows.
  pub for_each_field-end :
      (n : ℕ) (es : List (Entry S)) (s : S)
      → length es ≡ n
      → n < 2 ^ 32
      → All IsEntry es
      → are_new [] es ≡ true
      → for_each_field f s (at (write_map n ++ write_fields es) 0) ≡ ok (set_all es s, at [] 0)
  for_each_field-end n es s count small h new =
      subst (λ t. for_each_field f s (at (write_map n ++ t) 0) ≡ ok (set_all es s, at [] 0))
        (append-nil (write_fields es)) (for_each_field-write n es s [] 0 count small h new)
