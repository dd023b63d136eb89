-- ===== src/Native/Lists.antt =====
-- Arrays and optional strings of resolvd-core/src/lib.rs: `write_str_list`, `read_str_list`,
-- `write_opt_str`, `read_opt_str`, and the loops over an array of maps.
use resolvd.Prelude.{
  ℕ, zero, suc, ◌%◌, ◌^◌, ◌≡◌, ◌≤◌, ◌<◌, refl, List, [], ◌∷◌, ◌++◌, Option, none, some, length,
  length-append, All, Bytes, Result, ok, ◌>>=◌, arith,
}
use mathlib.Core.List.{append_assoc, append-nil}
use resolvd.Msgpack.{Kind, nil_kind, write_nil, write_str, write_array, str_header}
use resolvd.Msgpack.Reader.{Reader, peek, kind_of, read_nil, read_str, read_array}
use resolvd.Msgpack.RoundTrip.{
  at, IsText, write_str_pos, read_str-write_str, read_nil-write_nil, read_array-write_array,
}
use resolvd.Native.{WireError, codec}

abbrev pub ReadOne : Type 0 → Type 0
ReadOne A = Reader → Result WireError (A × Reader)

module _ {A : Type 0} where
  unfoldable pub write_all : (A → Bytes) → List A → Bytes
  write_all item [] = []
  write_all item (x ∷ xs) = item x ++ write_all item xs

  -- `write_array(items.len() as u32)` and the loop that follows it.
  unfoldable pub write_items : (A → Bytes) → List A → Bytes
  unfolding write_all
  write_items item xs = write_array (length xs % 2 ^ 32) ++ write_all item xs

  -- `for _ in 0..n { out.push(...) }`
  unfoldable pub read_loop : ReadOne A → ℕ → List A → ReadOne (List A)
  read_loop one zero out r = ok (out, r)
  read_loop one (suc n) out r = do (x, r') ← one r; read_loop one n (out ++ x ∷ []) r'

  unfoldable pub read_items : ReadOne A → List A → ReadOne (List A)
  unfolding read_loop
  read_items one out r = do (n, r') ← codec (read_array r); read_loop one n out r'

  -- An item that is written takes a byte at least and is read back.
  pub record IsItem (item : A → Bytes) (one : ReadOne A) (x : A) : Type 0 where
    pub long : 1 ≤ length (item x)
    pub reads : (t : Bytes) (d : ℕ) → one (at (item x ++ t) d) ≡ ok (x, at t d)

  module _ (item : A → Bytes) (one : ReadOne A) where
    read_loop-write_all :
        (xs out : List A) (t : Bytes) (d : ℕ)
        → All (IsItem item one) xs
        → read_loop one (length xs) out (at (write_all item xs ++ t) d) ≡ ok (out ++ xs, at t d)
    unfolding read_loop write_all
    read_loop-write_all [] out t d h = rw (append-nil out) refl
    read_loop-write_all (x ∷ xs) out t d h =
        rw
          (
            append_assoc (item x) (write_all item xs) t,
            h.0.reads (write_all item xs ++ t) d,
            read_loop-write_all xs (out ++ x ∷ []) t d h.1,
            append_assoc out (x ∷ []) xs,
          )
          refl

    room : (xs : List A) → All (IsItem item one) xs → length xs ≤ length (write_all item xs)
    unfolding write_all
    room [] h = omega arith
    room (x ∷ xs) h =
        omega (arith, length-append (item x) (write_all item xs), h.0.long, room xs h.1)

    pub read_items-write_items :
        (xs out : List A) (t : Bytes) (d : ℕ)
        → length xs < 2 ^ 32
        → All (IsItem item one) xs
        → read_items one out (at (write_items item xs ++ t) d) ≡ ok (out ++ xs, at t d)
    unfolding read_items write_items
    read_items-write_items xs out t d small h =
        let whole : length xs % 2 ^ 32 ≡ length xs = omega arith in
        let fits : length xs ≤ length (write_all item xs ++ t) =
          omega (arith, room xs h, length-append (write_all item xs) t) in
        rw
          (
            whole,
            append_assoc (write_array (length xs)) (write_all item xs) t,
            read_array-write_array (write_all item xs ++ t) d (length xs) small fits,
          )
          (read_loop-write_all xs out t d h)

    pub write_items_pos : (xs : List A) → 1 ≤ length (write_items item xs)
    unfolding write_items write_array
    write_items_pos xs =
        ground (arith, length-append (write_array (length xs % 2 ^ 32)) (write_all item xs))

-- `read_str`, as one reads an item.
abbrev pub text_one : ReadOne Bytes
text_one r = codec (read_str r)

pub text-IsItem : (s : Bytes) → IsText s → IsItem write_str text_one s
text-IsItem s h = record {
  long = write_str_pos s;
  reads = λ t d. rw (read_str-write_str s t d h.0 h.1) refl;
}

abbrev pub write_opt_str : Option Bytes → Bytes
write_opt_str none = write_nil
write_opt_str (some s) = write_str s

abbrev pub is_nil :
    Option Kind → ReadOne (Option Bytes) → ReadOne (Option Bytes) → ReadOne (Option Bytes)
is_nil (some nil_kind) absent other = absent
is_nil _ absent other = other

unfoldable pub read_opt_str : ReadOne (Option Bytes)
read_opt_str r =
    is_nil (peek r) (λ r. (do (u, r') ← codec (read_nil r); ok (none, r')))
      (λ r. (do (s, r') ← codec (read_str r); ok (some s, r'))) r

abbrev pub IsOptText : Option Bytes → Type 0
IsOptText none = Unit {0}
IsOptText (some s) = IsText s

peek-write_str :
    (s t : Bytes) (d : ℕ) (x y : ReadOne (Option Bytes))
    → is_nil (peek (at (write_str s ++ t) d)) x y ≡ y
unfolding peek kind_of write_str str_header
peek-write_str s t d x y = ground arith

read_opt_str-none : (t : Bytes) (d : ℕ) → read_opt_str (at (write_nil ++ t) d) ≡ ok (none, at t d)
unfolding read_opt_str peek kind_of
read_opt_str-none t d = rw (read_nil-write_nil t d) refl

read_opt_str-some :
    (s t : Bytes) (d : ℕ) → IsText s → read_opt_str (at (write_str s ++ t) d) ≡ ok (some s, at t d)
unfolding read_opt_str
read_opt_str-some s t d h = rw (peek-write_str s t d _ _, read_str-write_str s t d h.0 h.1) refl

pub read_opt_str-write_opt_str :
    (o : Option Bytes) (t : Bytes) (d : ℕ)
    → IsOptText o
    → read_opt_str (at (write_opt_str o ++ t) d) ≡ ok (o, at t d)
read_opt_str-write_opt_str none t d h = read_opt_str-none t d
read_opt_str-write_opt_str (some s) t d h = read_opt_str-some s t d h

pub write_opt_str_pos : (o : Option Bytes) → 1 ≤ length (write_opt_str o)
write_opt_str_pos none = omega arith
write_opt_str_pos (some s) = write_str_pos s
