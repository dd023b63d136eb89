-- ===== src/Native/Parts/Entries.antt =====
-- A field that is written is read back by the arm of its type.
use resolvd.Prelude.{
  ℕ, ◌^◌, ◌≡◌, ◌≤◌, ◌<◌, refl, ◌∙◌, Bool, List, [], ◌∷◌, ◌++◌, All, length, Bytes, arith,
}
use resolvd.Msgpack.{write_str, write_bin, write_uint, write_bool, bin_header}
use resolvd.Msgpack.Reader.{Reader}
use resolvd.Msgpack.RoundTrip.{
  at, IsText, write_str_pos, write_uint_pos, read_str-write_str, read_bin-write_bin,
  read_uint-write_uint, read_bool-write_bool,
}
use resolvd.Native.Fields.{Field, IsEntry}
use resolvd.Native.Request.{entry}
use resolvd.Native.Lists.{
  write_items, write_items_pos, read_items-write_items, text_one, text-IsItem, IsItem,
}
use resolvd.Native.Parts.Arms.{text_arm, bin_arm, uint_arm, bool_arm, list_arm}

write_bin_pos : (b : Bytes) → 1 ≤ length (write_bin b)
unfolding write_bin bin_header
write_bin_pos b = ground arith

write_bool_pos : (b : Bool) → 1 ≤ length (write_bool b)
unfolding write_bool
write_bool_pos b = omega arith

texts-IsItem : (xs : List Bytes) → All IsText xs → All (IsItem write_str text_one) xs
texts-IsItem [] h = tt
texts-IsItem (x ∷ xs) h = (text-IsItem x h.0, texts-IsItem xs h.1)

-- A list of strings that fit, and not too many.
abbrev pub AreTexts : List Bytes → Type 0
AreTexts xs = (length xs < 2 ^ 32) × All IsText xs

-- The key of a field of `f`, whose arm is known.
module _ {S : Type 0} (f : Field S) (key : Bytes) (text : IsText key) where
  pub text-IsEntry :
      (set : Bytes → S → S)
      → ((s : S) (r : Reader) → f s key r ≡ text_arm set s r)
      → (v : Bytes) → IsText v
      → IsEntry f (entry key (write_str v) (set v))
  text-IsEntry set arm v h = record {
    key = text;
    value = write_str_pos v;
    reads = λ s t d. arm s (at (write_str v ++ t) d) ∙ rw (read_str-write_str v t d h.0 h.1) refl;
  }

  pub bin-IsEntry :
      (set : Bytes → S → S)
      → ((s : S) (r : Reader) → f s key r ≡ bin_arm set s r)
      → (v : Bytes) → length v < 2 ^ 32
      → IsEntry f (entry key (write_bin v) (set v))
  bin-IsEntry set arm v h = record {
    key = text;
    value = write_bin_pos v;
    reads = λ s t d. arm s (at (write_bin v ++ t) d) ∙ rw (read_bin-write_bin v t d h) refl;
  }

  pub uint-IsEntry :
      (set : ℕ → S → S)
      → ((s : S) (r : Reader) → f s key r ≡ uint_arm set s r)
      → (v : ℕ) → v < 2 ^ 63
      → IsEntry f (entry key (write_uint v) (set v))
  uint-IsEntry set arm v h = record {
    key = text;
    value = write_uint_pos v;
    reads = λ s t d. arm s (at (write_uint v ++ t) d) ∙ rw (read_uint-write_uint t d v h) refl;
  }

  pub bool-IsEntry :
      (set : Bool → S → S)
      → ((s : S) (r : Reader) → f s key r ≡ bool_arm set s r)
      → (v : Bool) → IsEntry f (entry key (write_bool v) (set v))
  bool-IsEntry set arm v = record {
    key = text;
    value = write_bool_pos v;
    reads = λ s t d. arm s (at (write_bool v ++ t) d) ∙ rw (read_bool-write_bool t d v) refl;
  }

  pub list-IsEntry :
      (set : List Bytes → S → S)
      → ((s : S) (r : Reader) → f s key r ≡ list_arm set s r)
      → (v : List Bytes) → AreTexts v
      → IsEntry f (entry key (write_items write_str v) (set v))
  list-IsEntry set arm v h = record {
    key = text;
    value = write_items_pos write_str text_one v;
    reads = λ s t d.
        arm s (at (write_items write_str v ++ t) d)
        ∙ rw (read_items-write_items write_str text_one v [] t d h.0 (texts-IsItem v h.1)) refl;
  }
