-- ===== src/Native/Parts/Arms.antt =====
-- The arms of a `match key` in resolvd-core/src/lib.rs.
use resolvd.Prelude.{ℕ, Bool, List, [], Bytes, Result, ok, ◌>>=◌}
use resolvd.Msgpack.Reader.{Reader, read_str, read_bin, read_uint, read_bool}
use resolvd.Msgpack.Skip.{skip}
use resolvd.Native.{WireError, codec}
use resolvd.Native.Lists.{read_items, text_one}

-- What a field's reader does to the variable, by the type of the field.
abbrev pub text_arm : {S : Type 0} → (Bytes → S → S) → S → Reader → Result WireError (S × Reader)
text_arm set s r = do (v, r') ← codec (read_str r); ok (set v s, r')

abbrev pub bin_arm : {S : Type 0} → (Bytes → S → S) → S → Reader → Result WireError (S × Reader)
bin_arm set s r = do (v, r') ← codec (read_bin r); ok (set v s, r')

abbrev pub uint_arm : {S : Type 0} → (ℕ → S → S) → S → Reader → Result WireError (S × Reader)
uint_arm set s r = do (v, r') ← codec (read_uint r); ok (set v s, r')

abbrev pub bool_arm : {S : Type 0} → (Bool → S → S) → S → Reader → Result WireError (S × Reader)
bool_arm set s r = do (v, r') ← codec (read_bool r); ok (set v s, r')

abbrev pub list_arm :
    {S : Type 0} → (List Bytes → S → S) → S → Reader → Result WireError (S × Reader)
list_arm set s r = do (v, r') ← read_items text_one [] r; ok (set v s, r')

abbrev pub skip_arm : {S : Type 0} → S → Reader → Result WireError (S × Reader)
skip_arm s r = do r' ← codec (skip r); ok (s, r')
