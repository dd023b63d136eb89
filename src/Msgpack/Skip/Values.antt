-- ===== src/Msgpack/Skip/Values.antt =====
-- The values that a `Writer` of resolvd-core/src/msgpack.rs writes in this protocol.
use resolvd.Prelude.{ℕ, suc, ◌^◌, ◌<◌, max, Bool, [], ◌++◌, length, Bytes, ℤ}
use resolvd.Msgpack.{
  write_nil, write_bool, write_uint, write_int, write_str, write_bin, write_array, write_map,
}
use resolvd.Msgpack.RoundTrip.{IsI64, IsText}

-- The values of the protocol: the keys of a map are strings.
mutual
  pub data Value : Type 0 where
    nil : Value
    bool : Bool → Value
    uint : ℕ → Value
    int : ℤ → Value
    string binary : Bytes → Value
    list : Items → Value
    table : Fields → Value

  pub data Items : Type 0 where
    no_items : Items
    item : Value → Items → Items

  pub data Fields : Type 0 where
    no_fields : Fields
    field : Bytes → Value → Fields → Fields

unfoldable mutual
  pub count_items : Items → ℕ
  count_items no_items = 0
  count_items (item v xs) = suc (count_items xs)

  pub count_fields : Fields → ℕ
  count_fields no_fields = 0
  count_fields (field k v fs) = suc (count_fields fs)

-- The calls that write a value.
unfoldable mutual
  unfolding count_items count_fields

  pub encode : Value → Bytes
  encode nil = write_nil
  encode (bool b) = write_bool b
  encode (uint n) = write_uint n
  encode (int v) = write_int v
  encode (string s) = write_str s
  encode (binary s) = write_bin s
  encode (list xs) = write_array (count_items xs) ++ encode_items xs
  encode (table fs) = write_map (count_fields fs) ++ encode_fields fs

  pub encode_items : Items → Bytes
  encode_items no_items = []
  encode_items (item v xs) = encode v ++ encode_items xs

  pub encode_fields : Fields → Bytes
  encode_fields no_fields = []
  encode_fields (field k v fs) = write_str k ++ (encode v ++ encode_fields fs)

-- The containers that are open at once.
unfoldable mutual
  pub height : Value → ℕ
  height (list xs) = suc (height_items xs)
  height (table fs) = suc (height_fields fs)
  height _ = 0

  pub height_items : Items → ℕ
  height_items no_items = 0
  height_items (item v xs) = max (height v) (height_items xs)

  pub height_fields : Fields → ℕ
  height_fields no_fields = 0
  height_fields (field k v fs) = max (height v) (height_fields fs)

-- Numbers of 64 bits, strings of UTF-8, sizes of 32 bits.
unfoldable mutual
  unfolding count_items count_fields

  pub IsValue : Value → Type 0
  IsValue nil = Unit {0}
  IsValue (bool b) = Unit {0}
  IsValue (uint n) = n < 2 ^ 64
  IsValue (int v) = IsI64 v
  IsValue (string s) = IsText s
  IsValue (binary s) = length s < 2 ^ 32
  IsValue (list xs) = (count_items xs < 2 ^ 32) × AreItems xs
  IsValue (table fs) = (count_fields fs < 2 ^ 32) × AreFields fs

  pub AreItems : Items → Type 0
  AreItems no_items = Unit {0}
  AreItems (item v xs) = IsValue v × AreItems xs

  pub AreFields : Fields → Type 0
  AreFields no_fields = Unit {0}
  AreFields (field k v fs) = IsText k × IsValue v × AreFields fs
