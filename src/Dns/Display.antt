-- ===== src/Dns/Display.antt =====
-- `Display for Name` of dns/src/lib.rs, and the order of the strings that it prints.
use resolvd.Prelude.{
  ℕ, ◌+◌, ◌/◌, ◌%◌, Bool, true, false, ◌&&◌, ◌||◌, List, [], ◌∷◌, ◌++◌, Option, none, some, leb,
  ltb, ◌==◌, if◌then◌else◌, Bytes,
}
use resolvd.Dns.Name.{Name}

-- A byte of a label: `.` and the backslash are escaped, and what is not printable is in decimal.
unfoldable pub display_byte : ℕ → Bytes
display_byte b =
    if b == 46 || b == 92
    then 92 ∷ b ∷ []
    else if leb 0x21 b && leb b 0x7e
    then b ∷ []
    else 92 ∷ (48 + b / 100) ∷ (48 + b / 10 % 10) ∷ (48 + b % 10) ∷ []

unfoldable pub display_label : Bytes → Bytes
unfolding display_byte
display_label [] = []
display_label (b ∷ l) = display_byte b ++ display_label l

unfoldable pub display_rest : List Bytes → Bytes
unfolding display_label
display_rest [] = []
display_rest (l ∷ ls) = 46 ∷ (display_label l ++ display_rest ls)

abbrev display_labels : List Bytes → Bytes
display_labels [] = 46 ∷ []
display_labels (l ∷ ls) = display_label l ++ display_rest ls

unfoldable pub display : Name → Bytes
unfolding display_rest
display n = display_labels n.labels

-- The order of strings, byte by byte.
unfoldable pub bytes_le : Bytes → Bytes → Bool
bytes_le [] s = true
bytes_le (a ∷ s) [] = false
bytes_le (a ∷ s) (b ∷ t) = let rest = bytes_le s t in if a == b then rest else ltb a b

-- `min_by_key` where the keys are compared by `le`.
module _ {A : Type 0} (le : A → A → Bool) where
  abbrev pub earlier : A → Option A → A
  earlier x none = x
  earlier x (some y) = if le x y then x else y

  unfoldable pub first_by : List A → Option A
  first_by [] = none
  first_by (x ∷ xs) = some (earlier x (first_by xs))
