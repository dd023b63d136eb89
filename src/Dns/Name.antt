-- ===== src/Dns/Name.antt =====
-- `Name` of dns/src/lib.rs: labels as bytes, in the case they arrived. The proofs are in the modules below.
-- A `&str` is its bytes. `eq_ignore_ascii_case` and `to_ascii_lowercase` are the standard library's.
pub mod Valid
use resolvd.Prelude.{
  ℕ, zero, suc, ◌+◌, ◌-◌, ◌*◌, ◌<◌, ◌≤◌, ◌≡◌, Bool, true, false, ◌&&◌, ◌||◌, not, List, [], ◌∷◌,
  ◌++◌, map, Option, none, some, length, drop, is_empty, All, all, any, ltb, leb, ◌==◌,
  if◌then◌else◌, Bytes, Result, ok, err, ◌>>=◌, ◌>>◌, require,
}
use Prim.Native.Nat.{bit_xor}
use mathlib.Core.List.{reverse}

pub data Error : Type 0 where
  truncated name_too_long bad_label bad_pointer bad_rdata trailing_bytes bad_name too_large : Error

abbrev pub max_message_size : ℕ
max_message_size = 65_535

abbrev pub max_name_len : ℕ
max_name_len = 255

abbrev pub max_label_len : ℕ
max_label_len = 63

pub record Name : Type 0 where
  pub labels : List Bytes

abbrev pub root : Name
root = record { labels = [] }

abbrev pub is_root : Name → Bool
is_root n = is_empty n.labels

abbrev pub label_count : Name → ℕ
label_count n = length n.labels

abbrev pub labels_len : List Bytes → ℕ
labels_len [] = 0
labels_len (l ∷ ls) = length l + 1 + labels_len ls

unfoldable pub wire_len : Name → ℕ
wire_len n = labels_len n.labels + 1

abbrev pub label_fits : Bytes → Bool
label_fits l = not (is_empty l || ltb max_label_len (length l))

-- The checks that end both constructors.
unfoldable pub from_labels : List Bytes → Result Error Name
unfolding wire_len
from_labels ls = do
  require (all label_fits ls) bad_name
  require (not (ltb max_name_len (wire_len (record { labels = ls })))) name_too_long
  ok (record { labels = ls })

-- `s.split(c)`: the pieces between the separators, one at least.
abbrev add_front : ℕ → List Bytes → List Bytes
add_front b [] = (b ∷ []) ∷ []
add_front b (w ∷ ws) = (b ∷ w) ∷ ws

unfoldable pub split : ℕ → Bytes → List Bytes
split c [] = [] ∷ []
split c (b ∷ s) = let rest = split c s in if b == c then [] ∷ rest else add_front b rest

-- `s.strip_suffix(c).unwrap_or(s)`
unfoldable pub strip_last : ℕ → Bytes → Bytes
strip_last c [] = []
strip_last c (b ∷ []) = if b == c then [] else b ∷ []
strip_last c (b ∷ d ∷ s) = b ∷ strip_last c (d ∷ s)

unfoldable pub parse : Bytes → Result Error Name
unfolding strip_last split from_labels
parse s = let s' = strip_last b'.' s in if is_empty s' then ok root else from_labels (split b'.' s')

-- ASCII case

unfoldable pub to_lower : ℕ → ℕ
to_lower b = if leb b'A' b && leb b b'Z' then b + 32 else b

unfoldable pub is_alphabetic : ℕ → Bool
is_alphabetic b = (leb b'A' b && leb b b'Z') || (leb b'a' b && leb b b'z')

unfoldable pub eq_ignore_case : Bytes → Bytes → Bool
unfolding to_lower
eq_ignore_case [] [] = true
eq_ignore_case (a ∷ as') (b ∷ bs) = to_lower a == to_lower b && eq_ignore_case as' bs
eq_ignore_case _ _ = false

-- `a.iter().zip(b).all(eq_ignore_ascii_case)`
unfoldable pub zip_all_eq : List Bytes → List Bytes → Bool
unfolding eq_ignore_case
zip_all_eq (a ∷ as') (b ∷ bs) = eq_ignore_case a b && zip_all_eq as' bs
zip_all_eq _ _ = true

-- `PartialEq for Name`
unfoldable pub name_eq : Name → Name → Bool
unfolding zip_all_eq
name_eq a b = length a.labels == length b.labels && zip_all_eq a.labels b.labels

unfoldable pub ends_with : Name → Name → Bool
unfolding zip_all_eq
ends_with n suffix =
    if ltb (length n.labels) (length suffix.labels)
    then false
    else zip_all_eq (drop (length n.labels - length suffix.labels) n.labels) suffix.labels

unfoldable pub join : Name → Name → Result Error Name
unfolding from_labels
join n suffix = from_labels (n.labels ++ suffix.labels)

unfoldable pub to_lowercase : Name → Name
unfolding to_lower
to_lowercase n = record { labels = map (map to_lower) n.labels }
