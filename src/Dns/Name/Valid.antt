-- ===== src/Dns/Name/Valid.antt =====
-- Well-formed names: what `from_labels` and `Name::parse` check.
use resolvd.Prelude.{
  ◌+◌, ◌≤◌, ◌≡◌, refl, true, List, [], ◌∷◌, ◌++◌, length, All, all, Bytes, ok, arith,
}
use resolvd.Dns.Name.{Name, labels_len, label_fits, from_labels, max_label_len, max_name_len}

abbrev pub IsLabel : Bytes → Type 0
IsLabel l = (1 ≤ length l) × (length l ≤ max_label_len)

pub record IsName (n : Name) : Type 0 where
  pub labels : All IsLabel n.labels
  pub fits : labels_len n.labels + 1 ≤ max_name_len

pub label_fits-IsLabel : (l : Bytes) → label_fits l ≡ true → IsLabel l
label_fits-IsLabel [] h = ground arith
label_fits-IsLabel (b ∷ l) h = ground arith

pub all-label_fits : (ls : List Bytes) → all label_fits ls ≡ true → All IsLabel ls
all-label_fits [] h = tt
all-label_fits (l ∷ ls) h = ground (arith, label_fits-IsLabel l, all-label_fits ls)

pub IsLabel-label_fits : (l : Bytes) → IsLabel l → label_fits l ≡ true
IsLabel-label_fits [] h = ground arith
IsLabel-label_fits (b ∷ l) h = ground arith

pub All-label_fits : (ls : List Bytes) → All IsLabel ls → all label_fits ls ≡ true
All-label_fits [] h = refl
All-label_fits (l ∷ ls) h = ground (arith, IsLabel-label_fits l, All-label_fits ls)

-- `from_labels` returns exactly the well-formed names, with the labels it was given.
pub from_labels_ok :
    (ls : List Bytes) (n : Name) → from_labels ls ≡ ok n → IsName n × (n.labels ≡ ls)
unfolding from_labels
from_labels_ok ls n h = ground (arith, all-label_fits ls)

pub from_labels-IsName : (n : Name) → IsName n → from_labels n.labels ≡ ok n
unfolding from_labels
from_labels-IsName n h = ground (arith, All-label_fits n.labels h.labels, h.fits)

pub labels_len-append : (xs ys : List Bytes) → labels_len (xs ++ ys) ≡ labels_len xs + labels_len ys
labels_len-append [] ys = omega arith
labels_len-append (x ∷ xs) ys = omega (arith, labels_len-append xs ys)
