-- ===== src/Dns/Case/Random.antt =====
-- 0x20 randomisation keeps the name, as `PartialEq` compares names, and its lengths.
use Prim.Native.Nat.{bit_xor}
use resolvd.Prelude.{
  ℕ, suc, ◌+◌, ◌<◌, ◌≡◌, refl, ap, ap₂, Bool, true, not, ◌||◌, List, [], ◌∷◌, map, length, All,
  ◌==◌, ==_iff, if◌then◌else◌, all_below, all_below_sound, Bytes, arith,
}
use resolvd.Dns.Name.{Name, is_alphabetic, to_lower, to_lowercase, name_eq, labels_len}
use resolvd.Dns.Name.Valid.{IsName, IsLabel}
use resolvd.Dns.Case.{randomise_label, randomise_labels, randomise_case}
use resolvd.Dns.Case.Equal.{name_eq_iff}

flip_table :
    all_below 256 (λ b. not (is_alphabetic b) || (to_lower (bit_xor b 0x20) == to_lower b)) ≡ true
unfolding all_below is_alphabetic to_lower
flip_table = refl

alphabetic-lt : (b : ℕ) → is_alphabetic b ≡ true → b < 256
unfolding is_alphabetic
alphabetic-lt b h = ground arith

flip_lower : (b : ℕ) → is_alphabetic b ≡ true → to_lower (bit_xor b 0x20) ≡ to_lower b
flip_lower b h =
    let t : (not (is_alphabetic b) || (to_lower (bit_xor b 0x20) == to_lower b)) ≡ true =
      all_below_sound 256 (λ b. not (is_alphabetic b) || (to_lower (bit_xor b 0x20) == to_lower b))
        b flip_table (alphabetic-lt b h) in
    (==_iff _ _).0 (rw h at t)

randomise_byte :
    (b : ℕ) (flip : Bool)
    → to_lower (if is_alphabetic b then (if flip then bit_xor b 0x20 else b) else b) ≡ to_lower b
randomise_byte b flip = ground (arith, flip_lower b)

lower-randomise_label :
    (bits : ℕ → Bool) (n : ℕ) (l : Bytes)
    → map to_lower (randomise_label bits n l).0 ≡ map to_lower l
unfolding randomise_label
lower-randomise_label bits n [] = refl
lower-randomise_label bits n (b ∷ l) =
    ap₂ (λ c cs. c ∷ cs) (randomise_byte b (bits n))
      (lower-randomise_label bits (if is_alphabetic b then n + 1 else n) l)

lower-randomise_labels :
    (bits : ℕ → Bool) (n : ℕ) (ls : List Bytes)
    → map (map to_lower) (randomise_labels bits n ls) ≡ map (map to_lower) ls
unfolding randomise_labels
lower-randomise_labels bits n [] = refl
lower-randomise_labels bits n (l ∷ ls) =
    ap₂ (λ c cs. c ∷ cs) (lower-randomise_label bits n l)
      (lower-randomise_labels bits (randomise_label bits n l).1 ls)

-- Whatever the bits, the randomised name is equal to the name.
pub name_eq-randomise_case : (n : Name) (bits : ℕ → Bool) → name_eq (randomise_case n bits) n ≡ true
name_eq-randomise_case n bits = (name_eq_iff (randomise_case n bits) n).1 (
    unfold randomise_case to_lowercase in
    ap (λ ls. record { labels = ls }) (lower-randomise_labels bits 0 n.labels))

length-randomise_label :
    (bits : ℕ → Bool) (n : ℕ) (l : Bytes) → length (randomise_label bits n l).0 ≡ length l
unfolding randomise_label
length-randomise_label bits n [] = refl
length-randomise_label bits n (b ∷ l) =
    ap suc (length-randomise_label bits (if is_alphabetic b then n + 1 else n) l)

randomise_labels-IsLabel :
    (bits : ℕ → Bool) (n : ℕ) (ls : List Bytes)
    → All IsLabel ls
    → All IsLabel (randomise_labels bits n ls)
      × (labels_len (randomise_labels bits n ls) ≡ labels_len ls)
unfolding randomise_labels
randomise_labels-IsLabel bits n [] h = (tt, refl)
randomise_labels-IsLabel bits n (l ∷ ls) h =
    let (valid, size) = randomise_labels-IsLabel bits (randomise_label bits n l).1 ls h.1 in
    let e = length-randomise_label bits n l in ((omega arith, valid), omega arith)

-- A well-formed name stays well formed.
pub randomise_case-IsName : (n : Name) (bits : ℕ → Bool) → IsName n → IsName (randomise_case n bits)
unfolding randomise_case
randomise_case-IsName n bits h =
    let (valid, size) = randomise_labels-IsLabel bits 0 n.labels h.labels in
    record { labels = valid; fits = omega (arith, h.fits) }
