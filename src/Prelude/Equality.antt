-- ===== src/Prelude/Equality.antt =====
-- Tests for equality of byte strings, and keys compared by equality.
use Prim.Native.Nat.{ℕ}
use mathlib.Core.Path.{◌≡◌, refl, sym, ap₂, ◌∙◌}
use mathlib.Core.Logic.{◌↔◌}
use mathlib.Core.Bool.{Bool, true, false, ◌&&◌}
use mathlib.Core.List.{[], ◌∷◌}
use resolvd.Prelude.Tests.{◌==◌, ==_iff, ==_refl, &&-elim}
use resolvd.Prelude.Slices.{Bytes}
use resolvd.Prelude.Keyed.{Key}

-- `a == b` on strings.
unfoldable pub bytes_eq : Bytes → Bytes → Bool
bytes_eq [] [] = true
bytes_eq (x ∷ xs) (y ∷ ys) = x == y && bytes_eq xs ys
bytes_eq _ _ = false

bytes_eq→eq : (a b : Bytes) → bytes_eq a b ≡ true → a ≡ b
unfolding bytes_eq
bytes_eq→eq [] [] h = refl
bytes_eq→eq [] (y ∷ ys) h = cc
bytes_eq→eq (x ∷ xs) [] h = cc
bytes_eq→eq (x ∷ xs) (y ∷ ys) h =
    let (p, q) = &&-elim (x == y) (bytes_eq xs ys) h in
    ap₂ (λ c cs. c ∷ cs) ((==_iff x y).0 p) (bytes_eq→eq xs ys q)

pub bytes_eq_refl : (a : Bytes) → bytes_eq a a ≡ true
unfolding bytes_eq
bytes_eq_refl [] = refl
bytes_eq_refl (x ∷ xs) = rw (==_refl x) (bytes_eq_refl xs)

pub bytes_eq_iff : (a b : Bytes) → (bytes_eq a b ≡ true) ↔ (a ≡ b)
bytes_eq_iff a b = (bytes_eq→eq a b, λ h. rw h (bytes_eq_refl b))

-- A test that decides equality serves as a key.
module _ {K : Type 0} (eq : K → K → Bool) (iff : (a b : K) → (eq a b ≡ true) ↔ (a ≡ b)) where
  pub iff_refl : (a : K) → eq a a ≡ true
  iff_refl a = (iff a a).1 refl

  pub iff_sym : (a b : K) → eq a b ≡ true → eq b a ≡ true
  iff_sym a b h = (iff b a).1 (sym ((iff a b).0 h))

  pub iff_trans : (a b c : K) → eq a b ≡ true → eq b c ≡ true → eq a c ≡ true
  iff_trans a b c h k = (iff a c).1 ((iff a b).0 h ∙ (iff b c).0 k)

  abbrev pub exact_key : Key K
  exact_key = record { eq = eq; eq_refl = iff_refl; eq_sym = iff_sym; eq_trans = iff_trans }

-- u64 ids.
abbrev pub nat_test : ℕ → ℕ → Bool
nat_test a b = a == b

instance abbrev pub id_key : Key ℕ
id_key = exact_key nat_test ==_iff
