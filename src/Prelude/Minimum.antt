-- ===== src/Prelude/Minimum.antt =====
-- `Iterator::min_by_key`, which returns the first of the smallest.
use Prim.Native.Nat.{ℕ, ◌≤◌}
use mathlib.Core.Path.{◌≡◌, refl}
use mathlib.Core.Logic.{inl, inr}
use mathlib.Core.Option.{Option, none, some}
use mathlib.Core.List.{List, [], ◌∷◌}
use native.Mathlib.Omega.{arith}
use resolvd.Prelude.Tests.{leb, if◌then◌else◌, Bool-cases}
use resolvd.Prelude.Lists.{All, Holds}

module _ {A : Type 0} (key : A → ℕ) where
  abbrev smaller : A → Option A → A
  smaller x none = x
  smaller x (some y) = if leb (key x) (key y) then x else y

  unfoldable pub min_by : List A → Option A
  min_by [] = none
  min_by (x ∷ xs) = some (smaller x (min_by xs))

  smaller-le : (x : A) (o : Option A) → key (smaller x o) ≤ key x
  smaller-le x none = omega arith
  smaller-le x (some y) = ground arith

  -- A bound below the minimum is below every element.
  min_by-bound :
      (xs : List A) (b : ℕ) → Holds (λ m. b ≤ key m) (min_by xs) → All (λ x. b ≤ key x) xs
  unfolding min_by
  min_by-bound [] b h = tt
  min_by-bound (x ∷ xs) b h =
      let low : b ≤ key (smaller x (min_by xs)) = h in
      (omega (arith, smaller-le x (min_by xs)), min_by-bound xs b (tail_bound (min_by xs) low))
    where
      tail_bound : (o : Option A) → b ≤ key (smaller x o) → Holds (λ m. b ≤ key m) o
      tail_bound none h = tt
      tail_bound (some y) h = ground arith

  -- What `min_by` returns has a key at most that of every element.
  pub min_by-le : (xs : List A) (m : A) → min_by xs ≡ some m → All (λ x. key m ≤ key x) xs
  min_by-le xs m h = min_by-bound xs (key m) (rw h (omega arith))

  smaller-either : (P : A → Type 0) (x : A) (o : Option A) → P x → Holds P o → P (smaller x o)
  smaller-either P x none h k = h
  smaller-either P x (some y) h k = elim (Bool-cases (leb (key x) (key y))) [
    | inl e ↦ rw e h
    | inr e ↦ rw e k
  ]

  -- What holds of every element holds of the minimum.
  min_by-All : (P : A → Type 0) (xs : List A) → All P xs → Holds P (min_by xs)
  unfolding min_by
  min_by-All P [] h = tt
  min_by-All P (x ∷ xs) h = smaller-either P x (min_by xs) h.0 (min_by-All P xs h.1)

  pub min_by-holds : (P : A → Type 0) (xs : List A) (m : A) → min_by xs ≡ some m → All P xs → P m
  min_by-holds P xs m e h = rw e at (min_by-All P xs h)

  pub min_by-none : (xs : List A) → min_by xs ≡ none → xs ≡ []
  unfolding min_by
  min_by-none [] h = refl
  min_by-none (x ∷ xs) h = cc
