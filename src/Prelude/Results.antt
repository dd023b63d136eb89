-- ===== src/Prelude/Results.antt =====
-- A computation that returns, fails with an error of the code's, or ran out of the model's fuel.
use mathlib.Core.Path.{◌≡◌, refl, subst}
use mathlib.Core.Logic.{◌≢◌, ◌⊎◌, inl, inr}
use mathlib.Core.Bool.{Bool, true, false}
use mathlib.Core.Option.{Option, none, some}

-- `stuck` is no value of the code: a loop of the model ran out of fuel.
pub data Result (E A : Type 0) : Type 0 where
  ok : A → Result E A
  err : E → Result E A
  stuck : Result E A

-- The `?` operator.
infixl 5 ◌>>=◌ ◌>>◌
abbrev pub ◌>>=◌ : {E A B : Type 0} → Result E A → (A → Result E B) → Result E B
ok a >>= f = f a
err e >>= f = err e
stuck >>= f = stuck

abbrev pub ◌>>◌ : {E B : Type 0} → Result E (Unit {0}) → Result E B → Result E B
m >> k = m >>= λ _. k

-- `return Err(e)` unless the test holds.
abbrev pub require : {E : Type 0} → Bool → E → Result E (Unit {0})
require true e = ok tt
require false e = err e

-- `o.ok_or(e)?`
abbrev pub ok_or : {E A : Type 0} → Option A → E → Result E A
ok_or none e = err e
ok_or (some a) e = ok a

module _ {E A B : Type 0} where
  pub >>=-eq-ok :
      (r : Result E A) (next : A → Result E B) {y : B}
      → (r >>= next) ≡ ok y
      → (x : A) × (r ≡ ok x) × (next x ≡ ok y)
  >>=-eq-ok stuck next h = cc
  >>=-eq-ok (err e) next h = cc
  >>=-eq-ok (ok x) next h = (x, refl, h)

  pub >>=-ne-stuck :
      (m : Result E A) (f : A → Result E B)
      → m ≢ stuck
      → ((a : A) → m ≡ ok a → f a ≢ stuck)
      → (m >>= f) ≢ stuck
  >>=-ne-stuck (ok a) f h k = k a refl
  >>=-ne-stuck (err e) f h k = λ p. cc
  >>=-ne-stuck stuck f h k = absurd (h refl)

module _ {E A : Type 0} where
  pub Result-cases : (r : Result E A) → r ≢ stuck → ((a : A) × (r ≡ ok a)) ⊎ ((e : E) × (r ≡ err e))
  Result-cases (ok a) h = inl (a, refl)
  Result-cases (err e) h = inr (e, refl)
  Result-cases stuck h = absurd (h refl)

  pub ok-injective : {a b : A} → ◌≡◌ {A = Result E A} (ok a) (ok b) → a ≡ b
  ok-injective h = cc

-- The computation does not run out of fuel, and `P` holds of what it returns.
abbrev pub Ensures : {E A : Type 0} → (A → Type 0) → Result E A → Type 0
Ensures P (ok a) = P a
Ensures P (err e) = Unit {0}
Ensures P stuck = ⊥

module _ {E A B : Type 0} (P : A → Type 0) (Q : B → Type 0) where
  pub Ensures-bind :
      (m : Result E A) (f : A → Result E B)
      → Ensures P m
      → ((a : A) → P a → Ensures Q (f a))
      → Ensures Q (m >>= f)
  Ensures-bind (ok a) f h k = k a h
  Ensures-bind (err e) f h k = tt
  Ensures-bind stuck f h k = absurd h

module _ {E A : Type 0} (P : A → Type 0) where
  pub Ensures-ne-stuck : (m : Result E A) → Ensures P m → m ≢ stuck
  Ensures-ne-stuck (ok a) h = λ e. cc e
  Ensures-ne-stuck (err e) h = λ e. cc e
  Ensures-ne-stuck stuck h = absurd h

  pub Ensures-ok : (m : Result E A) (a : A) → Ensures P m → m ≡ ok a → P a
  Ensures-ok (ok b) a h e = let same : b ≡ a = cc e in subst P same h
  Ensures-ok (err x) a h e = cc e
  Ensures-ok stuck a h e = absurd h

  pub Ensures-weaken :
      (Q : A → Type 0) (m : Result E A) → Ensures P m → ((a : A) → P a → Q a) → Ensures Q m
  Ensures-weaken Q (ok a) h k = k a h
  Ensures-weaken Q (err e) h k = tt
  Ensures-weaken Q stuck h k = absurd h
