-- ===== src/Prelude/Slices.antt =====
-- Reads at a position of a byte string. A statement about what stands at `p` in `msg` is an equation
-- `drop p msg ≡ s ++ t`, which the lemmas below step through.
use Prim.Native.Nat.{ℕ, zero, suc, ◌+◌, ◌-◌, ◌≤◌, ◌<◌}
use mathlib.Core.Path.{◌≡◌, refl, sym, ap, subst}
use mathlib.Core.List.{List, [], ◌∷◌, ◌++◌}
use mathlib.Core.Option.{Option, none, some}
use native.Mathlib.Nat.{add-zero}
use native.Mathlib.Omega.{arith}
use resolvd.Prelude.Tests.{if◌then◌else◌, leb, le→leb}
use resolvd.Prelude.Lists.{length, get_elem?, take, drop, length-append}

abbrev pub Bytes : Type 0
Bytes = List ℕ

abbrev pub IsByte : ℕ → Type 0
IsByte b = b < 256

-- `s.get(p..p + n)`
abbrev pub slice {ℓ} : {A : Type ℓ} → List A → ℕ → ℕ → Option (List A)
slice msg p n = if leb (p + n) (length msg) then some (take n (drop p msg)) else none

-- The bytes `t` are all that stands in `msg` from position `p` on.
pub record StandsAt (msg : Bytes) (p : ℕ) (t : Bytes) : Type 0 where
  pub rest : drop p msg ≡ t
  pub within : p + length t ≡ length msg

drop-suc : (msg : Bytes) (p : ℕ) {x : ℕ} {t : Bytes} → drop p msg ≡ x ∷ t → drop (suc p) msg ≡ t
drop-suc [] zero h = cc
drop-suc [] (suc p) h = cc
drop-suc (y ∷ msg) zero h = cc
drop-suc (y ∷ msg) (suc p) h = drop-suc msg p h

get_elem?-drop :
    (msg : Bytes) (p : ℕ) {x : ℕ} {t : Bytes} → drop p msg ≡ x ∷ t → get_elem? msg p ≡ some x
get_elem?-drop [] zero h = cc
get_elem?-drop [] (suc p) h = cc
get_elem?-drop (y ∷ msg) zero h = cc
get_elem?-drop (y ∷ msg) (suc p) h = get_elem?-drop msg p h

pub take-append {ℓ} : {A : Type ℓ} (s t : List A) → take (length s) (s ++ t) ≡ s
take-append [] t = refl
take-append (x ∷ s) t = ap (λ r. x ∷ r) (take-append s t)

pub StandsAt-start : (msg : Bytes) → StandsAt msg 0 msg
StandsAt-start msg = record { rest = refl; within = omega arith }

pub StandsAt-prefix : (s t : Bytes) → StandsAt (s ++ t) (length s) t
StandsAt-prefix s t = record { rest = drop-prefix s t; within = sym (length-append s t) }
  where
    drop-prefix : (s t : Bytes) → drop (length s) (s ++ t) ≡ t
    drop-prefix [] t = refl
    drop-prefix (x ∷ s) t = drop-prefix s t

module _ (msg : Bytes) (p : ℕ) where
  pub get_elem?-at : (x : ℕ) {t : Bytes} → StandsAt msg p (x ∷ t) → get_elem? msg p ≡ some x
  get_elem?-at x h = get_elem?-drop msg p h.rest

  pub StandsAt-suc : (x : ℕ) {t : Bytes} → StandsAt msg p (x ∷ t) → StandsAt msg (suc p) t
  StandsAt-suc x h = record { rest = drop-suc msg p h.rest; within = omega (arith, h.within) }

pub StandsAt-append :
    (msg : Bytes) (p : ℕ) (s : Bytes) {t : Bytes}
    → StandsAt msg p (s ++ t)
    → StandsAt msg (p + length s) t
StandsAt-append msg p [] h = rw (add-zero p) h
StandsAt-append msg p (x ∷ s) h =
    let e : p + suc (length s) ≡ suc p + length s = omega arith in
    rw e (StandsAt-append msg (suc p) s (StandsAt-suc msg p x h))

pub slice-at :
    (msg : Bytes) (p : ℕ) (s t : Bytes) → StandsAt msg p (s ++ t) → slice msg p (length s) ≡ some s
slice-at msg p s t h = rw (
  le→leb (p + length s) (length msg) (omega (arith, h.within, length-append s t)),
  h.rest,
  take-append s t,
)

length-take : (n : ℕ) (xs : Bytes) → n ≤ length xs → length (take n xs) ≡ n
length-take zero xs h = refl
length-take (suc n) [] h = absurd (omega arith)
length-take (suc n) (x ∷ xs) h = ap suc (length-take n xs (omega arith))

pub length-drop : (n : ℕ) (xs : Bytes) → length (drop n xs) ≡ length xs - n
length-drop zero xs = omega arith
length-drop (suc n) [] = omega arith
length-drop (suc n) (x ∷ xs) = omega (arith, length-drop n xs)

-- A slice that is there has the length asked for, and lies inside.
pub slice_bounds :
    (msg : Bytes) (p n : ℕ) {s : Bytes}
    → slice msg p n ≡ some s
    → (length s ≡ n) × (p + n ≤ length msg) × (take n (drop p msg) ≡ s)
slice_bounds msg p n h = ground (arith, length-take n (drop p msg), length-drop p msg)

pub get_elem?-lt : (msg : Bytes) (p : ℕ) {x : ℕ} → get_elem? msg p ≡ some x → p < length msg
get_elem?-lt [] p h = cc
get_elem?-lt (y ∷ msg) zero h = omega arith
get_elem?-lt (y ∷ msg) (suc p) h = omega (arith, get_elem?-lt msg p h)

-- The same, with the position behind `s` as the caller writes it.
pub StandsAt-behind :
    (msg : Bytes) (p q : ℕ) (s t : Bytes)
    → p + length s ≡ q
    → StandsAt msg p (s ++ t)
    → StandsAt msg q t
StandsAt-behind msg p q s t e at = subst (λ r. StandsAt msg r t) e (StandsAt-append msg p s at)
