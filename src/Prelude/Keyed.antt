-- ===== src/Prelude/Keyed.antt =====
-- HashMap as an association list over a key type with an equality test. A HashMap iterates in an
-- unspecified order: the list's order is one such order, and no result is about a given one.
use Prim.Native.Nat.{◌+◌, ◌≤◌}
use mathlib.Core.Path.{◌≡◌, refl, subst, sym}
use mathlib.Core.Logic.{inl, inr}
use mathlib.Core.Bool.{Bool, true}
use mathlib.Core.Option.{Option, none, some}
use mathlib.Core.List.{List, [], ◌∷◌}
use native.Mathlib.Omega.{arith}
use resolvd.Prelude.Tests.{if◌then◌else◌, Bool-cases}
use resolvd.Prelude.Lists.{length, filter, All, All-weaken}

-- `PartialEq`: a test that is an equivalence, and need not be equality.
pub record Key (K : Type 0) : Type 0 where
  pub eq : K → K → Bool
  pub eq_refl : (a : K) → eq a a ≡ true
  pub eq_sym : (a b : K) → eq a b ≡ true → eq b a ≡ true
  pub eq_trans : (a b c : K) → eq a b ≡ true → eq b c ≡ true → eq a c ≡ true

abbrev pub Table : Type 0 → Type 0 → Type 0
Table K V = List (K × V)

module _ {K V : Type 0} ⦃k : Key K⦄ where
  unfoldable pub get : K → Table K V → Option V
  get a [] = none
  get a ((b, v) ∷ m) = if k.eq b a then some v else get a m

  unfoldable pub remove : K → Table K V → Table K V
  remove a [] = []
  remove a ((b, v) ∷ m) = let rest = remove a m in if k.eq b a then rest else (b, v) ∷ rest

  -- HashMap::insert keeps the old key and replaces the value.
  unfoldable pub insert : K → V → Table K V → Table K V
  insert a v [] = (a, v) ∷ []
  insert a v ((b, w) ∷ m) = if k.eq b a then (b, v) ∷ m else (b, w) ∷ insert a v m

  -- `if let Some(v) = m.get_mut(&a) { ... }`
  unfoldable pub update : K → (V → V) → Table K V → Table K V
  update a f [] = []
  update a f ((b, w) ∷ m) = if k.eq b a then (b, f w) ∷ m else (b, w) ∷ update a f m

  pub get-insert :
      (i j : K) (v : V) (m : Table K V)
      → get j (insert i v m) ≡ (if k.eq i j then some v else get j m)
  unfolding get insert
  get-insert i j v [] = refl
  get-insert i j v ((b, w) ∷ m) = ground (
    arith,
    get-insert i j v m,
    k.eq_sym i j,
    k.eq_sym b i,
    k.eq_trans b i j,
    k.eq_trans b j i,
    k.eq_trans i b j,
  )

  pub get-remove :
      (i j : K) (m : Table K V) → get j (remove i m) ≡ (if k.eq i j then none else get j m)
  unfolding get remove
  get-remove i j [] = ground arith
  get-remove i j ((b, w) ∷ m) = ground (
    arith,
    get-remove i j m,
    k.eq_sym i j,
    k.eq_sym b i,
    k.eq_trans b i j,
    k.eq_trans b j i,
    k.eq_trans i b j,
  )

  pub length-insert :
      (i : K) (v : V) (m : Table K V)
      → length (insert i v m) ≡ (elim (get i m) [ none ↦ length m + 1 | some w ↦ length m ])
  unfolding get insert
  length-insert i v [] = omega arith
  length-insert i v ((b, w) ∷ m) = ground (arith, length-insert i v m)

  pub length-remove : (i : K) (m : Table K V) → length (remove i m) ≤ length m
  unfolding remove
  length-remove i [] = omega arith
  length-remove i ((b, w) ∷ m) = ground (arith, length-remove i m)

  pub length-remove_present :
      (i : K) (v : V) (m : Table K V) → get i m ≡ some v → length (remove i m) + 1 ≤ length m
  unfolding get remove
  length-remove_present i v [] h = cc
  length-remove_present i v ((b, w) ∷ m) h =
      ground (arith, length-remove_present i v m, length-remove i m)

  -- Every key of a table is found.
  pub All-present : (m : Table K V) → All (λ x. (v : V) × (get x.0 m ≡ some v)) m
  unfolding get
  All-present [] = tt
  All-present ((b, w) ∷ m) = (
    (w, rw (k.eq_refl b)),
    All-weaken (λ x. (v : V) × (get x.0 m ≡ some v)) _ m (later b w m) (All-present m),
  )
    where
      later :
          (b : K) (w : V) (m : Table K V) (x : K × V)
          → (v : V) × (get x.0 m ≡ some v)
          → (v : V) × (get x.0 ((b, w) ∷ m) ≡ some v)
      later b w m x (v, e) = elim (Bool-cases (k.eq b x.0)) [
        | inl same ↦ (w, rw same)
        | inr other ↦ (v, rw other e)
      ]

  -- `retain` by a test of the keys that equal keys pass alike.
  pub get-filter :
      (p : K → Bool) (a : K) (m : Table K V)
      → ((b : K) → k.eq b a ≡ true → p b ≡ p a)
      → get a (filter (λ x. p x.0) m) ≡ (if p a then get a m else none)
  unfolding get
  get-filter p a [] alike = ground arith
  get-filter p a ((b, w) ∷ m) alike = ground (arith, alike b, get-filter p a m alike)

  pub All-remove : (P : K × V → Type 0) (a : K) (m : Table K V) → All P m → All P (remove a m)
  unfolding remove
  All-remove P a [] h = tt
  All-remove P a ((b, w) ∷ m) h = elim (Bool-cases (k.eq b a)) [
    | inl same ↦ rw same (All-remove P a m h.1)
    | inr other ↦ rw other (h.0, All-remove P a m h.1)
  ]

  -- An insertion keeps what holds of every entry, where it holds of the value under every equal key.
  pub All-insert :
      (P : K × V → Type 0) (a : K) (v : V) (m : Table K V)
      → ((b : K) → k.eq b a ≡ true → P (b, v))
      → All P m
      → All P (insert a v m)
  unfolding insert
  All-insert P a v [] new h = (new a (k.eq_refl a), tt)
  All-insert P a v ((b, w) ∷ m) new h = elim (Bool-cases (k.eq b a)) [
    | inl same ↦ rw same (new b same, h.1)
    | inr other ↦ rw other (h.0, All-insert P a v m new h.1)
  ]

  pub All-update :
      (P : K × V → Type 0) (a : K) (f : V → V) (m : Table K V)
      → ((b : K) (v : V) → P (b, v) → P (b, f v))
      → All P m
      → All P (update a f m)
  unfolding update
  All-update P a f [] step h = tt
  All-update P a f ((b, w) ∷ m) step h = elim (Bool-cases (k.eq b a)) [
    | inl same ↦ rw same (step b w h.0, h.1)
    | inr other ↦ rw other (h.0, All-update P a f m step h.1)
  ]

  -- What holds of every entry holds of the one that is found.
  pub All-get :
      (P : K × V → Type 0) (a : K) (v : V) (m : Table K V)
      → All P m
      → get a m ≡ some v
      → (b : K) × (k.eq b a ≡ true) × P (b, v)
  unfolding get
  All-get P a v [] h e = cc
  All-get P a v ((b, w) ∷ m) h e = elim (Bool-cases (k.eq b a)) [
    | inl same ↦
        let there : some w ≡ some v = rw same at e in
        let value : w ≡ v = cc there in (b, same, subst (λ x. P (b, x)) value h.0)
    | inr other ↦ All-get P a v m h.1 (rw other at e)
  ]

  -- An update keeps what holds of every entry, where it keeps it of the value that is found.
  pub All-update_found :
      (P : K × V → Type 0) (a : K) (f : V → V) (v : V) (m : Table K V)
      → get a m ≡ some v
      → ((b : K) → P (b, v) → P (b, f v))
      → All P m
      → All P (update a f m)
  unfolding get update
  All-update_found P a f v [] e step h = tt
  All-update_found P a f v ((b, w) ∷ m) e step h = elim (Bool-cases (k.eq b a)) [
    | inl same ↦
        let there : some w ≡ some v = rw same at e in
        let value : v ≡ w = cc there in
        rw same
          (subst (λ x. P (b, f x)) value (step b (subst (λ x. P (b, x)) (sym value) h.0)), h.1)
    | inr other ↦ rw other (h.0, All-update_found P a f v m (rw other at e) step h.1)
  ]

  pub length-insert_le : (i : K) (v : V) (m : Table K V) → length (insert i v m) ≤ length m + 1
  unfolding insert
  length-insert_le i v [] = omega arith
  length-insert_le i v ((b, w) ∷ m) = ground (arith, length-insert_le i v m)
