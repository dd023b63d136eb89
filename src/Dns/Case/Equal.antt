-- ===== src/Dns/Case/Equal.antt =====
-- Names are equal, as `PartialEq` has it, exactly when they agree in lower case.
use resolvd.Prelude.{
  ℕ, zero, suc, ◌+◌, ◌-◌, ◌≡◌, ◌↔◌, refl, sym, ap, ap₂, ◌∙◌, true, false, List, [], ◌∷◌, ◌++◌, map,
  length, drop, take, ltb, ◌==◌, ==_iff, &&-elim, Bytes, arith, Bool-cases, inl, inr, ok,
  length-append,
}
use resolvd.Prelude.Keyed.{Key}
use resolvd.Dns.Name.{
  Name, to_lower, to_lowercase, eq_ignore_case, zip_all_eq, name_eq, ends_with, join,
}
use resolvd.Dns.Name.Valid.{from_labels_ok}

∷-injective {ℓ} : {A : Type ℓ} {a b : A} {as' bs : List A} → a ∷ as' ≡ b ∷ bs → (a ≡ b) × (as' ≡ bs)
∷-injective h = (cc, cc)

eq_ignore_case→eq : (a b : Bytes) → eq_ignore_case a b ≡ true → map to_lower a ≡ map to_lower b
unfolding eq_ignore_case
eq_ignore_case→eq [] [] h = refl
eq_ignore_case→eq [] (y ∷ b) h = cc
eq_ignore_case→eq (x ∷ a) [] h = cc
eq_ignore_case→eq (x ∷ a) (y ∷ b) h =
    let (p, q) = &&-elim (to_lower x == to_lower y) (eq_ignore_case a b) h in
    ap₂ (λ c cs. c ∷ cs) ((==_iff _ _).0 p) (eq_ignore_case→eq a b q)

eq→eq_ignore_case : (a b : Bytes) → map to_lower a ≡ map to_lower b → eq_ignore_case a b ≡ true
unfolding eq_ignore_case
eq→eq_ignore_case [] [] h = refl
eq→eq_ignore_case [] (y ∷ b) h = cc
eq→eq_ignore_case (x ∷ a) [] h = cc
eq→eq_ignore_case (x ∷ a) (y ∷ b) h =
    let (p, q) = ∷-injective h in
    rw ((==_iff (to_lower x) (to_lower y)).1 p) (eq→eq_ignore_case a b q)

zip_all_eq→eq :
    (a b : List Bytes)
    → length a ≡ length b
    → zip_all_eq a b ≡ true
    → map (map to_lower) a ≡ map (map to_lower) b
unfolding zip_all_eq
zip_all_eq→eq [] [] e h = refl
zip_all_eq→eq [] (y ∷ b) e h = absurd (omega arith)
zip_all_eq→eq (x ∷ a) [] e h = absurd (omega arith)
zip_all_eq→eq (x ∷ a) (y ∷ b) e h =
    let (p, q) = &&-elim (eq_ignore_case x y) (zip_all_eq a b) h in
    ap₂ (λ c cs. c ∷ cs) (eq_ignore_case→eq x y p) (zip_all_eq→eq a b (omega arith) q)

pub eq→zip_all_eq :
    (a b : List Bytes)
    → map (map to_lower) a ≡ map (map to_lower) b
    → (length a ≡ length b) × (zip_all_eq a b ≡ true)
unfolding zip_all_eq
eq→zip_all_eq [] [] h = (refl, refl)
eq→zip_all_eq [] (y ∷ b) h = cc
eq→zip_all_eq (x ∷ a) [] h = cc
eq→zip_all_eq (x ∷ a) (y ∷ b) h =
    let (p, q) = ∷-injective h in
    let (m, n) = eq→zip_all_eq a b q in (omega arith, rw (eq→eq_ignore_case x y p) n)

-- Two names are equal exactly when their lower-case forms are one and the same: names that differ
-- only in the case of ASCII letters are equal, and no others are.
pub name_eq_iff : (a b : Name) → (name_eq a b ≡ true) ↔ (to_lowercase a ≡ to_lowercase b)
unfolding name_eq to_lowercase
name_eq_iff a b = (
  λ h.
      let (p, q) = &&-elim (length a.labels == length b.labels) (zip_all_eq a.labels b.labels) h in
      ap (λ ls. record { labels = ls }) (zip_all_eq→eq a.labels b.labels ((==_iff _ _).0 p) q),
  λ h.
      let (p, q) = eq→zip_all_eq a.labels b.labels (ap (λ (n : Name). n.labels) h) in
      rw ((==_iff (length a.labels) (length b.labels)).1 p) q,
)

pub name_eq_sym : (a b : Name) → name_eq a b ≡ true → name_eq b a ≡ true
name_eq_sym a b h = (name_eq_iff b a).1 (sym ((name_eq_iff a b).0 h))

pub name_eq_trans : (a b c : Name) → name_eq a b ≡ true → name_eq b c ≡ true → name_eq a c ≡ true
name_eq_trans a b c h k = (name_eq_iff a c).1 ((name_eq_iff a b).0 h ∙ (name_eq_iff b c).0 k)

pub name_eq_refl : (a : Name) → name_eq a a ≡ true
name_eq_refl a = (name_eq_iff a a).1 refl

instance abbrev pub name_key : Key Name
name_key = record {
  eq = name_eq;
  eq_refl = name_eq_refl;
  eq_sym = name_eq_sym;
  eq_trans = name_eq_trans;
}

drop-append {ℓ} : {A : Type ℓ} (xs ys : List A) → drop (length xs) (xs ++ ys) ≡ ys
drop-append [] ys = refl
drop-append (x ∷ xs) ys = drop-append xs ys

take-append-drop {ℓ} : {A : Type ℓ} (n : ℕ) (xs : List A) → take n xs ++ drop n xs ≡ xs
take-append-drop zero xs = refl
take-append-drop (suc n) [] = refl
take-append-drop (suc n) (x ∷ xs) = ap (λ r. x ∷ r) (take-append-drop n xs)

length-drop {ℓ} : {A : Type ℓ} (n : ℕ) (xs : List A) → length (drop n xs) ≡ length xs - n
length-drop zero xs = omega arith
length-drop (suc n) [] = omega arith
length-drop (suc n) (x ∷ xs) = omega (arith, length-drop n xs)

-- The labels of `n` are some labels and then those of a name equal to `suffix`.
pub record HasSuffix (n suffix : Name) : Type 0 where
  pub front : List Bytes
  pub back : Name
  pub splits : n.labels ≡ front ++ back.labels
  pub equal : name_eq back suffix ≡ true

-- `ends_with` answers true exactly when the labels of `n` end with labels equal, case aside, to
-- those of `suffix`.
pub ends_with_iff : (n suffix : Name) → (ends_with n suffix ≡ true) ↔ HasSuffix n suffix
unfolding ends_with name_eq
ends_with_iff n suffix = (
  λ h. elim (Bool-cases (ltb (length n.labels) (length suffix.labels))) [
    | inl short ↦ cc (rw short at h)
    | inr long ↦
        let k : ℕ = length n.labels - length suffix.labels in
        let same : (length (drop k n.labels) == length suffix.labels) ≡ true =
          (==_iff _ _).1 (ground (arith, length-drop {0} k n.labels)) in
        record {
          front = take k n.labels;
          back = record { labels = drop k n.labels };
          splits = sym (take-append-drop k n.labels);
          equal = rw same (rw long at h);
        }
  ],
  λ w.
      let (p, q) =
        &&-elim (length w.back.labels == length suffix.labels)
          (zip_all_eq w.back.labels suffix.labels) w.equal in
      let size : length n.labels ≡ length w.front + length suffix.labels =
        ap length w.splits
        ∙ length-append w.front w.back.labels
        ∙ ap (λ t. length w.front + t) ((==_iff _ _).0 p) in
      let long : ltb (length n.labels) (length suffix.labels) ≡ false = ground arith in
      let k : length n.labels - length suffix.labels ≡ length w.front = omega arith in
      rw (long, k, w.splits, drop-append w.front w.back.labels) q,
)

-- A joined name ends with the suffix that it was joined with, and with any name equal to that.
pub ends_with-join :
    (n s s' m : Name) → join n s ≡ ok m → name_eq s s' ≡ true → ends_with m s' ≡ true
unfolding join
ends_with-join n s s' m h e =
    (ends_with_iff m s').1
      (record { front = n.labels; back = s; splits = (from_labels_ok _ m h).1; equal = e })
