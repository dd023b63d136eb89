-- ===== src/Engine/Replies/Chase.antt =====
-- Which addresses `Engine::chase` of resolvd/src/engine.rs takes from the records of an answer.
use resolvd.Prelude.{
  ℕ, zero, suc, ◌≡◌, ◌≢◌, ◌⊎◌, inl, inr, refl, Bool, true, false, ◌&&◌, List, [], ◌∷◌, none, some,
  any, find, ◌==◌, Bool-cases, Option-cases, subst, arith,
}
use resolvd.Net.{IpAddr, v4, v6}
use resolvd.Dns.Name.{Name, name_eq}
use resolvd.Dns.Types.{Record, RData, a, aaaa, cname}
use resolvd.Engine.Replies.{alias_of, chase_name, address_of, addresses_at, chase}

-- The first of the records at a name.
pub data IsFirst (name : Name) : List Record → Record → Type 0 where
  first : (r : Record) (rs : List Record) → name_eq r.name name ≡ true → IsFirst name (r ∷ rs) r
  behind :
      (s r : Record) (rs : List Record)
      → name_eq s.name name ≡ false
      → IsFirst name rs r
      → IsFirst name (s ∷ rs) r

-- A record of the type at the name.
abbrev pub is_wanted : Name → ℕ → Record → Bool
is_wanted name rtype r = name_eq r.name name && r.rtype == rtype

-- Where a chain ends before its steps are spent: there is no record at the name, or the first one is
-- no alias, or there is a record of the type.
pub data Ends (records : List Record) (rtype : ℕ) (name : Name) : Type 0 where
  nothing : any (λ r. name_eq r.name name) records ≡ false → Ends records rtype name
  no_alias :
      (r : Record)
      → IsFirst name records r
      → ((target : Name) → r.rdata ≢ cname target)
      → Ends records rtype name
  wanted : any (is_wanted name rtype) records ≡ true → Ends records rtype name

-- From one name to another by at most so many aliases, each the first record at its name, where no
-- record at that name has the type; and no further one can be followed, or none is left.
pub data Leads (records : List Record) (rtype : ℕ) : ℕ → Name → Name → Type 0 where
  spent : (name : Name) → Leads records rtype 0 name name
  ends : (n : ℕ) (name : Name) → Ends records rtype name → Leads records rtype (suc n) name name
  follows :
      (n : ℕ) (name target end : Name) (r : Record)
      → IsFirst name records r
      → r.rdata ≡ cname target
      → any (is_wanted name rtype) records ≡ false
      → Leads records rtype n target end
      → Leads records rtype (suc n) name end

-- An address of the type, A (1) or AAAA (28), at the name.
abbrev pub IsAddress : ℕ → Name → Record → IpAddr → Type 0
IsAddress rtype name r (v4 x) = (rtype ≡ 1) × (name_eq r.name name ≡ true) × (r.rdata ≡ a x)
IsAddress rtype name r (v6 x) = (rtype ≡ 28) × (name_eq r.name name ≡ true) × (r.rdata ≡ aaaa x)

-- The addresses of the type at the name, each with its time to live, in the order of the records.
pub data Lists (rtype : ℕ) (name : Name) : List Record → List (IpAddr × ℕ) → Type 0 where
  no_more : Lists rtype name [] []
  address :
      (r : Record) (rs : List Record) (x : IpAddr) (xs : List (IpAddr × ℕ))
      → IsAddress rtype name r x
      → Lists rtype name rs xs
      → Lists rtype name (r ∷ rs) ((x, r.ttl) ∷ xs)
  other :
      (r : Record) (rs : List Record) (xs : List (IpAddr × ℕ))
      → ((x : IpAddr) → ¬ IsAddress rtype name r x)
      → Lists rtype name rs xs
      → Lists rtype name (r ∷ rs) xs

find-none :
    (name : Name) (rs : List Record)
    → find (λ r. name_eq r.name name) rs ≡ none
    → any (λ r. name_eq r.name name) rs ≡ false
find-none name [] h = refl
find-none name (r ∷ rs) h = elim (Bool-cases (name_eq r.name name)) [
  | inl here ↦ absurd (let e : some r ≡ none = rw here at h in cc)
  | inr later ↦ rw later (find-none name rs (rw later at h))
]

find-IsFirst :
    (name : Name) (rs : List Record) (r : Record)
    → find (λ r. name_eq r.name name) rs ≡ some r
    → IsFirst name rs r
find-IsFirst name [] r h = cc
find-IsFirst name (s ∷ rs) r h = elim (Bool-cases (name_eq s.name name)) [
  | inl here ↦
      let e : some s ≡ some r = rw here at h in
      let same : s ≡ r = cc e in subst (IsFirst name (s ∷ rs)) same (first s rs here)
  | inr later ↦ behind s r rs later (find-IsFirst name rs r (rw later at h))
]

alias_of-none : (r : Record) → alias_of (some r) ≡ none → (target : Name) → r.rdata ≢ cname target
alias_of-none r h target e = let some_alias : some target ≡ none = rw e at h in cc

alias_of-some :
    (r : Record) (target : Name) → alias_of (some r) ≡ some target → r.rdata ≡ cname target
alias_of-some r target h = ground arith

module _ (records : List Record) (rtype : ℕ) where
  chase_name-Leads :
      (n : ℕ) (name : Name) → Leads records rtype n name (chase_name n records rtype name)
  unfolding chase_name
  chase_name-Leads zero name = spent name
  chase_name-Leads (suc n) name = elim (Option-cases (find (λ r. name_eq r.name name) records)) [
    | inl e ↦ rw (e, chase_name) (ends n name (nothing (find-none name records e)))
    | inr (r, e) ↦ elim (Option-cases (alias_of (some r))) [
      | inl last ↦
          rw (e, last, chase_name)
            (ends n name (no_alias r (find-IsFirst name records r e) (alias_of-none r last)))
      | inr (target, points) ↦ elim (Bool-cases (any (is_wanted name rtype) records)) [
        | inl here ↦ rw (e, points, here, chase_name) (ends n name (wanted here))
        | inr on ↦
            rw (e, points, on, chase_name)
              (follows n name target (chase_name n records rtype target) r
                (find-IsFirst name records r e) (alias_of-some r target points) on
                (chase_name-Leads n target))
      ]
    ]
  ]

module _ (rtype : ℕ) (name : Name) where
  -- What a record at the name contributes.
  address_of-cases :
      (r : Record)
      → name_eq r.name name ≡ true
      → (address_of rtype r ≡ [])
        ⊎ ((x : IpAddr) × (address_of rtype r ≡ (x, r.ttl) ∷ []) × IsAddress rtype name r x)
  address_of-cases r here = cases r.rdata refl
    where
      cases :
          (d : RData)
          → r.rdata ≡ d
          → (address_of rtype r ≡ [])
            ⊎ ((x : IpAddr) × (address_of rtype r ≡ (x, r.ttl) ∷ []) × IsAddress rtype name r x)
      cases (a x) e = elim (Bool-cases (rtype == 1)) [
        | inl is ↦ inr (v4 x, rw (e, is) refl, (ground (arith, is), here, e))
        | inr differs ↦ inl (rw (e, differs) refl)
      ]
      cases (aaaa x) e = elim (Bool-cases (rtype == 28)) [
        | inl is ↦ inr (v6 x, rw (e, is) refl, (ground (arith, is), here, e))
        | inr differs ↦ inl (rw (e, differs) refl)
      ]
      cases d e = inl (ground arith)

  none-IsAddress :
      (r : Record) → address_of rtype r ≡ [] → (x : IpAddr) → ¬ IsAddress rtype name r x
  none-IsAddress r h (v4 x) = λ k. ground (arith, k.0, k.2)
  none-IsAddress r h (v6 x) = λ k. ground (arith, k.0, k.2)

  away-IsAddress :
      (r : Record) → name_eq r.name name ≡ false → (x : IpAddr) → ¬ IsAddress rtype name r x
  away-IsAddress r h (v4 x) = λ k. cc (h, k.1)
  away-IsAddress r h (v6 x) = λ k. cc (h, k.1)

  addresses_at-Lists : (rs : List Record) → Lists rtype name rs (addresses_at name rtype rs)
  unfolding addresses_at
  addresses_at-Lists [] = no_more
  addresses_at-Lists (r ∷ rs) = elim (Bool-cases (name_eq r.name name)) [
    | inr away ↦
        rw away
          (other r rs (addresses_at name rtype rs) (away-IsAddress r away) (addresses_at-Lists rs))
    | inl here ↦ elim (address_of-cases r here) [
      | inl gives_none ↦
          rw (here, gives_none)
            (other r rs (addresses_at name rtype rs) (none-IsAddress r gives_none)
              (addresses_at-Lists rs))
      | inr (x, one, is) ↦
          rw (here, one) (address r rs x (addresses_at name rtype rs) is (addresses_at-Lists rs))
    ]
  ]

-- What `chase` returns: the name at which the chain ends, of 16 aliases at most, and the addresses of
-- the type there.
pub chase-Leads :
    (records : List Record) (start : Name) (rtype : ℕ)
    → Leads records rtype 16 start (chase records start rtype).0
      × Lists rtype (chase records start rtype).0 records (chase records start rtype).1
unfolding chase
chase-Leads records start rtype = (
  chase_name-Leads records rtype 16 start,
  addresses_at-Lists rtype (chase_name 16 records rtype start) records,
)
