-- ===== src/Engine/Routing/Best.antt =====
-- The search domain that wins in `Engine::route` of resolvd/src/engine.rs.
use mathlib.Core.List.{Mem}
use resolvd.Prelude.{
  ℕ, ◌≡◌, ◌≤◌, ◌<◌, ◌⊎◌, All-weaken, inl, inr, refl, true, false, ◌&&◌, List, [], ◌∷◌, none, some,
  All, All-Mem, Holds, if◌then◌else◌, Bool-cases, arith, filter,
}
use resolvd.Dns.Name.{Name, ends_with, label_count}
use resolvd.Engine.State.{Scope}
use resolvd.Engine.Routing.{Best, beats, best_domain, best_scope}

-- What the loop holds was taken from a scope and a domain of it that the name ends with.
pub record IsMatch (name : Name) (scopes : List Scope) (l m : ℕ) (s : Scope) : Type 0 where
  pub domain : Name
  pub listed : Mem s scopes
  pub of_scope : Mem domain s.domains
  pub matches : ends_with name domain ≡ true
  pub labels : l ≡ label_count domain
  pub metric : m ≡ s.metric

abbrev next : Name → Scope → Name → Best → Best
next name s d best =
    if ends_with name d && beats (label_count d) s.metric best
    then some (label_count d, s.metric, s)
    else best

-- What does not beat a candidate does not beat the one that replaces it.
next-beats :
    (name : Name) (s : Scope) (d : Name) (best : Best) (l m : ℕ)
    → beats l m best ≡ false
    → beats l m (next name s d best) ≡ false
next-beats name s d none l m h = cc
next-beats name s d (some (l', m', s')) l m h = ground arith

next-beaten :
    (name : Name) (s : Scope) (d : Name) (best : Best)
    → ends_with name d ≡ true
    → beats (label_count d) s.metric (next name s d best) ≡ false
next-beaten name s d none h = ground arith
next-beaten name s d (some (l', m', s')) h = ground arith

-- Every domain of the list that matches is beaten by what the loop ends with.
domains-beats :
    (name : Name) (s : Scope) (ds : List Name) (best : Best) (l m : ℕ)
    → beats l m best ≡ false
    → beats l m (best_domain name s ds best) ≡ false
unfolding best_domain
domains-beats name s [] best l m h = h
domains-beats name s (d ∷ ds) best l m h =
    domains-beats name s ds (next name s d best) l m (next-beats name s d best l m h)

domains-beaten :
    (name : Name) (s : Scope) (ds : List Name) (best : Best)
    → All
        (λ d.
          ends_with name d ≡ true
          → beats (label_count d) s.metric (best_domain name s ds best) ≡ false)
        ds
unfolding best_domain
domains-beaten name s [] best = tt
domains-beaten name s (d ∷ ds) best = (
  λ h.
      domains-beats name s ds (next name s d best) (label_count d) s.metric
        (next-beaten name s d best h),
  domains-beaten name s ds (next name s d best),
)

scopes-beats :
    (name : Name) (ss : List Scope) (best : Best) (l m : ℕ)
    → beats l m best ≡ false
    → beats l m (best_scope name ss best) ≡ false
unfolding best_scope
scopes-beats name [] best l m h = h
scopes-beats name (s ∷ ss) best l m h =
    scopes-beats name ss (best_domain name s s.domains best) l m
      (domains-beats name s s.domains best l m h)

lift_beaten :
    (name : Name) (s : Scope) (ss : List Scope) (best : Best) (ds : List Name)
    → All (λ d. ends_with name d ≡ true → beats (label_count d) s.metric best ≡ false) ds
    → All
        (λ d.
          ends_with name d ≡ true
          → beats (label_count d) s.metric (best_scope name ss best) ≡ false)
        ds
lift_beaten name s ss best [] h = tt
lift_beaten name s ss best (d ∷ ds) h = (
  λ e. scopes-beats name ss best (label_count d) s.metric (h.0 e),
  lift_beaten name s ss best ds h.1,
)

beaten_filter :
    (name : Name) (s : Scope) (best : Best) (ds : List Name)
    → All (λ d. ends_with name d ≡ true → beats (label_count d) s.metric best ≡ false) ds
    → All (λ d. beats (label_count d) s.metric best ≡ false) (filter (ends_with name) ds)
beaten_filter name s best [] h = tt
beaten_filter name s best (d ∷ ds) h = elim (Bool-cases (ends_with name d)) [
  | inl matches ↦ rw (matches) (h.0 matches, beaten_filter name s best ds h.1)
  | inr other ↦ rw (other) (beaten_filter name s best ds h.1)
]

-- The winner has more labels than a domain of `labels` labels in a scope of metric `metric`, or as
-- many and a metric that is no higher. There is a winner.
abbrev pub IsAhead : ℕ → ℕ → Best → Type 0
IsAhead labels metric none = ⊥
IsAhead labels metric (some (l, m, s)) = (labels < l) ⊎ ((labels ≡ l) × (m ≤ metric))

beaten-IsAhead : (l m : ℕ) (best : Best) → beats l m best ≡ false → IsAhead l m best
beaten-IsAhead l m none h = cc
beaten-IsAhead l m (some (l', m', s)) h = ground arith

beaten_scopes :
    (name : Name) (ss : List Scope) (best : Best)
    → All
        (λ s.
          All
            (λ d. beats (label_count d) s.metric (best_scope name ss best) ≡ false)
            (filter (ends_with name) s.domains))
        ss
unfolding best_scope
beaten_scopes name [] best = tt
beaten_scopes name (s ∷ ss) best =
    let after : Best = best_domain name s s.domains best in
    (
      beaten_filter name s (best_scope name ss after) s.domains
          (lift_beaten name s ss after s.domains (domains-beaten name s s.domains best)),
      beaten_scopes name ss after,
    )

-- Against every domain of every scope that the name ends with, what the loop ends with has more
-- labels, or as many and a metric that is no higher than that of the domain's scope.
pub best_scope-IsAhead :
    (name : Name) (ss : List Scope) (best : Best)
    → All
        (λ s.
          All
            (λ d. IsAhead (label_count d) s.metric (best_scope name ss best))
            (filter (ends_with name) s.domains))
        ss
best_scope-IsAhead name ss best =
    All-weaken _ _ ss
      (λ s h.
        All-weaken _ _ (filter (ends_with name) s.domains)
          (λ d. beaten-IsAhead (label_count d) s.metric (best_scope name ss best)) h)
      (beaten_scopes name ss best)

-- A scope and a domain that hold of the best so far.
abbrev Sound : Name → List Scope → Best → Type 0
Sound name all best = Holds (λ w. IsMatch name all w.0 w.1 w.2) best

next-Sound :
    (name : Name) (all : List Scope) (s : Scope) (d : Name) (best : Best)
    → Mem s all
    → Mem d s.domains
    → Sound name all best
    → Sound name all (next name s d best)
next-Sound name all s d best here there h = elim (Bool-cases (ends_with name d)) [
  | inr other ↦ rw (other) h
  | inl matches ↦ elim (Bool-cases (beats (label_count d) s.metric best)) [
    | inr beaten ↦ rw (matches, beaten) h
    | inl wins ↦
        rw (matches, wins)
          (record {
            domain = d;
            listed = here;
            of_scope = there;
            matches = matches;
            labels = refl;
            metric = refl;
          })
  ]
]

domains-Sound :
    (name : Name) (all : List Scope) (s : Scope) (ds : List Name) (best : Best)
    → Mem s all
    → All (λ d. Mem d s.domains) ds
    → Sound name all best
    → Sound name all (best_domain name s ds best)
unfolding best_domain
domains-Sound name all s [] best here there h = h
domains-Sound name all s (d ∷ ds) best here there h =
    domains-Sound name all s ds (next name s d best) here there.1
      (next-Sound name all s d best here there.0 h)

scopes-Sound :
    (name : Name) (all ss : List Scope) (best : Best)
    → All (λ s. Mem s all) ss
    → Sound name all best
    → Sound name all (best_scope name ss best)
unfolding best_scope
scopes-Sound name all [] best there h = h
scopes-Sound name all (s ∷ ss) best there h =
    scopes-Sound name all ss (best_domain name s s.domains best) there.1
      (domains-Sound name all s s.domains best there.0 (All-Mem s.domains) h)

-- The loop ends with nothing, or with a scope of the list that has a domain the name ends with.
pub best_scope-IsMatch :
    (name : Name) (ss : List Scope)
    → Holds (λ w. IsMatch name ss w.0 w.1 w.2) (best_scope name ss none)
best_scope-IsMatch name ss = scopes-Sound name ss ss none (All-Mem ss) tt
