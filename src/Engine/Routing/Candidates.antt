-- ===== src/Engine/Routing/Candidates.antt =====
-- The names that `Engine::candidates` of resolvd/src/engine.rs tries for a single label.
use mathlib.Core.List.{Mem}
use resolvd.Prelude.{
  ◌≡◌, ◌≤◌, refl, sym, ◌∙◌, Bool, true, ◌&&◌, List, [], ◌∷◌, ◌++◌, All, All-append, All-Mem,
  All-weaken, filter, any, leb, leb→le, Bool-cases, Option-cases, inl, inr, some, min_by, min_by-le,
  min_by-holds, min_by-none, Result, ok, err, stuck, arith,
}
use resolvd.Dns.Name.{Name, Error, join, label_count, name_eq, ends_with}
use resolvd.Dns.Case.Equal.{ends_with-join, name_eq_refl}
use resolvd.Engine.State.{Scope, Engine, Levels}
use resolvd.Engine.Routing.{
  metric, push_new, expand, insert_by_metric, sort_by_metric, all_domains, up_scopes,
  exclusive_scope, search_domains, candidates,
}

module _ ⦃lv : Levels⦄ where
  -- A scope that is exclusive and has reached the level of an address, and with it that of a link.
  abbrev pub takes_all : Scope → Bool
  takes_all s = (s.exclusive && leb lv.addressed s.level) && leb lv.link s.level

  -- The search domains that apply to a single label: those of the exclusive scope with the lowest
  -- metric. Where no scope takes all, those of the scopes that are up, and the fallback domains.
  pub data Applies (e : Engine) (d : Name) : Type 0 where
    of_exclusive :
        (s : Scope)
        → Mem s e.scopes
        → takes_all s ≡ true
        → All (λ t. s.metric ≤ t.metric) (filter takes_all e.scopes)
        → Mem d s.domains
        → Applies e d
    of_scope :
        (s : Scope)
        → filter takes_all e.scopes ≡ []
        → Mem s e.scopes
        → lv.link ≤ s.level
        → Mem d s.domains
        → Applies e d
    of_fallback : filter takes_all e.scopes ≡ [] → Mem d e.fallback_domains → Applies e d

  -- A name made of `name` and a search domain that applies.
  pub record IsExpansion (e : Engine) (name c : Name) : Type 0 where
    pub domain : Name
    pub applies : Applies e domain
    pub joined : join name domain ≡ ok c
    pub suffix : ends_with c domain ≡ true

filter-filter :
    {A : Type 0} (p q : A → Bool) (xs : List A)
    → filter p (filter q xs) ≡ filter (λ x. p x && q x) xs
filter-filter p q [] = refl
filter-filter p q (x ∷ xs) = ground (arith, filter-filter p q xs)

filter-All :
    {A : Type 0} (P : A → Type 0) (p : A → Bool) (xs : List A)
    → All P xs
    → All (λ x. P x × (p x ≡ true)) (filter p xs)
filter-All P p [] h = tt
filter-All P p (x ∷ xs) h = elim (Bool-cases (p x)) [
  | inl passes ↦ rw passes ((h.0, passes), filter-All P p xs h.1)
  | inr fails ↦ rw fails (filter-All P p xs h.1)
]

insert-All :
    (P : Scope → Type 0) (s : Scope) (ss : List Scope)
    → P s
    → All P ss
    → All P (insert_by_metric s ss)
unfolding insert_by_metric
insert-All P s [] h hs = (h, tt)
insert-All P s (t ∷ ss) h hs = elim (Bool-cases (leb s.metric t.metric)) [
  | inl before ↦ rw before (h, hs)
  | inr after ↦ rw after (hs.0, insert-All P s ss h hs.1)
]

sort-All : (P : Scope → Type 0) (ss : List Scope) → All P ss → All P (sort_by_metric ss)
unfolding sort_by_metric
sort-All P [] h = tt
sort-All P (s ∷ ss) h = insert-All P s (sort_by_metric ss) h.0 (sort-All P ss h.1)

all_domains-All :
    (P : Name → Type 0) (ss : List Scope) → All (λ s. All P s.domains) ss → All P (all_domains ss)
unfolding all_domains
all_domains-All P [] h = tt
all_domains-All P (s ∷ ss) h =
    All-append P s.domains (all_domains ss) h.0 (all_domains-All P ss h.1)

module _ (P : Name → Type 0) (name : Name) where
  -- A name made of `name` and a domain that `P` holds of.
  record IsJoined (c : Name) : Type 0 where
    domain : Name
    applies : P domain
    joined : join name domain ≡ ok c

  push_new-All :
      (out : List Name) (d : Name) (r : Result Error Name)
      → join name d ≡ r
      → P d
      → All IsJoined out
      → All IsJoined (push_new out r)
  push_new-All out d (err e) j here h = h
  push_new-All out d stuck j here h = h
  push_new-All out d (ok c) j here h = elim (Bool-cases (any (λ n. name_eq n c) out)) [
    | inl old ↦ rw old h
    | inr new ↦
        rw new (
          All-append IsJoined out (c ∷ []) h
            (record { domain = d; applies = here; joined = j }, tt))
  ]

  expand-All :
      (ds out : List Name) → All P ds → All IsJoined out → All IsJoined (expand name ds out)
  unfolding expand
  expand-All [] out here h = h
  expand-All (d ∷ ds) out here h =
      expand-All ds (push_new out (join name d)) here.1
        (push_new-All out d (join name d) refl here.0 h)

module _ ⦃lv : Levels⦄ (e : Engine) where
  exclusive_scope-min : exclusive_scope e ≡ min_by metric (filter takes_all e.scopes)
  unfolding exclusive_scope up_scopes
  exclusive_scope-min =
      rw
        (filter-filter (λ s. s.exclusive && leb lv.addressed s.level) (λ s. leb lv.link s.level)
          e.scopes)
        refl

  up_scopes-All : All (λ s. Mem s e.scopes × (leb lv.link s.level ≡ true)) (up_scopes e)
  unfolding up_scopes
  up_scopes-All =
      filter-All (λ s. Mem s e.scopes) (λ s. leb lv.link s.level) e.scopes (All-Mem e.scopes)

  exclusive-Applies :
      (x : Scope) → min_by metric (filter takes_all e.scopes) ≡ some x → All (Applies e) x.domains
  exclusive-Applies x least =
      let (listed, takes) =
        min_by-holds metric (λ s. Mem s e.scopes × (takes_all s ≡ true)) (filter takes_all e.scopes)
          x least (filter-All (λ s. Mem s e.scopes) takes_all e.scopes (All-Mem e.scopes)) in
      All-weaken _ (Applies e) x.domains
        (λ d here.
          of_exclusive x listed takes (min_by-le metric (filter takes_all e.scopes) x least) here)
        (All-Mem x.domains)

  shared-Applies :
      filter takes_all e.scopes ≡ []
      → All (Applies e) (all_domains (sort_by_metric (up_scopes e)) ++ e.fallback_domains)
  shared-Applies none_takes =
      All-append (Applies e) (all_domains (sort_by_metric (up_scopes e))) e.fallback_domains
        (all_domains-All (Applies e) (sort_by_metric (up_scopes e)) (
          sort-All (λ s. All (Applies e) s.domains) (up_scopes e)
            (All-weaken _ (λ s. All (Applies e) s.domains) (up_scopes e)
              (λ s up.
                All-weaken _ (Applies e) s.domains
                  (λ d. of_scope s none_takes up.0 (leb→le lv.link s.level up.1))
                  (All-Mem s.domains))
              up_scopes-All)))
        (All-weaken _ (Applies e) e.fallback_domains (λ d. of_fallback none_takes)
          (All-Mem e.fallback_domains))

  search_domains-Applies : All (Applies e) (search_domains e)
  unfolding search_domains
  search_domains-Applies = elim (Option-cases (exclusive_scope e)) [
    | inl absent ↦
        rw (absent, search_domains)
          (shared-Applies
            (min_by-none metric (filter takes_all e.scopes) (sym exclusive_scope-min ∙ absent)))
    | inr (x, found) ↦
        rw (found, search_domains) (exclusive-Applies x (sym exclusive_scope-min ∙ found))
  ]

  -- Of a name of one label, every name tried is the label joined with a search domain that applies,
  -- and ends with that domain. Where an exclusive scope is up and has an address, only the domains of
  -- the one with the lowest metric apply; otherwise those of the scopes that are up, and the fallback
  -- domains.
  pub candidates-IsExpansion :
      (name : Name) → label_count name ≡ 1 → All (IsExpansion e name) (candidates e name)
  unfolding candidates
  candidates-IsExpansion name one = rw one (
      All-weaken (IsJoined (Applies e) name) (IsExpansion e name) _
        (λ c h. record {
          domain = h.domain;
          applies = h.applies;
          joined = h.joined;
          suffix = ends_with-join name h.domain h.domain c h.joined (name_eq_refl h.domain);
        })
        (expand-All (Applies e) name (search_domains e) [] search_domains-Applies tt))
