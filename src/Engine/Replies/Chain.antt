-- ===== src/Engine/Replies/Chain.antt =====
-- The records that `Engine::relevant_records` of resolvd/src/engine.rs keeps lie on the chain of
-- aliases from the name that was asked.
use mathlib.Core.List.{Mem}
use resolvd.Prelude.{
  ℕ, zero, suc, ◌≡◌, ◌⊎◌, inl, inr, refl, true, false, ◌||◌, List, [], ◌∷◌, ◌++◌, Option, none,
  some, All, All-Mem, Holds, any, Bool-cases, Option-cases, arith,
}
use resolvd.Dns.Name.{Name, name_eq}
use resolvd.Dns.Types.{Record, cname, class_in, t_any}
use resolvd.Engine.Replies.{
  Flagged, is_terminal, mark_terminal, has_terminal, cname_target, mark_alias, follow, flagged,
  kept, relevant_records,
}

-- A record of class IN at a name that is an alias of another name.
pub record IsAlias (name target : Name) (r : Record) : Type 0 where
  pub class : r.class ≡ class_in
  pub owner : name_eq r.name name ≡ true
  pub rdata : r.rdata ≡ cname target

-- A record of class IN at a name that has the type asked, or any type where that is asked.
pub record IsAnswer (name : Name) (qtype : ℕ) (r : Record) : Type 0 where
  pub class : r.class ≡ class_in
  pub owner : name_eq r.name name ≡ true
  pub rtype : (r.rtype ≡ qtype) ⊎ (qtype ≡ t_any)

-- The names that aliases among the records lead to.
pub data Reaches (records : List Record) (candidate : Name) : Name → Type 0 where
  asked : Reaches records candidate candidate
  aliased :
      (name target : Name) (r : Record)
      → Reaches records candidate name
      → Mem r records
      → IsAlias name target r
      → Reaches records candidate target

-- A record of the reply that answers the question at a name that is reached, or that is an alias at
-- such a name.
pub record IsRelevant (records : List Record) (candidate : Name) (qtype : ℕ) (r : Record)
    : Type 0 where
  pub name : Name
  pub reached : Reaches records candidate name
  pub received : Mem r records
  pub role : IsAnswer name qtype r ⊎ ((target : Name) × IsAlias name target r)

is_terminal-IsAnswer :
    (name : Name) (qtype : ℕ) (r : Record) → is_terminal name qtype r ≡ true → IsAnswer name qtype r
is_terminal-IsAnswer name qtype r h = record {
  class = ground arith;
  owner = ground arith;
  rtype = ground arith;
}

cname_target-IsAlias :
    (name target : Name) (r : Record) → cname_target name r ≡ some target → IsAlias name target r
cname_target-IsAlias name target r h = record {
  class = ground arith;
  owner = ground arith;
  rdata = ground arith;
}

module _ (records : List Record) (candidate : Name) (qtype : ℕ) where
  abbrev Fine : Flagged → Type 0
  Fine (r, k) = Mem r records × (k ≡ true → IsRelevant records candidate qtype r)

  mark_terminal-Fine :
      (name : Name) (rs : List Flagged)
      → Reaches records candidate name
      → All Fine rs
      → All Fine (mark_terminal name qtype rs)
  unfolding mark_terminal
  mark_terminal-Fine name [] reached h = tt
  mark_terminal-Fine name ((r, k) ∷ rs) reached h = elim (Bool-cases (is_terminal name qtype r)) [
    | inl terminal ↦ rw (terminal) (
      (
        h.0.0,
        λ e. record {
          name = name;
          reached = reached;
          received = h.0.0;
          role = inl (is_terminal-IsAnswer name qtype r terminal);
        },
      ),
      mark_terminal-Fine name rs reached h.1,
    )
    | inr other ↦ rw (other) (h.0, mark_terminal-Fine name rs reached h.1)
  ]

  mark_alias-Fine :
      (name : Name) (rs : List Flagged)
      → Reaches records candidate name
      → All Fine rs
      → Holds
          (λ (w : List Flagged × Name). All Fine w.0 × Reaches records candidate w.1)
          (mark_alias name rs)
  unfolding mark_alias
  mark_alias-Fine name [] reached h = tt
  mark_alias-Fine name ((r, k) ∷ rs) reached h = elim (Option-cases (cname_target name r)) [
    | inr (target, points) ↦
        rw (points, Holds)
          (
            (
              (
                h.0.0,
                λ e. record {
                  name = name;
                  reached = reached;
                  received = h.0.0;
                  role = inr (target, cname_target-IsAlias name target r points);
                },
              ),
              h.1,
            ),
            aliased name target r reached h.0.0 (cname_target-IsAlias name target r points),
          )
    | inl other ↦
        rw (other, Holds) (behind (mark_alias name rs) (mark_alias-Fine name rs reached h.1))
  ]
    where
      behind :
          (o : Option (List Flagged × Name))
          → Holds (λ (w : List Flagged × Name). All Fine w.0 × Reaches records candidate w.1) o
          → Holds
              (λ (w : List Flagged × Name). All Fine w.0 × Reaches records candidate w.1)
              (elim o [ none ↦ none | some (rs', target) ↦ some ((r, k) ∷ rs', target) ])
      behind none t = tt
      behind (some (rs', target)) t = ((h.0, t.0), t.1)

  follow-Fine :
      (n : ℕ) (rs : List Flagged) (seen : List Name) (name : Name)
      → Reaches records candidate name
      → All Fine rs
      → All Fine (follow n qtype rs seen name).0
        × Reaches records candidate (follow n qtype rs seen name).1
  unfolding follow
  follow-Fine zero rs seen name reached h = (mark_terminal-Fine name rs reached h, reached)
  follow-Fine (suc n) rs seen name reached h =
      let marked = mark_terminal-Fine name rs reached h in
      elim (Bool-cases (has_terminal name qtype rs || any (λ s. name_eq s name) seen)) [
        | inl stops ↦ rw (stops) (marked, reached)
        | inr goes ↦ elim (Option-cases (mark_alias name (mark_terminal name qtype rs))) [
          | inl no_alias ↦ rw (goes, no_alias) (marked, reached)
          | inr ((rs', target), points) ↦
              let (fine, on) =
                rw points at (mark_alias-Fine name (mark_terminal name qtype rs) reached marked) in
              rw (goes, points) (follow-Fine n rs' (seen ++ name ∷ []) target on fine)
        ]
      ]

  kept-IsRelevant :
      (rs : List Flagged) → All Fine rs → All (IsRelevant records candidate qtype) (kept rs)
  kept-IsRelevant [] h = tt
  kept-IsRelevant ((r, true) ∷ rs) h = (h.0.1 refl, kept-IsRelevant rs h.1)
  kept-IsRelevant ((r, false) ∷ rs) h = kept-IsRelevant rs h.1

  flagged-Fine : (rs : List Record) → All (λ r. Mem r records) rs → All Fine (flagged rs)
  flagged-Fine [] h = tt
  flagged-Fine (r ∷ rs) h = ((h.0, λ e. cc e), flagged-Fine rs h.1)

  -- Every record that is kept of a reply is one of its records and of class IN, stands at the name
  -- that was asked or at one that aliases of class IN in the reply lead to from there, and has the
  -- type asked (or any, where that is asked) or is an alias. The name returned is one reached so.
  pub relevant_records-IsRelevant :
      All (IsRelevant records candidate qtype) (relevant_records records candidate qtype).0
      × Reaches records candidate (relevant_records records candidate qtype).1
  unfolding relevant_records
  relevant_records-IsRelevant =
      let (fine, reached) =
        follow-Fine 16 (flagged records) [] candidate asked
          (flagged-Fine records (All-Mem records)) in
      (kept-IsRelevant _ fine, reached)
