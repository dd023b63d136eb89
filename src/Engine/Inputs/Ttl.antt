-- ===== src/Engine/Inputs/Ttl.antt =====
-- The time to live that `Engine::received` of resolvd/src/engine.rs takes from an accepted reply.
use resolvd.Prelude.{
  ℕ, ◌-◌, ◌%◌, ◌^◌, ◌≤◌, Bool, true, false, ◌&&◌, not, List, [], ◌∷◌, map, is_empty, All, filter,
  ◌==◌, if◌then◌else◌, Option-cases, inl, inr, min, min_by, min_by-le, arith,
}
use resolvd.Dns.Name.{Name}
use resolvd.Dns.Types.{Record, Message, nxdomain, t_cname}
use resolvd.Dns.Message.{full_rcode}
use resolvd.Engine.State.{max_positive_ttl, max_negative_ttl}
use resolvd.Engine.Replies.{relevant_records, negative_ttl}
use resolvd.Engine.Inputs.{judge, min_ttl, or_nat, restore_case}

negative_ttl-le :
    (authority : List Record) (name : Name) → negative_ttl authority name ≤ max_negative_ttl
unfolding negative_ttl
negative_ttl-le authority name = omega arith

min_ttl-le : (rs : List Record) → All (λ r. or_nat (min_ttl rs) 0 ≤ r.ttl) rs
unfolding min_ttl
min_ttl-le rs = elim (Option-cases (min_by (λ (r : Record). r.ttl) rs)) [
  | inl nothing ↦ rw (nothing, min_ttl) (zero_le rs)
  | inr (m, least) ↦ rw (least, min_ttl) (min_by-le (λ (r : Record). r.ttl) rs m least)
]
  where
    zero_le : (rs : List Record) → All (λ r. 0 ≤ r.ttl) rs
    zero_le [] = tt
    zero_le (r ∷ rs) = (omega arith, zero_le rs)

capped :
    (rs : List Record) (bound : ℕ)
    → All (λ r. bound ≤ r.ttl) rs
    → All (λ r. min bound max_positive_ttl ≤ r.ttl) rs
capped [] bound h = tt
capped (r ∷ rs) bound h = (omega (arith, h.0), capped rs bound h.1)

-- The bounds, of what `judge` computes its verdict from.
verdict_ttl :
    (absent : Bool) (relevant : List Record) (negative alias : ℕ)
    → negative ≤ max_negative_ttl
    → let rs : List Record = if absent then [] else relevant in
      let ttl : ℕ =
        if not absent && not (is_empty rs)
        then min (or_nat (min_ttl rs) 0) max_positive_ttl
        else min negative alias in
      (ttl ≤ (if is_empty rs then max_negative_ttl else max_positive_ttl))
      × All (λ r. ttl ≤ r.ttl) rs
verdict_ttl true relevant negative alias h = (omega (arith, h), tt)
verdict_ttl false [] negative alias h = (omega (arith, h), tt)
verdict_ttl false (r ∷ rs) negative alias h =
    (omega arith, capped (r ∷ rs) (or_nat (min_ttl (r ∷ rs)) 0) (min_ttl-le (r ∷ rs)))

-- Where a reply leaves no records, its verdict holds for at most `max_negative_ttl` seconds. Where it
-- leaves some, it holds for at most `max_positive_ttl`, and no longer than any of them.
pub judge_ttl :
    (m : Message) (candidate : Name) (rtype : ℕ)
    → let v = judge m candidate rtype in
      (v.ttl ≤ (if is_empty v.records then max_negative_ttl else max_positive_ttl))
      × All (λ r. v.ttl ≤ r.ttl) v.records
unfolding judge
judge_ttl m candidate rtype =
    let relevant : List Record × Name = relevant_records m.answers candidate rtype in
    verdict_ttl (full_rcode m % 2 ^ 8 == nxdomain) (map (restore_case candidate) relevant.0)
      (negative_ttl m.authority relevant.1)
      (or_nat (min_ttl (filter (λ r. r.rtype == t_cname) relevant.0)) (2 ^ 32 - 1))
      (negative_ttl-le m.authority relevant.1)
