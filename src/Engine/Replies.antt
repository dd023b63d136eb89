-- ===== src/Engine/Replies.antt =====
-- What resolvd/src/engine.rs takes from a reply: `same_case`, `negative_ttl`, `relevant_records`,
-- `chase` and `combine`.
pub mod Chain
pub mod Chase
pub mod Combine
use resolvd.Prelude.{
  ℕ, zero, suc, ◌+◌, ◌≡◌, Bool, true, false, ◌&&◌, ◌||◌, not, List, [], ◌∷◌, ◌++◌, map, Option,
  none, some, is_empty, filter, find, any, leb, ltb, ◌==◌, if◌then◌else◌, Bytes, bytes_eq, min,
}
use resolvd.Net.{IpAddr, v4, v6}
use resolvd.Dns.Name.{Name, ends_with, name_eq}
use resolvd.Dns.Types.{
  Record, RData, a, aaaa, cname, ptr, ns, soa, mx, srv, txt, opt, unknown, t_a, t_aaaa, t_any,
  t_cname, class_in,
}
use resolvd.Cache.{Outcome, found, not_found, unavailable}
use resolvd.Engine.State.{Answer, Addresses, Lookup, Source, local, max_negative_ttl}

unfoldable pub labels_eq : List Bytes → List Bytes → Bool
labels_eq [] [] = true
labels_eq (x ∷ xs) (y ∷ ys) = bytes_eq x y && labels_eq xs ys
labels_eq _ _ = false

-- Equality of names byte by byte.
unfoldable pub same_case : Name → Name → Bool
unfolding labels_eq
same_case x y = labels_eq x.labels y.labels

abbrev pub soa_minimum : Record → Option ℕ
soa_minimum r = elim r.rdata [
  | soa mname rname serial refresh retry expire minimum ↦ some (min minimum r.ttl)
  | _ ↦ none
]

abbrev pub or_ttl : Option ℕ → ℕ → ℕ
or_ttl none d = d
or_ttl (some n) d = n

-- The first SOA of class IN whose owner encloses the name.
unfoldable pub find_soa : List Record → Name → Option ℕ
find_soa [] name = none
find_soa (r ∷ rs) name =
    let rest = find_soa rs name in
    if r.class == class_in && ends_with name r.name
    then (elim (soa_minimum r) [ some n ↦ some n | none ↦ rest ])
    else rest

unfoldable pub negative_ttl : List Record → Name → ℕ
unfolding find_soa
negative_ttl authority name = min (or_ttl (find_soa authority name) 0) max_negative_ttl

-- A record with the flag that `keep` holds at its index.
abbrev pub Flagged : Type 0
Flagged = Record × Bool

abbrev pub is_terminal : Name → ℕ → Record → Bool
is_terminal name qtype r =
    r.class == class_in && (name_eq r.name name && (r.rtype == qtype || qtype == t_any))

-- The inner loop: flag the records of the type at the name, and say whether there was one.
unfoldable pub mark_terminal : Name → ℕ → List Flagged → List Flagged
mark_terminal name qtype rs = map (λ x. if is_terminal name qtype x.0 then (x.0, true) else x) rs

unfoldable pub has_terminal : Name → ℕ → List Flagged → Bool
has_terminal name qtype rs = any (λ x. is_terminal name qtype x.0) rs

abbrev pub cname_target : Name → Record → Option Name
cname_target name r =
    if r.class == class_in && name_eq r.name name
    then (elim r.rdata [ cname target ↦ some target | _ ↦ none ])
    else none

-- `find_map`, and the flag at the index found: the records and the target of the first alias.
unfoldable pub mark_alias : Name → List Flagged → Option (List Flagged × Name)
mark_alias name [] = none
mark_alias name ((r, k) ∷ rs) =
    let rest = mark_alias name rs in
    elim (cname_target name r) [
      | some target ↦ some ((r, true) ∷ rs, target)
      | none ↦ (elim rest [ none ↦ none | some (rs', target) ↦ some ((r, k) ∷ rs', target) ])
    ]

abbrev pub next_alias :
    Option (List Flagged × Name)
    → List Flagged × Name
    → (List Flagged → Name → List Flagged × Name)
    → List Flagged × Name
next_alias none stop go = stop
next_alias (some (rs, target)) stop go = go rs target

-- The loop `for depth in 0..=16`; the number counts the aliases that may still be followed.
unfoldable pub follow : ℕ → ℕ → List Flagged → List Name → Name → List Flagged × Name
follow zero qtype rs seen name = (mark_terminal name qtype rs, name)
follow (suc n) qtype rs seen name =
    let stop : List Flagged × Name = (mark_terminal name qtype rs, name) in
    let go : List Flagged × Name =
      next_alias (mark_alias name (mark_terminal name qtype rs)) stop
        (λ rs' target. follow n qtype rs' (seen ++ name ∷ []) target) in
    if has_terminal name qtype rs || any (λ s. name_eq s name) seen then stop else go

abbrev pub flagged : List Record → List Flagged
flagged [] = []
flagged (r ∷ rs) = (r, false) ∷ flagged rs

abbrev pub kept : List Flagged → List Record
kept [] = []
kept ((r, k) ∷ rs) = if k then r ∷ kept rs else kept rs

unfoldable pub relevant_records : List Record → Name → ℕ → List Record × Name
unfolding follow mark_terminal has_terminal mark_alias
relevant_records records candidate qtype =
    let (rs, name) = follow 16 qtype (flagged records) [] candidate in (kept rs, name)

-- The first record at a name, if it is an alias.
abbrev pub alias_of : Option Record → Option Name
alias_of none = none
alias_of (some r) = elim r.rdata [ cname target ↦ some target | _ ↦ none ]

unfoldable pub chase_name : ℕ → List Record → ℕ → Name → Name
chase_name zero records rtype name = name
chase_name (suc n) records rtype name = elim (alias_of (find (λ r. name_eq r.name name) records)) [
  | none ↦ name
  | some target ↦
      if any (λ r. name_eq r.name name && r.rtype == rtype) records
      then name
      else chase_name n records rtype target
]

abbrev pub address_of : ℕ → Record → List (IpAddr × ℕ)
address_of rtype r = elim r.rdata [
  | a x ↦ if rtype == t_a then (v4 x, r.ttl) ∷ [] else []
  | aaaa x ↦ if rtype == t_aaaa then (v6 x, r.ttl) ∷ [] else []
  | _ ↦ []
]

unfoldable pub addresses_at : Name → ℕ → List Record → List (IpAddr × ℕ)
addresses_at name rtype [] = []
addresses_at name rtype (r ∷ rs) =
    let rest = addresses_at name rtype rs in
    if name_eq r.name name then address_of rtype r ++ rest else rest

unfoldable pub chase : List Record → Name → ℕ → Name × List (IpAddr × ℕ)
unfolding chase_name addresses_at
chase records start rtype =
    let name = chase_name 16 records rtype start in (name, addresses_at name rtype records)

abbrev pub or_name : Option Name → Name → Name
or_name none d = d
or_name (some n) d = n

-- The variables of the loop in `combine`.
pub record Folding : Type 0 where
  pub out : Addresses
  pub any_found : Bool
  pub any_unavailable : Bool
  pub rank : Option (Bool × ℕ)

-- `metadata_rank.is_none_or(|best| rank < best)`
abbrev pub ranks_first : Bool × ℕ → Option (Bool × ℕ) → Bool
ranks_first (e, t) none = true
ranks_first (e, t) (some (f, u)) = if e then f && ltb t u else not f || ltb t u

unfoldable pub fold_found : Name → ℕ → Answer → Folding → Folding
unfolding chase
fold_found name rtype x f =
    let (canonical, addrs) = chase x.records (or_name x.resolved_name name) rtype in
    let first = ranks_first (is_empty addrs, rtype) f.rank in
    record {
      out = record f.out {
        canonical = if first then canonical else f.out.canonical;
        source = if first then x.source else f.out.source;
        addresses = f.out.addresses ++ addrs;
      };
      any_found = true;
      any_unavailable = f.any_unavailable;
      rank = if first then some (is_empty addrs, rtype) else f.rank;
    }

abbrev pub fold_answer : Name → ℕ × Answer → Folding → Folding
fold_answer name (rtype, x) f = elim x.outcome [
  | found ↦ fold_found name rtype x f
  | unavailable ↦ record f { any_unavailable = true }
  | not_found ↦ f
]

unfoldable pub fold_answers : Name → List (ℕ × Answer) → Folding → Folding
unfolding fold_found
fold_answers name [] f = f
fold_answers name (x ∷ xs) f = fold_answers name xs (fold_answer name x f)

abbrev pub no_answers : Name → Folding
no_answers name = record {
  out = record { outcome = unavailable; canonical = name; addresses = []; source = local };
  any_found = false;
  any_unavailable = false;
  rank = none;
}

unfoldable pub combine : Lookup → Addresses
unfolding fold_answers
combine l =
    let f = fold_answers l.name l.results (no_answers l.name) in
    record f.out {
      outcome = if f.any_found then found else if f.any_unavailable then unavailable else not_found;
    }
