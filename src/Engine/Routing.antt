-- ===== src/Engine/Routing.antt =====
-- Scopes, servers and search domains of resolvd/src/engine.rs: which scope a name goes to, in which
-- order its servers are asked, and which names are tried.
pub mod Best
pub mod Candidates
use Prim.Native.Nat.{bit_and}
use resolvd.Prelude.{
  ℕ, ◌+◌, ◌-◌, ◌*◌, ◌/◌, ◌%◌, ◌^◌, ◌≡◌, ◌↔◌, refl, ap, ap₂, Bool, true, false, ◌&&◌, ◌||◌, not,
  List, [], ◌∷◌, ◌++◌, map, Option, none, some, is_empty, filter, find, any, ltb, leb, ◌==◌,
  if◌then◌else◌, Bytes, bytes, bytes_eq, bytes_eq_iff, min, min_by, &&-elim, exact_key, Result, ok,
  err, stuck,
}
use resolvd.Prelude.Keyed
use resolvd.Prelude.Keyed.{Key}
use resolvd.Net.{IpAddr, v4, v6, ip_eq, ip_eq_iff}
use resolvd.Dns.Name.{Name, Error, label_count, ends_with, join, name_eq}
use resolvd.Dns.Reverse.{reverse_address}
use resolvd.Engine.State.{Scope, Engine, Levels, demotion}

-- `u32::MAX << (32 - prefix.min(32))`, and the same at 128 bits.
unfoldable pub mask : ℕ → ℕ → ℕ
mask width prefix =
    if prefix == 0 then 0 else (2 ^ width - 1) * 2 ^ (width - min prefix width) % 2 ^ width

unfoldable pub same_subnet : IpAddr → ℕ → IpAddr → Bool
unfolding mask
same_subnet (v4 a) prefix (v4 b) = bit_and a (mask 32 prefix) == bit_and b (mask 32 prefix)
same_subnet (v6 a) prefix (v6 b) = bit_and a (mask 128 prefix) == bit_and b (mask 128 prefix)
same_subnet _ _ _ = false

-- `Scope::contains`
unfoldable pub scope_contains : Scope → IpAddr → Bool
unfolding same_subnet
scope_contains s addr = any (λ x. same_subnet x.0 x.1 addr) s.addresses

-- fe80::/10
abbrev pub is_link_local : IpAddr → Bool
is_link_local (v4 a) = false
is_link_local (v6 a) = a / 2 ^ 118 == 0x3fa

unfoldable pub server_key : IpAddr → Bytes → IpAddr × Bytes
server_key server scope = (server, if is_link_local server then scope else [])

unfoldable pub server_key_eq : IpAddr × Bytes → IpAddr × Bytes → Bool
server_key_eq a b = ip_eq a.0 b.0 && bytes_eq a.1 b.1

pub server_key_eq_iff : (a b : IpAddr × Bytes) → (server_key_eq a b ≡ true) ↔ (a ≡ b)
unfolding server_key_eq
server_key_eq_iff a b = (
  λ h.
      let (p, q) = &&-elim (ip_eq a.0 b.0) (bytes_eq a.1 b.1) h in
      ap₂ (λ x y. (x, y)) ((ip_eq_iff a.0 b.0).0 p) ((bytes_eq_iff a.1 b.1).0 q),
  λ h. rw ((ip_eq_iff a.0 b.0).1 (ap (λ x. x.0) h)) ((bytes_eq_iff a.1 b.1).1 (ap (λ x. x.1) h)),
)

instance abbrev pub server_keys : Key (IpAddr × Bytes)
server_keys = exact_key server_key_eq server_key_eq_iff

abbrev pub fallback_scope : Bytes
fallback_scope = bytes "fallback"

-- `scopes.iter().find(|s| s.id == id)`
unfoldable pub scope_named : Bytes → List Scope → Option Scope
scope_named id scopes = find (λ s. bytes_eq s.id id) scopes

unfoldable pub interface_of : Engine → Bytes → Option Bytes
unfolding scope_named
interface_of e id = elim (scope_named id e.scopes) [ none ↦ none | some s ↦ some s.interface ]

unfoldable pub demote : IpAddr → Bytes → ℕ → Engine → Engine
unfolding server_key
demote server scope now e = record e {
  demoted = Keyed.insert (server_key server scope) (now + demotion) e.demoted;
}

unfoldable pub is_demoted : Engine → IpAddr → Bytes → ℕ → Bool
unfolding server_key
is_demoted e server scope now = elim (Keyed.get (server_key server scope) e.demoted) [
  | none ↦ false
  | some until ↦ ltb now until
]

abbrev pub metric : Scope → ℕ
metric s = s.metric

-- The state of the double loop over scopes and their domains: label count, metric, scope.
abbrev pub Best : Type 0
Best = Option (ℕ × ℕ × Scope)

abbrev pub beats : ℕ → ℕ → Best → Bool
beats labels m none = true
beats labels m (some (l, n, s)) = ltb l labels || (labels == l && ltb m n)

unfoldable pub best_domain : Name → Scope → List Name → Best → Best
best_domain name s [] best = best
best_domain name s (d ∷ ds) best = best_domain name s ds (
    if ends_with name d && beats (label_count d) s.metric best
    then some (label_count d, s.metric, s)
    else best)

unfoldable pub best_scope : Name → List Scope → Best → Best
unfolding best_domain
best_scope name [] best = best
best_scope name (s ∷ ss) best = best_scope name ss (best_domain name s s.domains best)

-- A stable sort, as `sort_by_key` is.
unfoldable pub insert_by_metric : Scope → List Scope → List Scope
insert_by_metric s [] = s ∷ []
insert_by_metric s (t ∷ ts) =
    if leb s.metric t.metric then s ∷ (t ∷ ts) else t ∷ insert_by_metric s ts

unfoldable pub sort_by_metric : List Scope → List Scope
unfolding insert_by_metric
sort_by_metric [] = []
sort_by_metric (s ∷ ss) = insert_by_metric s (sort_by_metric ss)

abbrev pub or_scope : Option Scope → Option Bytes → Option Bytes
or_scope none rest = rest
or_scope (some s) rest = some s.id

abbrev pub or_best : Best → Option Bytes → Option Bytes
or_best none rest = rest
or_best (some (l, m, s)) rest = some s.id

unfoldable pub all_domains : List Scope → List Name
all_domains [] = []
all_domains (s ∷ ss) = s.domains ++ all_domains ss

-- `if let Ok(full) = name.join(d) && !out.contains(&full) { out.push_back(full) }`
abbrev pub push_new : List Name → Result Error Name → List Name
push_new out (ok full) = if any (λ n. name_eq n full) out then out else out ++ full ∷ []
push_new out (err e) = out
push_new out stuck = out

unfoldable pub expand : Name → List Name → List Name → List Name
expand name [] out = out
expand name (d ∷ ds) out = expand name ds (push_new out (join name d))

-- `servers.partition(healthy)`, the healthy ones first.
unfoldable pub healthy_first : (IpAddr → Bool) → List IpAddr → List IpAddr
healthy_first ill servers = filter (λ s. not (ill s)) servers ++ filter ill servers

unfoldable pub servers_of : Engine → Bytes → ℕ → List IpAddr
unfolding healthy_first is_demoted scope_named
servers_of e scope now =
    let servers : List IpAddr =
      if bytes_eq scope fallback_scope
      then e.fallback_servers
      else (elim (scope_named scope e.scopes) [ none ↦ [] | some s ↦ s.servers ]) in
    healthy_first (λ s. is_demoted e s scope now) servers

module _ ⦃lv : Levels⦄ where
  unfoldable pub up_scopes : Engine → List Scope
  up_scopes e = filter (λ s. leb lv.link s.level) e.scopes

  -- `Engine::exclusive`
  unfoldable pub exclusive_scope : Engine → Option Scope
  unfolding up_scopes
  exclusive_scope e =
      min_by metric (filter (λ s. s.exclusive && leb lv.addressed s.level) (up_scopes e))

  -- Step 3: a reverse name goes to the scope whose subnet holds the address.
  unfoldable pub subnet_scope : Engine → Name → Option Scope
  subnet_scope e name = elim (reverse_address name) [
    | none ↦ none
    | some addr ↦ min_by metric (filter (λ s. scope_contains s addr) (up_scopes e))
  ]

  -- Steps 4 and 5.
  unfoldable pub default_scope : Engine → Option Scope
  default_scope e = min_by metric (filter (λ s. s.default_route) (up_scopes e))

  unfoldable pub serving_scope : Engine → Option Scope
  serving_scope e = min_by metric (filter (λ s. not (is_empty s.servers)) (up_scopes e))

  unfoldable pub route : Engine → Name → Option Bytes
  route e name = or_scope (exclusive_scope e) (
      or_best (best_scope name (up_scopes e) none) (
        or_scope (subnet_scope e name) (
          or_scope (default_scope e) (
            or_scope (serving_scope e)
              (if is_empty e.fallback_servers then none else some fallback_scope)))))

  -- The search domains that apply to a single label.
  unfoldable pub search_domains : Engine → List Name
  search_domains e = elim (exclusive_scope e) [
    | some x ↦ x.domains
    | none ↦ all_domains (sort_by_metric (up_scopes e)) ++ e.fallback_domains
  ]

  -- `Engine::candidates`
  unfoldable pub candidates : Engine → Name → List Name
  unfolding expand search_domains
  candidates e name = if label_count name == 1 then expand name (search_domains e) [] else name ∷ []
