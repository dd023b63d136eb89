-- ===== src/Engine/Local.antt =====
-- `Engine::synthetic` of resolvd/src/engine.rs: the answers that need no network.
use resolvd.Prelude.{
  ℕ, ◌/◌, ◌^◌, Bool, false, ◌&&◌, ◌||◌, not, List, [], ◌∷◌, ◌++◌, map, Option, none, some, filter,
  leb, ◌==◌, if◌then◌else◌, bytes,
}
use resolvd.Prelude.Keyed
use resolvd.Prelude.Keyed.{Table}
use resolvd.Net.{IpAddr, v4, v6, ip_eq, has_ip, localhost_v4, localhost_v6}
use resolvd.Dns.Name.{Name, ends_with, name_eq, to_lowercase}
use resolvd.Dns.Case.Equal.{name_key}
use resolvd.Dns.Display.{display, bytes_le, first_by}
use resolvd.Dns.Types.{Record, record_in, a, aaaa, ptr, t_a, t_aaaa, t_ptr, t_any}
use resolvd.Dns.Reverse.{reverse_address}
use resolvd.Cache.{found, not_found}
use resolvd.Engine.State.{Scope, Engine, Levels, Answer, plain_answer, Source, synthetic, hosts}

abbrev pub localhost_name : Name
localhost_name = record { labels = bytes "localhost" ∷ [] }

abbrev pub local_name : Name
local_name = record { labels = bytes "local" ∷ [] }

unfoldable pub is_loopback : IpAddr → Bool
is_loopback (v4 x) = x / 2 ^ 24 == 127
is_loopback (v6 x) = x == 1

-- `Vec::dedup`, with the last address kept: of equal neighbours the first stays.
unfoldable pub dedup_from : IpAddr → List IpAddr → List IpAddr
dedup_from last [] = []
dedup_from last (x ∷ l) = let rest = dedup_from x l in if ip_eq x last then rest else x ∷ rest

unfoldable pub dedup : List IpAddr → List IpAddr
unfolding dedup_from
dedup [] = []
dedup (x ∷ l) = x ∷ dedup_from x l

unfoldable pub scope_addresses : List Scope → List IpAddr
scope_addresses [] = []
scope_addresses (s ∷ ss) = map (λ x. x.0) s.addresses ++ scope_addresses ss

-- The closures `addresses` and `found`.
abbrev pub address_record : Name → ℕ → IpAddr → List Record
address_record name rtype (v4 x) =
    if rtype == t_a || rtype == t_any then record_in name 0 (a x) ∷ [] else []
address_record name rtype (v6 x) =
    if rtype == t_aaaa || rtype == t_any then record_in name 0 (aaaa x) ∷ [] else []

unfoldable pub address_records : Name → ℕ → List IpAddr → List Record
address_records name rtype [] = []
address_records name rtype (x ∷ l) = address_record name rtype x ++ address_records name rtype l

abbrev pub found_answer : Name → List Record → Source → Answer
found_answer name records source = record (plain_answer found) {
  records = records;
  source = source;
  resolved_name = some name;
}

abbrev pub ptr_answer : Name → Name → Source → Answer
ptr_answer name target source = found_answer name (record_in name 0 (ptr target) ∷ []) source

abbrev pub addresses_answer : Name → ℕ → List IpAddr → Source → Answer
addresses_answer name rtype addrs source =
    found_answer name (address_records name rtype addrs) source

abbrev pub or_loopback : List IpAddr → List IpAddr
or_loopback [] = localhost_v4 ∷ localhost_v6 ∷ []
or_loopback (x ∷ l) = x ∷ l

abbrev pub is_hostname : Option Name → Name → Bool
is_hostname none name = false
is_hostname (some h) name = name_eq h name

-- The static host that an address is reversed to: the first in the order of presentation.
abbrev presentation_le : Name × List IpAddr → Name × List IpAddr → Bool
presentation_le x y = bytes_le (display (to_lowercase x.0)) (display (to_lowercase y.0))

unfoldable pub reverse_host : IpAddr → Table Name (List IpAddr) → Option Name
reverse_host addr m = elim (first_by presentation_le (filter (λ x. has_ip x.1 addr) m)) [
  | none ↦ none
  | some x ↦ some x.0
]

module _ ⦃lv : Levels⦄ where
  unfoldable pub own_addresses : Engine → List IpAddr
  unfolding dedup scope_addresses is_loopback
  own_addresses e = dedup (
      filter (λ x. not (is_loopback x))
        (scope_addresses (filter (λ s. leb lv.addressed s.level) e.scopes)))

  -- The arm of a reverse name that was asked for PTR or ANY.
  unfoldable pub reverse_answer : Engine → Name → IpAddr → Option Answer
  reverse_answer e name addr =
      if is_loopback addr
      then some (ptr_answer name localhost_name synthetic)
      else (elim (reverse_host addr e.hosts) [
        | some host ↦ some (ptr_answer name host hosts)
        | none ↦ (elim e.hostname [
          | none ↦ none
          | some h ↦
              if has_ip (own_addresses e) addr then some (ptr_answer name h synthetic) else none
        ])
      ])

  unfoldable pub reverse_arm : Engine → Name → ℕ → Option Answer
  unfolding reverse_answer
  reverse_arm e name rtype = elim (reverse_address name) [
    | none ↦ none
    | some addr ↦
        if not (rtype == t_ptr) && not (rtype == t_any) then none else reverse_answer e name addr
  ]

  unfoldable pub synthetic_answer : Engine → Name → ℕ → Option Answer
  synthetic_answer e name rtype =
      if name_eq name localhost_name || ends_with name localhost_name
      then some (addresses_answer name rtype (localhost_v4 ∷ localhost_v6 ∷ []) synthetic)
      else (elim (Keyed.get name e.hosts) [
        | some addrs ↦ some (addresses_answer name rtype addrs hosts)
        | none ↦
            if is_hostname e.hostname name
            then some (addresses_answer name rtype (or_loopback (own_addresses e)) synthetic)
            else if ends_with name local_name
            then some (record (plain_answer not_found) { source = synthetic })
            else reverse_arm e name rtype
      ])
