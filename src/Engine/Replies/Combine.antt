-- ===== src/Engine/Replies/Combine.antt =====
-- What `Engine::combine` of resolvd/src/engine.rs makes of the results of a lookup.
use resolvd.Prelude.{ℕ, ◌≡◌, ◌≢◌, Bool, true, false, ◌||◌, List, [], ◌∷◌, ◌++◌, any}
use resolvd.Net.{IpAddr}
use resolvd.Dns.Name.{Name}
use resolvd.Cache.{found, not_found, unavailable}
use resolvd.Engine.State.{Answer}
use resolvd.Engine.Replies.Chase.{Leads, Lists}
use resolvd.Engine.Replies.{Folding, chase, or_name}

abbrev pub is_found : ℕ × Answer → Bool
is_found (t, x) = elim x.outcome [ found ↦ true | unavailable ↦ false | not_found ↦ false ]

abbrev pub is_unavailable : ℕ × Answer → Bool
is_unavailable (t, x) = elim x.outcome [ found ↦ false | unavailable ↦ true | not_found ↦ false ]

-- The addresses of one result: those at the end of its alias chain.
abbrev addresses_of : Name → ℕ × Answer → List (IpAddr × ℕ)
addresses_of name (t, x) = elim x.outcome [
  | found ↦ (chase x.records (or_name x.resolved_name name) t).1
  | unavailable ↦ []
  | not_found ↦ []
]

abbrev all_addresses : Name → List (ℕ × Answer) → List (IpAddr × ℕ)
all_addresses name [] = []
all_addresses name (x ∷ xs) = addresses_of name x ++ all_addresses name xs

-- One turn of the loop.
record IsTurn (name : Name) (x : ℕ × Answer) (f g : Folding) : Type 0 where
  any_found : g.any_found ≡ (f.any_found || is_found x)
  any_unavailable : g.any_unavailable ≡ (f.any_unavailable || is_unavailable x)
  addresses : g.out.addresses ≡ f.out.addresses ++ addresses_of name x

record IsFold (name : Name) (xs : List (ℕ × Answer)) (f g : Folding) : Type 0 where
  any_found : g.any_found ≡ (f.any_found || any is_found xs)
  any_unavailable : g.any_unavailable ≡ (f.any_unavailable || any is_unavailable xs)
  addresses : g.out.addresses ≡ f.out.addresses ++ all_addresses name xs

-- The addresses of the results that are found, in their order: of each, those of its type at the end
-- of the chain of aliases that starts at the name it was resolved under, or at the name looked up.
pub data Gathers (name : Name) : List (ℕ × Answer) → List (IpAddr × ℕ) → Type 0 where
  no_results : Gathers name [] []
  passed :
      (t : ℕ) (x : Answer) (rest : List (ℕ × Answer)) (out : List (IpAddr × ℕ))
      → x.outcome ≢ found
      → Gathers name rest out
      → Gathers name ((t, x) ∷ rest) out
  gathered :
      (t : ℕ) (x : Answer) (rest : List (ℕ × Answer)) (end : Name) (own out : List (IpAddr × ℕ))
      → x.outcome ≡ found
      → Leads x.records t 16 (or_name x.resolved_name name) end
      → Lists t end x.records own
      → Gathers name rest out
      → Gathers name ((t, x) ∷ rest) (own ++ out)
