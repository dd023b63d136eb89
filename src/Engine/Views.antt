-- ===== src/Engine/Views.antt =====
-- What the main loop reads of the engine: cache_entries, demoted, next_deadline and in_flight of
-- resolvd/src/engine.rs.
use resolvd.Prelude.{
  ℕ, ◌≤◌, ◌<◌, ◌≡◌, refl, List, [], ◌∷◌, map, filter, All, Option, none, some, length, ltb, leb,
  false, Option-cases, inl, inr, min_by, min_by-le, min_by-none, arith,
}
use resolvd.Prelude.Keyed.{Table}
use resolvd.Net.{IpAddr}
use resolvd.Cache.{len}
use resolvd.Engine.State.{Engine, Tx}
use resolvd.Engine.Inputs.{expired_txs, fail_all, tick}

unfoldable cache_entries : Engine → ℕ
cache_entries e = len e.cache

unfoldable demoted : ℕ → Engine → List IpAddr
demoted now e = map (λ x. x.0.0) (filter (λ x. ltb now x.1) e.demoted)

abbrev pub deadline_of : ℕ × Tx → ℕ
deadline_of x = x.1.deadline

abbrev pub earliest : Option (ℕ × Tx) → Option ℕ
earliest none = none
earliest (some x) = some (deadline_of x)

unfoldable pub next_deadline : Engine → Option ℕ
unfolding min_by
next_deadline e = earliest (min_by deadline_of e.txs)

unfoldable in_flight : Engine → ℕ
in_flight e = length e.txs

-- Nothing is due before an instant.
abbrev pub Early : ℕ → Option ℕ → Type 0
Early now none = Unit {0}
Early now (some t) = now < t

expired_txs-none :
    (now t : ℕ) (m : Table ℕ Tx) → now < t → All (λ x. t ≤ deadline_of x) m → expired_txs now m ≡ []
unfolding expired_txs
expired_txs-none now t [] early h = refl
expired_txs-none now t (x ∷ m) early h =
    let later : leb x.1.deadline now ≡ false = ground (arith, h.0) in
    rw (later, expired_txs-none now t m early h.1) refl

expired_txs-Early :
    (now : ℕ) (m : Table ℕ Tx)
    → Early now (earliest (min_by deadline_of m))
    → expired_txs now m ≡ []
unfolding expired_txs
expired_txs-Early now m early = elim (Option-cases (min_by deadline_of m)) [
  | inl e ↦ rw (min_by-none deadline_of m e) refl
  | inr (x, e) ↦
      expired_txs-none now (deadline_of x) m (rw e at early) (min_by-le deadline_of m x e)
]

-- Before the next deadline, or where there is none, `tick` changes nothing and asks for nothing: a
-- loop that sleeps until `next_deadline` misses nothing.
pub tick-Early : (now : ℕ) (e : Engine) → Early now (next_deadline e) → tick now e ≡ (e, [])
unfolding tick fail_all next_deadline
tick-Early now e early = rw (expired_txs-Early now e.txs early) refl
