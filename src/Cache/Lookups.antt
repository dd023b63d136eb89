-- ===== src/Cache/Lookups.antt =====
-- What a lookup answers after the cache's operations.
use resolvd.Prelude.{
  ℕ, ◌≤◌, ◌<◌, ◌≡◌, ◌⊎◌, subst, ◌∙◌, true, false, not, List, [], ◌∷◌, Option, none, some, leb,
  Bool-cases, Option-cases, inl, inr, if◌then◌else◌, arith, All, ap, map, Bytes, bytes_eq,
}
use resolvd.Prelude.Keyed
use resolvd.Prelude.Keyed.{Table}
use resolvd.Net.{seconds_left}
use resolvd.Dns.Types.{Record}
use resolvd.Cache.{
  CacheKey, cache_keys, Entry, Cache, cap_ttl, aged, get, make_room, insert, flush_scope, key_eq,
  key_eq→SameKey, key_eq_refl, len, max_entries,
}

-- A lookup answers with a copy of the stored entry while that has not expired, and then the cache is
-- unchanged. Otherwise it answers nothing, and an expired entry is gone afterwards.
pub get_cases :
    (k : CacheKey) (now : ℕ) (c : Cache)
    → ((e : Entry) × (Keyed.get k c.entries ≡ some e)
        × (now < e.expires)
        × (get k now c ≡ (some (aged e now), c)))
      ⊎ (((get k now c).0 ≡ none) × (Keyed.get k (get k now c).1.entries ≡ none))
unfolding get
get_cases k now c = elim (Option-cases (Keyed.get k c.entries)) [
  | inl none_there ↦ inr (rw (none_there, get), rw (none_there, get) none_there)
  | inr (e, there) ↦ elim (Bool-cases (leb e.expires now)) [
    | inl old ↦ inr (
      rw (there, get, old),
      rw (there, get, old) (Keyed.get-remove k k c.entries ∙ rw (key_eq_refl k)),
    )
    | inr live ↦ inl (e, there, ground arith, rw (there, get, live))
  ]
]

cap_ttl-le : (n : ℕ) (rs : List Record) → All (λ r. r.ttl ≤ n) (map (cap_ttl n) rs)
unfolding cap_ttl
cap_ttl-le n [] = tt
cap_ttl-le n (r ∷ rs) = (omega arith, cap_ttl-le n rs)

-- Whatever a lookup returns has not expired, and none of its records' TTLs is above the whole seconds
-- that are left of the entry.
pub get-fresh :
    (k : CacheKey) (now : ℕ) (c : Cache) (x : Entry)
    → (get k now c).0 ≡ some x
    → (now < x.expires) × All (λ r. r.ttl ≤ seconds_left x.expires now) x.records
unfolding aged
get-fresh k now c x h = elim (get_cases k now c) [
  | inl (e, there, live, hit) ↦
      let same : aged e now ≡ x = cc (ap (λ (r : Option Entry × Cache). r.0) hit, h) in
      subst (λ x. (now < x.expires) × All (λ r. r.ttl ≤ seconds_left x.expires now) x.records) same
        (live, cap_ttl-le (seconds_left e.expires now) e.records)
  | inr (miss, _) ↦ cc
]

-- An entry is found under its key, and any key equal to it, until it expires.
pub get-insert :
    (k j : CacheKey) (e : Entry) (now later : ℕ) (c : Cache)
    → key_eq k j ≡ true
    → later < e.expires
    → (get j later (insert k e now c)).0 ≡ some (aged e later)
unfolding get insert
get-insert k j e now later c same fresh =
    ground
      (arith, Keyed.get-insert k j e (make_room now c.entries), Keyed.get-insert k j e c.entries)

-- While the cache has room, an insertion changes no answer under another key.
pub get-insert_other :
    (k j : CacheKey) (e : Entry) (now later : ℕ) (c : Cache)
    → key_eq k j ≡ false
    → len c < max_entries
    → (get j later (insert k e now c)).0 ≡ (get j later c).0
unfolding get insert
get-insert_other k j e now later c other room = ground (arith, Keyed.get-insert k j e c.entries)

-- After a scope is flushed no lookup in it finds anything, and every lookup in another scope answers
-- as before.
pub get-flush_scope :
    (scope : Bytes) (k : CacheKey) (now : ℕ) (c : Cache)
    → (get k now (flush_scope scope c)).0
      ≡ (if bytes_eq k.scope scope then none else (get k now c).0)
unfolding get flush_scope
get-flush_scope scope k now c =
    let kept =
      Keyed.get-filter (λ j. not (bytes_eq j.scope scope)) k c.entries
        (λ b e. ap (λ s. not (bytes_eq s scope)) (key_eq→SameKey b k e).scope) in
    ground (arith, kept)
