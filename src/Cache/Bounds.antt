-- ===== src/Cache/Bounds.antt =====
-- The cache never outgrows its capacity.
use resolvd.Prelude.{
  ℕ, ◌+◌, ◌≤◌, ◌<◌, ◌≡◌, Bool, true, false, ◌&&◌, not, some, length, filter, length-filter, leb,
  Bool-cases, Option-cases, inl, inr, min_by, min_by-holds, min_by-none, arith, refl, ap, ◌⊎◌,
}
use resolvd.Prelude.Keyed
use resolvd.Prelude.Keyed.{Table}
use resolvd.Cache.{
  CacheKey, cache_keys, Entry, Cache, len, max_entries, expiry, is_live, is_some, evict_soonest,
  make_room, insert,
}

evict_soonest-some :
    (m : Table CacheKey Entry) (victim : CacheKey × Entry)
    → min_by expiry m ≡ some victim
    → evict_soonest m ≡ Keyed.remove victim.0 m
unfolding evict_soonest
evict_soonest-some m victim e = rw (e, evict_soonest)

-- Of a table with an entry, evicting the soonest to expire makes it smaller.
evict_soonest-shrinks :
    (m : Table CacheKey Entry) → 1 ≤ length m → length (evict_soonest m) + 1 ≤ length m
evict_soonest-shrinks m h = elim (Option-cases (min_by expiry m)) [
  | inl e ↦ absurd (omega (arith, ap length (min_by-none expiry m e)))
  | inr (victim, e) ↦
      let (v, present) =
        min_by-holds expiry (λ x. (v : Entry) × (Keyed.get x.0 m ≡ some v)) m victim e
          (Keyed.All-present m) in
      rw (evict_soonest-some m victim e) (Keyed.length-remove_present victim.0 v m present)
]

make_room-lt :
    (now : ℕ) (m : Table CacheKey Entry)
    → length m ≤ max_entries
    → length (make_room now m) < max_entries
unfolding make_room
make_room-lt now m h =
    ground
      (arith, length-filter {0} (is_live now) m, evict_soonest-shrinks (filter (is_live now) m))

-- An insertion adds an entry only under a new key.
grown :
    (k : CacheKey) (e : Entry) (m : Table CacheKey Entry)
    → (length m < max_entries) ⊎ ((length m ≤ max_entries) × (is_some (Keyed.get k m) ≡ true))
    → length (Keyed.insert k e m) ≤ max_entries
grown k e m h = ground (arith, Keyed.length-insert k e m, h)

has_room :
    (n : ℕ) (old : Bool)
    → n ≤ max_entries
    → (leb max_entries n && not old) ≡ false
    → (n < max_entries) ⊎ ((n ≤ max_entries) × (old ≡ true))
has_room n true h e = inr (h, refl)
has_room n false h e = inl (ground arith)

-- Inserting into a cache of at most `max_entries` entries leaves at most as many.
pub insert-bounded :
    (k : CacheKey) (e : Entry) (now : ℕ) (c : Cache)
    → len c ≤ max_entries
    → len (insert k e now c) ≤ max_entries
unfolding insert
insert-bounded k e now c h =
    elim (Bool-cases
      (leb max_entries (length c.entries) && not (is_some (Keyed.get k c.entries)))) [
        | inl full ↦
            rw full (grown k e (make_room now c.entries) (inl (make_room-lt now c.entries h)))
        | inr room ↦ rw room (
            grown k e c.entries
              (has_room (length c.entries) (is_some (Keyed.get k c.entries)) h room))
      ]
