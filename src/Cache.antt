-- ===== src/Cache.antt =====
-- resolvd/src/cache.rs: the answer cache, keyed by the scope that answered.
pub mod Bounds
pub mod Lookups
use resolvd.Prelude.{
  ℕ, ◌≡◌, Bool, true, false, ◌&&◌, not, List, [], ◌∷◌, map, Option, none, some, length, filter, ltb,
  leb, ◌==◌, ==_refl, ==_iff, &&-elim, sym, ◌∙◌, if◌then◌else◌, Bytes, bytes_eq, bytes_eq_refl,
  bytes_eq_iff, min, min_by,
}
use resolvd.Prelude.Keyed
use resolvd.Prelude.Keyed.{Key, Table}
use resolvd.Net.{IpAddr, seconds_left}
use resolvd.Dns.Name.{Name, to_lowercase, name_eq}
use resolvd.Dns.Case.Equal.{name_eq_refl, name_eq_sym, name_eq_trans}
use resolvd.Dns.Types.{Record}

-- `resolvd_core::Outcome`
pub data Outcome : Type 0 where
  found not_found unavailable : Outcome

abbrev pub max_entries : ℕ
max_entries = 8192

pub record CacheKey : Type 0 where
  pub name : Name
  pub rtype : ℕ
  pub scope : Bytes

-- `CacheKey::new`
unfoldable pub cache_key : Name → ℕ → Bytes → CacheKey
cache_key n t scope = record { name = to_lowercase n; rtype = t; scope = scope }

-- The derived `PartialEq`, which compares names by theirs.
unfoldable pub key_eq : CacheKey → CacheKey → Bool
key_eq a b = name_eq a.name b.name && (a.rtype == b.rtype && bytes_eq a.scope b.scope)

pub record SameKey (a b : CacheKey) : Type 0 where
  pub name : name_eq a.name b.name ≡ true
  pub rtype : a.rtype ≡ b.rtype
  pub scope : a.scope ≡ b.scope

pub key_eq→SameKey : (a b : CacheKey) → key_eq a b ≡ true → SameKey a b
unfolding key_eq
key_eq→SameKey a b h =
    let (p, q) =
      &&-elim (name_eq a.name b.name) (a.rtype == b.rtype && bytes_eq a.scope b.scope) h in
    let (r, s) = &&-elim (a.rtype == b.rtype) (bytes_eq a.scope b.scope) q in
    record { name = p; rtype = (==_iff _ _).0 r; scope = (bytes_eq_iff _ _).0 s }

pub SameKey→key_eq : (a b : CacheKey) → SameKey a b → key_eq a b ≡ true
unfolding key_eq
SameKey→key_eq a b h = rw (h.name, (==_iff _ _).1 h.rtype) ((bytes_eq_iff _ _).1 h.scope)

pub key_eq_refl : (a : CacheKey) → key_eq a a ≡ true
unfolding key_eq
key_eq_refl a = rw (name_eq_refl a.name, ==_refl a.rtype) (bytes_eq_refl a.scope)

pub key_eq_sym : (a b : CacheKey) → key_eq a b ≡ true → key_eq b a ≡ true
key_eq_sym a b h =
    let k = key_eq→SameKey a b h in
    SameKey→key_eq b a
      (record { name = name_eq_sym a.name b.name k.name; rtype = sym k.rtype; scope = sym k.scope })

pub key_eq_trans : (a b c : CacheKey) → key_eq a b ≡ true → key_eq b c ≡ true → key_eq a c ≡ true
key_eq_trans a b c h i =
    let k = key_eq→SameKey a b h in
    let l = key_eq→SameKey b c i in
    SameKey→key_eq a c (record {
      name = name_eq_trans a.name b.name c.name k.name l.name;
      rtype = k.rtype ∙ l.rtype;
      scope = k.scope ∙ l.scope;
    })

instance abbrev pub cache_keys : Key CacheKey
cache_keys = record {
  eq = key_eq;
  eq_refl = key_eq_refl;
  eq_sym = key_eq_sym;
  eq_trans = key_eq_trans;
}

pub record Entry : Type 0 where
  pub outcome : Outcome
  pub records : List Record
  pub rcode : ℕ
  pub server : IpAddr
  pub expires : ℕ

pub record Cache : Type 0 where
  pub entries : Table CacheKey Entry

abbrev pub empty : Cache
empty = record { entries = [] }

abbrev pub len : Cache → ℕ
len c = length c.entries

-- The copy of an entry that a hit returns, its TTLs cut to the time left.
unfoldable pub cap_ttl : ℕ → Record → Record
cap_ttl remaining r = record r { ttl = min r.ttl remaining }

unfoldable pub aged : Entry → ℕ → Entry
unfolding cap_ttl
aged e now = record e { records = map (cap_ttl (seconds_left e.expires now)) e.records }

unfoldable pub get : CacheKey → ℕ → Cache → Option Entry × Cache
get k now c = elim (Keyed.get k c.entries) [
  | none ↦ (none, c)
  | some e ↦
      if leb e.expires now
      then (none, record { entries = Keyed.remove k c.entries })
      else (some (aged e now), c)
]

unfoldable pub is_live : ℕ → CacheKey × Entry → Bool
is_live now x = ltb now x.1.expires

abbrev pub expiry : CacheKey × Entry → ℕ
expiry x = x.1.expires

abbrev pub is_some {ℓ} : {A : Type ℓ} → Option A → Bool
is_some none = false
is_some (some x) = true

-- `min_by_key(expires)` and the removal of the key it names.
unfoldable pub evict_soonest : Table CacheKey Entry → Table CacheKey Entry
evict_soonest m = elim (min_by expiry m) [ none ↦ m | some victim ↦ Keyed.remove victim.0 m ]

-- What a full cache makes room by: first the expired entries go, then the soonest to expire.
unfoldable pub make_room : ℕ → Table CacheKey Entry → Table CacheKey Entry
unfolding evict_soonest is_live
make_room now m =
    let kept = filter (is_live now) m in
    if leb max_entries (length kept) then evict_soonest kept else kept

unfoldable pub insert : CacheKey → Entry → ℕ → Cache → Cache
insert k e now c =
    let room =
      if leb max_entries (length c.entries) && not (is_some (Keyed.get k c.entries))
      then make_room now c.entries
      else c.entries in
    record { entries = Keyed.insert k e room }

unfoldable pub flush_scope : Bytes → Cache → Cache
flush_scope scope c = record { entries = filter (λ x. not (bytes_eq x.0.scope scope)) c.entries }

abbrev pub clear : Cache → Cache
clear c = empty
