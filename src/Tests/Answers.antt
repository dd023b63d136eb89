-- ===== src/Tests/Answers.antt =====
-- The theorems on the cache and on what is taken from a reply, at a reply with an alias.
use resolvd.Prelude.{
  false, ℕ, ◌*◌, ◌≤◌, ◌<◌, ◌≡◌, refl, [], ◌∷◌, is_empty, none, some, All, Bytes, bytes, bytes_eq,
  if◌then◌else◌, arith,
}
use resolvd.Prelude.Keyed
use resolvd.Net.{v4, second, seconds_left}
use resolvd.Dns.Name.{name_eq, to_lowercase}
use resolvd.Dns.Types.{t_a, t_aaaa}
use resolvd.Cache
use resolvd.Cache.{
  CacheKey, cache_keys, Entry, Outcome, found, unavailable, Cache, max_entries, cache_key, aged,
  key_eq, key_eq_refl,
}
use resolvd.Cache.Bounds.{insert-bounded}
use resolvd.Cache.Lookups.{get-fresh, get-insert, get-flush_scope}
use resolvd.Engine.State.{Lookup, plain_answer, max_negative_ttl, max_positive_ttl}
use resolvd.Engine.Replies.{relevant_records, combine}
use resolvd.Engine.Replies.Chain.{IsRelevant, Reaches, relevant_records-IsRelevant}
use resolvd.Engine.Inputs.{judge}
use resolvd.Engine.Inputs.Ttl.{judge_ttl}
use resolvd.Tests.{www, www_records, www_reply, www_entry}

abbrev wired : Bytes
wired = bytes "eth0"

abbrev www_key : CacheKey
www_key = cache_key www t_a wired

abbrev full : Cache
full = Cache.insert www_key www_entry 0 Cache.empty

abbrev later : ℕ
later = 10 * second

get_test : (Cache.get www_key later full).0 ≡ some (aged www_entry later)
unfolding Cache.get Cache.insert Keyed.get Keyed.insert key_eq name_eq cache_key to_lowercase
    bytes_eq
get_test = refl

insert-bounded_example : Cache.len (Cache.insert www_key www_entry 0 full) ≤ max_entries
insert-bounded_example =
    insert-bounded www_key www_entry 0 full
      (insert-bounded www_key www_entry 0 Cache.empty (omega arith))

get-fresh_example :
    (later < (aged www_entry later).expires)
    × All
        (λ r. r.ttl ≤ seconds_left (aged www_entry later).expires later)
        (aged www_entry later).records
get-fresh_example = get-fresh www_key later full (aged www_entry later) get_test

get-insert_example :
    (Cache.get www_key later (Cache.insert www_key www_entry 0 Cache.empty)).0
    ≡ some (aged www_entry later)
get-insert_example =
    get-insert www_key www_key www_entry 0 later Cache.empty (key_eq_refl www_key) (omega arith)

abbrev tunnel_key : CacheKey
tunnel_key = cache_key www t_a (bytes "tun0")

other_test : key_eq tunnel_key www_key ≡ false
unfolding key_eq cache_key name_eq to_lowercase bytes_eq
other_test = refl

get-flush_scope_example :
    (Cache.get www_key later (Cache.flush_scope wired full)).0
    ≡ (if bytes_eq www_key.scope wired then none else (Cache.get www_key later full).0)
get-flush_scope_example = get-flush_scope wired www_key later full

relevant_records_test :
    relevant_records www_records www t_a
    ≡ (www_records, record { labels = bytes "Host" ∷ bytes "peios" ∷ [] })
unfolding relevant_records name_eq
relevant_records_test = refl

relevant_records-IsRelevant_example :
    All (IsRelevant www_records www t_a) (relevant_records www_records www t_a).0
    × Reaches www_records www (relevant_records www_records www t_a).1
relevant_records-IsRelevant_example = relevant_records-IsRelevant www_records www t_a

judge_ttl_example :
    let v = judge www_reply www t_a in
    (v.ttl ≤ (if is_empty v.records then max_negative_ttl else max_positive_ttl))
    × All (λ r. v.ttl ≤ r.ttl) v.records
judge_ttl_example = judge_ttl www_reply www t_a

abbrev www_lookup : Lookup
www_lookup = record {
  name = www;
  pending = [];
  results =
      (t_aaaa, plain_answer unavailable)
      ∷ (t_a, record (plain_answer found) { records = www_records })
      ∷ [];
}

combine_test : (combine www_lookup).addresses ≡ (v4 0x0a000001, 60) ∷ []
unfolding combine name_eq
combine_test = refl
