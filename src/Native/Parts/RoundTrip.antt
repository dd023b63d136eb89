-- ===== src/Native/Parts/RoundTrip.antt =====
-- The maps inside a reply are read back.
use resolvd.Prelude.{
  ℕ, ◌%◌, ◌^◌, ◌≡◌, ◌≤◌, ◌<◌, refl, ◌++◌, All, length, Bytes, bytes, bytes_eq, is_utf8, ok, arith,
}
use mathlib.Core.List.{append_assoc}
use resolvd.Msgpack.{write_map}
use resolvd.Msgpack.RoundTrip.{at, IsText}
use resolvd.Native.Messages.{RecordOut, no_record, ScopeStatus, no_scope, CountersOut}
use resolvd.Native.Fields.{IsEntry, for_each_field, write_fields, for_each_field-write}
use resolvd.Native.Lists.{IsItem}
use resolvd.Native.Parts.Entries.{
  text-IsEntry, bin-IsEntry, uint-IsEntry, bool-IsEntry, list-IsEntry, AreTexts,
}
use resolvd.Native.Parts.Records.{
  record_field, record_entries, write_record, record_one, record_name, record_type, record_ttl,
  record_data, record_text,
}
use resolvd.Native.Parts.Scopes.{
  scope_field, scope_entries, write_scope, scope_one, scope_interface, scope_servers, scope_domains,
  scope_default_route, scope_exclusive, scope_metric, scope_subnets, scope_demoted,
}
use resolvd.Native.Parts.Counters.{
  counter_field, counter_entries, write_counters, count_queries, count_synthetic, count_cache_hits,
  count_sent, count_answered, count_failed, count_refused,
}

pub write_map_pos : (n : ℕ) (t : Bytes) → 1 ≤ length (write_map n ++ t)
unfolding write_map
write_map_pos n t = ground arith

pub record IsRecordOut (x : RecordOut) : Type 0 where
  pub name : IsText x.name
  pub rtype : x.rtype < 2 ^ 16
  pub ttl : x.ttl < 2 ^ 32
  pub data_wire : length x.data_wire < 2 ^ 32
  pub text : IsText x.text

record_entries-IsEntry :
    (x : RecordOut) → IsRecordOut x → All (IsEntry record_field) (record_entries x)
unfolding record_field bytes_eq is_utf8
record_entries-IsEntry x h = (
  text-IsEntry record_field (bytes "name") (refl, omega arith) record_name (λ s r. refl) x.name
      h.name,
  (
    uint-IsEntry record_field (bytes "type") (refl, omega arith) record_type (λ s r. refl) x.rtype
        (omega (arith, h.rtype)),
    (
      uint-IsEntry record_field (bytes "ttl") (refl, omega arith) record_ttl (λ s r. refl) x.ttl
          (omega (arith, h.ttl)),
      (
        bin-IsEntry record_field (bytes "data") (refl, omega arith) record_data (λ s r. refl)
            x.data_wire h.data_wire,
        (
          text-IsEntry record_field (bytes "text") (refl, omega arith) record_text (λ s r. refl)
              x.text h.text,
          tt,
        ),
      ),
    ),
  ),
)

pub record-IsItem : (x : RecordOut) → IsRecordOut x → IsItem write_record record_one x
unfolding write_record record_one bytes_eq
record-IsItem x h = record {
  long = write_map_pos 5 (write_fields (record_entries x));
  reads = λ t d.
      let t16 : x.rtype % 2 ^ 16 ≡ x.rtype = omega (arith, h.rtype) in
      let t32 : x.ttl % 2 ^ 32 ≡ x.ttl = omega (arith, h.ttl) in
      rw
        (
          append_assoc (write_map 5) (write_fields (record_entries x)) t,
          for_each_field-write record_field 5 (record_entries x) no_record t d refl (omega arith)
              (record_entries-IsEntry x h) refl,
          t16,
          t32,
        )
        refl;
}

pub record IsScopeStatus (x : ScopeStatus) : Type 0 where
  pub interface : IsText x.interface
  pub servers : AreTexts x.servers
  pub domains : AreTexts x.domains
  pub metric : x.metric < 2 ^ 32
  pub subnets : AreTexts x.subnets
  pub demoted : AreTexts x.demoted

scope_entries-IsEntry :
    (x : ScopeStatus) → IsScopeStatus x → All (IsEntry scope_field) (scope_entries x)
unfolding scope_field bytes_eq is_utf8
scope_entries-IsEntry x h = (
  text-IsEntry scope_field (bytes "interface") (refl, omega arith) scope_interface (λ s r. refl)
      x.interface h.interface,
  (
    list-IsEntry scope_field (bytes "servers") (refl, omega arith) scope_servers (λ s r. refl)
        x.servers h.servers,
    (
      list-IsEntry scope_field (bytes "domains") (refl, omega arith) scope_domains (λ s r. refl)
          x.domains h.domains,
      (
        bool-IsEntry scope_field (bytes "default_route") (refl, omega arith) scope_default_route
            (λ s r. refl) x.default_route,
        (
          bool-IsEntry scope_field (bytes "exclusive") (refl, omega arith) scope_exclusive
              (λ s r. refl) x.exclusive,
          (
            uint-IsEntry scope_field (bytes "metric") (refl, omega arith) scope_metric (λ s r. refl)
                x.metric (omega (arith, h.metric)),
            (
              list-IsEntry scope_field (bytes "subnets") (refl, omega arith) scope_subnets
                  (λ s r. refl) x.subnets h.subnets,
              (
                list-IsEntry scope_field (bytes "demoted") (refl, omega arith) scope_demoted
                    (λ s r. refl) x.demoted h.demoted,
                tt,
              ),
            ),
          ),
        ),
      ),
    ),
  ),
)

pub scope-IsItem : (x : ScopeStatus) → IsScopeStatus x → IsItem write_scope scope_one x
unfolding write_scope scope_one bytes_eq
scope-IsItem x h = record {
  long = write_map_pos 8 (write_fields (scope_entries x));
  reads = λ t d.
      let t32 : x.metric % 2 ^ 32 ≡ x.metric = omega (arith, h.metric) in
      rw
        (
          append_assoc (write_map 8) (write_fields (scope_entries x)) t,
          for_each_field-write scope_field 8 (scope_entries x) no_scope t d refl (omega arith)
              (scope_entries-IsEntry x h) refl,
          t32,
        )
        refl;
}

pub record AreCounters (x : CountersOut) : Type 0 where
  pub queries : x.queries < 2 ^ 63
  pub synthetic : x.synthetic < 2 ^ 63
  pub cache_hits : x.cache_hits < 2 ^ 63
  pub sent : x.upstream_sent < 2 ^ 63
  pub answered : x.upstream_answered < 2 ^ 63
  pub failed : x.upstream_failed < 2 ^ 63
  pub refused : x.refused < 2 ^ 63

counter_entries-IsEntry :
    (x : CountersOut) → AreCounters x → All (IsEntry counter_field) (counter_entries x)
unfolding counter_field bytes_eq is_utf8
counter_entries-IsEntry x h = (
  uint-IsEntry counter_field (bytes "queries") (refl, omega arith) count_queries (λ s r. refl)
      x.queries h.queries,
  (
    uint-IsEntry counter_field (bytes "synthetic") (refl, omega arith) count_synthetic (λ s r. refl)
        x.synthetic h.synthetic,
    (
      uint-IsEntry counter_field (bytes "cache_hits") (refl, omega arith) count_cache_hits
          (λ s r. refl) x.cache_hits h.cache_hits,
      (
        uint-IsEntry counter_field (bytes "upstream_sent") (refl, omega arith) count_sent
            (λ s r. refl) x.upstream_sent h.sent,
        (
          uint-IsEntry counter_field (bytes "upstream_answered") (refl, omega arith) count_answered
              (λ s r. refl) x.upstream_answered h.answered,
          (
            uint-IsEntry counter_field (bytes "upstream_failed") (refl, omega arith) count_failed
                (λ s r. refl) x.upstream_failed h.failed,
            (
              uint-IsEntry counter_field (bytes "refused") (refl, omega arith) count_refused
                  (λ s r. refl) x.refused h.refused,
              tt,
            ),
          ),
        ),
      ),
    ),
  ),
)

pub write_counters_pos : (x : CountersOut) → 1 ≤ length (write_counters x)
unfolding write_counters
write_counters_pos x = write_map_pos 7 (write_fields (counter_entries x))

pub counters-write_counters :
    (x c : CountersOut) (t : Bytes) (d : ℕ)
    → AreCounters x
    → for_each_field counter_field c (at (write_counters x ++ t) d) ≡ ok (x, at t d)
unfolding write_counters bytes_eq
counters-write_counters x c t d h =
    rw
      (
        append_assoc (write_map 7) (write_fields (counter_entries x)) t,
        for_each_field-write counter_field 7 (counter_entries x) c t d refl (omega arith)
            (counter_entries-IsEntry x h) refl,
      )
      refl
