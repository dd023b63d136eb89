-- ===== src/Native/Parts/Counters.antt =====
-- The counters of a status report, in resolvd-core/src/lib.rs.
use resolvd.Prelude.{ℕ, List, [], ◌∷◌, ◌++◌, Bytes, bytes, bytes_eq, if◌then◌else◌}
use resolvd.Msgpack.{write_map, write_uint}
use resolvd.Native.Messages.{CountersOut}
use resolvd.Native.Fields.{Field, Entry, write_fields}
use resolvd.Native.Request.{entry}
use resolvd.Native.Parts.Arms.{uint_arm, skip_arm}

abbrev pub count_queries : ℕ → CountersOut → CountersOut
count_queries v c = record c { queries = v }

abbrev pub count_synthetic : ℕ → CountersOut → CountersOut
count_synthetic v c = record c { synthetic = v }

abbrev pub count_cache_hits : ℕ → CountersOut → CountersOut
count_cache_hits v c = record c { cache_hits = v }

abbrev pub count_sent : ℕ → CountersOut → CountersOut
count_sent v c = record c { upstream_sent = v }

abbrev pub count_answered : ℕ → CountersOut → CountersOut
count_answered v c = record c { upstream_answered = v }

abbrev pub count_failed : ℕ → CountersOut → CountersOut
count_failed v c = record c { upstream_failed = v }

abbrev pub count_refused : ℕ → CountersOut → CountersOut
count_refused v c = record c { refused = v }

abbrev pub counter_entries : CountersOut → List (Entry CountersOut)
counter_entries c =
    entry (bytes "queries") (write_uint c.queries) (count_queries c.queries)
    ∷ entry (bytes "synthetic") (write_uint c.synthetic) (count_synthetic c.synthetic)
    ∷ entry (bytes "cache_hits") (write_uint c.cache_hits) (count_cache_hits c.cache_hits)
    ∷ entry (bytes "upstream_sent") (write_uint c.upstream_sent) (count_sent c.upstream_sent)
    ∷ entry (bytes "upstream_answered") (write_uint c.upstream_answered)
        (count_answered c.upstream_answered)
    ∷ entry (bytes "upstream_failed") (write_uint c.upstream_failed)
        (count_failed c.upstream_failed)
    ∷ entry (bytes "refused") (write_uint c.refused) (count_refused c.refused)
    ∷ []

unfoldable pub write_counters : CountersOut → Bytes
write_counters c = write_map 7 ++ write_fields (counter_entries c)

unfoldable pub counter_field : Field CountersOut
counter_field s key r =
    if bytes_eq key (bytes "queries")
    then uint_arm count_queries s r
    else if bytes_eq key (bytes "synthetic")
    then uint_arm count_synthetic s r
    else if bytes_eq key (bytes "cache_hits")
    then uint_arm count_cache_hits s r
    else if bytes_eq key (bytes "upstream_sent")
    then uint_arm count_sent s r
    else if bytes_eq key (bytes "upstream_answered")
    then uint_arm count_answered s r
    else if bytes_eq key (bytes "upstream_failed")
    then uint_arm count_failed s r
    else if bytes_eq key (bytes "refused")
    then uint_arm count_refused s r
    else skip_arm s r
