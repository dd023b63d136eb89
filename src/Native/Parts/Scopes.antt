-- ===== src/Native/Parts/Scopes.antt =====
-- The scopes of a status report, in resolvd-core/src/lib.rs.
use resolvd.Prelude.{ℕ, ◌%◌, ◌^◌, Bool, List, [], ◌∷◌, ◌++◌, Bytes, bytes, bytes_eq, if◌then◌else◌}
use resolvd.Msgpack.{write_map, write_str, write_uint, write_bool}
use resolvd.Native.Messages.{ScopeStatus, no_scope}
use resolvd.Native.Fields.{Field, for_each_field, Entry, write_fields}
use resolvd.Native.Request.{entry}
use resolvd.Native.Lists.{ReadOne, write_items}
use resolvd.Native.Parts.Arms.{text_arm, uint_arm, bool_arm, list_arm, skip_arm}

abbrev pub scope_interface : Bytes → ScopeStatus → ScopeStatus
scope_interface v x = record x { interface = v }

abbrev pub scope_servers : List Bytes → ScopeStatus → ScopeStatus
scope_servers v x = record x { servers = v }

abbrev pub scope_domains : List Bytes → ScopeStatus → ScopeStatus
scope_domains v x = record x { domains = v }

abbrev pub scope_default_route : Bool → ScopeStatus → ScopeStatus
scope_default_route v x = record x { default_route = v }

abbrev pub scope_exclusive : Bool → ScopeStatus → ScopeStatus
scope_exclusive v x = record x { exclusive = v }

abbrev pub scope_metric : ℕ → ScopeStatus → ScopeStatus
scope_metric v x = record x { metric = v % 2 ^ 32 }

abbrev pub scope_subnets : List Bytes → ScopeStatus → ScopeStatus
scope_subnets v x = record x { subnets = v }

abbrev pub scope_demoted : List Bytes → ScopeStatus → ScopeStatus
scope_demoted v x = record x { demoted = v }

abbrev pub scope_entries : ScopeStatus → List (Entry ScopeStatus)
scope_entries x =
    entry (bytes "interface") (write_str x.interface) (scope_interface x.interface)
    ∷ entry (bytes "servers") (write_items write_str x.servers) (scope_servers x.servers)
    ∷ entry (bytes "domains") (write_items write_str x.domains) (scope_domains x.domains)
    ∷ entry (bytes "default_route") (write_bool x.default_route)
        (scope_default_route x.default_route)
    ∷ entry (bytes "exclusive") (write_bool x.exclusive) (scope_exclusive x.exclusive)
    ∷ entry (bytes "metric") (write_uint x.metric) (scope_metric x.metric)
    ∷ entry (bytes "subnets") (write_items write_str x.subnets) (scope_subnets x.subnets)
    ∷ entry (bytes "demoted") (write_items write_str x.demoted) (scope_demoted x.demoted)
    ∷ []

unfoldable pub write_scope : ScopeStatus → Bytes
write_scope x = write_map 8 ++ write_fields (scope_entries x)

unfoldable pub scope_field : Field ScopeStatus
scope_field s key r =
    if bytes_eq key (bytes "interface")
    then text_arm scope_interface s r
    else if bytes_eq key (bytes "servers")
    then list_arm scope_servers s r
    else if bytes_eq key (bytes "domains")
    then list_arm scope_domains s r
    else if bytes_eq key (bytes "default_route")
    then bool_arm scope_default_route s r
    else if bytes_eq key (bytes "exclusive")
    then bool_arm scope_exclusive s r
    else if bytes_eq key (bytes "metric")
    then uint_arm scope_metric s r
    else if bytes_eq key (bytes "subnets")
    then list_arm scope_subnets s r
    else if bytes_eq key (bytes "demoted")
    then list_arm scope_demoted s r
    else skip_arm s r

unfoldable pub scope_one : ReadOne ScopeStatus
unfolding scope_field
scope_one = for_each_field scope_field no_scope
