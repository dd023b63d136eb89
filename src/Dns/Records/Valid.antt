-- ===== src/Dns/Records/Valid.antt =====
-- Well-formed records: the ranges of their fields, and data of the record's type.
use resolvd.Prelude.{ℕ, ◌^◌, ◌<◌, ◌≤◌, ◌≡◌, length, All, ◌≢◌}
use resolvd.Dns.Name.Valid.{IsName}
use resolvd.Dns.Types.{
  Record, RData, a, aaaa, cname, ptr, ns, soa, mx, srv, txt, opt, unknown, t_a, t_aaaa, t_ns,
  t_cname, t_soa, t_ptr, t_mx, t_txt, t_srv, t_opt,
}
use resolvd.Dns.Records.{write_rdata}

abbrev pub IsUntyped : ℕ → Type 0
IsUntyped t =
    (t ≢ t_a)
    × (t ≢ t_aaaa)
    × (t ≢ t_cname)
    × (t ≢ t_ptr)
    × (t ≢ t_ns)
    × (t ≢ t_soa)
    × (t ≢ t_mx)
    × (t ≢ t_srv)
    × (t ≢ t_txt)
    × (t ≢ t_opt)

-- The data is that of the type `t`, and its fields fit their widths.
abbrev pub IsRData : ℕ → RData → Type 0
IsRData t (a v) = (t ≡ t_a) × (v < 2 ^ 32)
IsRData t (aaaa v) = (t ≡ t_aaaa) × (v < 2 ^ 128)
IsRData t (cname n) = (t ≡ t_cname) × IsName n
IsRData t (ptr n) = (t ≡ t_ptr) × IsName n
IsRData t (ns n) = (t ≡ t_ns) × IsName n
IsRData t (soa mname rname serial refresh retry expire minimum) =
    (t ≡ t_soa)
    × IsName mname
    × IsName rname
    × (serial < 2 ^ 32)
    × (refresh < 2 ^ 32)
    × (retry < 2 ^ 32)
    × (expire < 2 ^ 32)
    × (minimum < 2 ^ 32)
IsRData t (mx preference exchange) = (t ≡ t_mx) × (preference < 2 ^ 16) × IsName exchange
IsRData t (srv priority weight port target) =
    (t ≡ t_srv) × (priority < 2 ^ 16) × (weight < 2 ^ 16) × (port < 2 ^ 16) × IsName target
IsRData t (txt strings) = (t ≡ t_txt) × All (λ s. length s ≤ 255) strings
IsRData t (opt b) = t ≡ t_opt
IsRData t (unknown b) = IsUntyped t

pub record IsRecord (r : Record) : Type 0 where
  pub name : IsName r.name
  pub rtype : r.rtype < 2 ^ 16
  pub class : r.class < 2 ^ 16
  pub ttl : r.ttl < 2 ^ 32
  pub rdata : IsRData r.rtype r.rdata
  pub size : length (write_rdata r.rdata) < 2 ^ 16
