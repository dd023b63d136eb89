-- ===== src/Dns/Types.antt =====
-- The data of dns/src/lib.rs: constants, header, questions, records, messages. Fixed-width integers
-- are numbers; `Ipv4Addr` and `Ipv6Addr` are the 32-bit and 128-bit numbers of their octets.
use resolvd.Prelude.{ℕ, Bool, false, List, [], Bytes, if◌then◌else◌}
use resolvd.Dns.Name.{Name, root}

-- `rtype`
abbrev pub t_a : ℕ
t_a = 1

abbrev pub t_ns : ℕ
t_ns = 2

abbrev pub t_cname : ℕ
t_cname = 5

abbrev pub t_soa : ℕ
t_soa = 6

abbrev pub t_ptr : ℕ
t_ptr = 12

abbrev pub t_mx : ℕ
t_mx = 15

abbrev pub t_txt : ℕ
t_txt = 16

abbrev pub t_aaaa : ℕ
t_aaaa = 28

abbrev pub t_srv : ℕ
t_srv = 33

abbrev pub t_opt : ℕ
t_opt = 41

abbrev pub t_any : ℕ
t_any = 255

-- `class`
abbrev pub class_in : ℕ
class_in = 1

-- `rcode`
abbrev pub noerror : ℕ
noerror = 0

abbrev pub nxdomain : ℕ
nxdomain = 3

abbrev pub classic_udp_size : ℕ
classic_udp_size = 512

abbrev pub edns_udp_size : ℕ
edns_udp_size = 1232

pub record Header : Type 0 where
  pub id : ℕ
  pub response : Bool
  pub opcode : ℕ
  pub authoritative : Bool
  pub truncated : Bool
  pub recursion_desired : Bool
  pub recursion_available : Bool
  pub authentic_data : Bool
  pub checking_disabled : Bool
  pub rcode : ℕ

-- `Header::default()`
abbrev pub default_header : Header
default_header = record {
  id = 0;
  response = false;
  opcode = 0;
  authoritative = false;
  truncated = false;
  recursion_desired = false;
  recursion_available = false;
  authentic_data = false;
  checking_disabled = false;
  rcode = 0;
}

pub record Question : Type 0 where
  pub name : Name
  pub rtype : ℕ
  pub class : ℕ

-- `Question::new`
abbrev pub question_in : Name → ℕ → Question
question_in n t = record { name = n; rtype = t; class = class_in }

pub data RData : Type 0 where
  a : ℕ → RData
  aaaa : ℕ → RData
  cname : Name → RData
  ptr : Name → RData
  ns : Name → RData
  soa : (mname rname : Name) (serial refresh retry expire minimum : ℕ) → RData
  mx : (preference : ℕ) (exchange : Name) → RData
  srv : (priority weight port : ℕ) (target : Name) → RData
  txt : List Bytes → RData
  opt : Bytes → RData
  unknown : Bytes → RData

pub record Record : Type 0 where
  pub name : Name
  pub rtype : ℕ
  pub class : ℕ
  pub ttl : ℕ
  pub rdata : RData

abbrev pub rdata_type : RData → ℕ
rdata_type (a _) = t_a
rdata_type (aaaa _) = t_aaaa
rdata_type (cname _) = t_cname
rdata_type (ptr _) = t_ptr
rdata_type (ns _) = t_ns
rdata_type (soa _ _ _ _ _ _ _) = t_soa
rdata_type (mx _ _) = t_mx
rdata_type (srv _ _ _ _) = t_srv
rdata_type (txt _) = t_txt
rdata_type (opt _) = t_opt
rdata_type (unknown _) = 0

-- `Record::new`
abbrev pub record_in : Name → ℕ → RData → Record
record_in n ttl d = record {
  name = n;
  rtype = rdata_type d;
  class = class_in;
  ttl = ttl;
  rdata = d;
}

-- `Record::opt`
abbrev pub opt_record : ℕ → Bool → Record
opt_record udp_size do_bit = record {
  name = root;
  rtype = t_opt;
  class = udp_size;
  ttl = if do_bit then 0x8000 else 0;
  rdata = opt [];
}

pub record Message : Type 0 where
  pub header : Header
  pub questions : List Question
  pub answers : List Record
  pub authority : List Record
  pub additional : List Record
