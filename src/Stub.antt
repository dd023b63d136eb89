-- ===== src/Stub.antt =====
-- resolvd/src/stub.rs: the query that a client of the stub sends, and the reply it is sent.
pub mod ReplyTo
pub mod Queries
pub mod Refusals
pub mod Clients
use resolvd.Prelude.{
  ℕ, ◌+◌, ◌%◌, ◌^◌, Bool, true, false, not, List, [], ◌∷◌, ◌++◌, map, min_by, Option, none, some,
  length, take, drop, leb, ltb, ◌==◌, if◌then◌else◌, Bytes, from_be, to_be, Result, ok, err, stuck,
  ◌>>=◌, ◌>>◌, require, ok_or,
}
use resolvd.Dns.Name.{Name, name_eq, Error}
use resolvd.Dns.Types.{
  Record, Header, default_header, Question, Message, opt_record, record_in, cname, class_in,
  noerror, nxdomain, edns_udp_size,
}
use resolvd.Dns.Message.{reply_to, edns, udp_size, single_question, encode, encode_udp, decode}
use resolvd.Cache.{Outcome, found, not_found, unavailable}
use resolvd.Engine.State.{Answer}

-- `rcode::FORMERR`, `rcode::SERVFAIL` and `rcode::NOTIMP`
abbrev pub formerr : ℕ
formerr = 1

abbrev pub servfail : ℕ
servfail = 2

abbrev pub notimp : ℕ
notimp = 4

abbrev pub empty_message : Message
empty_message = record {
  header = default_header;
  questions = [];
  answers = [];
  authority = [];
  additional = [];
}

-- `encode().ok()`
abbrev pub encoding : Message → Option Bytes
encoding m = elim (encode m) [ ok b ↦ some b | err e ↦ none | stuck ↦ none ]

-- The reply to bytes that do not decode.
abbrev pub form_error : Bytes → Option Bytes
form_error b =
    if leb 12 (length b)
    then encoding (record empty_message {
      header = record default_header { id = from_be (take 2 b); response = true; rcode = formerr };
    })
    else none

abbrev pub with_class : ℕ → Record → Record
with_class class r = record r { class = class }

abbrev pub echoed_opt : Option Record → List Record
echoed_opt none = []
echoed_opt (some o) = with_class o.class (opt_record edns_udp_size false) ∷ []

-- The closure `error`.
abbrev pub error_reply : Message → ℕ → Message
error_reply m code = record (reply_to m) {
  header = record (reply_to m).header { rcode = code };
  additional = echoed_opt (edns m);
}

unfoldable pub check_query : Message → Result (Option Bytes) Message
check_query m =
    if m.header.response
    then err none
    else if not (m.header.opcode == 0)
    then err (encoding (error_reply m notimp))
    else elim (single_question m) [
      | none ↦ err (encoding (error_reply m formerr))
      | some q ↦ if q.class == class_in then ok m else err (encoding (error_reply m notimp))
    ]

unfoldable pub parse_query : Bytes → Result (Option Bytes) Message
unfolding check_query
parse_query b = elim (decode b) [
  | ok m ↦ check_query m
  | err e ↦ err (form_error b)
  | stuck ↦ stuck
]

abbrev pub lowest_ttl : List Record → ℕ → ℕ
lowest_ttl rs other = elim (min_by (λ r. r.ttl) rs) [ none ↦ other | some r ↦ r.ttl ]

-- The alias that leads to an expanded name.
abbrev pub alias_records : Option Question → Option Name → ℕ → List Record
alias_records none resolved ttl = []
alias_records (some q) none ttl = []
alias_records (some q) (some resolved) ttl =
    if name_eq q.name resolved then [] else record_in q.name ttl (cname resolved) ∷ []

abbrev pub reply_rcode : Outcome → ℕ
reply_rcode found = noerror
reply_rcode not_found = nxdomain
reply_rcode unavailable = servfail

abbrev pub reply_answers : Message → Answer → Outcome → List Record
reply_answers q a found =
    alias_records (single_question q) a.resolved_name (lowest_ttl a.records a.negative_ttl)
    ++ a.records
reply_answers q a _ = []

abbrev pub reply_opt : Option Record → List Record
reply_opt none = []
reply_opt (some o) = opt_record edns_udp_size false ∷ []

unfoldable pub build_reply : Message → Answer → Message
build_reply q a = record (reply_to q) {
  header = record (reply_to q).header { rcode = reply_rcode a.outcome };
  answers = reply_answers q a a.outcome;
  additional = reply_opt (edns q);
}

-- The datagram of `answer`, and the bytes that `answer` and `send_tcp` put into a frame.
unfoldable pub udp_answer : Message → Answer → Option Bytes
unfolding build_reply
udp_answer q a = elim (encode_udp (build_reply q a) (udp_size q)) [
  | ok b ↦ some b
  | err e ↦ none
  | stuck ↦ none
]

abbrev pub tcp_frame : Bytes → Bytes
tcp_frame message = to_be 2 (length message % 2 ^ 16) ++ message

unfoldable pub tcp_answer : Message → Answer → Option Bytes
unfolding build_reply
tcp_answer q a = elim (encode (build_reply q a)) [
  | ok b ↦ some (tcp_frame b)
  | err e ↦ none
  | stuck ↦ none
]
