-- ===== src/Dns/Message.antt =====
-- `Message` of dns/src/lib.rs.
pub mod RoundTrip
pub mod Udp
use resolvd.Prelude.{
  ℕ, zero, suc, ◌+◌, ◌*◌, ◌%◌, ◌/◌, ◌^◌, not, Bool, true, false, List, [], ◌∷◌, ◌++◌, Option, none,
  some, length, get_elem?, take, drop, find, ltb, leb, ◌==◌, if◌then◌else◌, Bytes, slice, Result,
  ok, err, stuck, ◌>>=◌, ◌>>◌, require, ok_or, to_be, from_be, max,
}
use resolvd.Dns.Name.{Name, Error, truncated, too_large, max_message_size}
use resolvd.Dns.Wire.{write, read}
use resolvd.Dns.Types.{
  Record, RData, Header, default_header, Question, Message, opt_record, t_opt, classic_udp_size,
  edns_udp_size,
}
use resolvd.Dns.Header.{flags, from_flags}
use resolvd.Dns.Records.{write_record, read_rdata}

-- `Message::query` and `Message::reply_to`
unfoldable pub query : ℕ → Question → Message
query id q = record {
  header = record default_header { id = id; recursion_desired = true };
  questions = q ∷ [];
  answers = [];
  authority = [];
  additional = opt_record edns_udp_size false ∷ [];
}

unfoldable pub reply_to : Message → Message
reply_to m = record {
  header = record default_header {
    id = m.header.id;
    response = true;
    opcode = m.header.opcode;
    recursion_desired = m.header.recursion_desired;
    recursion_available = true;
    checking_disabled = m.header.checking_disabled;
  };
  questions = m.questions;
  answers = [];
  authority = [];
  additional = [];
}

-- `Message::opt`
unfoldable pub edns : Message → Option Record
edns m = find (λ r. r.rtype == t_opt) m.additional

unfoldable pub udp_size : Message → ℕ
unfolding edns
udp_size m = elim (edns m) [ none ↦ classic_udp_size | some o ↦ max o.class classic_udp_size ]

-- `Message::rcode`: the extended bits stand above the four of the header, so `|` is a sum.
unfoldable pub full_rcode : Message → ℕ
unfolding edns
full_rcode m =
    let ext : ℕ = elim (edns m) [ none ↦ 0 | some o ↦ o.ttl / 2 ^ 24 % 2 ^ 8 ] in
    ext * 2 ^ 4 + m.header.rcode

-- `Message::question`
unfoldable pub single_question : Message → Option Question
single_question m = elim m.questions [
  | [] ↦ none
  | q ∷ qs ↦ (elim qs [ [] ↦ some q | r ∷ rs ↦ none ])
]

unfoldable pub write_question : Question → Bytes
write_question q = write q.name ++ (to_be 2 q.rtype ++ to_be 2 q.class)

unfoldable pub write_questions : List Question → Bytes
write_questions [] = []
write_questions (q ∷ qs) = write_question q ++ write_questions qs

unfoldable pub write_records : List Record → Bytes
write_records [] = []
write_records (r ∷ rs) = write_record r ++ write_records rs

abbrev pub too_many : ℕ → Bool
too_many n = ltb 65_535 n

abbrev pub encoded : Message → Bytes
encoded m =
    to_be 2 m.header.id
    ++ (to_be 2 (flags m.header)
        ++ (to_be 2 (length m.questions)
            ++ (to_be 2 (length m.answers)
                ++ (to_be 2 (length m.authority)
                    ++ (to_be 2 (length m.additional)
                        ++ (write_questions m.questions
                            ++ (write_records m.answers
                                ++ (write_records m.authority ++ write_records m.additional))))))))

unfoldable pub encode : Message → Result Error Bytes
encode m = do
  require (not (too_many (length m.questions))) too_large
  require (not (too_many (length m.answers))) too_large
  require (not (too_many (length m.authority))) too_large
  require (not (too_many (length m.additional))) too_large
  require (not (ltb max_message_size (length (encoded m)))) too_large
  ok (encoded m)

abbrev pub option_list {ℓ} : {A : Type ℓ} → Option A → List A
option_list none = []
option_list (some x) = x ∷ []

-- The message that `encode_udp` sends in place of one that exceeds the limit.
unfoldable pub cut : Message → Message
unfolding edns
cut m = record {
  header = record m.header { truncated = true };
  questions = m.questions;
  answers = [];
  authority = [];
  additional = option_list (edns m);
}

unfoldable pub encode_udp : Message → ℕ → Result Error Bytes
encode_udp m limit = do full ← encode m; if leb (length full) limit then ok full else encode (cut m)

unfoldable pub read_question : Bytes → ℕ → Result Error (Question × ℕ)
read_question msg p = do
  (name, next) ← read msg p
  b ← ok_or (slice msg next 4) truncated
  ok (record { name = name; rtype = from_be (take 2 b); class = from_be (drop 2 b) }, next + 4)

unfoldable pub read_questions : ℕ → Bytes → ℕ → Result Error (List Question × ℕ)
read_questions zero msg p = ok ([], p)
read_questions (suc count) msg p = do
  (q, next) ← read_question msg p
  (qs, end) ← read_questions count msg next
  ok (q ∷ qs, end)

unfoldable pub read_record : Bytes → ℕ → Result Error (Record × ℕ)
read_record msg p = do
  (name, next) ← read msg p
  b ← ok_or (slice msg next 10) truncated
  let rtype = from_be (take 2 b)
  let len = from_be (drop 8 b)
  rdata ← read_rdata msg rtype (next + 10) len
  ok (
    record {
      name = name;
      rtype = rtype;
      class = from_be (take 2 (drop 2 b));
      ttl = from_be (take 4 (drop 4 b));
      rdata = rdata;
    },
    next + 10 + len,
  )

unfoldable pub read_records : ℕ → Bytes → ℕ → Result Error (List Record × ℕ)
read_records zero msg p = ok ([], p)
read_records (suc count) msg p = do
  (r, next) ← read_record msg p
  (rs, end) ← read_records count msg next
  ok (r ∷ rs, end)

-- The closure `u16_at`; it indexes, within the twelve bytes that are there.
abbrev pub u16_at : Bytes → ℕ → ℕ
u16_at msg p = from_be (take 2 (drop p msg))

unfoldable pub decode : Bytes → Result Error Message
decode msg = do
  require (not (ltb (length msg) 12)) truncated
  (questions, p) ← read_questions (u16_at msg 4) msg 12
  (answers, q) ← read_records (u16_at msg 6) msg p
  (authority, r) ← read_records (u16_at msg 8) msg q
  (additional, s) ← read_records (u16_at msg 10) msg r
  ok (record {
    header = from_flags (u16_at msg 0) (u16_at msg 2);
    questions = questions;
    answers = answers;
    authority = authority;
    additional = additional;
  })
