-- ===== src/Dns/Message/Udp.antt =====
-- Messages over UDP: a query always encodes, and a reply is cut down to the peer's limit.
use resolvd.Prelude.{
  ℕ, ◌^◌, ◌<◌, ◌≤◌, ◌≡◌, inl, inr, refl, sym, ◌∙◌, subst, Bool, true, false, List, [], ◌∷◌, ◌++◌,
  Option, none, some, length, length-append, find, leb, leb→le, ◌==◌, All, arith, Bool-cases,
  if◌then◌else◌, Bytes, ok, to_be, >>=-eq-ok, ok-injective,
}
use resolvd.Dns.Name.{max_message_size}
use resolvd.Dns.Wire.{write, write_labels}
use resolvd.Dns.Wire.RoundTrip.{length-write, wire_len_bounds}
use resolvd.Dns.Types.{Record, Question, Message, opt_record, t_opt, edns_udp_size}
use resolvd.Dns.Records.{write_rdata, write_record}
use resolvd.Dns.Records.Valid.{IsRecord}
use resolvd.Dns.Message.{
  option_list, query, edns, cut, write_question, write_questions, write_records, encode, encoded,
  encode_udp, decode,
}
use resolvd.Dns.Message.RoundTrip.{IsQuestion, IsMessage, decode-encode}

length-write_question : (q : Question) → IsQuestion q → length (write_question q) ≤ 259
unfolding write_question
length-write_question q v = omega (
  arith,
  length-append (write q.name) (to_be 2 q.rtype ++ to_be 2 q.class),
  length-write q.name,
  wire_len_bounds q.name v.name,
)

pub opt_record-IsRecord : IsRecord (opt_record edns_udp_size false)
unfolding write_rdata
opt_record-IsRecord = record {
  name = record { labels = tt; fits = omega arith };
  rtype = omega arith;
  class = omega arith;
  ttl = omega arith;
  rdata = refl;
  size = omega arith;
}

query-IsMessage : (id : ℕ) (q : Question) → id < 2 ^ 16 → IsQuestion q → IsMessage (query id q)
unfolding query
query-IsMessage id q h v = record {
  header = record { id = h; opcode = omega arith; rcode = omega arith };
  questions = (v, tt);
  answers = tt;
  authority = tt;
  additional = (opt_record-IsRecord, tt);
}

-- `encode` accepts a message whose counts and size are within its limits.
encode_small :
    (m : Message)
    → (length m.questions < 2 ^ 16)
      × (length m.answers < 2 ^ 16)
      × (length m.authority < 2 ^ 16)
      × (length m.additional < 2 ^ 16)
    → length (encoded m) ≤ max_message_size
    → encode m ≡ ok (encoded m)
unfolding encode
encode_small m counts size = ground arith

length-query : (id : ℕ) (q : Question) → IsQuestion q → length (encoded (query id q)) ≤ 282
unfolding query write_questions write_records write_record write_rdata write write_labels
length-query id q v = simp length-append (omega (arith, length-write_question q v))

query-encode :
    (id : ℕ) (q : Question) → IsQuestion q → encode (query id q) ≡ ok (encoded (query id q))
query-encode id q v =
    encode_small (query id q) (unfold query in omega arith) (omega (arith, length-query id q v))

-- A query for a well-formed question always encodes, into at most 282 bytes, and what the upstream
-- server decodes is that query.
pub query_encodes :
    (id : ℕ) (q : Question)
    → id < 2 ^ 16
    → IsQuestion q
    → (encode (query id q) ≡ ok (encoded (query id q)))
      × (length (encoded (query id q)) ≤ 282)
      × (decode (encoded (query id q)) ≡ ok (query id q))
query_encodes id q h v =
    let enc = query-encode id q v in
    (enc, length-query id q v, decode-encode (query id q) _ (query-IsMessage id q h v) enc)

-- The record that `cut` keeps takes the eleven bytes of an empty OPT at most.
abbrev pub IsSmallEdns : Option Record → Type 0
IsSmallEdns none = Unit
IsSmallEdns (some o) = length (write_record o) ≤ 11

length-one_question :
    (qs : List Question) → length qs ≤ 1 → All IsQuestion qs → length (write_questions qs) ≤ 259
unfolding write_questions
length-one_question [] one v = omega arith
length-one_question (q ∷ []) one v =
    omega (arith, length-append (write_question q) [], length-write_question q v.0)
length-one_question (q ∷ r ∷ qs) one v = absurd (omega arith)

length-small_edns :
    (o : Option Record) → IsSmallEdns o → length (write_records (option_list o)) ≤ 11
unfolding write_records
length-small_edns none s = omega arith
length-small_edns (some o) s = omega (arith, length-append (write_record o) [])

All-found :
    (p : Record → Bool) (rs : List Record)
    → All IsRecord rs
    → All IsRecord (option_list (find p rs))
All-found p [] h = tt
All-found p (r ∷ rs) h = elim (Bool-cases (p r)) [
  | inl passes ↦ rw passes (h.0, tt)
  | inr fails ↦ rw fails (All-found p rs h.1)
]

length-option_list {ℓ} : {A : Type ℓ} (o : Option A) → length (option_list o) ≤ 1
length-option_list none = omega arith
length-option_list (some x) = omega arith

-- Of the records, the first of type OPT (41), or none.
abbrev pub IsFirstOpt : List Record → List Record → Type 0
IsFirstOpt [] out = out ≡ []
IsFirstOpt (r ∷ rs) out = if r.rtype == 41 then (out ≡ r ∷ []) else IsFirstOpt rs out

-- What is left of a message that is cut short: its header with TC set, its questions and its first
-- OPT record.
pub record IsCut (m c : Message) : Type 0 where
  pub truncated : c.header.truncated ≡ true
  pub header : record c.header { truncated = m.header.truncated } ≡ m.header
  pub questions : c.questions ≡ m.questions
  pub answers : c.answers ≡ []
  pub authority : c.authority ≡ []
  pub additional : IsFirstOpt m.additional c.additional

-- The bytes are the whole message where that fits, and encode the message cut short where it does not.
pub data Carries (m : Message) (limit : ℕ) (b : Bytes) : Type 0 where
  whole : encode m ≡ ok b → Carries m limit b
  short :
      (full : Bytes) (c : Message)
      → encode m ≡ ok full
      → limit < length full
      → decode b ≡ ok c
      → IsCut m c
      → Carries m limit b

find-IsFirstOpt : (rs : List Record) → IsFirstOpt rs (option_list (find (λ r. r.rtype == t_opt) rs))
find-IsFirstOpt [] = refl
find-IsFirstOpt (r ∷ rs) = elim (Bool-cases (r.rtype == 41)) [
  | inl here ↦ rw here refl
  | inr later ↦ rw later (find-IsFirstOpt rs)
]

cut-IsCut : (m : Message) → IsCut m (cut m)
unfolding cut edns
cut-IsCut m = record {
  truncated = refl;
  header = refl;
  questions = refl;
  answers = refl;
  authority = refl;
  additional = find-IsFirstOpt m.additional;
}

module _ (m : Message) (one : length m.questions ≤ 1) (small : IsSmallEdns (edns m))
    (valid : IsMessage m) where
  length-cut : length (encoded (cut m)) ≤ 282
  unfolding cut write_records
  length-cut = simp length-append (
      omega (
        arith,
        length-one_question m.questions one valid.questions,
        length-small_edns (edns m) small,
      ))

  cut-IsMessage : IsMessage (cut m)
  unfolding cut edns
  cut-IsMessage = record {
    header = record {
      id = valid.header.id;
      opcode = valid.header.opcode;
      rcode = valid.header.rcode;
    };
    questions = valid.questions;
    answers = tt;
    authority = tt;
    additional = All-found (λ r. r.rtype == t_opt) m.additional valid.additional;
  }

  cut-encode : encode (cut m) ≡ ok (encoded (cut m))
  cut-encode =
      encode_small (cut m) (unfold cut in omega (arith, length-option_list {0} (edns m)))
        (omega (arith, length-cut))

  sent :
      (limit : ℕ) (full b : Bytes)
      → 282 ≤ limit
      → encode m ≡ ok full
      → (if leb (length full) limit then ok full else encode (cut m)) ≡ ok b
      → (length b ≤ limit) × Carries m limit b
  sent limit full b h k r = elim (Bool-cases (leb (length full) limit)) [
    | inl fits ↦
        let e : full ≡ b = ok-injective (rw fits at r) in
        subst (λ c. (length c ≤ limit) × Carries m limit c) e (leb→le _ _ fits, whole k)
    | inr over ↦
        let e : encoded (cut m) ≡ b = ok-injective (sym cut-encode ∙ (rw over at r)) in
        subst (λ c. (length c ≤ limit) × Carries m limit c) e
          (
            omega (arith, length-cut),
            short full (cut m) k (ground (arith, over))
                (decode-encode (cut m) _ cut-IsMessage cut-encode) (cut-IsCut m),
          )
  ]

  -- Of a well-formed message with one question at most, and with no OPT record or one of at most 11
  -- bytes, what `encode_udp` returns is within a limit of 282 or more. It is the whole message, or,
  -- where that exceeds the limit, it decodes as the message with TC set, which has the same header
  -- otherwise, the same questions, the first OPT record and no other records.
  pub encode_udp_fits :
      (limit : ℕ) (b : Bytes)
      → 282 ≤ limit
      → encode_udp m limit ≡ ok b
      → (length b ≤ limit) × Carries m limit b
  unfolding encode_udp
  encode_udp_fits limit b h e =
      let (full, k, r) =
        >>=-eq-ok (encode m) (λ x. if leb (length x) limit then ok x else encode (cut m)) e in
      sent limit full b h k r
