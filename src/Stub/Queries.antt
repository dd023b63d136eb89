-- ===== src/Stub/Queries.antt =====
-- What a client of the stub decodes from its answer.
use resolvd.Prelude.{
  ap, ℕ, ◌%◌, ◌^◌, ◌≤◌, ◌<◌, ◌≡◌, inl, inr, refl, ◌∙◌, sym, subst, List, [], ◌∷◌, ◌++◌, Option,
  none, some, All, All-append, Holds, length, Bool-cases, Option-cases, min_by, min_by-holds, Bytes,
  to_be, Result, ok, err, stuck, arith,
}
use resolvd.Dns.Name.{Error, Name, name_eq}
use resolvd.Dns.Name.Valid.{IsName}
use resolvd.Dns.Wire.RoundTrip.{length-write, wire_len_bounds}
use resolvd.Dns.Types.{Record, Question, Message, cname}
use resolvd.Dns.Records.{write_record, write_rdata}
use resolvd.Dns.Wire.{write, write_labels}
use resolvd.Dns.Records.Valid.{IsRecord}
use resolvd.Dns.Message.{reply_to, edns, udp_size, single_question, encode, encode_udp, decode}
use resolvd.Dns.Message.RoundTrip.{IsQuestion, IsMessage, encode_ok, decode-encode}
use resolvd.Dns.Message.Udp.{
  Carries, whole, short, IsSmallEdns, opt_record-IsRecord, encode_udp_fits,
}
use resolvd.Cache.{Outcome, found, not_found, unavailable}
use resolvd.Engine.State.{Answer}
use resolvd.Stub.{
  alias_records, lowest_ttl, reply_rcode, reply_answers, reply_opt, build_reply, udp_answer,
  tcp_answer, tcp_frame,
}
use resolvd.Stub.ReplyTo.{
  announced, IsReplyTo, udp_size-announced, build_reply-IsReplyTo, IsCut-IsReplyTo,
}

-- An answer whose records and names can be written.
pub record IsAnswer (a : Answer) : Type 0 where
  pub records : All IsRecord a.records
  pub resolved : Holds IsName a.resolved_name
  pub negative_ttl : a.negative_ttl < 2 ^ 32

lowest_ttl-lt :
    (rs : List Record) (other : ℕ) → All IsRecord rs → other < 2 ^ 32 → lowest_ttl rs other < 2 ^ 32
lowest_ttl-lt rs other h fits = elim (Option-cases (min_by (λ r. r.ttl) rs)) [
  | inl e ↦ rw (e, lowest_ttl) fits
  | inr (r, e) ↦ rw (e, lowest_ttl) ((min_by-holds (λ r. r.ttl) IsRecord rs r e h).ttl)
]

reply_rcode-lt : (o : Outcome) → reply_rcode o < 2 ^ 4
reply_rcode-lt found = omega arith
reply_rcode-lt not_found = omega arith
reply_rcode-lt unavailable = omega arith

reply_opt-IsRecord : (o : Option Record) → All IsRecord (reply_opt o)
reply_opt-IsRecord none = tt
reply_opt-IsRecord (some r) = (opt_record-IsRecord, tt)

length-write_cname : (n : Name) → IsName n → length (write_rdata (cname n)) < 2 ^ 16
unfolding write_rdata
length-write_cname n h = omega (arith, length-write n, wire_len_bounds n h)

alias_records-IsRecord :
    (q : Option Question) (o : Option Name) (ttl : ℕ)
    → Holds IsQuestion q
    → Holds IsName o
    → ttl < 2 ^ 32
    → All IsRecord (alias_records q o ttl)
alias_records-IsRecord none o ttl hq ho ht = tt
alias_records-IsRecord (some q) none ttl hq ho ht = tt
alias_records-IsRecord (some q) (some n) ttl hq ho ht = elim (Bool-cases (name_eq q.name n)) [
  | inl same ↦ rw same tt
  | inr other ↦ rw other (
    record {
      name = hq.name;
      rtype = omega arith;
      class = omega arith;
      ttl = ht;
      rdata = (refl, ho);
      size = length-write_cname n ho;
    },
    tt,
  )
]

single_question-IsQuestion :
    (qs : List Question)
    → All IsQuestion qs
    → length qs ≤ 1
    → (m : Message) → m.questions ≡ qs
    → Holds IsQuestion (single_question m)
unfolding single_question
single_question-IsQuestion [] h one m e = rw e tt
single_question-IsQuestion (q ∷ []) h one m e = rw e h.0
single_question-IsQuestion (q ∷ r ∷ qs) h one m e = absurd (omega arith)

reply_answers-IsRecord :
    (q : Message) (a : Answer) (o : Outcome)
    → Holds IsQuestion (single_question q)
    → IsAnswer a
    → All IsRecord (reply_answers q a o)
reply_answers-IsRecord q a found hq ha =
    All-append IsRecord
      (alias_records (single_question q) a.resolved_name (lowest_ttl a.records a.negative_ttl))
      a.records
      (alias_records-IsRecord (single_question q) a.resolved_name
        (lowest_ttl a.records a.negative_ttl) hq ha.resolved
        (lowest_ttl-lt a.records a.negative_ttl ha.records ha.negative_ttl))
      ha.records
reply_answers-IsRecord q a not_found hq ha = tt
reply_answers-IsRecord q a unavailable hq ha = tt

module _ (q : Message) (a : Answer) (valid : IsMessage q) (one : length q.questions ≤ 1)
    (fits : IsAnswer a) where
  build_reply-IsMessage : IsMessage (build_reply q a)
  unfolding build_reply reply_to
  build_reply-IsMessage = record {
    header = record {
      id = valid.header.id;
      opcode = valid.header.opcode;
      rcode = reply_rcode-lt a.outcome;
    };
    questions = valid.questions;
    answers =
        reply_answers-IsRecord q a a.outcome
          (single_question-IsQuestion q.questions valid.questions one q refl) fits;
    authority = tt;
    additional = reply_opt-IsRecord (edns q);
  }

  reply_opt-IsSmallEdns : IsSmallEdns (edns (build_reply q a))
  unfolding build_reply edns write_record write_rdata write write_labels
  reply_opt-IsSmallEdns = elim (Option-cases (edns q)) [
    | inl e ↦ rw e tt
    | inr (o, e) ↦ rw e (omega arith)
  ]

  udp_size-le : 282 ≤ udp_size q
  unfolding udp_size
  udp_size-le = ground arith

  one_question : length (build_reply q a).questions ≤ 1
  unfolding build_reply reply_to
  one_question = one

  carried :
      (n : ℕ) (b : Bytes)
      → Carries (build_reply q a) n b
      → (c : Message) × (decode b ≡ ok c) × IsReplyTo q a.outcome c
  carried n b (whole e) = (
    build_reply q a,
    decode-encode (build_reply q a) b build_reply-IsMessage e,
    build_reply-IsReplyTo q a,
  )
  carried n b (short full c e over d cut) =
      (c, d, IsCut-IsReplyTo q (build_reply q a) c a.outcome (build_reply-IsReplyTo q a) cut)

  encode_udp-Carries :
      (c : Bytes)
      → encode_udp (build_reply q a) (udp_size q) ≡ ok c
      → (length c ≤ announced q.additional) × Carries (build_reply q a) (announced q.additional) c
  encode_udp-Carries c e =
      subst (λ n. (length c ≤ n) × Carries (build_reply q a) n c) (udp_size-announced q)
        (encode_udp_fits (build_reply q a) one_question reply_opt-IsSmallEdns build_reply-IsMessage
          (udp_size q) c udp_size-le e)

  -- Of a well-formed query with one question at most and an answer that can be written, the datagram
  -- keeps to the size that the query's first OPT record announces, or to 512 bytes. It is the whole
  -- reply, or, where that is larger, it decodes as the reply with TC set and without its records but
  -- the OPT record. Either way it decodes as a response with the query's id and questions and the
  -- response code of the answer's outcome.
  pub udp_answer_fits :
      (b : Bytes)
      → udp_answer q a ≡ some b
      → (length b ≤ announced q.additional)
        × Carries (build_reply q a) (announced q.additional) b
        × ((c : Message) × (decode b ≡ ok c) × IsReplyTo q a.outcome c)
  unfolding udp_answer
  udp_answer_fits b h = split (encode_udp (build_reply q a) (udp_size q)) refl h
    where
      split :
          (r : Result Error Bytes)
          → encode_udp (build_reply q a) (udp_size q) ≡ r
          → (elim r [ ok c ↦ some c | err e ↦ none | stuck ↦ none ]) ≡ some b
          → (length b ≤ announced q.additional)
            × Carries (build_reply q a) (announced q.additional) b
            × ((c : Message) × (decode b ≡ ok c) × IsReplyTo q a.outcome c)
      split (ok c) e h =
          let same : c ≡ b = cc h in
          let (fits, carries) = encode_udp-Carries b (e ∙ ap ok same) in
          (fits, carries, carried (announced q.additional) b carries)
      split (err x) e h = cc h
      split stuck e h = cc h

  -- Of a well-formed query with one question at most and an answer that can be written, the bytes
  -- that answer over TCP are a length and the message of that length, which decodes as the reply to
  -- the query.
  pub tcp_answer_frame :
      (f : Bytes)
      → tcp_answer q a ≡ some f
      → (b : Bytes) × (f ≡ to_be 2 (length b) ++ b)
        × (length b < 2 ^ 16)
        × (decode b ≡ ok (build_reply q a))
  unfolding tcp_answer
  tcp_answer_frame f h = split (encode (build_reply q a)) refl h
    where
      split :
          (r : Result Error Bytes)
          → encode (build_reply q a) ≡ r
          → (elim r [ ok c ↦ some (tcp_frame c) | err e ↦ none | stuck ↦ none ]) ≡ some f
          → (b : Bytes) × (f ≡ to_be 2 (length b) ++ b)
            × (length b < 2 ^ 16)
            × (decode b ≡ ok (build_reply q a))
      split (ok c) e h =
          let same : tcp_frame c ≡ f = cc h in
          let (is, n₁, n₂, n₃, n₄, size) = encode_ok (build_reply q a) c e in
          let whole : length c % 2 ^ 16 ≡ length c = omega (arith, size) in
          (
            c,
            sym same ∙ rw whole refl,
            omega (arith, size),
            decode-encode (build_reply q a) c build_reply-IsMessage e,
          )
      split (err x) e h = cc h
      split stuck e h = cc h
