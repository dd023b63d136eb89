-- ===== src/Dns/Message/RoundTrip.antt =====
-- `Message::decode` reads back what `Message::encode` wrote.
use resolvd.Prelude.{
  ℕ, ◌+◌, ◌%◌, ◌^◌, ◌<◌, ◌≤◌, ◌≡◌, refl, sym, ap, subst, false, List, [], ◌∷◌, ◌++◌, length,
  length-append, ltb, All, arith, Bytes, StandsAt, StandsAt-append, StandsAt-behind, slice-at, ok,
  to_be, from_be, from_be-to_be_2, from_be-to_be_4,
}
use mathlib.Core.List.{append_assoc, append-nil}
use native.Mathlib.Nat.{add-zero}
use resolvd.Dns.Name.{max_message_size, wire_len}
use resolvd.Dns.Name.Valid.{IsName}
use resolvd.Dns.Wire.{write}
use resolvd.Dns.Wire.RoundTrip.{read-write, length-write}
use resolvd.Dns.Types.{Record, Question, Message}
use resolvd.Dns.Header.{flags, IsHeader, flags-lt, from_flags-flags}
use resolvd.Dns.Records.{write_rdata, write_record, fixed_fields}
use resolvd.Dns.Records.Valid.{IsRecord}
use resolvd.Dns.Records.RoundTrip.{read_rdata-write_rdata}
use resolvd.Dns.Message.{
  write_question, write_questions, write_records, encode, encoded, read_question, read_questions,
  read_record, read_records, decode,
}

pub record IsQuestion (q : Question) : Type 0 where
  pub name : IsName q.name
  pub rtype : q.rtype < 2 ^ 16
  pub class : q.class < 2 ^ 16

pub record IsMessage (m : Message) : Type 0 where
  pub header : IsHeader m.header
  pub questions : All IsQuestion m.questions
  pub answers : All IsRecord m.answers
  pub authority : All IsRecord m.authority
  pub additional : All IsRecord m.additional

module _ (msg : Bytes) where
  read_question-write :
      (p : ℕ) (q : Question) (t : Bytes)
      → IsQuestion q
      → StandsAt msg p (write_question q ++ t)
      → read_question msg p ≡ ok (q, p + length (write_question q))
  unfolding read_question write_question
  read_question-write p q t valid at =
      let fields : Bytes = to_be 2 q.rtype ++ to_be 2 q.class in
      let at₀ : StandsAt msg p (write q.name ++ (fields ++ t)) =
        subst (StandsAt msg p) (append_assoc (write q.name) fields t) at in
      let at₁ : StandsAt msg (p + wire_len q.name) (fields ++ t) =
        StandsAt-behind msg p (p + wire_len q.name) (write q.name) _
          (omega (arith, length-write q.name)) at₀ in
      rw
        (
          read-write msg p q.name (fields ++ t) valid.name at₀,
          slice-at msg (p + wire_len q.name) fields t at₁,
        )
        (ground (arith, length-append (write q.name) fields, length-write q.name))

  read_record-write :
      (p : ℕ) (r : Record) (t : Bytes)
      → IsRecord r
      → StandsAt msg p (write_record r ++ t)
      → read_record msg p ≡ ok (r, p + length (write_record r))
  unfolding read_record write_record
  read_record-write p r t valid at =
      let size : ℕ = length (write_rdata r.rdata) in
      let fields : Bytes = fixed_fields r size in
      let next : ℕ = p + wire_len r.name in
      let at₀ : StandsAt msg p (write r.name ++ (fields ++ (write_rdata r.rdata ++ t))) =
        subst (StandsAt msg p) (append_assoc (write r.name) (fields ++ write_rdata r.rdata) t) at in
      let at₁ : StandsAt msg next (fields ++ (write_rdata r.rdata ++ t)) =
        StandsAt-behind msg p next (write r.name) _ (omega (arith, length-write r.name)) at₀ in
      let at₂ : StandsAt msg (next + 10) (write_rdata r.rdata ++ t) =
        StandsAt-behind msg next (next + 10) fields _ refl at₁ in
      let len : from_be (to_be 2 (size % 2 ^ 16)) ≡ size = omega (arith, valid.size) in
      rw
        (
          read-write msg p r.name _ valid.name at₀,
          slice-at msg next fields _ at₁,
          from_be-to_be_2 r.rtype valid.rtype,
          from_be-to_be_2 r.class valid.class,
          from_be-to_be_4 r.ttl valid.ttl,
          len,
          read_rdata-write_rdata msg r.rtype (next + 10) r.rdata t valid.rdata at₂,
        )
        (ground (
          arith,
          length-append (write r.name) (fields ++ write_rdata r.rdata),
          length-write r.name,
        ))

  read_questions-write :
      (p : ℕ) (qs : List Question) (t : Bytes)
      → All IsQuestion qs
      → StandsAt msg p (write_questions qs ++ t)
      → read_questions (length qs) msg p ≡ ok (qs, p + length (write_questions qs))
  unfolding read_questions write_questions
  read_questions-write p [] t valid at = rw add-zero
  read_questions-write p (q ∷ qs) t valid at =
      let at₀ : StandsAt msg p (write_question q ++ (write_questions qs ++ t)) =
        subst (StandsAt msg p) (append_assoc (write_question q) (write_questions qs) t) at in
      rw
        (
          read_question-write p q _ valid.0 at₀,
          read_questions-write (p + length (write_question q)) qs t valid.1
              (StandsAt-append msg p (write_question q) at₀),
          length-append,
        )
        (ap (λ e. ok (q ∷ qs, e)) (omega arith))

  read_records-write :
      (p : ℕ) (rs : List Record) (t : Bytes)
      → All IsRecord rs
      → StandsAt msg p (write_records rs ++ t)
      → read_records (length rs) msg p ≡ ok (rs, p + length (write_records rs))
  unfolding read_records write_records
  read_records-write p [] t valid at = rw add-zero
  read_records-write p (r ∷ rs) t valid at =
      let at₀ : StandsAt msg p (write_record r ++ (write_records rs ++ t)) =
        subst (StandsAt msg p) (append_assoc (write_record r) (write_records rs) t) at in
      rw
        (
          read_record-write p r _ valid.0 at₀,
          read_records-write (p + length (write_record r)) rs t valid.1
              (StandsAt-append msg p (write_record r) at₀),
          length-append,
        )
        (ap (λ e. ok (r ∷ rs, e)) (omega arith))

-- What `encode` returns, and that it kept to its limits.
pub encode_ok :
    (m : Message) (b : Bytes)
    → encode m ≡ ok b
    → (b ≡ encoded m)
      × (length m.questions < 2 ^ 16)
      × (length m.answers < 2 ^ 16)
      × (length m.authority < 2 ^ 16)
      × (length m.additional < 2 ^ 16)
      × (length b ≤ max_message_size)
unfolding encode
encode_ok m b h = ground arith

decode-encoded :
    (m : Message)
    → IsMessage m
    → (length m.questions < 2 ^ 16)
      × (length m.answers < 2 ^ 16)
      × (length m.authority < 2 ^ 16)
      × (length m.additional < 2 ^ 16)
    → decode (encoded m) ≡ ok m
unfolding decode
decode-encoded m valid (hq, ha, hu, hd) =
    let msg : Bytes = encoded m in
    let ws : Bytes = write_records m.authority ++ write_records m.additional in
    let us : Bytes = write_records m.answers ++ ws in
    let p : ℕ = 12 + length (write_questions m.questions) in
    let q : ℕ = p + length (write_records m.answers) in
    let r : ℕ = q + length (write_records m.authority) in
    let at₀ : StandsAt msg 12 (write_questions m.questions ++ us) = record {
      rest = refl;
      within = omega arith;
    } in
    let at₁ : StandsAt msg p us = StandsAt-append msg 12 (write_questions m.questions) at₀ in
    let at₂ : StandsAt msg q ws = StandsAt-append msg p (write_records m.answers) at₁ in
    let at₃ : StandsAt msg r (write_records m.additional ++ []) =
      subst (StandsAt msg r) (sym (append-nil (write_records m.additional)))
        (StandsAt-append msg q (write_records m.authority) at₂) in
    let long : ltb (length msg) 12 ≡ false = ground arith in
    rw (
      long,
      from_be-to_be_2 (length m.questions) hq,
      from_be-to_be_2 (length m.answers) ha,
      from_be-to_be_2 (length m.authority) hu,
      from_be-to_be_2 (length m.additional) hd,
      from_be-to_be_2 m.header.id valid.header.id,
      from_be-to_be_2 (flags m.header) (flags-lt m.header),
      from_flags-flags m.header valid.header,
      read_questions-write msg 12 m.questions us valid.questions at₀,
      read_records-write msg p m.answers ws valid.answers at₁,
      read_records-write msg q m.authority (write_records m.additional) valid.authority at₂,
      read_records-write msg r m.additional [] valid.additional at₃,
    )

-- A well-formed message that `encode` accepts decodes as itself: header, questions and all three
-- sections of records, in their order and with their names in the same case.
pub decode-encode : (m : Message) (b : Bytes) → IsMessage m → encode m ≡ ok b → decode b ≡ ok m
decode-encode m b valid h =
    let (e, hq, ha, hu, hd, _) = encode_ok m b h in rw e (decode-encoded m valid (hq, ha, hu, hd))
