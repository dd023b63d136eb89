-- ===== src/Stub/Refusals.antt =====
-- The replies that `parse_query` makes itself.
use resolvd.Prelude.{
  ℕ, ◌≤◌, ◌≡◌, refl, ap, ap₂, ◌∙◌, sym, false, leb, leb→le, [], ◌∷◌, Option, none, some, All,
  IsByte, length, take, Bool-cases, inl, inr, Bytes, from_be, to_be, Result, ok, err, stuck, ◌↔◌,
  arith,
}
use resolvd.Dns.Name.{Error}
use resolvd.Dns.Types.{Question, Message, class_in}
use resolvd.Dns.Header.{from_flags}
use resolvd.Dns.Message.{reply_to, single_question, encode, decode}
use resolvd.Dns.Message.RoundTrip.{encode_ok}
use resolvd.Stub.{formerr, notimp, encoding, form_error, error_reply, check_query, parse_query}

-- The two bytes of an id, as `from_be_bytes` and `to_be_bytes` carry them over.
same_id : (b : Bytes) → All IsByte b → 2 ≤ length b → to_be 2 (from_be (take 2 b)) ≡ take 2 b
same_id [] h long = absurd (omega arith)
same_id (x ∷ []) h long = absurd (omega arith)
same_id (x ∷ y ∷ b) h long =
    ap₂ (λ u v. u ∷ v ∷ []) (omega (arith, h.0, h.1.0)) (omega (arith, h.0, h.1.0))

encoding-id : (m : Message) (r : Bytes) → encoding m ≡ some r → take 2 r ≡ to_be 2 m.header.id
encoding-id m r h = split (encode m) refl h
  where
    split :
        (x : Result Error Bytes)
        → encode m ≡ x
        → (elim x [ ok b ↦ some b | err e ↦ none | stuck ↦ none ]) ≡ some r
        → take 2 r ≡ to_be 2 m.header.id
    split (ok b) e h = let same : b ≡ r = cc h in ap (take 2) (sym same ∙ (encode_ok m b e).0)
    split (err x) e h = cc h
    split stuck e h = cc h

decode-id :
    (b : Bytes) (m : Message)
    → decode b ≡ ok m
    → (12 ≤ length b) × (m.header.id ≡ from_be (take 2 b))
unfolding decode from_flags
decode-id b m h = ground arith

error_reply-id :
    (m : Message) (code : ℕ) (r : Bytes)
    → encoding (error_reply m code) ≡ some r
    → take 2 r ≡ to_be 2 m.header.id
unfolding reply_to
error_reply-id m code r h = encoding-id (error_reply m code) r h

check_query-id :
    (m : Message) (r : Bytes) → check_query m ≡ err (some r) → take 2 r ≡ to_be 2 m.header.id
unfolding check_query
check_query-id m r h = ground (arith, error_reply-id m notimp r, error_reply-id m formerr r)

form_error-id : (b r : Bytes) → All IsByte b → form_error b ≡ some r → take 2 r ≡ take 2 b
form_error-id b r bytes h = elim (Bool-cases (leb 12 (length b))) [
  | inl long ↦
      encoding-id _ r (rw (long, form_error) at h)
      ∙ same_id b bytes (omega (arith, leb→le 12 (length b) long))
  | inr short ↦ absurd (let e : none ≡ some r = rw (short, form_error) at h in cc)
]

-- Where the stub refuses bytes with a reply of its own, be they no message or a query that it does
-- not take, the reply has the id that stands in the first two of the bytes.
pub parse_query-id :
    (b r : Bytes) → All IsByte b → parse_query b ≡ err (some r) → take 2 r ≡ take 2 b
unfolding parse_query
parse_query-id b r bytes h = split (decode b) refl h
  where
    split :
        (x : Result Error Message)
        → decode b ≡ x
        → (elim x [ ok m ↦ check_query m | err e ↦ err (form_error b) | stuck ↦ stuck ])
          ≡ err (some r)
        → take 2 r ≡ take 2 b
    split (ok m) e h =
        let (long, id) = decode-id b m e in
        check_query-id m r h ∙ ap (to_be 2) id ∙ same_id b bytes (omega (arith, long))
    split (err x) e h = let same : form_error b ≡ some r = cc h in form_error-id b r bytes same
    split stuck e h = cc h

-- One question, of class IN.
abbrev pub AsksIn : Option Question → Type 0
AsksIn none = ⊥
AsksIn (some q) = q.class ≡ class_in

check_query_iff :
    (m n : Message)
    → (check_query m ≡ ok n)
      ↔ ((m ≡ n) × (m.header.response ≡ false) × (m.header.opcode ≡ 0) × AsksIn (single_question m))
unfolding check_query
check_query_iff m n = ground arith

-- What the stub takes is the message that the bytes encode: a query of opcode 0 with one question,
-- whose class is IN. All else is refused.
pub parse_query_iff :
    (b : Bytes) (m : Message)
    → (parse_query b ≡ ok m) ↔ (
        (decode b ≡ ok m)
        × (m.header.response ≡ false)
        × (m.header.opcode ≡ 0)
        × AsksIn (single_question m))
unfolding parse_query check_query
parse_query_iff b m = ground arith
