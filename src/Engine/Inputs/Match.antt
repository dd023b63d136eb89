-- ===== src/Engine/Inputs/Match.antt =====
-- Which replies `Engine::matching_response` of resolvd/src/engine.rs accepts.
use resolvd.Prelude.{
  ℕ, ◌≡◌, ◌↔◌, refl, ap, ap₂, subst, true, ◌&&◌, List, [], ◌∷◌, none, some, Bool-cases, inl, inr,
  ◌==◌, ==_iff, ==_refl, &&-elim, bytes_eq, bytes_eq_iff, Bytes, Result, ok, err, stuck, id_key,
}
use resolvd.Prelude.Keyed
use resolvd.Dns.Name.{Error}
use resolvd.Dns.Types.{Message, Question}
use resolvd.Dns.Message.{decode, single_question}
use resolvd.Engine.State.{Engine, Tx}
use resolvd.Engine.Replies.{labels_eq, same_case}
use resolvd.Engine.Inputs.{question_matches, message_matches, decoded_match, matching_response}

-- A response with the id of a query and with its question alone, byte for byte.
pub record Answers (t : Tx) (m : Message) : Type 0 where
  pub id : m.header.id ≡ t.dns_id
  pub response : m.header.response ≡ true
  pub question : m.questions ≡ t.question ∷ []

labels_eq_iff : (xs ys : List Bytes) → (labels_eq xs ys ≡ true) ↔ (xs ≡ ys)
unfolding labels_eq
labels_eq_iff [] [] = (λ h. refl, λ h. refl)
labels_eq_iff [] (y ∷ ys) = (λ h. cc, λ h. cc)
labels_eq_iff (x ∷ xs) [] = (λ h. cc, λ h. cc)
labels_eq_iff (x ∷ xs) (y ∷ ys) = (
  λ h.
      let (p, q) = &&-elim (bytes_eq x y) (labels_eq xs ys) h in
      ap₂ (λ l ls. l ∷ ls) ((bytes_eq_iff x y).0 p) ((labels_eq_iff xs ys).0 q),
  λ h.
      let head : x ≡ y = cc in
      let tail : xs ≡ ys = cc in rw ((bytes_eq_iff x y).1 head) ((labels_eq_iff xs ys).1 tail),
)

question_matches→≡ : (t : Tx) (q : Question) → question_matches t (some q) ≡ true → q ≡ t.question
unfolding same_case
question_matches→≡ t q h =
    let (p, r) =
      &&-elim (q.rtype == t.question.rtype)
        (q.class == t.question.class && labels_eq q.name.labels t.question.name.labels) h in
    let (c, n) =
      &&-elim (q.class == t.question.class) (labels_eq q.name.labels t.question.name.labels) r in
    let rtype : q.rtype ≡ t.question.rtype = (==_iff _ _).0 p in
    let class : q.class ≡ t.question.class = (==_iff _ _).0 c in
    let labels : q.name.labels ≡ t.question.name.labels = (labels_eq_iff _ _).0 n in
    λ i. record { name = record { labels = labels i }; rtype = rtype i; class = class i }

question_matches_refl : (t : Tx) → question_matches t (some t.question) ≡ true
unfolding same_case
question_matches_refl t =
    rw (==_refl t.question.rtype, ==_refl t.question.class)
      ((labels_eq_iff t.question.name.labels t.question.name.labels).1 refl)

message_matches→Answers : (t : Tx) (m : Message) → message_matches t m ≡ true → Answers t m
unfolding message_matches single_question
message_matches→Answers t m h =
    let (p, r) =
      &&-elim (m.header.id == t.dns_id)
        (m.header.response && question_matches t (single_question m)) h in
    let (s, q) = &&-elim m.header.response (question_matches t (single_question m)) r in
    record { id = (==_iff _ _).0 p; response = s; question = only m.questions q }
  where
    only :
        (qs : List Question)
        → question_matches t
            (elim qs [ [] ↦ none | q ∷ rest ↦ (elim rest [ [] ↦ some q | _ ∷ _ ↦ none ]) ])
          ≡ true
        → qs ≡ t.question ∷ []
    only [] h = cc
    only (q ∷ []) h = ap (λ q. q ∷ []) (question_matches→≡ t q h)
    only (q ∷ (r ∷ rest)) h = cc

Answers→message_matches : (t : Tx) (m : Message) → Answers t m → message_matches t m ≡ true
unfolding message_matches single_question
Answers→message_matches t m h =
    rw ((==_iff m.header.id t.dns_id).1 h.id, h.response, h.question) (question_matches_refl t)

decoded_match-ok :
    (t : Tx) (r : Result Error Message) (m : Message)
    → decoded_match t r ≡ some m
    → (r ≡ ok m) × (message_matches t m ≡ true)
decoded_match-ok t (ok n) m h = elim (Bool-cases (message_matches t n)) [
  | inl fits ↦
      let there : some n ≡ some m = rw fits at h in
      let same : n ≡ m = cc there in
      (ap (λ (x : Message). ok x) same, subst (λ x. message_matches t x ≡ true) same fits)
  | inr other ↦ cc (rw other at h)
]
decoded_match-ok t (err e) m h = cc
decoded_match-ok t stuck m h = cc

-- Of a transaction in flight, a reply is accepted as the message `m` exactly when it decodes as `m`, and
-- `m` is a response with the id that was sent whose question section is the question that was sent
-- and no other, its name in the same case.
pub matching_response_iff :
    (e : Engine) (tx : ℕ) (t : Tx) (b : Bytes) (m : Message)
    → Keyed.get tx e.txs ≡ some t
    → (matching_response e tx b ≡ some m) ↔ ((decode b ≡ ok m) × Answers t m)
unfolding matching_response
matching_response_iff e tx t b m there = (
  λ h.
      let (decoded, fits) = decoded_match-ok t (decode b) m (rw (there, matching_response) at h) in
      (decoded, message_matches→Answers t m fits),
  λ h. rw (there, matching_response, h.0, Answers→message_matches t m h.1) refl,
)
