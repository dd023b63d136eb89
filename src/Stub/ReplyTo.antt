-- ===== src/Stub/ReplyTo.antt =====
-- What the reply of resolvd/src/stub.rs owes to its query, and the size that the query announces.
use resolvd.Prelude.{
  ap, true, find, max, ◌==◌, if◌then◌else◌, ℕ, ◌≡◌, inl, inr, refl, ◌∙◌, List, [], ◌∷◌, none, some,
  Bool-cases,
}
use resolvd.Dns.Types.{Record, Message, classic_udp_size, t_opt}
use resolvd.Dns.Message.{reply_to, edns, udp_size}
use resolvd.Dns.Message.Udp.{IsCut}
use resolvd.Cache.{Outcome, found, not_found, unavailable}
use resolvd.Engine.State.{Answer}
use resolvd.Stub.{reply_rcode, build_reply}

-- The size that the first OPT record (of type 41) announces, at least 512; 512 where there is none.
abbrev pub announced : List Record → ℕ
announced [] = 512
announced (r ∷ rs) = if r.rtype == 41 then max r.class 512 else announced rs

-- The response code that says how a question ended: NOERROR, NXDOMAIN or SERVFAIL.
abbrev pub outcome_rcode : Outcome → ℕ
outcome_rcode found = 0
outcome_rcode not_found = 3
outcome_rcode unavailable = 2

-- A response to the query, with its id and its questions, that says how they ended.
pub record IsReplyTo (q : Message) (o : Outcome) (c : Message) : Type 0 where
  pub id : c.header.id ≡ q.header.id
  pub response : c.header.response ≡ true
  pub rcode : c.header.rcode ≡ outcome_rcode o
  pub questions : c.questions ≡ q.questions

pub udp_size-announced : (q : Message) → udp_size q ≡ announced q.additional
unfolding udp_size edns
udp_size-announced q = sizes q.additional
  where
    sizes :
        (rs : List Record)
        → (elim (find (λ r. r.rtype == t_opt) rs) [
          | none ↦ classic_udp_size
          | some o ↦ max o.class classic_udp_size
        ])
          ≡ announced rs
    sizes [] = refl
    sizes (r ∷ rs) = elim (Bool-cases (r.rtype == 41)) [
      | inl here ↦ rw here refl
      | inr later ↦ rw later (sizes rs)
    ]

reply_rcode-outcome_rcode : (o : Outcome) → reply_rcode o ≡ outcome_rcode o
reply_rcode-outcome_rcode found = refl
reply_rcode-outcome_rcode not_found = refl
reply_rcode-outcome_rcode unavailable = refl

pub build_reply-IsReplyTo : (q : Message) (a : Answer) → IsReplyTo q a.outcome (build_reply q a)
unfolding build_reply reply_to
build_reply-IsReplyTo q a = record {
  id = refl;
  response = refl;
  rcode = reply_rcode-outcome_rcode a.outcome;
  questions = refl;
}

-- Cutting a reply short leaves a reply.
pub IsCut-IsReplyTo :
    (q m c : Message) (o : Outcome) → IsReplyTo q o m → IsCut m c → IsReplyTo q o c
IsCut-IsReplyTo q m c o reply cut = record {
  id = ap (λ h. h.id) cut.header ∙ reply.id;
  response = ap (λ h. h.response) cut.header ∙ reply.response;
  rcode = ap (λ h. h.rcode) cut.header ∙ reply.rcode;
  questions = cut.questions ∙ reply.questions;
}
