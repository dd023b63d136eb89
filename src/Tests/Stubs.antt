-- ===== src/Tests/Stubs.antt =====
-- The theorems on the stub, at queries and answers that are written out.
use resolvd.Prelude.{
  ◌≡◌, ◌≤◌, ◌<◌, ◌^◌, refl, [], ◌∷◌, ◌++◌, some, Bytes, take, length, to_be, ok, err, arith,
}
use resolvd.Dns.Name.{name_eq}
use resolvd.Dns.Types.{Message}
use resolvd.Dns.Message.{
  query, reply_to, edns, encode, encoded, encode_udp, decode, udp_size, single_question,
  read_questions, read_question, write_question, write_questions, write_records,
}
use resolvd.Dns.Message.RoundTrip.{IsMessage}
use resolvd.Dns.Wire.{write, write_labels}
use resolvd.Dns.Wire
use resolvd.Dns.Records.{write_record, write_rdata}
use resolvd.Dns.Header.{flags, word}
use resolvd.Cache.{found}
use resolvd.Engine.State.{Answer, plain_answer}
use resolvd.Stub.{build_reply, udp_answer, tcp_answer, tcp_frame, parse_query}
use resolvd.Dns.Message.Udp.{Carries}
use resolvd.Stub.ReplyTo.{announced, IsReplyTo}
use resolvd.Stub.Queries.{IsAnswer, udp_answer_fits, tcp_answer_frame}
use resolvd.Stub.Refusals.{parse_query-id}
use resolvd.Stub.Clients.{fill, progress, pieces, parsed, pieces-parsed}
use resolvd.Tests.{
  www_question, www_question-IsQuestion, www_records, www_reply-IsMessage, host, host-IsName,
}

abbrev asked : Message
asked = record (query 7 www_question) { additional = [] }

asked-IsMessage : IsMessage asked
unfolding query
asked-IsMessage = record {
  header = record { id = omega arith; opcode = omega arith; rcode = omega arith };
  questions = (www_question-IsQuestion, tt);
  answers = tt;
  authority = tt;
  additional = tt;
}

abbrev given : Answer
given = record (plain_answer found) { records = www_records; resolved_name = some host }

given-IsAnswer : IsAnswer given
given-IsAnswer = record {
  records = www_reply-IsMessage.answers;
  resolved = host-IsName;
  negative_ttl = omega arith;
}

one_question : length asked.questions ≤ 1
unfolding query
one_question = omega arith

abbrev message : Bytes
message = encoded (build_reply asked given)

udp_sent : udp_answer asked given ≡ some message
unfolding udp_answer build_reply encode_udp encode udp_size edns query reply_to write_questions
    write_question write_records write_record write_rdata write write_labels flags single_question
    name_eq
udp_sent = refl

udp_answer_fits_example :
    (length message ≤ announced asked.additional)
    × Carries (build_reply asked given) (announced asked.additional) message
    × ((c : Message) × (decode message ≡ ok c) × IsReplyTo asked found c)
udp_answer_fits_example =
    udp_answer_fits asked given asked-IsMessage one_question given-IsAnswer message udp_sent

tcp_sent : tcp_answer asked given ≡ some (tcp_frame message)
unfolding tcp_answer build_reply encode edns query reply_to write_questions write_question
    write_records write_record write_rdata write write_labels flags single_question name_eq
tcp_sent = refl

tcp_answer_frame_example :
    (b : Bytes) × (tcp_frame message ≡ to_be 2 (length b) ++ b)
    × (length b < 2 ^ 16)
    × (decode b ≡ ok (build_reply asked given))
tcp_answer_frame_example =
    tcp_answer_frame asked given asked-IsMessage one_question given-IsAnswer (tcp_frame message)
      tcp_sent

-- A header that announces a question, and no question.
abbrev cut_short : Bytes
cut_short = 18 ∷ 52 ∷ 1 ∷ 0 ∷ 0 ∷ 1 ∷ 0 ∷ 0 ∷ 0 ∷ 0 ∷ 0 ∷ 0 ∷ []

abbrev refusal : Bytes
refusal = 18 ∷ 52 ∷ 128 ∷ 1 ∷ 0 ∷ 0 ∷ 0 ∷ 0 ∷ 0 ∷ 0 ∷ 0 ∷ 0 ∷ []

refused : parse_query cut_short ≡ err (some refusal)
unfolding parse_query decode encode flags read_questions read_question Wire.read write_questions
    write_records word
refused = refl

parse_query-id_example : take 2 refusal ≡ take 2 cut_short
parse_query-id_example =
    parse_query-id cut_short refusal
      (
        omega arith,
        (
          omega arith,
          (
            omega arith,
            (
              omega arith,
              (
                omega arith,
                (
                  omega arith,
                  (
                    omega arith,
                    (omega arith, (omega arith, (omega arith, (omega arith, (omega arith, tt))))),
                  ),
                ),
              ),
            ),
          ),
        ),
      )
      refused

pieces-parsed_example :
    progress (
      fill
        (pieces ((12 ∷ 18 ∷ []) ∷ (52 ∷ 1 ∷ 0 ∷ 0 ∷ 1 ∷ 0 ∷ 0 ∷ 0 ∷ 0 ∷ 0 ∷ 0 ∷ 9 ∷ []) ∷ []))
        (0 ∷ []))
    ≡ parsed (parse_query cut_short)
pieces-parsed_example =
    pieces-parsed cut_short (9 ∷ []) (0 ∷ [])
      ((12 ∷ 18 ∷ []) ∷ (52 ∷ 1 ∷ 0 ∷ 0 ∷ 1 ∷ 0 ∷ 0 ∷ 0 ∷ 0 ∷ 0 ∷ 0 ∷ 9 ∷ []) ∷ []) (omega arith)
      refl (omega arith)
