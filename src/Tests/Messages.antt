-- ===== src/Tests/Messages.antt =====
-- The theorems on the MessagePack codec and on the messages of the native socket, at messages that
-- are written out.
use resolvd.Prelude.{
  ◌^◌, ◌≡◌, ◌≢◌, ◌≤◌, refl, [], ◌∷◌, ◌++◌, none, some, bytes, length, is_utf8, ok, err, stuck,
  arith,
}
use resolvd.Net.{v4}
use resolvd.Cache.{found}
use resolvd.Msgpack.{wrong_type, str_header, write_map, write_bool, write_str, write_uint}
use resolvd.Msgpack.Reader.{new, read_uint}
use resolvd.Msgpack.RoundTrip.{at, read_uint-write_uint_cases}
use resolvd.Msgpack.Skip.{skip}
use resolvd.Msgpack.Skip.Values.{Value, uint, string, list, item, no_items, encode, IsValue, height}
use resolvd.Msgpack.Skip.Ends.{skip-ne-stuck}
use resolvd.Msgpack.Skip.Written.{skip-encode}
use resolvd.Native.{unvalidated, too_large}
use resolvd.Native.Messages.{Reply, done, answered}
use resolvd.Native.Fields.{write_fields}
use resolvd.Native.Request as request
use resolvd.Native.Request.{Request, resolve, reverse, status}
use resolvd.Native.Request.RoundTrip.{decode-encode_request}
use resolvd.Native.Reply as reply
use resolvd.Native.Reply.RoundTrip.{decode-encode_reply, IsReply}
use resolvd.Native.Framing.{frame, send, recv, call}
use resolvd.Native.Framing.RoundTrip.{recv-too_large, call-reply}
use resolvd.Tests.Streams.{digits_text, Pipe, pipe}

abbrev values : Value
values = list (item (uint 70_000) (item (string (bytes "peios")) (item (list no_items) no_items)))

values-IsValue : IsValue values
unfolding IsValue is_utf8
values-IsValue = (omega arith, (omega arith, ((refl, omega arith), ((omega arith, tt), tt))))

skip-encode_example : skip (at (encode values ++ 192 ∷ []) 30) ≡ ok (at (192 ∷ []) 30)
unfolding height
skip-encode_example = skip-encode values (192 ∷ []) 30 values-IsValue (omega arith)

-- An array in an array, cut short.
skip-ne-stuck_example : skip (new (0x92 ∷ 0x91 ∷ 0xc1 ∷ [])) ≢ stuck
skip-ne-stuck_example = skip-ne-stuck (new (0x92 ∷ 0x91 ∷ 0xc1 ∷ [])) (omega arith)

-- The least number that is refused.
read_uint-write_uint_cases_example :
    read_uint (at (write_uint (2 ^ 63) ++ 192 ∷ []) 0) ≡ err wrong_type
read_uint-write_uint_cases_example = read_uint-write_uint_cases (192 ∷ []) 0 (2 ^ 63) (omega arith)

decode-encode_request_example :
    request.decode digits_text (request.encode digits_text (reverse (v4 0x0a000001)))
    ≡ ok (reverse (v4 0x0a000001))
decode-encode_request_example =
    decode-encode_request digits_text (reverse (v4 0x0a000001)) (omega arith)

abbrev answer : Reply
answer = answered (record {
  outcome = found;
  records =
      record {
        name = bytes "host.peios";
        rtype = 1;
        ttl = 300;
        data_wire = 10 ∷ 0 ∷ 0 ∷ 1 ∷ [];
        text = bytes "10.0.0.1";
      }
      ∷ [];
  source = bytes "upstream";
  server = some (bytes "10.0.0.53");
  interface = none;
  validation = unvalidated;
  rcode = 0;
})

answer-IsReply : IsReply answer
unfolding is_utf8
answer-IsReply = record {
  few = omega arith;
  records = (
    record {
      name = (refl, omega arith);
      rtype = omega arith;
      ttl = omega arith;
      data_wire = omega arith;
      text = (refl, omega arith);
    },
    tt,
  );
  source = (refl, omega arith);
  server = (refl, omega arith);
  interface = tt;
  rcode = omega arith;
}

decode-encode_reply_example : reply.decode digits_text (reply.encode digits_text answer) ≡ ok answer
decode-encode_reply_example = decode-encode_reply digits_text answer answer-IsReply

-- A length of 2^24 with nothing behind it.
recv-too_large_example :
    recv pipe (record { incoming = 0 ∷ 0 ∷ 0 ∷ 1 ∷ []; outgoing = [] }) ≡ err (too_large (2 ^ 24))
recv-too_large_example =
    recv-too_large pipe (2 ^ 24) [] (record { incoming = 0 ∷ 0 ∷ 0 ∷ 1 ∷ []; outgoing = [] })
      (omega arith) (omega arith) refl

-- Before and after the client's `send`, and what the server hears.
abbrev client : Pipe
client = record { incoming = frame (reply.encode digits_text done); outgoing = [] }

abbrev client_sent : Pipe
client_sent = record client { outgoing = frame (request.encode digits_text status) }

abbrev server : Pipe
server = record { incoming = frame (request.encode digits_text status); outgoing = [] }

status_sent : send pipe (request.encode digits_text status) client ≡ ok client_sent
unfolding send request.encode write_map write_str str_header
status_sent = refl

done_short : length (reply.encode digits_text done) ≤ 65_536
unfolding reply.encode write_map write_fields write_str str_header write_bool
done_short = omega arith

call-reply_example :
    ((peer : Pipe) × (recv pipe server ≡ ok (request.encode digits_text status, peer))
      × (request.decode digits_text (request.encode digits_text status) ≡ ok status))
    × ((after : Pipe) × (call pipe digits_text status client ≡ ok (done, after)))
call-reply_example =
    call-reply pipe digits_text status done client client_sent server tt tt refl status_sent refl
      done_short refl
