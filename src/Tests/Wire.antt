-- ===== src/Tests/Wire.antt =====
-- The theorems on the DNS wire format, at messages that are written out.
use resolvd.Prelude.{
  ◌+◌, ◌≤◌, ◌≡◌, ◌≢◌, refl, [], ◌∷◌, ◌++◌, length, All, IsByte, Bytes, bytes, ok, err, stuck, arith,
}
use resolvd.Dns.Name.{wire_len, bad_pointer}
use resolvd.Dns.Wire.{write, read}
use resolvd.Dns.Wire.RoundTrip.{read-write, read-pointer}
use resolvd.Dns.Wire.Sound.{read-ne-stuck, read-IsRead, IsRead}
use resolvd.Dns.Records.{write_rdata, write_record}
use resolvd.Dns.Message.{
  query, write_question, write_questions, write_records, encode, encoded, decode, encode_udp, edns,
}
use resolvd.Dns.Message.RoundTrip.{decode-encode}
use resolvd.Dns.Message.Udp.{Carries, encode_udp_fits, query_encodes}
use resolvd.Tests.{
  www, www-IsName, www_question, www_question-IsQuestion, www_reply, www_reply-IsMessage,
}

-- The name, and a pointer to it behind it.
abbrev pointed : Bytes
pointed = 3 ∷ bytes "www" ++ 5 ∷ bytes "peios" ++ 0 ∷ 192 ∷ 0 ∷ []

read_test : read pointed 11 ≡ ok (www, 13)
unfolding read
read_test = refl

-- A pointer must go backwards.
read_forward_test : read (192 ∷ 0 ∷ []) 0 ≡ err bad_pointer
unfolding read
read_forward_test = refl

read-write_example : read (write www) 0 ≡ ok (www, 0 + wire_len www)
unfolding write
read-write_example =
    read-write (write www) 0 www [] www-IsName (record { rest = refl; within = refl })

read-pointer_example : read pointed 11 ≡ ok (www, 11 + 2)
unfolding write
read-pointer_example =
    read-pointer pointed 11 0 www (192 ∷ 0 ∷ []) [] www-IsName (omega arith) (omega arith)
      (record { rest = refl; within = refl }) (record { rest = refl; within = refl })

read-ne-stuck_example : read pointed 12 ≢ stuck
read-ne-stuck_example = read-ne-stuck pointed 12

pointed_bytes : All IsByte pointed
pointed_bytes = ground arith

read-IsRead_example : IsRead pointed 11 (www, 13)
read-IsRead_example = read-IsRead pointed 11 (www, 13) pointed_bytes read_test

www_reply_test : encode www_reply ≡ ok (encoded www_reply)
unfolding encode write_questions write_question write write_records write_record write_rdata
www_reply_test = refl

decode-encode_example : decode (encoded www_reply) ≡ ok www_reply
decode-encode_example =
    decode-encode www_reply (encoded www_reply) www_reply-IsMessage www_reply_test

query_encodes_example :
    (encode (query 7 www_question) ≡ ok (encoded (query 7 www_question)))
    × (length (encoded (query 7 www_question)) ≤ 282)
    × (decode (encoded (query 7 www_question)) ≡ ok (query 7 www_question))
query_encodes_example = query_encodes 7 www_question (omega arith) www_question-IsQuestion

encode_udp_test : encode_udp www_reply 282 ≡ ok (encoded www_reply)
unfolding encode_udp encode write_questions write_question write write_records write_record
    write_rdata
encode_udp_test = refl

encode_udp_fits_example :
    (length (encoded www_reply) ≤ 282) × Carries www_reply 282 (encoded www_reply)
unfolding edns
encode_udp_fits_example =
    encode_udp_fits www_reply (omega arith) tt www_reply-IsMessage 282 (encoded www_reply)
      (omega arith) encode_udp_test
