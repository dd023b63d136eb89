-- ===== src/Tests.antt =====
-- Data for the tests and the examples of the theorems.
pub mod Wire
pub mod Names
pub mod Answers
pub mod Engines
pub mod Streams
pub mod Stubs
pub mod Messages
pub mod Replies
use resolvd.Prelude.{ℕ, List, [], ◌∷◌, Bytes, bytes, arith, none, some, refl, true, false}
use resolvd.Net.{v4}
use resolvd.Dns.Name.{Name}
use resolvd.Dns.Name.Valid.{IsName}
use resolvd.Dns.Types.{
  Question, Record, Message, Header, default_header, question_in, record_in, a, cname, t_a,
}
use resolvd.Dns.Records.{write_rdata}
use resolvd.Dns.Wire.{write}
use resolvd.Dns.Message.{query, reply_to}
use resolvd.Dns.Message.RoundTrip.{IsQuestion, IsMessage}
use resolvd.Cache.{Entry, found}
use resolvd.Engine.State.{Levels, Tx}

abbrev pub www : Name
www = record { labels = bytes "www" ∷ bytes "peios" ∷ [] }

abbrev pub host : Name
host = record { labels = bytes "Host" ∷ bytes "peios" ∷ [] }

pub www-IsName : IsName www
www-IsName = record {
  labels = ((omega arith, omega arith), ((omega arith, omega arith), tt));
  fits = omega arith;
}

pub host-IsName : IsName host
host-IsName = record {
  labels = ((omega arith, omega arith), ((omega arith, omega arith), tt));
  fits = omega arith;
}

abbrev pub www_question : Question
www_question = question_in www t_a

pub www_question-IsQuestion : IsQuestion www_question
www_question-IsQuestion = record { name = www-IsName; rtype = omega arith; class = omega arith }

-- `www` is an alias of `host`, whose address follows.
abbrev pub www_records : List Record
www_records = record_in www 600 (cname host) ∷ record_in host 60 (a 0x0a000001) ∷ []

abbrev pub www_reply : Message
www_reply = record {
  header = record default_header {
    id = 7;
    response = true;
    recursion_desired = true;
    recursion_available = true;
  };
  questions = www_question ∷ [];
  answers = www_records;
  authority = [];
  additional = [];
}

pub www_reply-IsMessage : IsMessage www_reply
unfolding write_rdata write
www_reply-IsMessage = record {
  header = record { id = omega arith; opcode = omega arith; rcode = omega arith };
  questions = (www_question-IsQuestion, tt);
  answers = (
    record {
      name = www-IsName;
      rtype = omega arith;
      class = omega arith;
      ttl = omega arith;
      rdata = (refl, host-IsName);
      size = omega arith;
    },
    (
      record {
        name = host-IsName;
        rtype = omega arith;
        class = omega arith;
        ttl = omega arith;
        rdata = (refl, omega arith);
        size = omega arith;
      },
      tt,
    ),
  );
  authority = tt;
  additional = tt;
}

abbrev pub www_tx : Tx
www_tx = record {
  task = 1;
  dns_id = 7;
  question = www_question;
  server = v4 0x0a000035;
  tcp = false;
  deadline = 2_000_000_000;
}

abbrev pub www_entry : Entry
www_entry = record {
  outcome = found;
  records = www_records;
  rcode = 0;
  server = v4 0x0a000035;
  expires = 60_000_000_000;
}

abbrev pub two_levels : Levels
two_levels = record { link = 1; addressed = 2; link_le_addressed = omega arith }
