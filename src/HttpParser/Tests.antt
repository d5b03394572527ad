-- ===== src/HttpParser/Tests.antt =====
-- "GET /a HTTP/1.1" with one header in pieces and a body, a response "200 OK", and their limits.
use c_http.Prelude.{
  ℕ, suc, ◌≡◌, ◌++◌, refl, List, [], ◌∷◌, none, some, true, ok, fault, out_of_bounds, assert_failed,
  replicate, length-replicate, arith, inl,
}
use c_http.IoBuffer.{IoBuffer}
use c_http.IoBuffer.Laws as Io
use c_http.Cbuffer.{Cbuffer}
use c_http.Cbuffer.Laws.{Gives, IsValid}
use c_http.Cbuffer.Holds.{Holds}
use c_http.Message.{Malloc, Message, message_serialize}
use c_http.HttpParser.{HttpParser, nothing_state}
use c_http.HttpParser.Feed.{Handler, on_message_begin, on_status, on_message_complete, feed}
use c_http.HttpParser.Step.{Opens, Idle, Reads, no_texts}
use c_http.HttpParser.Pieces.{Line, Fits, line_callbacks, lines_callbacks}
use c_http.HttpParser.Request as Request
use c_http.HttpParser.Request.{
  Request, OpeningFits, RequestFits, request_callbacks, feed-request_callbacks,
}
use c_http.HttpParser.Response as Response
use c_http.HttpParser.Response.{Response, ResponseFits, response_callbacks, feed-response_callbacks}
use c_http.HttpParser.Reprint.{request_text, message_serialize-feed}
use c_http.HttpParser.Stream.{requests_callbacks, deliver, AllReceived, feed-requests_callbacks}
use c_http.HttpParser.Limits.{
  request_callbacks-overflow, trailer_callbacks-lost, status_callbacks-twice,
}

abbrev zeros : Malloc
zeros n = replicate n 0

zeros-Gives : Gives zeros
zeros-Gives n = length-replicate n 0

abbrev empty_buf : Cbuffer
empty_buf = record { mem = zeros 256; m_length = 0; m_capacity = 256; m_size = 0 }

empty_buf-IsValid : IsValid empty_buf
empty_buf-IsValid = record {
  slab = zeros-Gives 256;
  lower = omega arith;
  upper = omega arith;
  room = omega arith;
}

empty_buf-Holds : Holds empty_buf []
empty_buf-Holds = record {
  valid = empty_buf-IsValid;
  holds = refl;
  ended = λ h. absurd (omega (arith, h));
}

abbrev fresh : HttpParser
fresh = record {
  current_message_ptr = none;
  m_header_state = nothing_state;
  m_url_buf = empty_buf;
  m_status_buf = empty_buf;
  m_name_buf = empty_buf;
  m_value_buf = empty_buf;
}

fresh-Idle : Idle fresh nothing_state
fresh-Idle = record {
  state = refl;
  url_buf = empty_buf-IsValid;
  status_buf = empty_buf-IsValid;
  name_buf = empty_buf-IsValid;
  value_buf = empty_buf-IsValid;
}

-- A handler that counts its messages.
abbrev count : Handler ℕ
count s m = (suc s, 0)

abbrev get : ℕ → List ℕ
get method = 71 ∷ 69 ∷ 84 ∷ []

-- "Ho" "st": "x" ""
abbrev host : Line
host = record {
  field = 72 ∷ 111 ∷ [];
  fields = (115 ∷ 116 ∷ []) ∷ [];
  value = 120 ∷ [];
  values = [] ∷ [];
}

host-Fits : Fits host
host-Fits = record {
  field = omega arith;
  fields = (omega arith, tt);
  value = omega arith;
  values = (omega arith, tt);
  some_name = omega arith;
  name_room = omega arith;
  value_room = omega arith;
}

abbrev request : Request
request = record {
  url = 47 ∷ [];
  urls = (97 ∷ []) ∷ [];
  lines = host ∷ [];
  http_major = 1;
  http_minor = 1;
  method = 1;
  body = (65 ∷ []) ∷ (66 ∷ 67 ∷ []) ∷ [];
}

request-RequestFits : RequestFits request
request-RequestFits = record {
  opening = record {
    url = omega arith;
    urls = (omega arith, tt);
    room = omega arith;
    lines = (host-Fits, tt);
  };
  some_url = omega arith;
  url_room = omega arith;
  body = (omega arith, (omega arith, tt));
}

feed-request_callbacks_example :
    (p' : HttpParser) × (st' : ℕ) × (m : Message) × (feed zeros
        (0, 0)
        true
        count
        (request_callbacks request)
        fresh
        0
      ≡ ok (p', 1, 0))
    × Request.Received request m
    × Opens st'
    × Idle p' st'
feed-request_callbacks_example =
    feed-request_callbacks zeros (0, 0) true count zeros-Gives fresh request 0 (inl refl) fresh-Idle
      request-RequestFits

message_serialize-feed_example :
    (p' : HttpParser) × (m : Message) × (b : IoBuffer) × (feed zeros
        (0, 0)
        true
        count
        (request_callbacks request)
        fresh
        0
      ≡ ok (p', 1, 0))
    × (message_serialize get zeros m ≡ ok b)
    × (Io.bytes b ≡ request_text get request)
message_serialize-feed_example =
    message_serialize-feed get zeros (0, 0) true count fresh nothing_state request 0 zeros-Gives
      (inl refl) fresh-Idle request-RequestFits (omega arith)

feed-requests_callbacks_example :
    (p' : HttpParser) × (st' : ℕ) × (ms : List Message) × (feed zeros
        (0, 0)
        true
        count
        (requests_callbacks (request ∷ request ∷ []))
        fresh
        0
      ≡ ok (p', deliver count 0 ms, 0))
    × AllReceived (request ∷ request ∷ []) ms
    × Opens st'
    × Idle p' st'
feed-requests_callbacks_example =
    feed-requests_callbacks zeros (0, 0) true count fresh (request ∷ request ∷ []) 0 zeros-Gives
      (λ t m. refl) (inl refl) fresh-Idle (request-RequestFits, (request-RequestFits, tt))

abbrev response : Response
response = record {
  status_code = 200;
  reason = 79 ∷ 75 ∷ [];
  lines = host ∷ [];
  http_major = 1;
  http_minor = 1;
  body = [];
}

feed-response_callbacks_example :
    (p' : HttpParser) × (st' : ℕ) × (m : Message) × (feed zeros
        (0, 0)
        true
        count
        (response_callbacks response)
        fresh
        0
      ≡ ok (p', 1, 0))
    × Response.Received response m
    × Opens st'
    × Idle p' st'
feed-response_callbacks_example =
    feed-response_callbacks zeros (0, 0) true count zeros-Gives fresh response 0 (inl refl)
      fresh-Idle
      (record {
        some_reason = omega arith;
        reason = omega arith;
        lines = (host-Fits, tt);
        body = tt;
      })

-- A target of 512 bytes in two pieces.
abbrev long_request : Request
long_request = record request { url = replicate 256 97; urls = replicate 256 97 ∷ [] }

request_callbacks-overflow_example :
    feed zeros (0, 0) true count (request_callbacks long_request) fresh 0 ≡ fault out_of_bounds
request_callbacks-overflow_example =
    request_callbacks-overflow zeros (0, 0) true count zeros-Gives fresh long_request 0 (inl refl)
      fresh-Idle
      (record {
        url = omega arith;
        urls = (omega arith, tt);
        room = omega arith;
        lines = (host-Fits, tt);
      })
      (omega arith)

status_callbacks-twice_example :
    feed zeros
      (0, 0)
      true
      count
      (on_message_begin ∷ on_status 200 (79 ∷ []) ∷ on_status 200 (75 ∷ []) ∷ [])
      fresh
      0
    ≡ fault assert_failed
status_callbacks-twice_example =
    status_callbacks-twice zeros (0, 0) true count zeros-Gives fresh 200 (79 ∷ []) (75 ∷ []) 0 []
      fresh-Idle (omega arith) (omega arith) (omega arith)

abbrev message : Message
message = record {
  body = none;
  headers = [];
  major_vers = 1;
  minor_vers = 1;
  is_request = true;
  status_code = 0;
  reason = some empty_buf;
  method = 1;
  target = some empty_buf;
}

abbrev reading : HttpParser
reading = record fresh { current_message_ptr = some message }

reading-Reads : Reads reading nothing_state message no_texts
reading-Reads = record {
  message = refl;
  state = refl;
  url_buf = empty_buf-Holds;
  status_buf = empty_buf-Holds;
  name_buf = empty_buf-Holds;
  value_buf = empty_buf-Holds;
}

trailer_callbacks-lost_example :
    (p' : HttpParser) × (feed zeros
        (0, 0)
        true
        count
        (lines_callbacks (host ∷ []) ++ (line_callbacks host ++ on_message_complete ∷ []))
        reading
        0
      ≡ ok (p', 1, 0))
trailer_callbacks-lost_example =
    trailer_callbacks-lost zeros (0, 0) true count zeros-Gives reading (host ∷ []) host 0 (inl refl)
      reading-Reads refl (host-Fits, tt) host-Fits
