-- ===== src/SyncConnection/Tests.antt =====
-- Two requests in one read, and a request with an error behind it.
use c_http.Prelude.{
  ℕ, ◌≡◌, refl, List, [], ◌∷◌, none, some, true, ok, fault, assert_failed, replicate,
  length-replicate, arith, inl,
}
use c_http.Cbuffer.{Cbuffer}
use c_http.Cbuffer.Laws.{Gives, IsValid}
use c_http.Message.{Malloc, Message}
use c_http.HttpParser.{HttpParser, nothing_state}
use c_http.HttpParser.Step.{Opens, Idle}
use c_http.HttpParser.Request.{Request, RequestFits}
use c_http.HttpParser.Stream.{requests_callbacks, AllReceived}
use c_http.SyncConnection.{nread, sync_connection_read_message, read_messages}
use c_http.SyncConnection.Read.{read_messages-requests, sync_connection_read_message-refused}

abbrev zeros : Malloc
zeros n = replicate n 0

zeros-Gives : Gives zeros
zeros-Gives n = length-replicate n 0

abbrev empty_buf : Cbuffer
empty_buf = record { mem = zeros 256; m_length = 0; m_capacity = 256; m_size = 0 }

empty_buf-IsValid : IsValid empty_buf
empty_buf-IsValid = record {
  slab = zeros-Gives 256;
  lower = omega arith;
  upper = omega arith;
  room = omega arith;
}

abbrev fresh : HttpParser
fresh = record {
  current_message_ptr = none;
  m_header_state = nothing_state;
  m_url_buf = empty_buf;
  m_status_buf = empty_buf;
  m_name_buf = empty_buf;
  m_value_buf = empty_buf;
}

fresh-Idle : Idle fresh nothing_state
fresh-Idle = record {
  state = refl;
  url_buf = empty_buf-IsValid;
  status_buf = empty_buf-IsValid;
  name_buf = empty_buf-IsValid;
  value_buf = empty_buf-IsValid;
}

abbrev request : Request
request = record {
  url = 47 ∷ [];
  urls = [];
  lines = [];
  http_major = 1;
  http_minor = 1;
  method = 1;
  body = [];
}

request-RequestFits : RequestFits request
request-RequestFits = record {
  opening = record { url = omega arith; urls = tt; room = omega arith; lines = tt };
  some_url = omega arith;
  url_room = omega arith;
  body = tt;
}

read_messages-requests_example :
    (p' : HttpParser) × (st' : ℕ) × (ms : List Message) × (read_messages zeros
        (0, 0)
        true
        2
        (nread (requests_callbacks (request ∷ request ∷ [])) 0 ∷ [])
        (record { m_parser = fresh; input_list = []; reader_status = 0 })
      ≡ ok (some (ms, record { m_parser = p'; input_list = []; reader_status = 1 }, [])))
    × AllReceived (request ∷ request ∷ []) ms
    × Opens st'
    × Idle p' st'
read_messages-requests_example =
    read_messages-requests zeros (0, 0) true fresh 0 request (request ∷ []) [] zeros-Gives
      (inl refl) fresh-Idle (request-RequestFits, (request-RequestFits, tt))

sync_connection_read_message-refused_example :
    sync_connection_read_message zeros
      (0, 0)
      true
      (nread (requests_callbacks (request ∷ [])) 15 ∷ [])
      (record { m_parser = fresh; input_list = []; reader_status = 0 })
    ≡ fault assert_failed
sync_connection_read_message-refused_example =
    sync_connection_read_message-refused zeros (0, 0) true fresh 0 request [] 15 [] zeros-Gives
      (inl refl) fresh-Idle (request-RequestFits, tt) (omega arith)
