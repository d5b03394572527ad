-- ===== src/Connection/Tests.antt =====
-- A connection of an application that answers every request with "200 OK".
use c_http.Prelude.{
  ℕ, ◌≡◌, ◌≤◌, ◌++◌, refl, List, [], ◌∷◌, none, some, true, false, ok, replicate, length-replicate,
  arith, inl, length,
}
use c_http.IoBuffer.{IoBuffer}
use c_http.Cbuffer.{Cbuffer}
use c_http.Cbuffer.Laws.{Gives, IsValid}
use c_http.Message.{Malloc, Message}
use c_http.HttpParser.{HttpParser, nothing_state}
use c_http.HttpParser.Feed.{feed}
use c_http.HttpParser.Step.{Opens, Idle}
use c_http.HttpParser.Request.{Request, RequestFits, Received}
use c_http.HttpParser.Stream.{requests_callbacks}
use c_http.Connection.{
  AsyncConnection, Input, received, recv_eagain, send_eagain, postable_reader, postable_writer,
  postable_handle_request, postable_write_complete, read_idle, read_active, read_eagained,
  write_idle, write_active, reader, run_reader, async_connection_read, after_consume, read_eagain,
  read_need_data,
}
use c_http.Connection.Loop.{
  with_connection_header, run_next, run_postable, async_event_handler, write_epollout, read_epollin,
  async_handler_init,
}
use c_http.Connection.Invariant.{conn, response_text}
use c_http.Connection.Progress.{Serializable}
use c_http.Connection.Reach.{Reach, started, looped, notified, Reach-answers, Reach-safe}
use c_http.Connection.Serve.{reader-last, run_sends, run_sends-all, AllPositive, total}
use c_http.Connection.Exchange.{run_exchange, run_exchange-response}

abbrev zeros : Malloc
zeros n = replicate n 0

zeros-Gives : Gives zeros
zeros-Gives n = length-replicate n 0

abbrev empty_buf : Cbuffer
empty_buf = record { mem = zeros 256; m_length = 0; m_capacity = 256; m_size = 0 }

empty_buf-IsValid : IsValid empty_buf
empty_buf-IsValid = record {
  slab = zeros-Gives 256;
  lower = omega arith;
  upper = omega arith;
  room = omega arith;
}

abbrev fresh : HttpParser
fresh = record {
  current_message_ptr = none;
  m_header_state = nothing_state;
  m_url_buf = empty_buf;
  m_status_buf = empty_buf;
  m_name_buf = empty_buf;
  m_value_buf = empty_buf;
}

fresh-Idle : Idle fresh nothing_state
fresh-Idle = record {
  state = refl;
  url_buf = empty_buf-IsValid;
  status_buf = empty_buf-IsValid;
  name_buf = empty_buf-IsValid;
  value_buf = empty_buf-IsValid;
}

abbrev get : ℕ → List ℕ
get method = 71 ∷ 69 ∷ 84 ∷ []

abbrev fine : Message → Message
fine request = record {
  body = none;
  headers = [];
  major_vers = 1;
  minor_vers = 1;
  is_request = false;
  status_code = 200;
  reason = some (record { mem = 79 ∷ 75 ∷ 0 ∷ []; m_length = 2; m_capacity = 3; m_size = 2 });
  method = 0;
  target = none;
}

fine-Serializable : (m : Message) → Serializable (fine m)
fine-Serializable m = (record { sized = refl; zero_at = refl }, tt)

abbrev request : Request
request = record {
  url = 47 ∷ [];
  urls = [];
  lines = [];
  http_major = 1;
  http_minor = 1;
  method = 1;
  body = [];
}

request-RequestFits : RequestFits request
request-RequestFits = record {
  opening = record { url = omega arith; urls = tt; room = omega arith; lines = tt };
  some_url = omega arith;
  url_room = omega arith;
  body = tt;
}

-- Nothing to read at first, then an event, then a part of a request.
abbrev after_part : AsyncConnection
after_part =
    conn read_active write_idle true false none none fresh (postable_reader ∷ []) false [] []

abbrev part : Input
part = record { recv = received [] false true; send = send_eagain }

after_part-Reach : Reach get fine zeros (0, 0) true after_part
unfolding async_handler_init async_connection_read reader read_eagain read_need_data after_consume
    run_next run_postable run_reader async_event_handler write_epollout read_epollin feed
after_part-Reach =
    looped {c = after_part} part
      (notified {c = conn read_eagained write_idle false false none none fresh [] false [] []} false
        true (started fresh recv_eagain tt refl) refl refl)
      (fresh, none, 0, refl) tt refl

Reach-answers_example : (length after_part.posted ≤ 1) × (after_part.sent ++ [] ≡ [])
Reach-answers_example =
    Reach-answers get fine zeros (0, 0) true zeros-Gives fine-Serializable after_part
      after_part-Reach

Reach-safe_example :
    ((c' : AsyncConnection) × (run_next get zeros fine (0, 0) true part after_part ≡ ok c'))
    × ((c' : AsyncConnection) × (async_event_handler true true after_part ≡ ok c'))
unfolding feed
Reach-safe_example =
    Reach-safe get fine zeros (0, 0) true zeros-Gives fine-Serializable after_part part true true
      after_part-Reach (fresh, none, 0, refl) tt

reader-last_example :
    (p' : HttpParser) × (st' : ℕ) × (m : Message) × (reader zeros
        (0, 0)
        true
        (received (requests_callbacks (request ∷ request ∷ [])) false true)
        (conn read_active write_idle false false none none fresh [] false [] [])
      ≡ ok (
          conn read_idle write_idle false false
            (some m)
            none
            p'
            (postable_handle_request ∷ [])
            false
            []
            []))
    × Received request m
    × Opens st'
    × Idle p' st'
reader-last_example =
    reader-last zeros (0, 0) true false fresh [] [] (request ∷ []) request false true zeros-Gives
      (inl refl) fresh-Idle (request-RequestFits, (request-RequestFits, tt))

abbrev two_bytes : IoBuffer
two_bytes = record {
  mem = 72 ∷ 105 ∷ 0 ∷ [];
  char_p = 0;
  allocated_capacity = 3;
  buffer_capacity = 2;
  buffer_ptr = 0;
  buffer_length = 2;
  buffer_remaining = 2;
}

run_sends-all_example :
    run_sends get zeros fine
      (0, 0)
      true
      (1 ∷ 1 ∷ [])
      (conn read_idle write_active false false none
        (some two_bytes)
        fresh
        (postable_writer ∷ [])
        false
        []
        [])
    ≡ ok (
        conn read_idle write_idle false false none none fresh
          (postable_write_complete ∷ [])
          false
          (72 ∷ 105 ∷ [])
          [])
run_sends-all_example =
    run_sends-all get zeros fine (0, 0) true (1 ∷ 1 ∷ []) false fresh [] [] two_bytes
      (record { block = refl; allocated = refl; inside = omega arith }) (omega arith)
      (omega arith, (omega arith, tt)) refl

-- A socket that takes one byte at a time.
abbrev ones : List ℕ → List ℕ
ones [] = []
ones (ch ∷ text) = 1 ∷ ones text

ones-AllPositive : (text : List ℕ) → AllPositive (ones text) × (total (ones text) ≡ length text)
ones-AllPositive [] = (tt, refl)
ones-AllPositive (ch ∷ text) =
    let (pos, all) = ones-AllPositive text in ((omega arith, pos), omega (arith, all))

run_exchange-response_example :
    (p' : HttpParser) × (st' : ℕ) × (m : Message) × (run_exchange get zeros fine
        (0, 0)
        true
        (request ∷ [])
        (ones (response_text get (with_connection_header m (fine m))))
        (conn read_idle write_idle false false none none fresh
          (postable_write_complete ∷ [])
          false
          []
          [])
      ≡ ok (
          conn read_idle write_idle false false none none p'
            (postable_write_complete ∷ [])
            false
            (response_text get (with_connection_header m (fine m)))
            (m ∷ [])))
    × Received request m
    × Opens st'
    × Idle p' st'
run_exchange-response_example =
    run_exchange-response get zeros fine (0, 0) true false fresh [] [] request ones zeros-Gives
      fine-Serializable (inl refl) fresh-Idle request-RequestFits ones-AllPositive
