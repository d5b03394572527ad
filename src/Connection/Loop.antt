-- ===== src/Connection/Loop.antt =====
-- http_in_c/async/async_handler.c, connection_api.c and connection_event.c: the answers to requests, the
-- posted functions that the reactor takes from its ready list, and the events of epoll.
use c_http.Prelude.{
  ℕ, List, [], ◌∷◌, ◌++◌, none, some, Run, ok, fault, assert_failed, out_of_bounds, ◌>>=◌, ◌>>◌,
  check, Bool, true, false, ◌==◌, if◌then◌else◌,
}
use c_http.Prelude.Int.{pos, negsuc}
use c_http.Message.{
  Malloc, Message, message_serialize, message_cmp_header, message_add_header_cstring,
}
use c_http.HttpParser.{HttpParser}
use c_http.Connection.{
  AsyncConnection, Postable, postable_reader, postable_writer, postable_write_complete,
  postable_handle_request, postable_close_connection, Input, Recv, read_idle, read_active,
  write_idle, write_active, is_read_eagained, is_write_eagained, is_write_idle, post, run_reader,
  run_writer, async_connection_read,
}

-- HEADER_CONNECTION_KEY, HEADER_CONNECTION_KEEPALIVE and HEADER_CONNECTION_CLOSE
abbrev pub connection_key : List ℕ
connection_key = 67 ∷ 79 ∷ 78 ∷ 78 ∷ 69 ∷ 67 ∷ 84 ∷ 73 ∷ 79 ∷ 78 ∷ []

abbrev pub connection_keepalive : List ℕ
connection_keepalive = 107 ∷ 101 ∷ 101 ∷ 112 ∷ 45 ∷ 97 ∷ 108 ∷ 105 ∷ 118 ∷ 101 ∷ []

abbrev pub connection_close : List ℕ
connection_close = 99 ∷ 108 ∷ 111 ∷ 115 ∷ 101 ∷ []

-- The value that `async_handler_handle_response` chooses, and the response with that header.
abbrev pub connection_value : Message → List ℕ
connection_value request_ptr =
    elim (message_cmp_header request_ptr connection_key connection_keepalive) [
      | pos n ↦ if n == 1 then connection_keepalive else connection_close
      | negsuc n ↦ connection_close
    ]

abbrev pub with_connection_header : Message → Message → Message
with_connection_header request_ptr response_ptr =
    message_add_header_cstring response_ptr connection_key (connection_value request_ptr)

module _ (method_name : ℕ → List ℕ) (malloc : Malloc) where
  unfoldable pub async_connection_write : AsyncConnection → Message → Run AsyncConnection
  async_connection_write cref response_ref = do
    check (is_write_idle cref.write_state)
    iob ← message_serialize method_name malloc response_ref
    ok (
        post postable_writer
          (record cref { active_output_buffer_ref = some iob; write_state = write_active }))

  unfoldable pub async_handler_handle_response :
      AsyncConnection → Message → Message → Run AsyncConnection
  async_handler_handle_response cref request_ptr response_ptr =
      async_connection_write cref (with_connection_header request_ptr response_ptr)

  module _ (process_request : Message → Message) where
    -- `postable_handle_request`, `handle_request` and the application, which answers at once.
    unfoldable pub run_handle_request : AsyncConnection → Run AsyncConnection
    run_handle_request cref = elim cref.scratch_request [
      | none ↦ fault assert_failed
      | some request ↦
          async_handler_handle_response
            (record cref { scratch_request = none; requests = cref.requests ++ request ∷ [] })
            request (process_request request)
    ]

    module _ (garbage : ℕ × ℕ) (stale : Bool) where
      -- A posted function; it must not run after the handler was freed.
      unfoldable pub run_postable : Postable → Input → AsyncConnection → Run AsyncConnection
      run_postable postable_reader input cref = run_reader malloc garbage stale input.recv cref
      run_postable postable_writer input cref = run_writer input.send cref
      run_postable postable_write_complete input cref =
          async_connection_read malloc garbage stale input.recv cref
      run_postable postable_handle_request input cref = run_handle_request cref
      run_postable postable_close_connection input cref = ok (record cref { closed = true })

      -- One round of the loop over the ready list.
      unfoldable pub run_next : Input → AsyncConnection → Run AsyncConnection
      run_next input cref = elim cref.posted [
        | [] ↦ ok cref
        | f ∷ rest ↦
            if cref.closed
            then fault out_of_bounds
            else run_postable f input (record cref { posted = rest })
      ]

-- `async_handler_init` with `async_connection_init`, which starts the first read.
unfoldable pub async_handler_init : Malloc → ℕ × ℕ → Bool → HttpParser → Recv → Run AsyncConnection
async_handler_init malloc garbage stale parser result =
    async_connection_read malloc garbage stale result (record {
      read_state = read_idle;
      write_state = write_idle;
      readside_posted = false;
      writeside_posted = false;
      input_message_ptr = none;
      scratch_request = none;
      active_output_buffer_ref = none;
      http_parser_ptr = parser;
      posted = [];
      closed = false;
      sent = [];
      requests = [];
    })

-- `write_epollout`
unfoldable pub write_epollout : AsyncConnection → AsyncConnection
write_epollout cref =
    if is_write_eagained cref.write_state
    then post postable_writer (record cref { write_state = write_active; writeside_posted = true })
    else cref

-- `read_epollin` with `async_read_start`
unfoldable pub read_epollin : AsyncConnection → Run AsyncConnection
read_epollin cref =
    if is_read_eagained cref.read_state
    then (if cref.readside_posted
        then fault assert_failed
        else ok (
            post postable_reader
              (record cref { read_state = read_active; readside_posted = true })))
    else ok cref

-- `async_event_handler`, on the two bits of the event
unfoldable pub async_event_handler :
    (epollout epollin : Bool) → AsyncConnection → Run AsyncConnection
async_event_handler epollout epollin cref =
    let cref' : AsyncConnection = if epollout then write_epollout cref else cref in
    if epollin then read_epollin cref' else ok cref'
