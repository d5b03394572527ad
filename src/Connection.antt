-- ===== src/Connection.antt =====
-- http_in_c/async/connection_read.c, connection_write.c, connection_event.c and connection_api.c, and
-- the handler of async_handler.c: one connection of the asynchronous server. The ready list of the
-- reactor is the sequence of functors of this connection (`posted`; the circle that holds them is
-- http_in_c/runloop/functor_list.c), and what `recv`, `send` and llhttp do is an input of each step.
-- `process_request`, the application, answers at once. The input buffer, which only carries the bytes
-- from `recv` to llhttp, is left out, as are logging, tags and freeing.
pub mod Loop
pub mod Invariant
pub mod Progress
pub mod Reach
pub mod Serve
pub mod Exchange
mod Tests
use c_http.Prelude.{
  is_none, ℕ, List, [], ◌∷◌, ◌++◌, Option, none, some, Run, ok, fault, out_of_bounds, ◌>>=◌, ◌>>◌,
  check, Bool, true, false, not, ◌==◌, if◌then◌else◌, take,
}
use c_http.Prelude.Int.{ℤ, pos, negsuc}
use c_http.IoBuffer
use c_http.IoBuffer.{IoBuffer}
use c_http.Message.{
  Malloc, Message, message_serialize, message_cmp_header, message_add_header_cstring,
}
use c_http.HttpParser.{HttpParser}
use c_http.HttpParser.Feed.{Callback, Handler, feed}

-- `READ_STATE_IDLE` and so on; the other read states are never set.
pub data ReadState : Type 0 where
  read_idle read_eagained read_active read_stop : ReadState

pub data WriteState : Type 0 where
  write_idle write_eagained write_active write_stop : WriteState

-- The functions that the connection posts.
pub data Postable : Type 0 where
  postable_reader postable_writer postable_write_complete postable_handle_request : Postable
  postable_close_connection : Postable

-- `struct AsyncConnection_s`, the posted functors, and a record of the run: whether the handler has
-- been freed, the bytes that `send` has taken and the requests that the application was given.
pub record AsyncConnection : Type 0 where
  pub read_state : ReadState
  pub write_state : WriteState
  pub readside_posted : Bool
  pub writeside_posted : Bool
  pub input_message_ptr : Option Message
  pub scratch_request : Option Message
  pub active_output_buffer_ref : Option IoBuffer
  pub http_parser_ptr : HttpParser
  pub posted : List Postable
  pub closed : Bool
  pub sent : List ℕ
  pub requests : List Message

-- What `recv` comes to, with the callbacks that llhttp makes of the bytes, whether `errno` is `EAGAIN`
-- after it and whether llhttp returns `HPE_OK`.
pub data Recv : Type 0 where
  received : (callbacks : List Callback) (errno_eagain ec_ok : Bool) → Recv
  peer_closed recv_eagain recv_failed : Recv

-- What `send` comes to.
pub data Send : Type 0 where
  nsend : ℕ → Send
  send_eagain send_failed : Send

pub record Input : Type 0 where
  pub recv : Recv
  pub send : Send

abbrev pub is_read_idle : ReadState → Bool
is_read_idle read_idle = true
is_read_idle read_eagained = false
is_read_idle read_active = false
is_read_idle read_stop = false

abbrev pub is_read_active : ReadState → Bool
is_read_active read_idle = false
is_read_active read_eagained = false
is_read_active read_active = true
is_read_active read_stop = false

abbrev pub is_read_eagained : ReadState → Bool
is_read_eagained read_idle = false
is_read_eagained read_eagained = true
is_read_eagained read_active = false
is_read_eagained read_stop = false

abbrev pub is_write_idle : WriteState → Bool
is_write_idle write_idle = true
is_write_idle write_eagained = false
is_write_idle write_active = false
is_write_idle write_stop = false

abbrev pub is_write_active : WriteState → Bool
is_write_active write_idle = false
is_write_active write_eagained = false
is_write_active write_active = true
is_write_active write_stop = false

abbrev pub is_write_eagained : WriteState → Bool
is_write_eagained write_idle = false
is_write_eagained write_eagained = true
is_write_eagained write_active = false
is_write_eagained write_stop = false

-- `rtor_reactor_post`
abbrev pub post : Postable → AsyncConnection → AsyncConnection
post cb cref = record cref { posted = cref.posted ++ cb ∷ [] }

-- `read_error` and `write_error` come to the same.
abbrev pub stop : AsyncConnection → AsyncConnection
stop cref =
    post postable_close_connection
      (record cref { read_state = read_stop; write_state = write_stop })

-- The three assertions of the functions that end a read.
abbrev pub check_read : AsyncConnection → Run (Unit {0})
check_read cref = do
  check (is_read_active cref.read_state)
  check (is_none cref.input_message_ptr)
  check (not cref.readside_posted)

pub read_new_message : AsyncConnection → Message → Run AsyncConnection
read_new_message cref msg = do
  check (is_read_active cref.read_state)
  check (not cref.readside_posted)
  ok (
      post postable_handle_request (record cref {
        input_message_ptr = none;
        read_state = read_idle;
        scratch_request = some msg;
      }))

pub read_eagain : AsyncConnection → Run AsyncConnection
read_eagain cref = do check_read cref; ok (record cref { read_state = read_eagained })

-- `read_need_data` with `post_read_start`
pub read_need_data : AsyncConnection → Run AsyncConnection
read_need_data cref = do
  check_read cref
  ok (post postable_reader (record cref { readside_posted = true }))

pub read_error : AsyncConnection → Run AsyncConnection
read_error cref = do check_read cref; ok (stop cref)

-- `async_on_read_message_complete`: a message replaces the one before it.
pub on_read_message_complete : Handler (Option Message)
on_read_message_complete input_message_ptr msg = (some msg, 0)

module _ (malloc : Malloc) (garbage : ℕ × ℕ) (stale : Bool) where
  -- After `http_parser_consume`
  pub after_consume : AsyncConnection → (errno_eagain ec_ok : Bool) → Run AsyncConnection
  after_consume cref errno_eagain ec_ok = elim cref.input_message_ptr [
    | some msg ↦ read_new_message cref msg
    | none ↦
        if errno_eagain
        then read_eagain cref
        else if ec_ok
        then read_need_data cref
        else read_error cref
  ]

  pub reader : Recv → AsyncConnection → Run AsyncConnection
  reader result cref = do
    check (is_read_active cref.read_state)
    check (is_none cref.input_message_ptr)
    elim result [
      | received callbacks errno_eagain ec_ok ↦ (do
        (parser, input_message_ptr, answer) ←
            feed malloc garbage stale on_read_message_complete callbacks cref.http_parser_ptr
              cref.input_message_ptr
        after_consume
            (record cref { http_parser_ptr = parser; input_message_ptr = input_message_ptr })
            errno_eagain ec_ok)
      | peer_closed ↦ read_error cref
      | recv_eagain ↦ read_eagain cref
      | recv_failed ↦ read_error cref
    ]

  pub run_reader : Recv → AsyncConnection → Run AsyncConnection
  run_reader result cref = do
    check (is_read_active cref.read_state)
    check cref.readside_posted
    reader result (record cref { readside_posted = false })

  pub async_connection_read : Recv → AsyncConnection → Run AsyncConnection
  async_connection_read result cref = do
    check (is_read_idle cref.read_state)
    check (is_none cref.input_message_ptr)
    let active = record cref { read_state = read_active }
    if cref.readside_posted then ok active else reader result active

-- `writer` with a buffer; `write_complete` and `write_incomplete` post.
pub writer_send : Send → AsyncConnection → IoBuffer → Run AsyncConnection
writer_send (nsend n) cref iob = if n == 0 then ok (stop cref) else (do
  bytes ← IoBuffer.read_data iob
  iob' ← IoBuffer.consume iob n
  let cref' : AsyncConnection = record cref { sent = cref.sent ++ take n bytes }
  if IoBuffer.data_len iob' == 0
      then ok (
          post postable_write_complete
            (record cref' { write_state = write_idle; active_output_buffer_ref = none }))
      else ok (
          post postable_writer
            (record cref' { write_state = write_active; active_output_buffer_ref = some iob' })))
writer_send send_eagain cref iob = ok (record cref { write_state = write_eagained })
writer_send send_failed cref iob = ok (stop cref)

-- `async_postable_writer`
pub run_writer : Send → AsyncConnection → Run AsyncConnection
run_writer result cref = do
  check (not (is_none cref.active_output_buffer_ref))
  check (is_write_active cref.write_state)
  elim cref.active_output_buffer_ref [
    | none ↦ fault out_of_bounds
    | some iob ↦ writer_send result cref iob
  ]
