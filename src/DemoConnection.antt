-- ===== src/DemoConnection.antt =====
-- http_in_c/demo_protocol/demo_connection.c with demo_handler.c and demo_process_request.c: one
-- connection of the demo protocol's server. What `recv` and `send` do is an input of each step, and
-- the functors that the connection and its handler post are a sequence (`posted`; the circle that
-- holds them is http_in_c/runloop/functor_list.c). The one function that is passed for a read is
-- handle_request and the one for a write on_write_complete_cb, so a function pointer is whether it is
-- set; to call `NULL` goes out of bounds. Logging, tags and freeing are left out.
pub mod ReadSide
pub mod WriteSide
pub mod Loop
pub mod Shapes
pub mod Read
pub mod Progress
pub mod Reach
pub mod Kept
pub mod KeptWrite
pub mod Crash
pub mod Request
pub mod Exchange
pub mod Stuck
pub mod Served
mod Tests
use c_http.Prelude.{
  is_none, ℕ, ◌+◌, List, [], ◌∷◌, ◌++◌, Option, none, some, Run, ok, fault, out_of_bounds,
  assert_failed, ◌>>=◌, ◌>>◌, check, Bool, true, false, not, ◌==◌, if◌then◌else◌, take, length,
  memcpy,
}
use c_http.Prelude.Int.{ℤ, pos, negsuc}
use c_http.IoBuffer
use c_http.IoBuffer.{IoBuffer}
use c_http.BufferChain.{Malloc, append_bufferchain, empty_chain}
use c_http.DemoMessage.{
  DemoMessage, demo_message_new, demo_message_serialize, get_body, set_body, set_is_request,
}
use c_http.DemoParser.{
  DemoParser, Outcome, Event, completed, parse_error, demo_parser_consume, demo_parser_new,
}

-- `READ_STATE_IDLE` and so on
pub data DemoReadState : Type 0 where
  read_idle read_eagained read_active read_stop : DemoReadState

pub data DemoWriteState : Type 0 where
  write_idle write_eagained write_active write_stop : DemoWriteState

-- The functions that are posted. The last two are the handler's.
pub data DemoPostable : Type 0 where
  postable_reader postable_writer postable_write_call_cb postable_cleanup : DemoPostable
  postable_write_start postable_read_start : DemoPostable

-- `struct DemoConnection_s`, the two lists of `struct DemoHandler_s` that are used, the posted
-- functors, and a record of the run: whether the handler has been freed, the bytes that `send` has
-- taken and the requests that were answered.
pub record DemoConnection : Type 0 where
  pub read_state : DemoReadState
  pub write_state : DemoWriteState
  pub on_read_cb : Bool
  pub on_write_cb : Bool
  pub active_input_buffer_ref : Option IoBuffer
  pub active_output_buffer_ref : Option IoBuffer
  pub parser_ref : DemoParser
  pub readside_posted : Bool
  pub writeside_posted : Bool
  pub output_list : List DemoMessage
  pub active_response : Option DemoMessage
  pub posted : List DemoPostable
  pub closed : Bool
  pub sent : List ℕ
  pub requests : List DemoMessage

-- What `recv` and `send` come to; a `recv` of no bytes is a peer that has closed.
pub data DemoRecv : Type 0 where
  received : List ℕ → DemoRecv
  recv_eagain recv_failed : DemoRecv

pub data DemoSend : Type 0 where
  nsend : ℕ → DemoSend
  send_eagain send_failed : DemoSend

pub record DemoInput : Type 0 where
  pub recv : DemoRecv
  pub send : DemoSend

abbrev pub is_idle : DemoReadState → Bool
is_idle read_idle = true
is_idle read_eagained = false
is_idle read_active = false
is_idle read_stop = false

abbrev pub is_active : DemoReadState → Bool
is_active read_idle = false
is_active read_eagained = false
is_active read_active = true
is_active read_stop = false

abbrev pub is_eagained : DemoReadState → Bool
is_eagained read_idle = false
is_eagained read_eagained = true
is_eagained read_active = false
is_eagained read_stop = false

abbrev pub is_stop : DemoReadState → Bool
is_stop read_idle = false
is_stop read_eagained = false
is_stop read_active = false
is_stop read_stop = true

abbrev pub is_write_idle : DemoWriteState → Bool
is_write_idle write_idle = true
is_write_idle write_eagained = false
is_write_idle write_active = false
is_write_idle write_stop = false

abbrev pub is_write_eagained : DemoWriteState → Bool
is_write_eagained write_idle = false
is_write_eagained write_eagained = true
is_write_eagained write_active = false
is_write_eagained write_stop = false

abbrev pub is_write_stop : DemoWriteState → Bool
is_write_stop write_idle = false
is_write_stop write_eagained = false
is_write_stop write_active = false
is_write_stop write_stop = true

-- `post_to_reactor` and `rtor_reactor_post`
abbrev pub post_to_reactor : DemoPostable → DemoConnection → DemoConnection
post_to_reactor f c = record c { posted = c.posted ++ f ∷ [] }
