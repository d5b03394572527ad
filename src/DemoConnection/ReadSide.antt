-- ===== src/DemoConnection/ReadSide.antt =====
-- http_in_c/demo_protocol/demo_connection.c from event to message: reading, and what the handler does
-- with a request (handle_request of demo_handler.c, demo_process_request.c).
use c_http.Prelude.{
  ℕ, ◌+◌, List, [], ◌∷◌, ◌++◌, Option, none, some, Run, ok, fault, out_of_bounds, ◌>>=◌, ◌>>◌,
  check, true, false, not, ◌==◌, if◌then◌else◌, length, memcpy,
}
use c_http.Prelude.Int.{ℤ, pos, negsuc}
use c_http.IoBuffer
use c_http.IoBuffer.{IoBuffer}
use c_http.BufferChain.{Malloc, append_bufferchain, empty_chain}
use c_http.DemoMessage.{DemoMessage, demo_message_new, get_body, set_body, set_is_request}
use c_http.DemoParser.{Event, completed, parse_error, demo_parser_consume}
use c_http.DemoConnection.{
  DemoConnection, DemoRecv, is_active, is_eagained, is_idle, is_stop, post_to_reactor,
  postable_cleanup, postable_read_start, postable_reader, postable_write_start, read_active,
  read_eagained, read_idle, read_stop, received, recv_eagain, recv_failed,
}

-- The size of the input buffer.
abbrev pub buffer_size : ℕ
buffer_size = 1000

-- `process_request`: the body of the request in a message that is not a request
unfoldable pub process_request : Malloc → DemoMessage → Run DemoMessage
process_request malloc request = do
  bc ← append_bufferchain malloc empty_chain (get_body request)
  ok (set_body (set_is_request demo_message_new false) bc)

-- `handle_request` with error code 0; with any other code it does nothing.
unfoldable pub handle_request : Malloc → DemoConnection → DemoMessage → Run DemoConnection
handle_request malloc c msgref = do
  response ← process_request malloc msgref
  let c' : DemoConnection = record c {
    output_list = c.output_list ++ response ∷ [];
    requests = c.requests ++ msgref ∷ [];
  }
  ok (
      post_to_reactor postable_read_start
        (if length c'.output_list == 1 then post_to_reactor postable_write_start c' else c'))

-- A call of `on_read_cb`: that it is set. With an error code handle_request then does nothing.
abbrev pub read_failed_cb : DemoConnection → Run (Unit {0})
read_failed_cb c = if c.on_read_cb then ok tt else fault out_of_bounds

-- The assertion that there is an error code if there is no message.
abbrev pub check_code : ℤ → Run (Unit {0})
check_code (pos n) = check (not (n == 0))
check_code (negsuc n) = ok tt

-- `on_read_complete`, the callback of the parser
unfoldable pub on_read_complete : Malloc → DemoConnection → Event → Run DemoConnection
on_read_complete malloc c event = do
  let idle : DemoConnection = record c { read_state = read_idle; on_read_cb = false }
  elim event [
    | completed msg ↦ read_failed_cb c >> handle_request malloc idle msg
    | parse_error code ↦ check_code code >> (read_failed_cb c >> ok idle)
  ]

unfoldable pub read_error : DemoConnection → Run DemoConnection
read_error c = do
  read_failed_cb c
  ok (post_to_reactor postable_cleanup (record c { read_state = read_stop; on_read_cb = false }))

-- `IOBuffer_new_with_capacity(buffer_size)`, if there is no buffer yet
abbrev pub input_buffer : Malloc → DemoConnection → IoBuffer
input_buffer malloc c = elim c.active_input_buffer_ref [
  | some iob ↦ iob
  | none ↦ IoBuffer.new_with_capacity (malloc (buffer_size + 1)) buffer_size
]

-- What the parser has found, and whether `reader` goes on.
unfoldable pub after_parse : Malloc → DemoConnection → Option Event → (ec : ℤ) → Run DemoConnection
after_parse malloc c event ec = do
  c' ← elim event [ none ↦ ok c | some found ↦ on_read_complete malloc c found ]
  elim ec [
    | negsuc n ↦ ok c'
    | pos n ↦ ok (
        if n == 0
        then (if is_active c'.read_state then post_to_reactor postable_reader c' else c')
        else c')
  ]

-- The part of `reader` for bytes that are available. The callback comes from within the parser, which
-- touches nothing of the connection after it.
unfoldable pub consume_available : Malloc → DemoConnection → IoBuffer → Run DemoConnection
consume_available malloc c iob = do
  (out, iob') ← demo_parser_consume malloc c.parser_ref iob
  after_parse malloc (record c { parser_ref = out.parser; active_input_buffer_ref = some iob' })
      out.event out.code

-- What `recv` writes into the space of the buffer, and `IOBuffer_commit`
unfoldable pub commit_received : IoBuffer → List ℕ → Run IoBuffer
commit_received iob bytes = do
  mem ← memcpy iob.mem (IoBuffer.space iob) bytes
  IoBuffer.commit (record iob { mem = mem }) (length bytes)

-- The part of `reader` from `recv` on, with an empty buffer.
unfoldable pub receive : Malloc → DemoRecv → DemoConnection → IoBuffer → Run DemoConnection
receive malloc recv_eagain c iob =
    ok (record c { active_input_buffer_ref = some iob; read_state = read_eagained })
receive malloc recv_failed c iob = read_error (record c { active_input_buffer_ref = some iob })
receive malloc (received []) c iob = read_error (record c { active_input_buffer_ref = some iob })
receive malloc (received (b ∷ bytes)) c iob = do
  iob' ← commit_received iob (b ∷ bytes)
  consume_available malloc (record c { active_input_buffer_ref = some iob' }) iob'

-- `reader` in any state but READ_STATE_STOP, in which `postable_reader` does not call it
unfoldable pub reader : Malloc → DemoRecv → DemoConnection → Run DemoConnection
reader malloc result c =
    let iob = input_buffer malloc c in
    if IoBuffer.data_len iob == 0
    then receive malloc result c iob
    else consume_available malloc c iob

unfoldable pub run_reader : Malloc → DemoRecv → DemoConnection → Run DemoConnection
run_reader malloc result c =
    if is_stop c.read_state then read_failed_cb c >> ok c else reader malloc result c

-- `read_start`
abbrev pub read_start : DemoConnection → DemoConnection
read_start c = post_to_reactor postable_reader (record c { readside_posted = true })

-- `democonnection_read` with `handle_request`. In READ_STATE_STOP it calls handle_request with an error
-- code.
unfoldable pub democonnection_read : DemoConnection → Run DemoConnection
democonnection_read c = do
  check (not (is_active c.read_state))
  ok (
      if is_idle c.read_state
      then read_start (record c { read_state = read_active; on_read_cb = true })
      else record c { on_read_cb = is_eagained c.read_state })
