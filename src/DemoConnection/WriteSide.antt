-- ===== src/DemoConnection/WriteSide.antt =====
-- http_in_c/demo_protocol/demo_connection.c from response to socket, and the end of a write in
-- demo_handler.c.
use c_http.Prelude.{
  ◌++◌, none, some, Run, ok, fault, out_of_bounds, assert_failed, ◌>>=◌, ◌>>◌, check, true, false,
  ◌==◌, if◌then◌else◌, take, length,
}
use c_http.IoBuffer
use c_http.IoBuffer.{IoBuffer}
use c_http.BufferChain.{Malloc}
use c_http.DemoMessage.{DemoMessage, demo_message_serialize}
use c_http.DemoConnection.{
  DemoConnection, DemoSend, is_write_idle, is_write_stop, nsend, post_to_reactor, postable_cleanup,
  postable_write_call_cb, postable_write_start, postable_writer, send_eagain, send_failed,
  write_active, write_eagained, write_idle, write_stop,
}

-- `on_write_complete_cb`; `demo_message_dispose` reads through the pointer.
unfoldable pub on_write_complete_cb : DemoConnection → Run DemoConnection
on_write_complete_cb c = elim c.active_response [
  | none ↦ fault out_of_bounds
  | some response ↦
      let c' : DemoConnection = record c { active_response = none } in
      ok (if length c.output_list == 1 then post_to_reactor postable_write_start c' else c')
]

-- A call of `on_write_cb`, which ignores the status.
abbrev pub write_cb : DemoConnection → Run DemoConnection
write_cb c = if c.on_write_cb then on_write_complete_cb c else fault out_of_bounds

-- The write state stays as it is: `write_state == WRITE_STATE_ACTIVE` is a comparison.
unfoldable pub democonnection_write : Malloc → DemoConnection → DemoMessage → Run DemoConnection
democonnection_write malloc c response_ref = do
  check (is_write_idle c.write_state)
  iob ← demo_message_serialize malloc response_ref
  ok (
      post_to_reactor postable_writer
        (record c { on_write_cb = true; active_output_buffer_ref = some iob }))

unfoldable pub write_error : DemoConnection → Run DemoConnection
write_error c = do
  c' ← write_cb (record c { write_state = write_stop })
  ok (post_to_reactor postable_cleanup (record c' { on_write_cb = false }))

unfoldable pub writer : DemoSend → DemoConnection → IoBuffer → Run DemoConnection
writer (nsend n) c iob = if n == 0 then write_error c else (do
  bytes ← IoBuffer.read_data iob
  iob' ← IoBuffer.consume iob n
  let c' : DemoConnection = record c { sent = c.sent ++ take n bytes }
  ok (
      if IoBuffer.data_len iob' == 0
      then post_to_reactor postable_write_call_cb
          (record c' { write_state = write_idle; active_output_buffer_ref = none })
      else post_to_reactor postable_writer
          (record c' { write_state = write_active; active_output_buffer_ref = some iob' })))
writer send_eagain c iob = ok (record c { write_state = write_eagained })
writer send_failed c iob = write_error c

-- `postable_writer`
unfoldable pub run_writer : DemoSend → DemoConnection → Run DemoConnection
run_writer result c = elim c.active_output_buffer_ref [
  | none ↦ if is_write_stop c.write_state then fault out_of_bounds else fault assert_failed
  | some iob ↦
      if is_write_stop c.write_state
      then write_cb (record c { active_output_buffer_ref = none })
      else check (is_write_idle c.write_state) >> writer result c iob
]
