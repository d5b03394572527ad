-- ===== src/DemoConnection/Loop.antt =====
-- The posted functions of http_in_c/demo_protocol/demo_connection.c and demo_handler.c, in the order in
-- which the loop of rtor_reactor_run takes them, and the events of epoll.
use c_http.Prelude.{
  List, [], ◌∷◌, none, some, Run, ok, fault, out_of_bounds, ◌>>=◌, ◌>>◌, check, Bool, true, false,
  if◌then◌else◌,
}
use c_http.BufferChain.{Malloc}
use c_http.DemoParser.{demo_parser_new}
use c_http.DemoConnection.{
  DemoConnection, DemoPostable, postable_reader, postable_writer, postable_write_call_cb,
  postable_cleanup, postable_write_start, postable_read_start, DemoInput, read_idle, read_active,
  write_idle, write_active, post_to_reactor, is_eagained, is_write_eagained,
}
use c_http.DemoConnection.ReadSide.{read_start, run_reader, democonnection_read}
use c_http.DemoConnection.WriteSide.{run_writer, democonnection_write, write_cb}

-- `postable_write_start`: `List_remove_first` of an empty list is `NULL`.
unfoldable pub run_write_start : Malloc → DemoConnection → Run DemoConnection
run_write_start malloc c = elim c.active_response [
  | some response ↦ ok c
  | none ↦ elim c.output_list [
    | [] ↦ ok c
    | response ∷ rest ↦
        democonnection_write malloc
          (record c { output_list = rest; active_response = some response }) response
  ]
]

-- A posted function. `postable_cleanup` ends in `List_itr_remove` of the server's handlers, which frees
-- the handler and the connection.
unfoldable pub run_postable :
    Malloc → DemoInput → DemoPostable → DemoConnection → Run DemoConnection
run_postable malloc input postable_reader c = run_reader malloc input.recv c
run_postable malloc input postable_writer c = run_writer input.send c
run_postable malloc input postable_write_call_cb c = check c.on_write_cb >> write_cb c
run_postable malloc input postable_cleanup c = ok (record c { closed = true })
run_postable malloc input postable_write_start c = run_write_start malloc c
run_postable malloc input postable_read_start c = democonnection_read c

-- The first of the functors on the ready list, if there is one. It must not run after the handler was
-- freed.
unfoldable pub call_first :
    Malloc → DemoInput → DemoConnection → List DemoPostable → Run DemoConnection
call_first malloc input c [] = ok c
call_first malloc input c (f ∷ rest) =
    if c.closed
    then fault out_of_bounds
    else run_postable malloc input f (record c { posted = rest })

-- One round of the loop over the ready list.
unfoldable pub run_next : Malloc → DemoInput → DemoConnection → Run DemoConnection
unfolding call_first
run_next malloc input c = call_first malloc input c c.posted

-- Some rounds.
unfoldable pub run_rounds : Malloc → List DemoInput → DemoConnection → Run DemoConnection
run_rounds malloc [] c = ok c
run_rounds malloc (input ∷ inputs) c = run_next malloc input c >>= run_rounds malloc inputs

-- `demohandler_init` with `democonnection_init`, which starts the first read
unfoldable pub demohandler_init : Run DemoConnection
demohandler_init = democonnection_read (record {
  read_state = read_idle;
  write_state = write_idle;
  on_read_cb = false;
  on_write_cb = false;
  active_input_buffer_ref = none;
  active_output_buffer_ref = none;
  parser_ref = demo_parser_new;
  readside_posted = false;
  writeside_posted = false;
  output_list = [];
  active_response = none;
  posted = [];
  closed = false;
  sent = [];
  requests = [];
})

unfoldable pub write_epollout : DemoConnection → DemoConnection
write_epollout c =
    if is_write_eagained c.write_state
    then post_to_reactor postable_writer
        (record c { write_state = write_active; writeside_posted = true })
    else c

unfoldable pub read_epollin : DemoConnection → DemoConnection
read_epollin c =
    if is_eagained c.read_state then read_start (record c { read_state = read_active }) else c

-- `event_handler`, on the two bits of the event
unfoldable pub event_handler : (epollout epollin : Bool) → DemoConnection → DemoConnection
event_handler epollout epollin c =
    let c' : DemoConnection = if epollout then write_epollout c else c in
    if epollin then read_epollin c' else c'
