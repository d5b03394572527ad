-- ===== src/DemoConnection/Reach.antt =====
-- The runs of a connection of the demo protocol.
use c_http.Prelude.{
  ℕ, ◌≡◌, refl, List, [], Option, none, ok, ok-injective, Bool, true, false, sym, ◌∙◌, append-nil,
  if◌then◌else◌,
}
use c_http.BufferChain.{Malloc}
use c_http.BufferChain.Laws.{Gives}
use c_http.IoBuffer.{IoBuffer}
use c_http.DemoMessage.{DemoMessage}
use c_http.DemoParser.{DemoParser, demo_parser_new}
use c_http.DemoParser.States.{new-IsValid}
use c_http.DemoConnection.{DemoConnection, DemoReadState, DemoPostable, DemoInput}
use c_http.DemoConnection.ReadSide.{democonnection_read}
use c_http.DemoConnection.Loop.{
  run_next, demohandler_init, event_handler, write_epollout, read_epollin,
}
use c_http.DemoConnection.Shapes.{
  conn, Good, AfterRead, answers, RecvFits, TakesAll, goes_on, waits, abandoned, ends, Shape,
  settled, answering, starting, writing, written, acknowledging, overlapped, gone,
}
use c_http.DemoConnection.Progress.{call_round-Shape}

-- The connections that a run comes to when `send` takes each response at once: the start, a round of
-- the loop over the ready list, and an event, which epoll is asked for when the ready list is empty.
pub data Reach (malloc : Malloc) : DemoConnection → Type 0 where
  started : {c : DemoConnection} → demohandler_init ≡ ok c → Reach malloc c
  looped :
      {c c' : DemoConnection} (input : DemoInput)
      → Reach malloc c
      → RecvFits input.recv c.active_input_buffer_ref
      → TakesAll input.send c.active_output_buffer_ref
      → run_next malloc input c ≡ ok c'
      → Reach malloc c'
  notified :
      {c c' : DemoConnection} (epollout epollin : Bool)
      → Reach malloc c
      → c.posted ≡ []
      → c.closed ≡ false
      → event_handler epollout epollin c ≡ c'
      → Reach malloc c'

-- No event starts a write, since a write never waits.
event_handler-conn :
    (epollout epollin : Bool) (c : DemoConnection)
    → write_epollout c ≡ c
    → event_handler epollout epollin c ≡ (if epollin then read_epollin c else c)
unfolding event_handler
event_handler-conn true epollin c e = rw e
event_handler-conn false epollin c e = refl

read_epollin-Shape :
    {rs : DemoReadState} {rc : Bool} {tail : List DemoPostable} (epollin wc : Bool)
    (i : Option IoBuffer) (p : DemoParser) (s : List ℕ) (rq : List DemoMessage)
    → AfterRead rs rc tail
    → tail ≡ []
    → Good i p s [] rq
    → let c = conn rs rc wc i none p [] none tail false s rq in
      Shape (if epollin then read_epollin c else c)
unfolding read_epollin
read_epollin-Shape epollin wc i p s rq goes_on e g = cc
read_epollin-Shape true wc i p s rq waits e g = settled wc i p s rq goes_on g
read_epollin-Shape false wc i p s rq waits e g = settled wc i p s rq waits g
read_epollin-Shape true wc i p s rq abandoned e g = settled wc i p s rq abandoned g
read_epollin-Shape false wc i p s rq abandoned e g = settled wc i p s rq abandoned g
read_epollin-Shape epollin wc i p s rq ends e g = cc

event_handler-Shape :
    {c : DemoConnection} (epollout epollin : Bool)
    → Shape c
    → c.posted ≡ []
    → c.closed ≡ false
    → Shape (event_handler epollout epollin c)
unfolding write_epollout
event_handler-Shape epollout epollin (settled wc i p s rq after g) e alive =
    rw (event_handler-conn epollout epollin _ refl)
      (read_epollin-Shape epollin wc i p s rq after e g)
event_handler-Shape epollout epollin (answering wc again i p s rq m v g) e alive = cc
event_handler-Shape epollout epollin (starting again i b p s rq m vb h g) e alive = cc
event_handler-Shape epollout epollin (writing true i b p s rq m vb h g) e alive = cc
event_handler-Shape epollout epollin (writing false i b p s rq m vb h g) e alive = cc
event_handler-Shape epollout epollin (written i p s rq m g) e alive = cc
event_handler-Shape epollout epollin (acknowledging i p s rq m after g) e alive = cc
event_handler-Shape epollout epollin (overlapped i p s rq m next v g) e alive = cc
event_handler-Shape epollout epollin (gone wc i p s rq g) e alive = cc

demohandler_init-Shape : (c : DemoConnection) → demohandler_init ≡ ok c → Shape c
unfolding demohandler_init democonnection_read
demohandler_init-Shape c e = rw (sym (ok-injective _ c e)) (
    settled false none demo_parser_new [] [] goes_on
      (record { input_valid = tt; parser_valid = new-IsValid; answered = refl }))

module _ (malloc : Malloc) (gives : Gives malloc) where
  Reach-Shape : {c : DemoConnection} → Reach malloc c → Shape c
  Reach-Shape (started e) = demohandler_init-Shape _ e
  Reach-Shape (looped {c = b} {c' = c} input before r o e) =
      let (c'', done, shape) = call_round-Shape malloc gives input (Reach-Shape before) r o in
      rw (ok-injective c c'' (sym e ∙ done)) shape
  Reach-Shape (notified epollout epollin before none_posted alive e) =
      rw (sym e) (event_handler-Shape epollout epollin (Reach-Shape before) none_posted alive)

  -- A run never stops at an assertion, calls a `NULL` function or runs a function of a freed connection.
  pub run_next-safe :
      {c : DemoConnection} (input : DemoInput)
      → Reach malloc c
      → RecvFits input.recv c.active_input_buffer_ref
      → TakesAll input.send c.active_output_buffer_ref
      → (c' : DemoConnection) × (run_next malloc input c ≡ ok c') × Reach malloc c'
  run_next-safe input run r o =
      let (c', done, shape) = call_round-Shape malloc gives input (Reach-Shape run) r o in
      (c', done, looped input run r o done)

  Shape-sent : {c : DemoConnection} → Shape c → c.posted ≡ [] → c.sent ≡ answers c.requests
  Shape-sent (settled wc i p s rq after g) e = sym (append-nil s) ∙ g.answered
  Shape-sent (answering wc again i p s rq m v g) e = cc
  Shape-sent (starting again i b p s rq m vb h g) e = cc
  Shape-sent (writing true i b p s rq m vb h g) e = cc
  Shape-sent (writing false i b p s rq m vb h g) e = cc
  Shape-sent (written i p s rq m g) e = cc
  Shape-sent (acknowledging i p s rq m after g) e = cc
  Shape-sent (overlapped i p s rq m next v g) e = cc
  Shape-sent (gone wc i p s rq g) e = sym (append-nil s) ∙ g.answered

  -- In every state that a run of a connection of the demo protocol comes to, whatever bytes recv
  -- gives within the room of the input buffer and whatever events come, if each send takes the
  -- whole response, then whenever nothing is posted the bytes sent are the frames of the responses,
  -- with the texts of the requests, to all the requests that were handled, in their order.
  pub sent-answers :
      {c : DemoConnection} → Reach malloc c → c.posted ≡ [] → c.sent ≡ answers c.requests
  sent-answers run e = Shape-sent (Reach-Shape run) e
