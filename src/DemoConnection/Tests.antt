-- ===== src/DemoConnection/Tests.antt =====
-- The connection with small inputs.
use c_http.Prelude.{
  ℕ, ◌≡◌, ◌∙◌, refl, List, [], ◌∷◌, none, some, ok, ◌>>=◌, fault, Fault, Bool, true, false, arith,
  replicate, length-replicate,
}
use c_http.IoBuffer
use c_http.IoBuffer.{IoBuffer}
use c_http.IoBuffer.Laws as Io
use c_http.BufferChain.{Malloc}
use c_http.BufferChain.Laws.{Gives}
use c_http.DemoMessage.Serialize.{frame}
use c_http.DemoMessage.{demo_message_new}
use c_http.DemoParser.{
  error_recovery, parse_error, Outcome, demo_parser_new, demo_parser_consume, err_expected_stx,
}
use c_http.DemoParser.States.{new-IsValid}
use c_http.DemoConnection.{
  DemoConnection, DemoInput, recv_eagain, nsend, send_eagain, read_active, postable_reader,
}
use c_http.DemoConnection.ReadSide.{democonnection_read}
use c_http.DemoConnection.WriteSide.{writer}
use c_http.DemoConnection.Loop.{demohandler_init, run_next, run_rounds, event_handler}
use c_http.DemoConnection.Shapes.{conn, answers}
use c_http.DemoConnection.Reach.{Reach, started, run_next-safe, sent-answers}
use c_http.DemoConnection.Crash.{writer-partial}
use c_http.DemoConnection.Request.{Ready, ready}
use c_http.DemoConnection.Served.{Reach-exchange, Reach-quiet}
use c_http.DemoConnection.Exchange.{conversation, replies, demohandler_init-conversation}
use c_http.DemoConnection.Stuck.{run_next-parse_error}

abbrev zeros : Malloc
zeros n = replicate n 0

zeros-Gives : Gives zeros
zeros-Gives n = length-replicate n 0

-- The texts "Hi" and "no".
abbrev two_requests : List (Bool × List ℕ)
two_requests = (true, 72 ∷ 105 ∷ []) ∷ (true, 110 ∷ 111 ∷ []) ∷ []

demohandler_init-conversation_example :
    (c : DemoConnection) × ((demohandler_init >>= run_rounds zeros (conversation two_requests))
      ≡ ok c)
    × Ready c
    × (c.sent ≡ replies two_requests)
demohandler_init-conversation_example =
    demohandler_init-conversation zeros two_requests zeros-Gives
      ((refl, (refl, tt)), omega arith, ((refl, (refl, tt)), omega arith, tt))

abbrev new_connection : DemoConnection
new_connection =
    conn read_active true false none none demo_parser_new [] none (postable_reader ∷ []) false [] []

new_connection-Reach : Reach zeros new_connection
unfolding demohandler_init democonnection_read demo_parser_new
new_connection-Reach = started refl

abbrev nothing_yet : DemoInput
nothing_yet = record { recv = recv_eagain; send = send_eagain }

first_round_returns :
    (c : DemoConnection) × (run_next zeros nothing_yet new_connection ≡ ok c) × Reach zeros c
first_round_returns = run_next-safe zeros zeros-Gives nothing_yet new_connection-Reach tt tt

new_connection-Ready : Ready new_connection
unfolding demo_parser_new
new_connection-Ready = ready false none none [] [] tt tt

-- The text "Hi" comes in and is answered, and then there is nothing to read.
abbrev hi_answered :
    (c : DemoConnection) × Reach zeros c × Ready c × (c.sent ≡ frame false (72 ∷ 105 ∷ []))
hi_answered =
    Reach-exchange zeros true (72 ∷ 105 ∷ []) zeros-Gives (refl, (refl, tt)) (omega arith)
      new_connection-Reach new_connection-Ready

abbrev hi_waits :
    (c : DemoConnection) × Reach zeros c × (c.posted ≡ []) × (c.sent ≡ hi_answered.0.sent)
hi_waits = Reach-quiet zeros hi_answered.1 hi_answered.2

hi_sent : hi_waits.0.sent ≡ frame false (72 ∷ 105 ∷ [])
hi_sent = hi_waits.3 ∙ hi_answered.3

sent-answers_example : hi_waits.0.sent ≡ answers hi_waits.0.requests
sent-answers_example = sent-answers zeros zeros-Gives {c = hi_waits.0} hi_waits.1 hi_waits.2

-- A response of four bytes, with the reader on the ready list.
abbrev response : IoBuffer
response = record {
  mem = 1 ∷ 82 ∷ 2 ∷ 3 ∷ 0 ∷ [];
  char_p = 0;
  allocated_capacity = 5;
  buffer_capacity = 4;
  buffer_ptr = 0;
  buffer_length = 4;
  buffer_remaining = 4;
}

response-IsValid : Io.IsValid response
response-IsValid = omega arith

abbrev writing_connection : DemoConnection
writing_connection =
    conn read_active true true none (some response) demo_parser_new [] (some demo_message_new)
      (postable_reader ∷ []) false [] []

writer-partial_example :
    (e : Fault) × ((writer (nsend 3) writing_connection response
        >>= run_rounds zeros (nothing_yet ∷ nothing_yet ∷ []))
      ≡ fault e)
writer-partial_example =
    writer-partial zeros (nothing_yet ∷ nothing_yet ∷ []) 3 response writing_connection
      response-IsValid (omega arith) (omega arith) (omega arith)

-- SOH, and an opcode that is none.
abbrev broken : IoBuffer
broken = record response { mem = 1 ∷ 65 ∷ 66 ∷ 67 ∷ 0 ∷ [] }

broken-IsValid : Io.IsValid broken
broken-IsValid = omega arith

abbrev broken_outcome : Outcome
broken_outcome = record {
  parser = record { state = error_recovery; current = some demo_message_new };
  consumed = 4;
  code = err_expected_stx;
  event = some (parse_error err_expected_stx);
}

broken_consumed :
    demo_parser_consume zeros demo_parser_new broken
    ≡ ok (broken_outcome, record broken { buffer_ptr = 0; buffer_remaining = 0 })
unfolding demo_parser_consume demo_parser_new IoBuffer.consume
broken_consumed = refl

broken_request_stays :
    (c : DemoConnection) × (run_next zeros nothing_yet (
        conn read_active true false
          (some broken)
          none
          demo_parser_new
          []
          none
          (postable_reader ∷ [])
          false
          []
          [])
      ≡ ok c)
    × (c.posted ≡ [])
    × (c.closed ≡ false)
    × (event_handler true true c ≡ c)
broken_request_stays =
    run_next-parse_error zeros nothing_yet true true false broken _ demo_parser_new [] []
      broken_outcome err_expected_stx zeros-Gives broken-IsValid new-IsValid (omega arith)
      broken_consumed refl
