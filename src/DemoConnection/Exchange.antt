-- ===== src/DemoConnection/Exchange.antt =====
-- Requests that come one after the other, and their responses.
use c_http.Prelude.{
  ℕ, ◌+◌, ◌≡◌, ◌≢◌, ◌≤◌, ◌<◌, refl, List, [], ◌∷◌, ◌++◌, Option, none, some, Run, ok, ◌>>=◌, Bool,
  true, false, arith, length, length-append, sym, ◌∙◌, append-nil, append_assoc, ap, replicate,
  ok-injective, eq_false, fault,
}
use c_http.IoBuffer.{IoBuffer}
use c_http.IoBuffer.Laws as Io
use c_http.IoBuffer.Laws.{bytes, length-bytes, new-IsValid, new_lem}
use c_http.BufferChain.{Malloc}
use c_http.BufferChain.Laws
use c_http.BufferChain.Laws.{Gives, contents}
use c_http.DemoMessage.{DemoMessage, demo_message_new}
use c_http.DemoMessage.Serialize.{
  frame, demo_message_serialize-frame, demo_message_new-IsValid, demo_message_new-contents,
}
use c_http.DemoParser.{DemoParser, demo_parser_new}
use c_http.DemoParser.Text.{AllPrintable}
use c_http.DemoParser.Roundtrip.{demo_parser_consume-eot}
use c_http.DemoConnection.{
  DemoConnection, DemoInput, read_active, read_idle, postable_reader, postable_writer,
  postable_write_call_cb, postable_write_start, postable_read_start,
}
use c_http.DemoConnection.ReadSide.{
  buffer_size, after_parse, consume_available, reader, run_reader, democonnection_read,
}
use c_http.DemoConnection.WriteSide.{democonnection_write, run_writer, on_write_complete_cb}
use c_http.DemoConnection.Loop.{
  call_first, run_next, run_postable, run_write_start, run_rounds, demohandler_init,
}
use c_http.DemoConnection.Shapes.{conn, text_of, TakesAll}
use c_http.DemoConnection.Progress.{writer_all}
use c_http.DemoConnection.Request.{EmptyInput, Ready, ready, exchange, waiting, request-round}

module _ (malloc : Malloc) (gives : Gives malloc) (input : DemoInput) (s : List ℕ)
    (rq : List DemoMessage) where
  -- The second round: the response is serialized.
  pub serialize-round :
      (wc : Bool) (i : Option IoBuffer) (p : DemoParser) (r : DemoMessage)
      → Laws.IsValid r.body
      → (b : IoBuffer) × (run_next malloc input (
            conn read_idle false wc i none p
              (r ∷ [])
              none
              (postable_write_start ∷ postable_read_start ∷ [])
              false
              s
              rq)
          ≡ ok (
              conn read_idle false true i
                (some b)
                p
                []
                (some r)
                (postable_read_start ∷ postable_writer ∷ [])
                false
                s
                rq))
        × Io.IsValid b
        × (bytes b ≡ text_of r)
  unfolding run_next call_first run_postable run_write_start democonnection_write
  serialize-round wc i p r v =
      let (b, made, vb, e) = demo_message_serialize-frame malloc r gives v in
      (b, rw made refl, vb, e)

  -- The third: the next read is posted.
  pub read_start-round :
      (i out : Option IoBuffer) (p : DemoParser) (r : DemoMessage)
      → run_next malloc input (
          conn read_idle false true i out p []
            (some r)
            (postable_read_start ∷ postable_writer ∷ [])
            false
            s
            rq)
        ≡ ok (
            conn read_active true true i out p []
              (some r)
              (postable_writer ∷ postable_reader ∷ [])
              false
              s
              rq)
  unfolding run_next call_first run_postable democonnection_read
  read_start-round i out p r = refl

  -- The fourth: `send` takes the response.
  pub send-round :
      (i : Option IoBuffer) (b : IoBuffer) (p : DemoParser) (r : DemoMessage)
      → Io.IsValid b
      → 0 < b.buffer_remaining
      → TakesAll input.send (some b)
      → run_next malloc input (
          conn read_active true true i
            (some b)
            p
            []
            (some r)
            (postable_writer ∷ postable_reader ∷ [])
            false
            s
            rq)
        ≡ ok (
            conn read_active true true i none p []
              (some r)
              (postable_reader ∷ postable_write_call_cb ∷ [])
              false
              (s ++ bytes b)
              rq)
  unfolding run_next call_first run_postable run_writer
  send-round i b p r vb h all = writer_all input.send b _ vb h all

  -- The fifth: the parser passes over EOT.
  pub eot-round :
      (b : IoBuffer) (m r : DemoMessage)
      → Io.IsValid b
      → bytes b ≡ 4 ∷ []
      → b.buffer_capacity ≡ buffer_size
      → (b' : IoBuffer) × (run_next malloc input (
            conn read_active true true
              (some b)
              none
              (waiting (some m))
              []
              (some r)
              (postable_reader ∷ postable_write_call_cb ∷ [])
              false
              s
              rq)
          ≡ ok (
              conn read_active true true
                (some b')
                none
                (waiting (some m))
                []
                (some r)
                (postable_write_call_cb ∷ postable_reader ∷ [])
                false
                s
                rq))
        × EmptyInput (some b')
  unfolding run_next call_first run_postable run_reader reader consume_available after_parse
  eot-round b m r v e cap =
      let (b', done, v', empty, start, same) = demo_parser_consume-eot malloc m b v e in
      let some_data : b.buffer_remaining ≢ 0 = omega (arith, length-bytes b v, ap length e) in
      (b', rw (eq_false b.buffer_remaining 0 some_data, done) refl, (v', empty, start, same ∙ cap))

  -- The sixth: the response has been sent.
  pub written-round :
      (i : Option IoBuffer) (p : DemoParser) (r : DemoMessage)
      → run_next malloc input (
          conn read_active true true i none p []
            (some r)
            (postable_write_call_cb ∷ postable_reader ∷ [])
            false
            s
            rq)
        ≡ ok (conn read_active true true i none p [] none (postable_reader ∷ []) false s rq)
  unfolding run_next call_first run_postable on_write_complete_cb
  written-round i p r = refl

-- Six rounds, all with the frame of one request for `recv` and room for its response for `send`.
abbrev pub rounds_of : Bool → List ℕ → List DemoInput
rounds_of yn text = replicate 6 (exchange yn text)

-- A connection that waits for a request reads it, sends the frame of a response with the same text, and
-- waits for the next request.
pub run_rounds-exchange :
    {c : DemoConnection} (malloc : Malloc) (yn : Bool) (text : List ℕ)
    → Gives malloc
    → AllPrintable text
    → length text + 6 ≤ buffer_size
    → Ready c
    → (c' : DemoConnection) × (m : DemoMessage) × (run_rounds malloc (rounds_of yn text) c ≡ ok c')
      × Ready c'
      × (c'.sent ≡ c.sent ++ frame false text)
      × (c'.requests ≡ c.requests ++ m ∷ [])
      × (contents m.body.chain ≡ text)
      × (m.opcode ≡ yn)
unfolding run_rounds
run_rounds-exchange malloc yn text gives pr fits (ready wc i o s rq empty none_yet) =
    let input = exchange yn text in
    let q = request-round malloc gives wc yn i o text s rq none_yet pr fits empty in
    let rq' = rq ++ q.request ∷ [] in
    let p = waiting (some demo_message_new) in
    let (b, serialized, vb, e) =
      serialize-round malloc gives input s rq' wc (some q.left) p q.response q.response-IsValid in
    let size : b.buffer_remaining ≡ length text + 6 = omega (
      arith,
      length-bytes b vb,
      ap length (e ∙ q.response_text),
      length-append text (3 ∷ 76 ∷ 4 ∷ []),
    ) in
    let (b', passed, empty') =
      eot-round malloc gives input (s ++ bytes b) rq' q.left demo_message_new q.response
        q.left-IsValid q.eot q.capacity in
    (
      _,
      q.request,
      rw (
        q.runs,
        serialized,
        read_start-round malloc gives input s rq' (some q.left) (some b) p q.response,
        send-round malloc gives input s rq' (some q.left) b p q.response vb (omega arith)
            (sym size),
        passed,
        written-round malloc gives input (s ++ bytes b) rq' (some b') p q.response,
      ),
      ready true (some b') (some demo_message_new) (s ++ bytes b) rq' empty'
          (demo_message_new-IsValid, demo_message_new-contents),
      rw (e, q.response_text) refl,
      refl,
      q.request_text,
      q.is_request,
    )

abbrev pub conversation : List (Bool × List ℕ) → List DemoInput
conversation [] = []
conversation ((yn, text) ∷ requests) = rounds_of yn text ++ conversation requests

-- The frames of the responses with the texts of some requests.
abbrev pub replies : List (Bool × List ℕ) → List ℕ
replies [] = []
replies ((yn, text) ∷ requests) = frame false text ++ replies requests

-- A request that is printable and fits the input buffer.
abbrev pub AllFit : List (Bool × List ℕ) → Type 0
AllFit [] = Unit
AllFit ((yn, text) ∷ requests) =
    AllPrintable text × (length text + 6 ≤ buffer_size) × AllFit requests

run_rounds-append :
    (malloc : Malloc) (l k : List DemoInput) (c : DemoConnection) {c' : DemoConnection}
    → run_rounds malloc l c ≡ ok c'
    → run_rounds malloc (l ++ k) c ≡ run_rounds malloc k c'
unfolding run_rounds
run_rounds-append malloc [] k c e = ap (run_rounds malloc k) (ok-injective c _ e)
run_rounds-append malloc (i ∷ l) k c e =
    after_round (run_next malloc i c) (λ d. run_rounds-append malloc l k d) e
  where
    after_round :
        (m : Run DemoConnection)
        → {c' : DemoConnection}
        → ((d : DemoConnection)
            → run_rounds malloc l d ≡ ok c'
            → run_rounds malloc (l ++ k) d ≡ run_rounds malloc k c')
        → (m >>= run_rounds malloc l) ≡ ok c'
        → (m >>= run_rounds malloc (l ++ k)) ≡ run_rounds malloc k c'
    after_round (ok d) later e = later d e
    after_round (fault f) later e = cc

run_rounds-conversation :
    (malloc : Malloc) (requests : List (Bool × List ℕ)) (c : DemoConnection)
    → Gives malloc
    → AllFit requests
    → Ready c
    → (c' : DemoConnection) × (run_rounds malloc (conversation requests) c ≡ ok c')
      × Ready c'
      × (c'.sent ≡ c.sent ++ replies requests)
unfolding run_rounds
run_rounds-conversation malloc [] c gives fit r = (c, refl, r, sym (append-nil c.sent))
run_rounds-conversation malloc ((yn, text) ∷ requests) c gives (pr, fits, fit) r =
    let (b, m, run, r', sent, asked, text_is, same) =
      run_rounds-exchange malloc yn text gives pr fits r in
    let (c', later, r'', all) = run_rounds-conversation malloc requests b gives fit r' in
    (
      c',
      run_rounds-append malloc (rounds_of yn text) (conversation requests) c run ∙ later,
      r'',
      all ∙ rw sent (append_assoc c.sent (frame false text) (replies requests)),
    )

-- A new connection of the demo protocol that gets the frames of some requests, each printable, of
-- at most 994 bytes and in one recv, and whose responses are each taken by one send, has after six
-- rounds of the loop for each request sent exactly the frames of responses with the same texts, in
-- order, and waits for the next request.
pub demohandler_init-conversation :
    (malloc : Malloc) (requests : List (Bool × List ℕ))
    → Gives malloc
    → AllFit requests
    → (c : DemoConnection) × ((demohandler_init >>= run_rounds malloc (conversation requests))
        ≡ ok c)
      × Ready c
      × (c.sent ≡ replies requests)
unfolding demohandler_init democonnection_read demo_parser_new
demohandler_init-conversation malloc requests gives fit =
    run_rounds-conversation malloc requests _ gives fit (ready false none none [] [] tt tt)
