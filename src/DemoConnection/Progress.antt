-- ===== src/DemoConnection/Progress.antt =====
-- The functions that the reactor takes from its ready list, from each state of a connection.
use c_http.Prelude.{
  ℕ, ◌≡◌, ◌<◌, refl, List, [], ◌∷◌, ◌++◌, Option, none, some, ok, Bool, true, false, arith, length,
  ◌∙◌, append-nil, ap, eq_false, length-drop, take-ge,
}
use c_http.IoBuffer.{IoBuffer}
use c_http.IoBuffer.Laws as Io
use c_http.IoBuffer.Laws.{bytes, read_data-bytes, length-bytes}
use c_http.IoBuffer.Moves.{consume_lem}
use c_http.BufferChain.{Malloc}
use c_http.BufferChain.Laws
use c_http.BufferChain.Laws.{Gives, contents}
use c_http.DemoMessage.{DemoMessage}
use c_http.DemoMessage.Serialize.{demo_message_serialize-frame}
use c_http.DemoParser.{DemoParser}
use c_http.DemoConnection.{
  DemoConnection, DemoReadState, DemoPostable, postable_reader, postable_writer,
  postable_write_call_cb, postable_write_start, postable_read_start, read_idle, read_active,
  write_idle, post_to_reactor, DemoInput, DemoSend, nsend, send_eagain, send_failed,
}
use c_http.DemoConnection.ReadSide.{run_reader, democonnection_read}
use c_http.DemoConnection.WriteSide.{writer, run_writer, democonnection_write, on_write_complete_cb}
use c_http.DemoConnection.Loop.{run_next, run_postable, run_write_start}
use c_http.DemoConnection.Shapes.{
  conn, text_of, Good, RecvFits, TakesAll, AfterRead, goes_on, waits, abandoned, ends, spare, Shape,
  settled, answering, starting, writing, written, acknowledging, overlapped, gone,
}
use c_http.DemoConnection.Read.{Read, no_message, message, reader-Read}

abbrev Next : Malloc → DemoInput → DemoConnection → Type 0
Next malloc input c = (c' : DemoConnection) × (run_next malloc input c ≡ ok c') × Shape c'

-- The ends of a read, alone on the ready list or before the end of a write.
pub Read-settled : {wc : Bool} {s : List ℕ} {c : DemoConnection} → Read wc none [] s c → Shape c
Read-settled (no_message i p rq after e g) = rw e (settled _ i p _ rq after g)
Read-settled (message i p rq m v g) = answering _ false i p _ rq m v g

Read-acknowledging :
    {s : List ℕ} {c : DemoConnection} (m : DemoMessage)
    → Read true (some m) (postable_write_call_cb ∷ []) s c
    → Shape c
Read-acknowledging m (no_message i p rq after e g) = rw e (acknowledging i p _ rq m after g)
Read-acknowledging m (message i p rq next v g) = overlapped i p _ rq m next v g

settled-Next :
    {rs : DemoReadState} {rc : Bool} {tail : List DemoPostable} (malloc : Malloc)
    (gives : Gives malloc) (input : DemoInput) (wc : Bool) (i : Option IoBuffer) (p : DemoParser)
    (s : List ℕ) (rq : List DemoMessage)
    → AfterRead rs rc tail
    → Good i p s [] rq
    → RecvFits input.recv i
    → Next malloc input (conn rs rc wc i none p [] none tail false s rq)
unfolding run_next run_postable run_reader
settled-Next malloc gives input wc i p s rq goes_on g fits =
    let (c, done, r) = reader-Read malloc gives wc none [] s input.recv i p rq fits g in
    (c, done, Read-settled r)
settled-Next malloc gives input wc i p s rq waits g fits = (_, refl, settled wc i p s rq waits g)
settled-Next malloc gives input wc i p s rq abandoned g fits =
    (_, refl, settled wc i p s rq abandoned g)
settled-Next malloc gives input wc i p s rq ends g fits = (_, refl, gone wc i p s rq g)

-- A response is serialized, and its writing is posted.
answering-Next :
    (malloc : Malloc) (gives : Gives malloc) (input : DemoInput) (wc again : Bool)
    (i : Option IoBuffer) (p : DemoParser) (s : List ℕ) (rq : List DemoMessage) (m : DemoMessage)
    → Laws.IsValid m.body
    → Good i p s (text_of m) rq
    → Next malloc input (
        conn read_idle false wc i none p
          (m ∷ [])
          none
          (postable_write_start ∷ postable_read_start ∷ spare again)
          false
          s
          rq)
unfolding run_next run_postable run_write_start democonnection_write
answering-Next malloc gives input wc again i p s rq m v g =
    let (b, made, vb, e) = demo_message_serialize-frame malloc m gives v in
    let some_bytes : 0 < b.buffer_remaining = omega (arith, length-bytes b vb, ap length e) in
    (
      _,
      rw made refl,
      starting again i b p s rq m vb some_bytes (record {
        input_valid = g.input_valid;
        parser_valid = g.parser_valid;
        answered = rw e g.answered;
      }),
    )

starting-Next :
    (malloc : Malloc) (input : DemoInput) (again : Bool) (i : Option IoBuffer) (b : IoBuffer)
    (p : DemoParser) (s : List ℕ) (rq : List DemoMessage) (m : DemoMessage)
    → Io.IsValid b
    → 0 < b.buffer_remaining
    → Good i p s (bytes b) rq
    → Next malloc input (
        conn read_idle false true i
          (some b)
          p
          []
          (some m)
          (postable_read_start ∷ spare again ++ postable_writer ∷ [])
          false
          s
          rq)
unfolding run_next run_postable democonnection_read
starting-Next malloc input true i b p s rq m vb h g = (_, refl, writing true i b p s rq m vb h g)
starting-Next malloc input false i b p s rq m vb h g = (_, refl, writing false i b p s rq m vb h g)

-- `send` takes the whole response.
pub writer_all :
    (o : DemoSend) (b : IoBuffer) (c : DemoConnection)
    → Io.IsValid b
    → 0 < b.buffer_remaining
    → TakesAll o (some b)
    → writer o c b
      ≡ ok (
          post_to_reactor postable_write_call_cb (record c {
            sent = c.sent ++ bytes b;
            write_state = write_idle;
            active_output_buffer_ref = none;
          }))
unfolding writer
writer_all send_eagain b c v h all = elim all [ ]
writer_all send_failed b c v h all = elim all [ ]
writer_all (nsend n) b c v h all =
    let (b', done, v', rest) = consume_lem b n v (omega arith) in
    let left : b'.buffer_remaining ≡ 0 =
      omega
        (arith, length-bytes b' v', ap length rest, length-drop n (bytes b), length-bytes b v) in
    rw (
      eq_false n 0 (omega arith),
      read_data-bytes b v,
      done,
      left,
      take-ge (bytes b) n (omega (arith, length-bytes b v)),
    )

writing-Next :
    (malloc : Malloc) (input : DemoInput) (again : Bool) (i : Option IoBuffer) (b : IoBuffer)
    (p : DemoParser) (s : List ℕ) (rq : List DemoMessage) (m : DemoMessage)
    → Io.IsValid b
    → 0 < b.buffer_remaining
    → Good i p s (bytes b) rq
    → TakesAll input.send (some b)
    → Next malloc input (
        conn read_active true true i
          (some b)
          p
          []
          (some m)
          (spare again ++ postable_writer ∷ postable_reader ∷ [])
          false
          s
          rq)
unfolding run_next run_postable run_write_start run_writer
writing-Next malloc input true i b p s rq m vb h g all =
    (_, refl, writing false i b p s rq m vb h g)
writing-Next malloc input false i b p s rq m vb h g all = (
  _,
  writer_all input.send b _ vb h all,
  written i p (s ++ bytes b) rq m (record {
    input_valid = g.input_valid;
    parser_valid = g.parser_valid;
    answered = append-nil (s ++ bytes b) ∙ g.answered;
  }),
)

acknowledging-Next :
    {rs : DemoReadState} {rc : Bool} {tail : List DemoPostable} (malloc : Malloc)
    (input : DemoInput) (i : Option IoBuffer) (p : DemoParser) (s : List ℕ) (rq : List DemoMessage)
    (m : DemoMessage)
    → AfterRead rs rc tail
    → Good i p s [] rq
    → Next malloc input
        (conn rs rc true i none p [] (some m) (postable_write_call_cb ∷ tail) false s rq)
unfolding run_next run_postable on_write_complete_cb
acknowledging-Next malloc input i p s rq m after g = (_, refl, settled true i p s rq after g)

-- The next function of a connection returns, and the connection stays in one of the states.
pub call_round-Shape :
    {c : DemoConnection} (malloc : Malloc) (gives : Gives malloc) (input : DemoInput)
    → Shape c
    → RecvFits input.recv c.active_input_buffer_ref
    → TakesAll input.send c.active_output_buffer_ref
    → Next malloc input c
unfolding run_next run_postable on_write_complete_cb run_reader
call_round-Shape malloc gives input (settled wc i p s rq after g) fits all =
    settled-Next malloc gives input wc i p s rq after g fits
call_round-Shape malloc gives input (answering wc again i p s rq m v g) fits all =
    answering-Next malloc gives input wc again i p s rq m v g
call_round-Shape malloc gives input (starting again i b p s rq m vb h g) fits all =
    starting-Next malloc input again i b p s rq m vb h g
call_round-Shape malloc gives input (writing again i b p s rq m vb h g) fits all =
    writing-Next malloc input again i b p s rq m vb h g all
call_round-Shape malloc gives input (written i p s rq m g) fits all =
    let (c, done, r) =
      reader-Read malloc gives true (some m) (postable_write_call_cb ∷ []) s input.recv i p rq fits
        g in
    (c, done, Read-acknowledging m r)
call_round-Shape malloc gives input (acknowledging i p s rq m after g) fits all =
    acknowledging-Next malloc input i p s rq m after g
call_round-Shape malloc gives input (overlapped i p s rq m next v g) fits all =
    (_, refl, answering true true i p s rq next v g)
call_round-Shape malloc gives input (gone wc i p s rq g) fits all = (_, refl, gone wc i p s rq g)
