-- ===== src/DemoConnection/Stuck.antt =====
-- A connection after a parse error at the end of the bytes that came in.
use c_http.Prelude.{
  ◌≡◌, ◌<◌, refl, List, [], ◌∷◌, Option, none, some, ok, ok-injective, Bool, true, false, arith, ℕ,
  sym, ◌∙◌, ap, eq_false,
}
use c_http.Prelude.Int.{ℤ}
use c_http.IoBuffer.{IoBuffer}
use c_http.IoBuffer.Laws as Io
use c_http.BufferChain.{Malloc}
use c_http.BufferChain.Laws.{Gives}
use c_http.DemoMessage.{DemoMessage}
use c_http.DemoParser.{DemoParser, Outcome, Event, completed, parse_error, demo_parser_consume}
use c_http.DemoParser.States as Parser
use c_http.DemoParser.States.{Reported}
use c_http.DemoParser.Safe.{demo_parser_consume-safe}
use c_http.DemoConnection.{DemoConnection, DemoInput, read_active, read_idle, postable_reader}
use c_http.DemoConnection.ReadSide.{
  on_read_complete, after_parse, consume_available, reader, run_reader,
}
use c_http.DemoConnection.Loop.{
  call_first, run_next, run_postable, event_handler, write_epollout, read_epollin,
}
use c_http.DemoConnection.Shapes.{conn}

idle_stays :
    (epollout epollin wc : Bool) (i : Option IoBuffer) (p : DemoParser) (s : List ℕ)
    (rq : List DemoMessage)
    → let c = conn read_idle false wc i none p [] none [] false s rq in
      event_handler epollout epollin c ≡ c
unfolding event_handler write_epollout read_epollin
idle_stays true true wc i p s rq = refl
idle_stays true false wc i p s rq = refl
idle_stays false true wc i p s rq = refl
idle_stays false false wc i p s rq = refl

after_parse-error :
    (malloc : Malloc) (event : Option Event) (ec e : ℤ) (wc : Bool) (i : Option IoBuffer)
    (p : DemoParser) (s : List ℕ) (rq : List DemoMessage)
    → event ≡ some (parse_error e)
    → Reported ec event
    → after_parse malloc (conn read_active true wc i none p [] none [] false s rq) event ec
      ≡ ok (conn read_idle false wc i none p [] none [] false s rq)
unfolding after_parse on_read_complete
after_parse-error malloc none ec e wc i p s rq is_error rep = cc
after_parse-error malloc (some (completed m)) ec e wc i p s rq is_error rep = cc
after_parse-error malloc (some (parse_error e')) ec e wc i p s rq is_error rep =
    rw (rep.0, rep.1) refl

-- When the parser reports an error for the bytes in the input buffer, the connection stays open with
-- nothing posted, and no event makes it read again.
pub run_next-parse_error :
    (malloc : Malloc) (input : DemoInput) (epollout epollin wc : Bool) (iob iob' : IoBuffer)
    (p : DemoParser) (s : List ℕ) (rq : List DemoMessage) (out : Outcome) (e : ℤ)
    → Gives malloc
    → Io.IsValid iob
    → Parser.IsValid p
    → 0 < iob.buffer_remaining
    → demo_parser_consume malloc p iob ≡ ok (out, iob')
    → out.event ≡ some (parse_error e)
    → (c : DemoConnection) × (run_next malloc input
          (conn read_active true wc (some iob) none p [] none (postable_reader ∷ []) false s rq)
        ≡ ok c)
      × (c.posted ≡ [])
      × (c.closed ≡ false)
      × (event_handler epollout epollin c ≡ c)
unfolding run_next call_first run_postable run_reader reader consume_available
run_next-parse_error malloc input epollout epollin wc iob iob' p s rq out e gives vb v some_data run
      err =
    let (out', left, done, f, vb', rest) = demo_parser_consume-safe malloc p iob gives v vb in
    let same : (out', left) ≡ (out, iob') =
      ok-injective (out', left) (out, iob') (sym done ∙ run) in
    let rep : Reported out.code out.event = rw (ap (λ q. q.0) same) at f.reported in
    (
      conn read_idle false wc (some iob') none out.parser [] none [] false s rq,
      rw (eq_false iob.buffer_remaining 0 (omega arith), run)
          (after_parse-error malloc out.event out.code e wc (some iob') out.parser s rq err rep),
      refl,
      refl,
      idle_stays epollout epollin wc (some iob') out.parser s rq,
    )
