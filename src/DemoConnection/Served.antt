-- ===== src/DemoConnection/Served.antt =====
-- Runs in which requests are answered.
use c_http.Prelude.{
  ℕ, ◌+◌, ◌≡◌, ◌≤◌, refl, List, [], ◌∷◌, ◌++◌, Option, none, some, Bool, true, false, arith, length,
  sym, ◌∙◌, ap, eq_true,
}
use c_http.IoBuffer
use c_http.IoBuffer.{IoBuffer}
use c_http.IoBuffer.Laws.{bytes, length-bytes, new_lem}
use c_http.BufferChain.{Malloc}
use c_http.BufferChain.Laws.{Gives}
use c_http.DemoMessage.{demo_message_new}
use c_http.DemoMessage.Serialize.{frame, demo_message_new-IsValid, demo_message_new-contents}
use c_http.DemoParser.Text.{AllPrintable}
use c_http.DemoParser.Roundtrip.{length-frame}
use c_http.DemoConnection.{DemoConnection, DemoInput, recv_eagain, nsend, read_eagained}
use c_http.DemoConnection.ReadSide.{buffer_size, run_reader, reader, receive}
use c_http.DemoConnection.Loop.{call_first, run_next, run_postable}
use c_http.DemoConnection.Shapes.{conn, room}
use c_http.DemoConnection.Reach.{Reach, looped}
use c_http.DemoConnection.Request.{EmptyInput, Ready, ready, exchange, waiting, request-round}
use c_http.DemoConnection.Exchange.{
  serialize-round, read_start-round, send-round, eot-round, written-round,
}

frame-fits :
    (yn : Bool) (text : List ℕ) (i : Option IoBuffer)
    → EmptyInput i
    → length text + 6 ≤ buffer_size
    → length (frame yn text) ≤ room i
frame-fits yn text none empty fits = omega (arith, length-frame yn text)
frame-fits yn text (some iob) empty fits = omega (arith, length-frame yn text, empty)

-- Nothing comes in, and `send` would take `n` bytes.
abbrev pub quiet : ℕ → DemoInput
quiet n = record { recv = recv_eagain; send = nsend n }

-- A run that waits for a request goes on, when its frame comes in, to one that has sent the frame of the
-- response and waits again.
pub Reach-exchange :
    {c : DemoConnection} (malloc : Malloc) (yn : Bool) (text : List ℕ)
    → Gives malloc
    → AllPrintable text
    → length text + 6 ≤ buffer_size
    → Reach malloc c
    → Ready c
    → (c' : DemoConnection) × Reach malloc c' × Ready c' × (c'.sent ≡ c.sent ++ frame false text)
Reach-exchange malloc yn text gives pr fits run (ready wc i o s rq empty none_yet) =
    let q = request-round malloc gives wc yn i o text s rq none_yet pr fits empty in
    let rq' = rq ++ q.request ∷ [] in
    let p = waiting (some demo_message_new) in
    let later = quiet (length text + 6) in
    let (b, serialized, vb, e) =
      serialize-round malloc gives later s rq' wc (some q.left) p q.response q.response-IsValid in
    let size : b.buffer_remaining ≡ length text + 6 =
      omega (arith, length-bytes b vb, ap length (e ∙ q.response_text), length-frame false text) in
    let (b', passed, empty') =
      eot-round malloc gives later (s ++ bytes b) rq' q.left demo_message_new q.response
        q.left-IsValid q.eot q.capacity in
    let requested = looped (exchange yn text) run (frame-fits yn text i empty fits) tt q.runs in
    let serial = looped later requested tt tt serialized in
    let reading =
      looped later serial tt (sym size)
        (read_start-round malloc gives later s rq' (some q.left) (some b) p q.response) in
    let sent = looped later reading tt (sym size) (
      send-round malloc gives later s rq' (some q.left) b p q.response vb (omega arith)
        (sym size)) in
    let over = looped later sent tt tt passed in
    (
      _,
      looped later over tt tt
          (written-round malloc gives later (s ++ bytes b) rq' (some b') p q.response),
      ready true (some b') (some demo_message_new) (s ++ bytes b) rq' empty'
          (demo_message_new-IsValid, demo_message_new-contents),
      rw (e, q.response_text) refl,
    )

-- A connection that waits for a request and reads nothing has nothing posted.
pub Reach-quiet :
    {c : DemoConnection} (malloc : Malloc)
    → Reach malloc c
    → Ready c
    → (c' : DemoConnection) × Reach malloc c' × (c'.posted ≡ []) × (c'.sent ≡ c.sent)
unfolding run_next call_first run_postable run_reader reader receive
Reach-quiet malloc run (ready wc none o s rq empty none_yet) =
    let (ptr, rem, cap, none_yet') = new_lem (malloc (buffer_size + 1)) buffer_size in
    let iob = IoBuffer.new_with_capacity (malloc (buffer_size + 1)) buffer_size in
    (
      conn read_eagained true wc (some iob) none (waiting o) [] none [] false s rq,
      looped (quiet 0) run tt tt (rw (eq_true iob.buffer_remaining 0 rem) refl),
      refl,
      refl,
    )
Reach-quiet malloc run (ready wc (some iob) o s rq empty none_yet) = (
  conn read_eagained true wc (some iob) none (waiting o) [] none [] false s rq,
  looped (quiet 0) run tt tt (rw (eq_true iob.buffer_remaining 0 empty.1) refl),
  refl,
  refl,
)
