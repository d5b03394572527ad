-- ===== src/DemoConnection/Read.antt =====
-- What a call of `reader` comes to.
use c_http.Prelude.{
  if◌then◌else◌, ℕ, ◌+◌, ◌-◌, ◌≡◌, ◌≤◌, refl, List, [], ◌∷◌, ◌++◌, Option, none, some, ok, Bool,
  true, false, arith, length, sym, ◌∙◌, append-nil, append_assoc, ◌==◌, Bool-cases, inl, inr, ap,
  leb-true,
}
use c_http.Prelude.Int.{ℤ}
use c_http.IoBuffer
use c_http.IoBuffer.{IoBuffer}
use c_http.IoBuffer.Laws as Io
use c_http.IoBuffer.Laws.{bytes, new-IsValid, data_add_lem, new_lem}
use c_http.BufferChain.{Malloc}
use c_http.BufferChain.Laws
use c_http.BufferChain.Laws.{Gives, contents, empty_chain-IsValid, empty_chain-contents}
use c_http.BufferChain.Move.{append_bufferchain-contents}
use c_http.DemoMessage.{DemoMessage, demo_message_new}
use c_http.DemoMessage.Serialize.{frame}
use c_http.DemoParser.{DemoParser, Event, completed, parse_error}
use c_http.DemoParser.States.{Reported}
use c_http.DemoParser.Safe.{demo_parser_consume-safe}
use c_http.DemoConnection.{
  DemoConnection, DemoReadState, read_idle, read_active, DemoPostable, postable_write_start,
  postable_read_start, DemoRecv, received, recv_eagain, recv_failed,
}
use c_http.DemoConnection.ReadSide.{
  buffer_size, process_request, handle_request, on_read_complete, read_error, after_parse,
  consume_available, commit_received, receive, reader,
}
use c_http.DemoConnection.Shapes.{
  conn, text_of, answers, Good, InputIsValid, RecvFits, AfterRead, goes_on, waits, abandoned, ends,
}

-- The response to a request is a message with its text that is not a request.
pub process_request-text :
    (malloc : Malloc) (m : DemoMessage)
    → Gives malloc
    → Laws.IsValid m.body
    → (r : DemoMessage) × (process_request malloc m ≡ ok r)
      × Laws.IsValid r.body
      × (text_of r ≡ frame false (contents m.body.chain))
unfolding process_request demo_message_new
process_request-text malloc m gives v =
    let (bc, done, v', all) =
      append_bufferchain-contents malloc _ m.body gives empty_chain-IsValid v in
    (
      record { opcode = false; lrc = none; body = bc },
      rw done refl,
      v',
      rw (all, empty_chain-contents) refl,
    )

answers_snoc :
    (rq : List DemoMessage) (m : DemoMessage)
    → answers (rq ++ m ∷ []) ≡ answers rq ++ frame false (contents m.body.chain)
answers_snoc [] m = append-nil (frame false (contents m.body.chain))
answers_snoc (r ∷ rq) m =
    ap (λ (l : List ℕ). frame false (contents r.body.chain) ++ l) (answers_snoc rq m)
    ∙ sym (append_assoc (frame false (contents r.body.chain)) (answers rq) _)

-- The bytes that `recv` gave stand in the buffer as if they had been added.
pub commit_received-data_add :
    (b : IoBuffer) (p : List ℕ)
    → Io.IsValid b
    → length p ≤ b.buffer_capacity - IoBuffer.space b
    → commit_received b p ≡ IoBuffer.data_add b p
unfolding commit_received IoBuffer.data_add
commit_received-data_add b p v fits = rw (
  leb-true (IoBuffer.space b) b.buffer_capacity v.inside,
  leb-true (length p) (b.buffer_capacity - IoBuffer.space b) fits,
)

with_input :
    {i i' : Option IoBuffer} {p : DemoParser} {s l : List ℕ} {rq : List DemoMessage}
    → InputIsValid i'
    → Good i p s l rq
    → Good i' p s l rq
with_input v g = record { input_valid = v; parser_valid = g.parser_valid; answered = g.answered }

-- A new input buffer has all its space.
RecvFits-new :
    (malloc : Malloc) (r : DemoRecv)
    → RecvFits r none
    → RecvFits r (some (IoBuffer.new_with_capacity (malloc (buffer_size + 1)) buffer_size))
RecvFits-new malloc (received l) fits =
    omega (arith, new_lem (malloc (buffer_size + 1)) buffer_size)
RecvFits-new malloc recv_eagain fits = tt
RecvFits-new malloc recv_failed fits = tt

-- How a read ends, in a connection without responses to send and with the functions `rest` posted.
pub data Read (wc : Bool) (active : Option DemoMessage) (rest : List DemoPostable) (s : List ℕ)
    : DemoConnection → Type 0 where
  no_message :
      {rs : DemoReadState} {rc : Bool} {tail posted : List DemoPostable} (i : Option IoBuffer)
      (p : DemoParser) (rq : List DemoMessage)
      → AfterRead rs rc tail
      → posted ≡ rest ++ tail
      → Good i p s [] rq
      → Read wc active rest s (conn rs rc wc i none p [] active posted false s rq)
  message :
      (i : Option IoBuffer) (p : DemoParser) (rq : List DemoMessage) (m : DemoMessage)
      → Laws.IsValid m.body
      → Good i p s (text_of m) rq
      → Read wc active rest s (
          conn read_idle false wc i none p
            (m ∷ [])
            active
            ((rest ++ postable_write_start ∷ []) ++ postable_read_start ∷ [])
            false
            s
            rq)

module _ (malloc : Malloc) (gives : Gives malloc) (wc : Bool) (active : Option DemoMessage)
    (rest : List DemoPostable) (s : List ℕ) where
  abbrev reads : Option IoBuffer → DemoParser → List DemoMessage → DemoConnection
  reads i p rq = conn read_active true wc i none p [] active rest false s rq

  after_parse-Read :
      (event : Option Event) (ec : ℤ) (i : Option IoBuffer) (p : DemoParser) (rq : List DemoMessage)
      → Reported ec event
      → Good i p s [] rq
      → (c : DemoConnection) × (after_parse malloc (reads i p rq) event ec ≡ ok c)
        × Read wc active rest s c
  unfolding after_parse on_read_complete handle_request
  after_parse-Read none ec i p rq rep g = (_, rw rep refl, no_message i p rq goes_on refl g)
  after_parse-Read (some (completed m)) ec i p rq rep g =
      let (r, made, v, text) = process_request-text malloc m gives rep.1 in
      (
        _,
        rw (made, rep.0) refl,
        message i p (rq ++ m ∷ []) r v (record {
          input_valid = g.input_valid;
          parser_valid = g.parser_valid;
          answered =
              rw (text, answers_snoc rq m)
                (ap (λ (l : List ℕ). l ++ frame false (contents m.body.chain))
                  (sym (append-nil s) ∙ g.answered));
        }),
      )
  after_parse-Read (some (parse_error e)) ec i p rq rep g =
      (_, rw (rep.0, rep.1) refl, no_message i p rq abandoned (sym (append-nil rest)) g)

  consume_available-Read :
      (i : Option IoBuffer) (iob : IoBuffer) (p : DemoParser) (rq : List DemoMessage)
      → Io.IsValid iob
      → Good i p s [] rq
      → (c : DemoConnection) × (consume_available malloc (reads i p rq) iob ≡ ok c)
        × Read wc active rest s c
  unfolding consume_available
  consume_available-Read i iob p rq vb g =
      let (out, iob', done, f, vb', left) =
        demo_parser_consume-safe malloc p iob gives g.parser_valid vb in
      let (c, parsed, r) =
        after_parse-Read out.event out.code (some iob') out.parser rq f.reported
          (record { input_valid = vb'; parser_valid = f.valid; answered = g.answered }) in
      (c, rw done parsed, r)

  receive-Read :
      (r : DemoRecv) (i : Option IoBuffer) (iob : IoBuffer) (p : DemoParser) (rq : List DemoMessage)
      → Io.IsValid iob
      → RecvFits r (some iob)
      → Good i p s [] rq
      → (c : DemoConnection) × (receive malloc r (reads i p rq) iob ≡ ok c)
        × Read wc active rest s c
  unfolding receive read_error
  receive-Read recv_eagain i iob p rq vb fits g =
      (_, refl, no_message (some iob) p rq waits (sym (append-nil rest)) (with_input vb g))
  receive-Read recv_failed i iob p rq vb fits g =
      (_, refl, no_message (some iob) p rq ends refl (with_input vb g))
  receive-Read (received []) i iob p rq vb fits g =
      (_, refl, no_message (some iob) p rq ends refl (with_input vb g))
  receive-Read (received (b ∷ l)) i iob p rq vb fits g =
      let (iob', done, vb', grown, ptr, cap, rem) =
        data_add_lem iob (b ∷ l) vb (omega arith) (omega (arith, vb)) in
      let (c, run, read) = consume_available-Read (some iob') iob' p rq vb' (with_input vb' g) in
      (c, rw (commit_received-data_add iob (b ∷ l) vb fits, done) run, read)

  dispatch-Read :
      (r : DemoRecv) (i : Option IoBuffer) (iob : IoBuffer) (p : DemoParser) (rq : List DemoMessage)
      → Io.IsValid iob
      → RecvFits r (some iob)
      → Good i p s [] rq
      → (c : DemoConnection) × ((if IoBuffer.data_len iob == 0
            then receive malloc r (reads i p rq) iob
            else consume_available malloc (reads i p rq) iob)
          ≡ ok c)
        × Read wc active rest s c
  dispatch-Read r i iob p rq vb fits g = elim (Bool-cases (iob.buffer_remaining == 0)) [
    | inl empty ↦ rw empty (receive-Read r i iob p rq vb fits g)
    | inr more ↦ rw more (consume_available-Read i iob p rq vb g)
  ]

  -- A read by a connection that waits for nothing else ends in one of the ways above.
  pub reader-Read :
      (r : DemoRecv) (i : Option IoBuffer) (p : DemoParser) (rq : List DemoMessage)
      → RecvFits r i
      → Good i p s [] rq
      → (c : DemoConnection) × (reader malloc r (reads i p rq) ≡ ok c) × Read wc active rest s c
  unfolding reader
  reader-Read r none p rq fits g =
      let block = malloc (buffer_size + 1) in
      let v = new-IsValid block buffer_size (gives (buffer_size + 1)) in
      dispatch-Read r none (IoBuffer.new_with_capacity block buffer_size) p rq v
        (RecvFits-new malloc r fits) g
  reader-Read r (some iob) p rq fits g = dispatch-Read r (some iob) iob p rq g.input_valid fits g
