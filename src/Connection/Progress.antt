-- ===== src/Connection/Progress.antt =====
-- The posted functions and the events of a connection, from the states of its invariant.
use c_http.Prelude.{
  ℕ, ◌≡◌, refl, List, [], ◌∷◌, ◌++◌, none, some, ok, Bool, true, false, ap, sym, ◌∙◌, append-nil,
  append_assoc,
}
use c_http.IoBuffer.{IoBuffer}
use c_http.IoBuffer.Laws as Io
use c_http.Cbuffer.Laws.{Gives}
use c_http.Message.{Malloc, Message}
use c_http.Message.Serialize.{HasText, line_buffer, BodyIsValid, message_serialize-text}
use c_http.HttpParser.{HttpParser}
use c_http.Connection.{
  AsyncConnection, Input, read_idle, write_idle, write_active, postable_writer, run_reader,
  run_writer, async_connection_read,
}
use c_http.Connection.Loop.{
  with_connection_header, run_next, run_postable, run_handle_request, async_handler_handle_response,
  async_connection_write, async_event_handler, write_epollout, read_epollin,
}
use c_http.Connection.Invariant.{
  conn, response_text, answers, RecvFits, SendFits, Inv, reading, waiting, requested, writing,
  blocked, written, closing, gone, reader-Inv, writer_send-Inv,
}

-- A response that can be serialized: it has the text of its first line, and a valid body or none.
abbrev pub Serializable : Message → Type 0
Serializable mref = HasText (line_buffer mref) × BodyIsValid mref.body

module _ (method_name : ℕ → List ℕ) (process_request : Message → Message) where
  answers_snoc :
      (ms : List Message) (m : Message)
      → answers method_name process_request (ms ++ m ∷ [])
        ≡ answers method_name process_request ms
          ++ response_text method_name (with_connection_header m (process_request m))
  answers_snoc [] m =
      append-nil (response_text method_name (with_connection_header m (process_request m)))
  answers_snoc (m' ∷ ms) m =
      let text = response_text method_name (with_connection_header m' (process_request m')) in
      ap (λ (t : List ℕ). text ++ t) (answers_snoc ms m)
      ∙ sym (
          append_assoc text (answers method_name process_request ms)
            (response_text method_name (with_connection_header m (process_request m))))

  module _ (malloc : Malloc) (garbage : ℕ × ℕ) (stale : Bool) (gives : Gives malloc)
      (app : (m : Message) → Serializable (process_request m)) where
    -- The application's response is serialized into the output buffer.
    pub run_handle_request-writes :
        (wp : Bool) (p : HttpParser) (s : List ℕ) (rq : List Message) (m : Message)
        → (b : IoBuffer) × (run_handle_request method_name malloc process_request
              (conn read_idle write_idle false wp (some m) none p [] false s rq)
            ≡ ok (
                conn read_idle write_active false wp none
                  (some b)
                  p
                  (postable_writer ∷ [])
                  false
                  s
                  (rq ++ m ∷ [])))
          × Io.IsValid b
          × (Io.bytes b ≡ response_text method_name (with_connection_header m (process_request m)))
    unfolding run_handle_request async_handler_handle_response async_connection_write
    run_handle_request-writes wp p s rq m =
        let response = with_connection_header m (process_request m) in
        let (b, done, v, text) =
          message_serialize-text method_name malloc response gives (app m).0 (app m).1 in
        (b, rw done refl, v, text)

    run_handle_request-Inv :
        (wp : Bool) (p : HttpParser) (s : List ℕ) (rq : List Message) (m : Message)
        → s ≡ answers method_name process_request rq
        → (c : AsyncConnection) × (run_handle_request method_name malloc process_request
              (conn read_idle write_idle false wp (some m) none p [] false s rq)
            ≡ ok c)
          × Inv method_name process_request c
    run_handle_request-Inv wp p s rq m w =
        let (b, done, v, text) = run_handle_request-writes wp p s rq m in
        (_, done, writing wp p s (rq ++ m ∷ []) b v (rw (text, w) (sym (answers_snoc rq m))))

    -- From a state of the invariant, one round of the loop over the ready list returns and keeps it,
    -- whatever `recv` and `send` come to.
    pub run_next-Inv :
        (i : Input) (c : AsyncConnection)
        → Inv method_name process_request c
        → RecvFits malloc garbage stale i.recv c.http_parser_ptr
        → SendFits i.send c.active_output_buffer_ref
        → (c' : AsyncConnection) × (run_next method_name malloc process_request garbage stale i c
            ≡ ok c')
          × Inv method_name process_request c'
    unfolding run_next run_postable run_reader run_writer async_connection_read
    run_next-Inv i _ (reading wp p s rq w) r o =
        reader-Inv method_name process_request malloc garbage stale i.recv wp p s rq w r
    run_next-Inv i _ (waiting wp p s rq w) r o = (_, refl, waiting wp p s rq w)
    run_next-Inv i _ (requested wp p s rq m w) r o = run_handle_request-Inv wp p s rq m w
    run_next-Inv i _ (writing wp p s rq b v w) r o =
        writer_send-Inv method_name process_request i.send wp p s rq b v w o
    run_next-Inv i _ (blocked wp p s rq b v w) r o = (_, refl, blocked wp p s rq b v w)
    run_next-Inv i _ (written wp p s rq w) r o =
        reader-Inv method_name process_request malloc garbage stale i.recv wp p s rq w r
    run_next-Inv i _ (closing wp p s rq out w) r o = (_, refl, gone wp p s rq out w)
    run_next-Inv i _ (gone wp p s rq out w) r o = (_, refl, gone wp p s rq out w)

  write_epollout-Inv :
      (c : AsyncConnection)
      → Inv method_name process_request c
      → Inv method_name process_request (write_epollout c)
  unfolding write_epollout
  write_epollout-Inv _ (reading wp p s rq w) = reading wp p s rq w
  write_epollout-Inv _ (waiting wp p s rq w) = waiting wp p s rq w
  write_epollout-Inv _ (requested wp p s rq m w) = requested wp p s rq m w
  write_epollout-Inv _ (writing wp p s rq b v w) = writing wp p s rq b v w
  write_epollout-Inv _ (blocked wp p s rq b v w) = writing true p s rq b v w
  write_epollout-Inv _ (written wp p s rq w) = written wp p s rq w
  write_epollout-Inv _ (closing wp p s rq out w) = closing wp p s rq out w
  write_epollout-Inv _ (gone wp p s rq out w) = gone wp p s rq out w

  read_epollin-Inv :
      (c : AsyncConnection)
      → Inv method_name process_request c
      → (c' : AsyncConnection) × (read_epollin c ≡ ok c') × Inv method_name process_request c'
  unfolding read_epollin
  read_epollin-Inv _ (reading wp p s rq w) = (_, refl, reading wp p s rq w)
  read_epollin-Inv _ (waiting wp p s rq w) = (_, refl, reading wp p s rq w)
  read_epollin-Inv _ (requested wp p s rq m w) = (_, refl, requested wp p s rq m w)
  read_epollin-Inv _ (writing wp p s rq b v w) = (_, refl, writing wp p s rq b v w)
  read_epollin-Inv _ (blocked wp p s rq b v w) = (_, refl, blocked wp p s rq b v w)
  read_epollin-Inv _ (written wp p s rq w) = (_, refl, written wp p s rq w)
  read_epollin-Inv _ (closing wp p s rq out w) = (_, refl, closing wp p s rq out w)
  read_epollin-Inv _ (gone wp p s rq out w) = (_, refl, gone wp p s rq out w)

  -- Every event is handled, whatever bits it has.
  pub async_event_handler-Inv :
      (epollout epollin : Bool) (c : AsyncConnection)
      → Inv method_name process_request c
      → (c' : AsyncConnection) × (async_event_handler epollout epollin c ≡ ok c')
        × Inv method_name process_request c'
  unfolding async_event_handler
  async_event_handler-Inv false false c v = (c, refl, v)
  async_event_handler-Inv true false c v = (write_epollout c, refl, write_epollout-Inv c v)
  async_event_handler-Inv false true c v = read_epollin-Inv c v
  async_event_handler-Inv true true c v =
      read_epollin-Inv (write_epollout c) (write_epollout-Inv c v)
