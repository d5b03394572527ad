-- ===== src/Connection/Invariant.antt =====
-- The states that a connection goes through, one posted function at a time.
use c_http.Prelude.{
  empty_length, ℕ, ◌≡◌, ◌≤◌, refl, List, [], ◌∷◌, ◌++◌, Option, none, some, ok, Bool, true, false,
  arith, sym, ◌∙◌, append-nil, append_assoc, drop, take, take-drop, ◌==◌, Bool-cases, inl, inr,
}
use c_http.IoBuffer.{IoBuffer}
use c_http.IoBuffer.Laws as Io
use c_http.IoBuffer.Laws.{bytes, read_data-bytes, length-bytes}
use c_http.IoBuffer.Moves.{consume_lem}
use c_http.Message.{Malloc, Message}
use c_http.Message.Serialize.{line_text, headers_text, body_text}
use c_http.HttpParser.{HttpParser}
use c_http.HttpParser.Feed.{feed}
use c_http.Connection.{
  AsyncConnection, ReadState, WriteState, Postable, postable_reader, postable_writer,
  postable_write_complete, postable_handle_request, postable_close_connection, Recv, received,
  peer_closed, recv_eagain, recv_failed, Send, nsend, send_eagain, send_failed, read_idle,
  read_active, read_eagained, read_stop, write_idle, write_active, write_eagained, write_stop,
  reader, writer_send, on_read_message_complete, after_consume, read_new_message, read_eagain,
  read_need_data, read_error,
}
use c_http.Connection.Loop.{with_connection_header}

-- A connection between two functions: no message is waiting from the parser.
abbrev pub conn :
    ReadState
    → WriteState
    → (readside_posted writeside_posted : Bool) → (scratch_request : Option Message)
    → (active_output_buffer_ref : Option IoBuffer) → HttpParser
    → List Postable
    → (closed : Bool) → (sent : List ℕ) → (requests : List Message) → AsyncConnection
conn rs ws rp wp scratch out parser posted closed sent requests = record {
  read_state = rs;
  write_state = ws;
  readside_posted = rp;
  writeside_posted = wp;
  input_message_ptr = none;
  scratch_request = scratch;
  active_output_buffer_ref = out;
  http_parser_ptr = parser;
  posted = posted;
  closed = closed;
  sent = sent;
  requests = requests;
}

-- The bytes that are still to be sent.
abbrev pub pending : Option IoBuffer → List ℕ
pending none = []
pending (some iob) = bytes iob

abbrev pub response_text : (method_name : ℕ → List ℕ) → Message → List ℕ
response_text method_name mref =
    (line_text method_name mref ++ headers_text mref.headers) ++ 13 ∷ 10 ∷ [] ++ body_text mref.body

-- The text of the responses to some requests.
abbrev pub answers : (ℕ → List ℕ) → (Message → Message) → List Message → List ℕ
answers method_name process_request [] = []
answers method_name process_request (m ∷ ms) =
    response_text method_name (with_connection_header m (process_request m))
    ++ answers method_name process_request ms

-- `recv` gives bytes of which llhttp makes callbacks that do not stop the process.
abbrev pub RecvFits : Malloc → ℕ × ℕ → Bool → Recv → HttpParser → Type 0
RecvFits malloc garbage stale (received callbacks errno_eagain ec_ok) p =
    (p' : HttpParser) × (input_message_ptr : Option Message) × (answer : ℕ) × (feed malloc garbage
        stale on_read_message_complete callbacks p none
      ≡ ok (p', input_message_ptr, answer))
RecvFits malloc garbage stale peer_closed p = Unit
RecvFits malloc garbage stale recv_eagain p = Unit
RecvFits malloc garbage stale recv_failed p = Unit

-- `send` takes no more than it is given.
abbrev pub SendFits : Send → Option IoBuffer → Type 0
SendFits (nsend n) none = Unit
SendFits (nsend n) (some iob) = n ≤ iob.buffer_remaining
SendFits send_eagain out = Unit
SendFits send_failed out = Unit

pub no_bytes : (b : IoBuffer) → Io.IsValid b → (b.buffer_remaining == 0) ≡ true → bytes b ≡ []
no_bytes b v e = empty_length (bytes b) (length-bytes b v ∙ ground arith)

module _ (method_name : ℕ → List ℕ) (process_request : Message → Message) where
  -- At most one function is posted, and which one goes with the two states; what was sent and what is
  -- still in the output buffer are the responses to the requests so far.
  pub data Inv : AsyncConnection → Type 0 where
    reading :
        (wp : Bool) (p : HttpParser) (s : List ℕ) (rq : List Message)
        → s ≡ answers method_name process_request rq
        → Inv (conn read_active write_idle true wp none none p (postable_reader ∷ []) false s rq)
    waiting :
        (wp : Bool) (p : HttpParser) (s : List ℕ) (rq : List Message)
        → s ≡ answers method_name process_request rq
        → Inv (conn read_eagained write_idle false wp none none p [] false s rq)
    requested :
        (wp : Bool) (p : HttpParser) (s : List ℕ) (rq : List Message) (m : Message)
        → s ≡ answers method_name process_request rq
        → Inv (
            conn read_idle write_idle false wp
              (some m)
              none
              p
              (postable_handle_request ∷ [])
              false
              s
              rq)
    writing :
        (wp : Bool) (p : HttpParser) (s : List ℕ) (rq : List Message) (b : IoBuffer)
        → Io.IsValid b
        → s ++ bytes b ≡ answers method_name process_request rq
        → Inv
            (conn read_idle write_active false wp none (some b) p (postable_writer ∷ []) false s rq)
    blocked :
        (wp : Bool) (p : HttpParser) (s : List ℕ) (rq : List Message) (b : IoBuffer)
        → Io.IsValid b
        → s ++ bytes b ≡ answers method_name process_request rq
        → Inv (conn read_idle write_eagained false wp none (some b) p [] false s rq)
    written :
        (wp : Bool) (p : HttpParser) (s : List ℕ) (rq : List Message)
        → s ≡ answers method_name process_request rq
        → Inv (
            conn read_idle write_idle false wp none none p
              (postable_write_complete ∷ [])
              false
              s
              rq)
    closing :
        (wp : Bool) (p : HttpParser) (s : List ℕ) (rq : List Message) (out : Option IoBuffer)
        → s ++ pending out ≡ answers method_name process_request rq
        → Inv (
            conn read_stop write_stop false wp none out p
              (postable_close_connection ∷ [])
              false
              s
              rq)
    gone :
        (wp : Bool) (p : HttpParser) (s : List ℕ) (rq : List Message) (out : Option IoBuffer)
        → s ++ pending out ≡ answers method_name process_request rq
        → Inv (conn read_stop write_stop false wp none out p [] true s rq)

  module _ (malloc : Malloc) (garbage : ℕ × ℕ) (stale : Bool) where
    -- A read ends in one of four ways.
    pub reader-Inv :
        (r : Recv) (wp : Bool) (p : HttpParser) (s : List ℕ) (rq : List Message)
        → s ≡ answers method_name process_request rq
        → RecvFits malloc garbage stale r p
        → (c : AsyncConnection) × (reader malloc garbage stale r
              (conn read_active write_idle false wp none none p [] false s rq)
            ≡ ok c)
          × Inv c
    unfolding reader after_consume read_new_message read_eagain read_need_data read_error
    reader-Inv (received callbacks errno_eagain ec_ok) wp p s rq w (p', some m, answer, fed) =
        (_, rw fed refl, requested wp p' s rq m w)
    reader-Inv (received callbacks true ec_ok) wp p s rq w (p', none, answer, fed) =
        (_, rw fed refl, waiting wp p' s rq w)
    reader-Inv (received callbacks false true) wp p s rq w (p', none, answer, fed) =
        (_, rw fed refl, reading wp p' s rq w)
    reader-Inv (received callbacks false false) wp p s rq w (p', none, answer, fed) =
        (_, rw fed refl, closing wp p' s rq none (append-nil s ∙ w))
    reader-Inv peer_closed wp p s rq w fits = (_, refl, closing wp p s rq none (append-nil s ∙ w))
    reader-Inv recv_eagain wp p s rq w fits = (_, refl, waiting wp p s rq w)
    reader-Inv recv_failed wp p s rq w fits = (_, refl, closing wp p s rq none (append-nil s ∙ w))

  -- A call of `send` that takes `n` bytes.
  pub writer_send-Inv :
      (o : Send) (wp : Bool) (p : HttpParser) (s : List ℕ) (rq : List Message) (b : IoBuffer)
      → Io.IsValid b
      → s ++ bytes b ≡ answers method_name process_request rq
      → SendFits o (some b)
      → (c : AsyncConnection) × (writer_send o
            (conn read_idle write_active false wp none (some b) p [] false s rq)
            b
          ≡ ok c)
        × Inv c
  unfolding writer_send
  writer_send-Inv send_eagain wp p s rq b v w fits = (_, refl, blocked wp p s rq b v w)
  writer_send-Inv send_failed wp p s rq b v w fits = (_, refl, closing wp p s rq (some b) w)
  writer_send-Inv (nsend n) wp p s rq b v w fits = elim (Bool-cases (n == 0)) [
    | inl none_taken ↦ (_, rw none_taken refl, closing wp p s rq (some b) w)
    | inr some_taken ↦
        let (b', done, v', rest) = consume_lem b n v fits in
        let taken : (s ++ take n (bytes b)) ++ bytes b' ≡ answers method_name process_request rq =
          rw rest
            (append_assoc s (take n (bytes b)) (drop n (bytes b)) ∙ rw (take-drop n (bytes b)) w) in
        elim (Bool-cases (b'.buffer_remaining == 0)) [
          | inl all ↦
              let nothing : bytes b' ≡ [] = no_bytes b' v' all in
              (
                _,
                rw (some_taken, read_data-bytes b v, done, all) refl,
                written wp p (s ++ take n (bytes b)) rq
                    (sym (append-nil (s ++ take n (bytes b))) ∙ (rw nothing at taken)),
              )
          | inr more ↦ (
            _,
            rw (some_taken, read_data-bytes b v, done, more) refl,
            writing wp p (s ++ take n (bytes b)) rq b' v' taken,
          )
        ]
  ]
