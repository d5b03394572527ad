-- ===== src/DemoConnection/Shapes.antt =====
-- The states of a connection whose responses are sent in one piece each, between two rounds of the loop
-- over the ready list.
use c_http.Prelude.{
  ℕ, ◌-◌, ◌≡◌, ◌≤◌, ◌<◌, List, [], ◌∷◌, ◌++◌, Option, none, some, Bool, true, false, length,
}
use c_http.IoBuffer
use c_http.IoBuffer.{IoBuffer}
use c_http.IoBuffer.Laws as Io
use c_http.IoBuffer.Laws.{bytes}
use c_http.BufferChain.Laws
use c_http.BufferChain.Laws.{contents}
use c_http.DemoMessage.{DemoMessage}
use c_http.DemoMessage.Serialize.{frame}
use c_http.DemoParser.{DemoParser}
use c_http.DemoParser.States
use c_http.DemoConnection.{
  DemoConnection, DemoReadState, read_idle, read_active, read_eagained, read_stop, write_idle,
  DemoPostable, postable_reader, postable_writer, postable_write_call_cb, postable_cleanup,
  postable_write_start, postable_read_start, DemoRecv, received, recv_eagain, recv_failed, DemoSend,
  nsend, send_eagain, send_failed,
}
use c_http.DemoConnection.ReadSide.{buffer_size}

abbrev pub conn :
    DemoReadState
    → (on_read_cb on_write_cb : Bool) → (input output : Option IoBuffer) → DemoParser
    → (output_list : List DemoMessage) → (active_response : Option DemoMessage) → List DemoPostable
    → (closed : Bool) → (sent : List ℕ) → (requests : List DemoMessage) → DemoConnection
conn rs rc wc input output p waiting active posted closed sent requests = record {
  read_state = rs;
  write_state = write_idle;
  on_read_cb = rc;
  on_write_cb = wc;
  active_input_buffer_ref = input;
  active_output_buffer_ref = output;
  parser_ref = p;
  readside_posted = true;
  writeside_posted = false;
  output_list = waiting;
  active_response = active;
  posted = posted;
  closed = closed;
  sent = sent;
  requests = requests;
}

-- The bytes of a response.
abbrev pub text_of : DemoMessage → List ℕ
text_of m = frame m.opcode (contents m.body.chain)

-- The bytes of the responses to some requests.
abbrev pub answers : List DemoMessage → List ℕ
answers [] = []
answers (m ∷ ms) = frame false (contents m.body.chain) ++ answers ms

abbrev pub InputIsValid : Option IoBuffer → Type 0
InputIsValid none = Unit
InputIsValid (some iob) = Io.IsValid iob

-- What holds in every state: `pending` are the bytes of responses that are not yet sent.
pub record Good (input : Option IoBuffer) (p : DemoParser) (s pending : List ℕ)
    (rq : List DemoMessage) : Type 0 where
  pub input_valid : InputIsValid input
  pub parser_valid : States.IsValid p
  pub answered : s ++ pending ≡ answers rq

-- The space that is left in the input buffer.
abbrev pub room : Option IoBuffer → ℕ
room none = buffer_size
room (some iob) = iob.buffer_capacity - IoBuffer.space iob

-- `recv` gives no more bytes than it was asked for.
abbrev pub RecvFits : DemoRecv → Option IoBuffer → Type 0
RecvFits (received bytes) input = length bytes ≤ room input
RecvFits recv_eagain input = Unit
RecvFits recv_failed input = Unit

-- `send` takes all the bytes that it is given.
abbrev pub TakesAll : DemoSend → Option IoBuffer → Type 0
TakesAll o none = Unit
TakesAll (nsend n) (some iob) = n ≡ iob.buffer_remaining
TakesAll send_eagain (some iob) = ⊥
TakesAll send_failed (some iob) = ⊥

-- What a read that is not followed by a message leaves: a read that goes on, one that waits for an
-- event, none at all after a parse error, or the end of the connection.
pub data AfterRead : DemoReadState → Bool → List DemoPostable → Type 0 where
  goes_on : AfterRead read_active true (postable_reader ∷ [])
  waits : AfterRead read_eagained true []
  abandoned : AfterRead read_idle false []
  ends : AfterRead read_stop false (postable_cleanup ∷ [])

-- `postable_write_start` is posted a second time when a response comes while another is written.
abbrev pub spare : Bool → List DemoPostable
spare false = []
spare true = postable_write_start ∷ []

-- Which functions are posted, and the fields that go with them.
pub data Shape : DemoConnection → Type 0 where
  settled :
      {rs : DemoReadState} {rc : Bool} {tail : List DemoPostable} (wc : Bool) (i : Option IoBuffer)
      (p : DemoParser) (s : List ℕ) (rq : List DemoMessage)
      → AfterRead rs rc tail
      → Good i p s [] rq
      → Shape (conn rs rc wc i none p [] none tail false s rq)
  answering :
      (wc again : Bool) (i : Option IoBuffer) (p : DemoParser) (s : List ℕ) (rq : List DemoMessage)
      (m : DemoMessage)
      → Laws.IsValid m.body
      → Good i p s (text_of m) rq
      → Shape (
          conn read_idle false wc i none p
            (m ∷ [])
            none
            (postable_write_start ∷ postable_read_start ∷ spare again)
            false
            s
            rq)
  starting :
      (again : Bool) (i : Option IoBuffer) (b : IoBuffer) (p : DemoParser) (s : List ℕ)
      (rq : List DemoMessage) (m : DemoMessage)
      → Io.IsValid b
      → 0 < b.buffer_remaining
      → Good i p s (bytes b) rq
      → Shape (
          conn read_idle false true i
            (some b)
            p
            []
            (some m)
            (postable_read_start ∷ spare again ++ postable_writer ∷ [])
            false
            s
            rq)
  writing :
      (again : Bool) (i : Option IoBuffer) (b : IoBuffer) (p : DemoParser) (s : List ℕ)
      (rq : List DemoMessage) (m : DemoMessage)
      → Io.IsValid b
      → 0 < b.buffer_remaining
      → Good i p s (bytes b) rq
      → Shape (
          conn read_active true true i
            (some b)
            p
            []
            (some m)
            (spare again ++ postable_writer ∷ postable_reader ∷ [])
            false
            s
            rq)
  written :
      (i : Option IoBuffer) (p : DemoParser) (s : List ℕ) (rq : List DemoMessage) (m : DemoMessage)
      → Good i p s [] rq
      → Shape (
          conn read_active true true i none p []
            (some m)
            (postable_reader ∷ postable_write_call_cb ∷ [])
            false
            s
            rq)
  acknowledging :
      {rs : DemoReadState} {rc : Bool} {tail : List DemoPostable} (i : Option IoBuffer)
      (p : DemoParser) (s : List ℕ) (rq : List DemoMessage) (m : DemoMessage)
      → AfterRead rs rc tail
      → Good i p s [] rq
      → Shape (conn rs rc true i none p [] (some m) (postable_write_call_cb ∷ tail) false s rq)
  overlapped :
      (i : Option IoBuffer) (p : DemoParser) (s : List ℕ) (rq : List DemoMessage)
      (m next : DemoMessage)
      → Laws.IsValid next.body
      → Good i p s (text_of next) rq
      → Shape (
          conn read_idle false true i none p
            (next ∷ [])
            (some m)
            (postable_write_call_cb ∷ postable_write_start ∷ postable_read_start ∷ [])
            false
            s
            rq)
  gone :
      (wc : Bool) (i : Option IoBuffer) (p : DemoParser) (s : List ℕ) (rq : List DemoMessage)
      → Good i p s [] rq
      → Shape (conn read_stop false wc i none p [] none [] true s rq)
