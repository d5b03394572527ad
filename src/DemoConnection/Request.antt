-- ===== src/DemoConnection/Request.antt =====
-- A request that comes into an empty input buffer.
use c_http.Prelude.{
  ℕ, ◌+◌, ◌≡◌, ◌≤◌, ◌<◌, refl, List, [], ◌∷◌, ◌++◌, Option, none, some, Run, ok, Bool, true, false,
  arith, length, length-append, ◌∙◌, ap, empty_length, ◌==◌, if◌then◌else◌,
}
use c_http.IoBuffer
use c_http.IoBuffer.{IoBuffer}
use c_http.IoBuffer.Laws as Io
use c_http.IoBuffer.Laws.{bytes, length-bytes, new-IsValid, new_lem}
use c_http.IoBuffer.Terminator.{data_add-append}
use c_http.BufferChain.{Malloc}
use c_http.BufferChain.Laws
use c_http.BufferChain.Laws.{Gives, contents}
use c_http.DemoMessage.{DemoMessage, demo_message_new}
use c_http.DemoMessage.Serialize.{frame}
use c_http.DemoParser.{DemoParser, idle}
use c_http.DemoParser.Text.{AllPrintable, NoText}
use c_http.DemoParser.Roundtrip.{demo_parser_consume-frame}
use c_http.DemoConnection.{
  DemoConnection, DemoInput, DemoRecv, received, nsend, read_active, read_idle, postable_reader,
  postable_write_start, postable_read_start,
}
use c_http.DemoConnection.ReadSide.{
  buffer_size, handle_request, on_read_complete, after_parse, consume_available, commit_received,
  receive, reader, run_reader,
}
use c_http.DemoConnection.Loop.{call_first, run_next, run_postable}
use c_http.DemoConnection.Shapes.{conn, text_of}
use c_http.DemoConnection.Read.{process_request-text, commit_received-data_add}

-- The input buffer between two reads: not yet made, or empty.
abbrev pub EmptyInput : Option IoBuffer → Type 0
EmptyInput none = Unit
EmptyInput (some iob) =
    Io.IsValid iob
    × (iob.buffer_remaining ≡ 0)
    × (iob.buffer_ptr ≡ 0)
    × (iob.buffer_capacity ≡ buffer_size)

-- A connection that waits for a request.
pub data Ready : DemoConnection → Type 0 where
  ready :
      (wc : Bool) (i : Option IoBuffer) (o : Option DemoMessage) (s : List ℕ)
      (rq : List DemoMessage)
      → EmptyInput i
      → NoText o
      → Ready (
          conn read_active true wc i none
            (record { state = idle; current = o })
            []
            none
            (postable_reader ∷ [])
            false
            s
            rq)

-- `recv` gives the frame of a request, and `send` takes that of its response.
abbrev pub exchange : Bool → List ℕ → DemoInput
exchange yn text = record { recv = received (frame yn text); send = nsend (length text + 6) }

-- The parser between two messages.
abbrev pub waiting : Option DemoMessage → DemoParser
waiting o = record { state = idle; current = o }

-- A request has been read and handled, and EOT is in the buffer.
pub record Requested (wc yn : Bool) (text s : List ℕ) (rq : List DemoMessage)
    (run : Run DemoConnection) : Type 0 where
  pub left : IoBuffer
  pub request : DemoMessage
  pub response : DemoMessage
  pub runs :
      run
      ≡ ok (
          conn read_idle false wc
            (some left)
            none
            (waiting (some demo_message_new))
            (response ∷ [])
            none
            (postable_write_start ∷ postable_read_start ∷ [])
            false
            s
            (rq ++ request ∷ []))
  pub left-IsValid : Io.IsValid left
  pub eot : bytes left ≡ 4 ∷ []
  pub capacity : left.buffer_capacity ≡ buffer_size
  pub response-IsValid : Laws.IsValid response.body
  pub response_text : text_of response ≡ frame false text
  pub request_text : contents request.body.chain ≡ text
  pub is_request : request.opcode ≡ yn

same_run :
    {wc yn : Bool} {text s : List ℕ} {rq : List DemoMessage} {run run' : Run DemoConnection}
    → run ≡ run'
    → Requested wc yn text s rq run'
    → Requested wc yn text s rq run
same_run e r = rw e r

module _ (malloc : Malloc) (gives : Gives malloc) where
  -- The bytes that come into an empty input buffer.
  commit_received-bytes :
      (iob : IoBuffer) (l : List ℕ)
      → Io.IsValid iob
      → iob.buffer_remaining ≡ 0
      → iob.buffer_ptr ≡ 0
      → iob.buffer_capacity ≡ buffer_size
      → 0 < length l
      → length l ≤ buffer_size
      → (b : IoBuffer) × (commit_received iob l ≡ ok b)
        × Io.IsValid b
        × (bytes b ≡ l)
        × (b.buffer_capacity ≡ buffer_size)
  commit_received-bytes iob l v empty start cap some_bytes fits =
      let (b, done, vb, grown, ptr, same, rem) =
        data_add-append iob l v start some_bytes (omega arith) in
      let nothing : bytes iob ≡ [] = empty_length (bytes iob) (length-bytes iob v ∙ empty) in
      (
        b,
        commit_received-data_add iob l v (omega arith) ∙ done,
        vb,
        grown ∙ rw nothing refl,
        same ∙ cap,
      )

  -- A request in the input buffer: the handler answers it, and EOT stays in the buffer.
  consume_available-frame :
      (wc yn : Bool) (i : Option IoBuffer) (iob : IoBuffer) (o : Option DemoMessage)
      (text s : List ℕ) (rq : List DemoMessage)
      → NoText o
      → AllPrintable text
      → Io.IsValid iob
      → bytes iob ≡ frame yn text
      → iob.buffer_capacity ≡ buffer_size
      → Requested wc yn text s rq (
          consume_available malloc
            (conn read_active true wc i none (waiting o) [] none [] false s rq)
            iob)
  unfolding consume_available after_parse on_read_complete handle_request
  consume_available-frame wc yn i iob o text s rq none_yet pr vb e cap =
      let (out, b, done, d, left, v', same) =
        demo_parser_consume-frame malloc o iob yn text gives none_yet pr vb e in
      let (r, made, vr, text_r) = process_request-text malloc d.message gives d.body-IsValid in
      record {
        left = b;
        request = d.message;
        response = r;
        runs = rw (done, d.event, made, d.code, d.parser) refl;
        left-IsValid = v';
        eot = left;
        capacity = same ∙ cap;
        response-IsValid = vr;
        response_text = text_r ∙ rw (d.text_is) refl;
        request_text = d.text_is;
        is_request = d.is_request;
      }

  receive-frame :
      (wc yn : Bool) (i : Option IoBuffer) (iob : IoBuffer) (o : Option DemoMessage)
      (text s : List ℕ) (rq : List DemoMessage)
      → NoText o
      → AllPrintable text
      → length text + 6 ≤ buffer_size
      → EmptyInput (some iob)
      → Requested wc yn text s rq (
          receive malloc
            (received (frame yn text))
            (conn read_active true wc i none (waiting o) [] none [] false s rq)
            iob)
  unfolding receive
  receive-frame wc yn i iob o text s rq none_yet pr fits (v, empty, start, cap) =
      let (iob', done, v', all, cap') =
        commit_received-bytes iob (frame yn text) v empty start cap (omega arith)
          (omega (arith, length-append text (3 ∷ 76 ∷ 4 ∷ []))) in
      same_run (rw done refl)
        (consume_available-frame wc yn (some iob') iob' o text s rq none_yet pr v' all cap')

  read_empty :
      (c : DemoConnection) (r : DemoRecv) (iob : IoBuffer)
      → iob.buffer_remaining ≡ 0
      → (if IoBuffer.data_len iob == 0
          then receive malloc r c iob
          else consume_available malloc c iob)
        ≡ receive malloc r c iob
  read_empty c r iob e =
      ap (λ (n : ℕ). if n == 0 then receive malloc r c iob else consume_available malloc c iob) e

  -- The first round of an exchange: the request is read and handled.
  pub request-round :
      (wc yn : Bool) (i : Option IoBuffer) (o : Option DemoMessage) (text s : List ℕ)
      (rq : List DemoMessage)
      → NoText o
      → AllPrintable text
      → length text + 6 ≤ buffer_size
      → EmptyInput i
      → Requested wc yn text s rq (
          run_next malloc
            (exchange yn text)
            (conn read_active true wc i none (waiting o) [] none (postable_reader ∷ []) false s rq))
  unfolding run_next call_first run_postable run_reader reader
  request-round wc yn none o text s rq none_yet pr fits empty =
      let block = malloc (buffer_size + 1) in
      let iob = IoBuffer.new_with_capacity block buffer_size in
      let (start, rem, cap, none_in) = new_lem block buffer_size in
      let c = conn read_active true wc none none (waiting o) [] none [] false s rq in
      same_run (read_empty c (received (frame yn text)) iob rem) (
        receive-frame wc yn none iob o text s rq none_yet pr fits
          (new-IsValid block buffer_size (gives (buffer_size + 1)), rem, start, cap))
  request-round wc yn (some iob) o text s rq none_yet pr fits empty =
      let c = conn read_active true wc (some iob) none (waiting o) [] none [] false s rq in
      same_run (read_empty c (received (frame yn text)) iob empty.1)
        (receive-frame wc yn (some iob) iob o text s rq none_yet pr fits empty)
