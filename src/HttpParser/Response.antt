-- ===== src/HttpParser/Response.antt =====
-- The callbacks of a whole response, and the message that the handler is given.
use c_http.Prelude.{
  ℕ, ◌≡◌, ◌≤◌, ◌<◌, refl, List, [], ◌∷◌, ◌++◌, some, Bool, false, ok, arith, length, ap, ◌∙◌, map,
  concat, eq_true,
}
use c_http.Cbuffer.{Cbuffer, common_strategy}
use c_http.Cbuffer.Laws.{Gives}
use c_http.Cbuffer.Holds.{Holds, Holds-length, append-piece}
use c_http.KvPair.{c_string}
use c_http.Message.{
  Malloc, Message, message_set_is_request, message_set_status, message_set_version,
}
use c_http.Message.Buffers.Fill.{message_set_reason_cbuffer-Holds}
use c_http.Message.Serialize.{BodyIsValid, body_text}
use c_http.HttpParser.{HttpParser, status_data_cb, headers_complete_cb, current_message}
use c_http.HttpParser.Feed.{
  Callback, on_message_begin, on_status, on_headers_complete, on_body, on_message_complete, Handler,
  call, feed,
}
use c_http.HttpParser.Step.{
  Texts, no_texts, Reads, Idle, Opens, settled, current_message-Reads, message_begin_cb-Reads,
  message_complete_cb-Idle,
}
use c_http.HttpParser.Lines.{flush_header-Reads}
use c_http.HttpParser.Pieces.{Line, line_pair, lines_callbacks, AllFit, with_lines}
use c_http.HttpParser.Phases.{AllSome, lines-Passes, body-Passes, complete-feed, one}

-- A response in the pieces in which llhttp reports it, its reason in one piece.
pub record Response : Type 0 where
  pub status_code : ℕ
  pub reason : List ℕ
  pub lines : List Line
  pub http_major : ℕ
  pub http_minor : ℕ
  pub body : List (List ℕ)

abbrev pub response_callbacks : Response → List Callback
response_callbacks r =
    on_message_begin
    ∷ on_status r.status_code r.reason
    ∷ (lines_callbacks r.lines
        ++ (on_headers_complete r.http_major r.http_minor 0
            ∷ (map on_body r.body ++ on_message_complete ∷ [])))

-- A reason of 1 to 256 bytes, lines that fit, and no empty piece of the body.
pub record ResponseFits (r : Response) : Type 0 where
  pub some_reason : 0 < length r.reason
  pub reason : length r.reason ≤ common_strategy.min_size
  pub lines : AllFit r.lines
  pub body : AllSome r.body

-- What the handler's message says of the response.
pub record Received (r : Response) (m : Message) : Type 0 where
  pub is_request : m.is_request ≡ false
  pub status_code : m.status_code ≡ r.status_code
  pub major_vers : m.major_vers ≡ 1
  pub minor_vers : m.minor_vers ≡ r.http_minor
  pub headers : m.headers ≡ map line_pair r.lines
  pub reason_buf : Cbuffer
  pub reason_is : m.reason ≡ some reason_buf
  pub reason : Holds reason_buf (c_string r.reason)
  pub body_valid : BodyIsValid m.body
  pub body : body_text m.body ≡ concat r.body

-- The first piece of a reason.
pub status_data_cb-Reads :
    (malloc : Malloc) (p : HttpParser) {st : ℕ} (m : Message) (status_code : ℕ) (at : List ℕ)
    (cbuf : Cbuffer)
    → Gives malloc
    → Reads p st m no_texts
    → m.reason ≡ some cbuf
    → Holds cbuf []
    → 0 < length at
    → length at ≤ common_strategy.min_size
    → (p' : HttpParser) × (c : Cbuffer) × (status_data_cb malloc p status_code at ≡ ok p')
      × Reads p' st
          (record m { is_request = false; status_code = status_code; reason = some c })
          (record no_texts { status = at })
      × Holds c (c_string at)
unfolding status_data_cb
status_data_cb-Reads malloc p m status_code at cbuf gives r e empty some_bytes short =
    let (b, added, hb) =
      append-piece malloc p.m_status_buf [] at gives r.status_buf short (omega arith) in
    let m1 = message_set_status (message_set_is_request m false) status_code in
    let (c, done, hc) =
      message_set_reason_cbuffer-Holds malloc m1 cbuf b at gives e empty hb (hb.ended some_bytes)
        (omega arith) in
    (
      record p { current_message_ptr = some (record m1 { reason = some c }); m_status_buf = b },
      c,
      rw (current_message-Reads r, added, done) refl,
      record {
        message = refl;
        state = r.state;
        url_buf = r.url_buf;
        status_buf = hb;
        name_buf = r.name_buf;
        value_buf = r.value_buf;
      },
      hc,
    )

-- `headers_complete_cb` without a target: the last line and the version.
headers_complete_cb-no_url :
    (malloc : Malloc) (p : HttpParser) {st : ℕ} {m : Message} {t : Texts} (m' : Message)
    (http_major http_minor method : ℕ)
    → Reads p st m t
    → settled m t.name t.value ≡ m'
    → t.url ≡ []
    → (p' : HttpParser) × (v : List ℕ) × (headers_complete_cb malloc p http_major http_minor method
        ≡ ok p')
      × Reads p' st (record m' { minor_vers = http_minor }) (record t { name = []; value = v })
unfolding headers_complete_cb
headers_complete_cb-no_url malloc p m' http_major http_minor method r settles same =
    let (f, v, flushed, rf) = flush_header-Reads p r in
    let url_holds : Holds f.m_url_buf [] = rw same at rf.url_buf in
    let mref_is : current_message f ≡ ok m' = current_message-Reads rf ∙ ap ok settles in
    (
      record f { current_message_ptr = some (message_set_version m' http_major http_minor) },
      v,
      rw (flushed, mref_is, eq_true f.m_url_buf.m_length 0 (Holds-length url_holds)) refl,
      record {
        message = refl;
        state = rf.state;
        url_buf = rf.url_buf;
        status_buf = rf.status_buf;
        name_buf = rf.name_buf;
        value_buf = rf.value_buf;
      },
    )

module _ {ℓ} {S : Type ℓ} (malloc : Malloc) (garbage : ℕ × ℕ) (stale : Bool) (handler : Handler S)
    (gives : Gives malloc) where
  -- For a response whose reason comes in one piece, on a parser between messages, every callback
  -- succeeds; the handler is called once, with a message that says what the response says, and the
  -- parser is between messages again.
  pub feed-response_callbacks :
      (p : HttpParser) {st : ℕ} (r : Response) (s : S)
      → Opens st
      → Idle p st
      → ResponseFits r
      → (p' : HttpParser) × (st' : ℕ) × (m : Message) × (feed malloc garbage stale handler
            (response_callbacks r)
            p
            s
          ≡ ok (p', (handler s m).0, (handler s m).1))
        × Received r m
        × Opens st'
        × Idle p' st'
  unfolding call
  feed-response_callbacks p r s opens idle fits =
      let (p1, m1, begun, r1, blank) = message_begin_cb-Reads malloc gives garbage stale p idle in
      let (p2, c, status, r2, hc) =
        status_data_cb-Reads malloc p1 m1 r.status_code r.reason blank.reason_buf gives r1
          blank.reason_is blank.reason_empty fits.some_reason fits.reason in
      let (p4, st', m4, t4, lines, r4, opens', same_url, all) =
        lines-Passes malloc garbage stale handler gives p2 r.lines opens r2 fits.lines in
      let headed : Message =
        with_lines (record m1 { is_request = false; status_code = r.status_code; reason = some c })
          r.lines in
      let (p5, v, completed, r5) =
        headers_complete_cb-no_url malloc p4 headed r.http_major r.http_minor 0 r4 all same_url in
      let (p6, m6, body, r6, (same, v6, text)) =
        body-Passes malloc garbage stale handler gives p5 r.body r5 (rw blank.body_none tt)
          fits.body in
      let (p7, done, idle') = message_complete_cb-Idle malloc gives garbage stale p6 m6 r6 in
      let step = one malloc garbage stale handler gives in
      (
        p7,
        st',
        m6,
        (step on_message_begin p p1 (λ s. rw begun refl)).passes s _
            ∙ (step (on_status r.status_code r.reason) p1 p2 (λ s. rw status refl)).passes s _
            ∙ lines.passes s _
            ∙ (step (on_headers_complete r.http_major r.http_minor 0) p4 p5
                  (λ s. rw completed refl)).passes
                s _
            ∙ body.passes s _
            ∙ complete-feed malloc garbage stale handler gives p6 p7 m6 s (rw done refl),
        record {
          is_request = ap (λ (o : Message). o.is_request) same;
          status_code = ap (λ (o : Message). o.status_code) same;
          major_vers = ap (λ (o : Message). o.major_vers) same ∙ blank.major_one;
          minor_vers = ap (λ (o : Message). o.minor_vers) same;
          headers = ap (λ (o : Message). o.headers) same ∙ rw blank.headers_none refl;
          reason_buf = c;
          reason_is = ap (λ (o : Message). o.reason) same;
          reason = hc;
          body_valid = v6;
          body = text ∙ rw blank.body_none refl;
        },
        opens',
        idle',
      )
