-- ===== src/HttpParser/Limits.antt =====
-- Where the callbacks go wrong, and what they lose.
use c_http.Prelude.{
  ℕ, ◌+◌, ◌≡◌, ◌≤◌, ◌<◌, refl, List, [], ◌∷◌, ◌++◌, some, Bool, false, Fault, ok, fault,
  out_of_bounds, assert_failed, arith, length, ap, ◌∙◌, eq_false,
}
use c_http.Cbuffer.{Cbuffer, common_strategy}
use c_http.Cbuffer.Laws.{Gives}
use c_http.Cbuffer.Holds.{Holds, Holds-length, append-piece}
use c_http.KvPair.{c_string}
use c_http.KvPair.Strings.{length-c_string}
use c_http.Message.{
  Malloc, Message, message_set_is_request, message_set_status, message_set_method,
  message_set_version,
}
use c_http.Message.New.{Blank}
use c_http.Message.Buffers.Fill.{
  message_set_target_cbuffer-overflow, message_set_reason_cbuffer-twice,
}
use c_http.HttpParser.{HttpParser, headers_complete_cb, status_data_cb}
use c_http.HttpParser.Feed.{
  Callback, on_message_begin, on_status, on_headers_complete, on_message_complete, Handler, call,
  feed,
}
use c_http.HttpParser.Step.{
  Texts, Reads, Idle, Opens, settled, current_message-Reads, message_begin_cb-Reads,
  message_complete_cb-Idle,
}
use c_http.HttpParser.Lines.{flush_header-Reads}
use c_http.HttpParser.Pieces.{
  Line, line_callbacks, lines_callbacks, Fits, AllFit, with_lines, line-Passes,
}
use c_http.HttpParser.Phases.{lines-Passes, complete-feed, one}
use c_http.HttpParser.Request.{Request, OpeningFits, url_text, request_callbacks, opening-Passes}
use c_http.HttpParser.Response.{status_data_cb-Reads}

status_data_cb-twice :
    (malloc : Malloc) (p : HttpParser) {st : ℕ} {m : Message} {t : Texts} {cbuf : Cbuffer}
    {bs : List ℕ} (status_code : ℕ) (at : List ℕ)
    → Gives malloc
    → Reads p st m t
    → m.reason ≡ some cbuf
    → Holds cbuf bs
    → 0 < length bs
    → length at ≤ common_strategy.min_size
    → length t.status + length at < common_strategy.max_size
    → status_data_cb malloc p status_code at ≡ fault assert_failed
unfolding status_data_cb
status_data_cb-twice malloc p {m} {t} {cbuf} {bs} status_code at gives r e h some_text short room =
    let (b, added, hb) =
      append-piece malloc p.m_status_buf t.status at gives r.status_buf short room in
    let m1 = message_set_status (message_set_is_request m false) status_code in
    rw
      (
        current_message-Reads r,
        added,
        message_set_reason_cbuffer-twice malloc m1 cbuf b bs e h some_text,
      )
      refl

headers_complete_cb-overflow :
    (malloc : Malloc) (p : HttpParser) {st : ℕ} {m : Message} {t : Texts} (m' : Message)
    (blank : Blank m') (url : List ℕ) (http_major http_minor method : ℕ)
    → Gives malloc
    → Reads p st m t
    → (settled m t.name t.value).target ≡ some blank.target_buf
    → t.url ≡ url
    → 512 ≤ length (c_string url)
    → length url < common_strategy.max_size
    → headers_complete_cb malloc p http_major http_minor method ≡ fault out_of_bounds
unfolding headers_complete_cb
headers_complete_cb-overflow malloc p {st} {m} {t} m' blank url http_major http_minor method gives r
      target same long room =
    let (f, v, flushed, rf) = flush_header-Reads p r in
    let h : Holds f.m_url_buf url = rw same at rf.url_buf in
    let m1 =
      message_set_method (message_set_version (settled m t.name t.value) http_major http_minor)
        method in
    let short = length-c_string url in
    rw
      (
        flushed,
        current_message-Reads rf,
        eq_false f.m_url_buf.m_length 0 (omega (arith, Holds-length h)),
        message_set_target_cbuffer-overflow malloc m1 blank.target_buf f.m_url_buf url gives target
            blank.target_empty blank.target_small h (h.ended (omega arith)) long (omega arith),
      )
      refl

module _ {ℓ} {S : Type ℓ} (malloc : Malloc) (garbage : ℕ × ℕ) (stale : Bool) (handler : Handler S)
    (gives : Gives malloc) where
  feed-fault :
      (c : Callback) (rest : List Callback) (p : HttpParser) (s : S) (f : Fault)
      → call malloc garbage stale handler c p s ≡ fault f
      → feed malloc garbage stale handler (c ∷ rest) p s ≡ fault f
  unfolding feed
  feed-fault c rest p s f e = rw e refl

  -- A request in pieces as for feed-request_callbacks whose target has 512 bytes or more before a
  -- terminator, and fewer than 1 MiB in all, makes the parser write outside a block at the end of
  -- the headers.
  pub request_callbacks-overflow :
      (p : HttpParser) {st : ℕ} (r : Request) (s : S)
      → Opens st
      → Idle p st
      → OpeningFits r
      → 512 ≤ length (c_string (url_text r))
      → feed malloc garbage stale handler (request_callbacks r) p s ≡ fault out_of_bounds
  unfolding call
  request_callbacks-overflow p r s opens idle fits long =
      let (p', st', m, m', t', opening, r', opens', same, all, blank) =
        opening-Passes malloc garbage stale handler gives p r opens idle fits in
      opening.passes s _
      ∙ feed-fault (on_headers_complete r.http_major r.http_minor r.method) _ p' s out_of_bounds (
          rw
            (headers_complete_cb-overflow malloc p' m blank (url_text r) r.http_major r.http_minor
              r.method gives r' (ap (λ (o : Message). o.target) all ∙ blank.target_is) same long
              fits.room)
            refl)

  -- When header lines, each with a label and in pieces of at most 256 bytes and below 1 MiB in all,
  -- are reported after the end of the headers, with nothing left in the name buffer, every callback
  -- succeeds and the message that the handler is given has all of them but the last.
  pub trailer_callbacks-lost :
      (p : HttpParser) {st : ℕ} {m : Message} {t : Texts} (ls : List Line) (l : Line) (s : S)
      → Opens st
      → Reads p st m t
      → t.name ≡ []
      → AllFit ls
      → Fits l
      → (p' : HttpParser) × (feed malloc garbage stale handler
            (lines_callbacks ls ++ (line_callbacks l ++ on_message_complete ∷ []))
            p
            s
          ≡ ok (p', (handler s (with_lines m ls)).0, (handler s (with_lines m ls)).1))
  unfolding call
  trailer_callbacks-lost p {st} {m} {t} ls l s opens r none_left fits fit =
      let (q, st1, m1, t1, lines, r1, opens1, url, all) =
        lines-Passes malloc garbage stale handler gives p ls opens r fits in
      let (q', line, r2) = line-Passes malloc garbage stale handler gives q l opens1 r1 fit in
      let start : settled m t.name t.value ≡ m = rw none_left refl in
      let is : settled m1 t1.name t1.value ≡ with_lines m ls =
        all ∙ ap (λ n. with_lines n ls) start in
      let (p', done, idle) =
        message_complete_cb-Idle malloc gives garbage stale q' (settled m1 t1.name t1.value) r2 in
      (
        p',
        lines.passes s _
            ∙ line.passes s _
            ∙ complete-feed malloc garbage stale handler gives q' p' (with_lines m ls) s
                (rw (done, is) refl),
      )

  -- A reason that llhttp reports in two pieces stops at the assertion of `Message_set_reason_cbuffer`.
  pub status_callbacks-twice :
      (p : HttpParser) {st : ℕ} (status_code : ℕ) (at rest : List ℕ) (s : S) (cs : List Callback)
      → Idle p st
      → 0 < length (c_string at)
      → length at ≤ common_strategy.min_size
      → length rest ≤ common_strategy.min_size
      → feed malloc garbage stale handler
          (on_message_begin ∷ on_status status_code at ∷ on_status status_code rest ∷ cs)
          p
          s
        ≡ fault assert_failed
  unfolding call
  status_callbacks-twice p status_code at rest s cs idle some_text short short' =
      let (p1, m1, begun, r1, blank) = message_begin_cb-Reads malloc gives garbage stale p idle in
      let lens = length-c_string at in
      let (p2, c, first, r2, hc) =
        status_data_cb-Reads malloc p1 m1 status_code at blank.reason_buf gives r1 blank.reason_is
          blank.reason_empty (omega arith) short in
      let step = one malloc garbage stale handler gives in
      (step on_message_begin p p1 (λ s. rw begun refl)).passes s _
      ∙ (step (on_status status_code at) p1 p2 (λ s. rw first refl)).passes s _
      ∙ feed-fault (on_status status_code rest) cs p2 s assert_failed (
          rw
            (status_data_cb-twice malloc p2 status_code rest gives r2 refl hc some_text short'
              (omega arith))
            refl)
