-- ===== src/HttpParser/Request.antt =====
-- The callbacks of a whole request, and the message that the handler is given.
use c_http.Prelude.{
  ℕ, ◌≡◌, ◌≤◌, ◌<◌, refl, List, [], ◌∷◌, ◌++◌, some, Bool, true, ok, arith, length, ap, ◌∙◌, map,
  concat, length-append,
}
use c_http.Cbuffer.{Cbuffer, common_strategy}
use c_http.Cbuffer.Laws.{Gives}
use c_http.Cbuffer.Holds.{Holds}
use c_http.KvPair.{c_string}
use c_http.Message.{Malloc, Message, message_set_is_request}
use c_http.Message.Serialize.{BodyIsValid, body_text}
use c_http.Message.New.{Blank}
use c_http.HttpParser.{HttpParser}
use c_http.HttpParser.Feed.{
  Callback, on_message_begin, on_url, on_headers_complete, on_body, on_message_complete, Handler,
  call, feed,
}
use c_http.HttpParser.Step.{
  Idle, Opens, message_begin_cb-Reads, message_complete_cb-Idle, url_data_cb-Reads,
}
use c_http.HttpParser.Pieces.{
  AllShort, Line, line_pair, lines_callbacks, AllFit, with_lines, urls-Passes,
}
use c_http.HttpParser.Sections.{headers_complete_cb-Reads}
use c_http.HttpParser.Pieces.{Passes, Passes-cons, Passes-append}
use c_http.HttpParser.Step.{Texts, Reads, settled}
use c_http.HttpParser.Phases.{AllSome, lines-Passes, body-Passes, complete-feed, one}

-- A request in the pieces in which llhttp reports it.
pub record Request : Type 0 where
  pub url : List ℕ
  pub urls : List (List ℕ)
  pub lines : List Line
  pub http_major : ℕ
  pub http_minor : ℕ
  pub method : ℕ
  pub body : List (List ℕ)

abbrev pub url_text : Request → List ℕ
url_text r = r.url ++ concat r.urls

-- The callbacks before the end of the headers.
abbrev pub opening_callbacks : Request → List Callback
opening_callbacks r =
    on_message_begin ∷ on_url r.url ∷ (map on_url r.urls ++ lines_callbacks r.lines)

abbrev pub request_callbacks : Request → List Callback
request_callbacks r =
    opening_callbacks r
    ++ (on_headers_complete r.http_major r.http_minor r.method
        ∷ (map on_body r.body ++ on_message_complete ∷ []))

-- Short pieces, lines that fit, and a target that the parser's buffer can hold.
pub record OpeningFits (r : Request) : Type 0 where
  pub url : length r.url ≤ common_strategy.min_size
  pub urls : AllShort r.urls
  pub room : length (url_text r) < common_strategy.max_size
  pub lines : AllFit r.lines

-- A target of 1 to 511 bytes besides, and no empty piece of the body.
pub record RequestFits (r : Request) : Type 0 where
  pub opening : OpeningFits r
  pub some_url : 0 < length (url_text r)
  pub url_room : length (url_text r) < 512
  pub body : AllSome r.body

-- What the handler's message says of the request.
pub record Received (r : Request) (m : Message) : Type 0 where
  pub is_request : m.is_request ≡ true
  pub method : m.method ≡ r.method
  pub major_vers : m.major_vers ≡ 1
  pub minor_vers : m.minor_vers ≡ r.http_minor
  pub headers : m.headers ≡ map line_pair r.lines
  pub target_buf : Cbuffer
  pub target_is : m.target ≡ some target_buf
  pub target : Holds target_buf (c_string (url_text r))
  pub body_valid : BodyIsValid m.body
  pub body : body_text m.body ≡ concat r.body

module _ {ℓ} {S : Type ℓ} (malloc : Malloc) (garbage : ℕ × ℕ) (stale : Bool) (handler : Handler S)
    (gives : Gives malloc) where
  -- Up to the end of the headers: the new message has all lines but the last, which is in the buffers.
  pub opening-Passes :
      (p : HttpParser) {st : ℕ} (r : Request)
      → Opens st
      → Idle p st
      → OpeningFits r
      → (p' : HttpParser) × (st' : ℕ) × (m m' : Message) × (t' : Texts) × Passes malloc garbage
          stale handler
          (opening_callbacks r)
          p
          p'
        × Reads p' st' m' t'
        × Opens st'
        × (t'.url ≡ url_text r)
        × (settled m' t'.name t'.value ≡ with_lines (message_set_is_request m true) r.lines)
        × Blank m
  unfolding call
  opening-Passes p r opens idle fits =
      let (p1, m1, begun, r1, blank) = message_begin_cb-Reads malloc gives garbage stale p idle in
      let (p2, url, r2) =
        url_data_cb-Reads malloc gives p1 r.url r1 fits.url (omega (arith, fits.url)) in
      let (p3, urls, r3) =
        urls-Passes malloc garbage stale handler gives p2 r.urls r2 fits.urls
          (omega (arith, fits.room, length-append r.url (concat r.urls))) refl in
      let (p4, st', m4, t4, lines, r4, opens', same_url, all) =
        lines-Passes malloc garbage stale handler gives p3 r.lines opens r3 fits.lines in
      (
        p4,
        st',
        m1,
        m4,
        t4,
        Passes-cons malloc garbage stale handler on_message_begin p p1 (λ s. rw begun refl)
            (Passes-cons malloc garbage stale handler (on_url r.url) p1 p2 (λ s. rw url refl)
              (Passes-append malloc garbage stale handler urls lines)),
        r4,
        opens',
        same_url,
        all,
        blank,
      )

  -- For a request in short pieces, on a parser between messages, every callback succeeds; the handler
  -- is called once, with a message that says what the request says, and the parser is between messages
  -- again.
  pub feed-request_callbacks :
      (p : HttpParser) {st : ℕ} (r : Request) (s : S)
      → Opens st
      → Idle p st
      → RequestFits r
      → (p' : HttpParser) × (st' : ℕ) × (m : Message) × (feed malloc garbage stale handler
            (request_callbacks r)
            p
            s
          ≡ ok (p', (handler s m).0, (handler s m).1))
        × Received r m
        × Opens st'
        × Idle p' st'
  unfolding call
  feed-request_callbacks p r s opens idle fits =
      let (p4, st', m1, m4, t4, opening, r4, opens', same_url, all, blank) =
        opening-Passes p r opens idle fits.opening in
      let headed : Message = with_lines (message_set_is_request m1 true) r.lines in
      let (p5, c, v, completed, r5, hc) =
        headers_complete_cb-Reads malloc p4 headed (url_text r) blank.target_buf r.http_major
          r.http_minor r.method gives r4 all same_url blank.target_is blank.target_empty
          fits.some_url fits.url_room in
      let (p6, m6, body, r6, (same, v6, text)) =
        body-Passes malloc garbage stale handler gives p5 r.body r5 (rw blank.body_none tt)
          fits.body in
      let step = one malloc garbage stale handler gives in
      let (p7, done, idle') = message_complete_cb-Idle malloc gives garbage stale p6 m6 r6 in
      (
        p7,
        st',
        m6,
        (opening.passes s _
            ∙ (step (on_headers_complete r.http_major r.http_minor r.method) p4 p5
                  (λ s. rw completed refl)).passes
                s _
            ∙ body.passes s _
            ∙ complete-feed malloc garbage stale handler gives p6 p7 m6 s (rw done refl)),
        record {
          is_request = ap (λ (o : Message). o.is_request) same;
          method = ap (λ (o : Message). o.method) same;
          major_vers = ap (λ (o : Message). o.major_vers) same ∙ blank.major_one;
          minor_vers = ap (λ (o : Message). o.minor_vers) same;
          headers = ap (λ (o : Message). o.headers) same ∙ rw blank.headers_none refl;
          target_buf = c;
          target_is = ap (λ (o : Message). o.target) same;
          target = hc;
          body_valid = v6;
          body = text ∙ rw blank.body_none refl;
        },
        opens',
        idle',
      )
