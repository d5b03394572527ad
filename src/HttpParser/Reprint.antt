-- ===== src/HttpParser/Reprint.antt =====
-- A request read by the parser and serialized again.
use c_http.Prelude.{ℕ, ◌≡◌, ◌<◌, refl, List, [], ◌∷◌, ◌++◌, Bool, ok, length, map, concat, ◌∙◌}
use c_http.IoBuffer.{IoBuffer}
use c_http.IoBuffer.Laws as Io
use c_http.Cbuffer.Laws.{Gives}
use c_http.KvPair.{c_string}
use c_http.KvPair.Strings.{c_string-c_string}
use c_http.Decimal.{decimal}
use c_http.Message.{Malloc, Message, message_serialize}
use c_http.Message.Serialize.{headers_text, line_buffer, HasText, slab_text, message_serialize-text}
use c_http.Message.Buffers.Fill.{Holds-c_string}
use c_http.HttpParser.{HttpParser}
use c_http.HttpParser.Feed.{Handler, feed}
use c_http.HttpParser.Step.{Opens, Idle}
use c_http.HttpParser.Pieces.{line_pair}
use c_http.HttpParser.Request.{
  Request, RequestFits, Received, url_text, request_callbacks, feed-request_callbacks,
}

-- The request as text, its target up to a terminator and its major version 1.
abbrev pub request_text : (method_name : ℕ → List ℕ) → Request → List ℕ
request_text method_name r =
    ((method_name r.method
        ++ (32
            ∷ (c_string (url_text r)
                ++ (32
                    ∷ ((72 ∷ 84 ∷ 84 ∷ 80 ∷ 47 ∷ (decimal 1 ++ (46 ∷ decimal r.http_minor)))
                        ++ 13 ∷ 10 ∷ [])))))
      ++ headers_text (map line_pair r.lines))
    ++ 13 ∷ 10 ∷ []
    ++ concat r.body

Received-slab_text :
    (r : Request) (m : Message) (g : Received r m)
    → 0 < length (c_string (url_text r))
    → slab_text m.target ≡ c_string (url_text r)
Received-slab_text r m g some_text = rw g.target_is (
    Holds-c_string g.target_buf (c_string (url_text r)) g.target (g.target.ended some_text)
    ∙ c_string-c_string (url_text r))

Received-HasText :
    (r : Request) (m : Message)
    → Received r m
    → 0 < length (c_string (url_text r))
    → HasText (line_buffer m)
Received-HasText r m g some_text = rw (g.is_request, g.target_is) (g.target.ended some_text)

-- `Message_serialize` of the message that the parser makes of a request in short pieces returns the
-- text of the request, if its target does not start with a terminator.
pub message_serialize-feed {ℓ} :
    {S : Type ℓ} (method_name : ℕ → List ℕ) (malloc : Malloc) (garbage : ℕ × ℕ) (stale : Bool)
    (handler : Handler S) (p : HttpParser) (st : ℕ) (r : Request) (s : S)
    → Gives malloc
    → Opens st
    → Idle p st
    → RequestFits r
    → 0 < length (c_string (url_text r))
    → (p' : HttpParser) × (m : Message) × (b : IoBuffer) × (feed malloc garbage stale handler
          (request_callbacks r)
          p
          s
        ≡ ok (p', (handler s m).0, (handler s m).1))
      × (message_serialize method_name malloc m ≡ ok b)
      × (Io.bytes b ≡ request_text method_name r)
message_serialize-feed method_name malloc garbage stale handler p st r s gives opens idle fits
      some_text =
    let (p', st', m, done, g, opens', idle') =
      feed-request_callbacks malloc garbage stale handler gives p r s opens idle fits in
    let (b, made, v, text) =
      message_serialize-text method_name malloc m gives (Received-HasText r m g some_text)
        g.body_valid in
    (
      p',
      m,
      b,
      done,
      made,
      text
          ∙ rw
              (
                g.is_request,
                g.method,
                g.major_vers,
                g.minor_vers,
                Received-slab_text r m g some_text,
                g.headers,
                g.body,
              )
              refl,
    )
