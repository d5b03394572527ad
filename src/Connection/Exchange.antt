-- ===== src/Connection/Exchange.antt =====
-- A request that was read and the response to it, from one end of a write to the next.
use c_http.Prelude.{
  ℕ, ◌≡◌, ◌<◌, List, [], ◌∷◌, ◌++◌, none, Run, ok, ◌>>=◌, Bool, true, false, arith, length,
  length-append, ap, sym, ◌∙◌,
}
use c_http.Cbuffer.Laws.{Gives}
use c_http.Message.{Malloc, Message}
use c_http.Message.Serialize.{line_text, headers_text, body_text}
use c_http.HttpParser.{HttpParser}
use c_http.HttpParser.Step.{Opens, Idle}
use c_http.HttpParser.Request.{Request, RequestFits, Received}
use c_http.HttpParser.Stream.{requests_callbacks}
use c_http.Connection.{
  AsyncConnection, received, send_eagain, Input, postable_write_complete, read_idle, write_idle,
  async_connection_read,
}
use c_http.Connection.Loop.{run_next, run_postable, with_connection_header}
use c_http.Connection.Invariant.{conn, response_text}
use c_http.Connection.Progress.{Serializable, run_handle_request-writes}
use c_http.Connection.Serve.{reader-last, run_sends, run_sends-all, AllPositive, total}

some-response_text :
    (method_name : ℕ → List ℕ) (mref : Message) → 0 < length (response_text method_name mref)
some-response_text method_name mref = omega (
  arith,
  length-append ((line_text method_name mref ++ headers_text mref.headers) ++ 13 ∷ 10 ∷ [])
      (body_text mref.body),
  length-append (line_text method_name mref ++ headers_text mref.headers) (13 ∷ 10 ∷ []),
)

module _ (method_name : ℕ → List ℕ) (malloc : Malloc) (process_request : Message → Message)
    (garbage : ℕ × ℕ) (stale : Bool) where
  -- Two rounds of the loop: a read of the bytes of a request, and its answer.
  pub run_exchange : List Request → List ℕ → AsyncConnection → Run AsyncConnection
  run_exchange rs ks c = do
    let input : Input = record {
      recv = received (requests_callbacks rs) false true;
      send = send_eagain;
    }
    c1 ← run_next method_name malloc process_request garbage stale input c
    c2 ← run_next method_name malloc process_request garbage stale input c1
    run_sends method_name malloc process_request garbage stale ks c2

  -- A connection that has finished a write reads a request, gives it to the application, sends exactly
  -- the text of the response with its Connection header, however `send` splits it, and has finished a
  -- write again.
  pub run_exchange-response :
      (wp : Bool) (p : HttpParser) {st : ℕ} (s : List ℕ) (rq : List Message) (r : Request)
      (sends : List ℕ → List ℕ)
      → Gives malloc
      → ((m : Message) → Serializable (process_request m))
      → Opens st
      → Idle p st
      → RequestFits r
      → ((text : List ℕ) → AllPositive (sends text) × (total (sends text) ≡ length text))
      → (p' : HttpParser) × (st' : ℕ) × (m : Message) × (run_exchange
            (r ∷ [])
            (sends (response_text method_name (with_connection_header m (process_request m))))
            (conn read_idle write_idle false wp none none p
              (postable_write_complete ∷ [])
              false
              s
              rq)
          ≡ ok (
              conn read_idle write_idle false wp none none p'
                (postable_write_complete ∷ [])
                false
                (s ++ response_text method_name (with_connection_header m (process_request m)))
                (rq ++ m ∷ [])))
        × Received r m
        × Opens st'
        × Idle p' st'
  unfolding run_exchange run_next run_postable async_connection_read
  run_exchange-response wp p s rq r sends gives app opens idle fits splits =
      let (p', st', m, first, g, opens', idle') =
        reader-last malloc garbage stale wp p s rq [] r false true gives opens idle (fits, tt) in
      let (b, second, v, text) =
        run_handle_request-writes method_name process_request malloc garbage stale gives app wp p' s
          rq m in
      let response = with_connection_header m (process_request m) in
      let (pos, all) = splits (response_text method_name response) in
      (
        p',
        st',
        m,
        rw (first, second)
            (run_sends-all method_name malloc process_request garbage stale
                (sends (response_text method_name response)) wp p' s (rq ++ m ∷ []) b v
                (omega (arith, ap length text, some-response_text method_name response)) pos
                (all ∙ ap length (sym text))
              ∙ ap
                  (λ (t : List ℕ). ok (
                    conn read_idle write_idle false wp none none p' (postable_write_complete ∷ [])
                      false (s ++ t) (rq ++ m ∷ [])))
                  text),
        g,
        opens',
        idle',
      )
