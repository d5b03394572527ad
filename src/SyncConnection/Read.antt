-- ===== src/SyncConnection/Read.antt =====
-- Several messages in one read, and an error behind a message.
use c_http.Prelude.{
  ℕ, suc, ◌≡◌, ◌≢◌, refl, List, [], ◌∷◌, ◌++◌, some, ok, fault, assert_failed, Bool, false, ap, sym,
  ◌∙◌, length, append_assoc, arith, eq_false, ltb-true, ◌==◌,
}
use c_http.Cbuffer.Laws.{Gives}
use c_http.Message.{Malloc, Message}
use c_http.HttpParser.{HttpParser}
use c_http.HttpParser.Feed.{Callback, feed}
use c_http.HttpParser.Step.{Opens, Idle}
use c_http.HttpParser.Request.{Request}
use c_http.HttpParser.Stream.{
  requests_callbacks, AllFit, AllReceived, deliver, feed-requests_callbacks,
}
use c_http.SyncConnection.{
  ReadResult, nread, parser_on_message_handler, http_parser_consume, sync_connection_read,
  take_message, after_read, sync_connection_read_message, read_messages,
}

-- The handler has queued the messages behind those that were there.
deliver-queue : (l ms : List Message) → deliver parser_on_message_handler (l, 1) ms ≡ (l ++ ms, 1)
unfolding parser_on_message_handler
deliver-queue l [] = ap (λ (t : List Message). (t, 1)) (sym (append_nil_right l))
  where
    append_nil_right : (l : List Message) → l ++ [] ≡ l
    append_nil_right [] = refl
    append_nil_right (m ∷ l) = ap (λ (t : List Message). m ∷ t) (append_nil_right l)
deliver-queue l (m ∷ ms) =
    deliver-queue (l ++ m ∷ []) ms ∙ ap (λ (t : List Message). (t, 1)) (append_assoc l (m ∷ []) ms)

module _ (malloc : Malloc) (garbage : ℕ × ℕ) (stale : Bool) where
  -- Queued messages are given out in their order, without a call of `read`.
  read_messages-queue :
      (l : List Message) (p : HttpParser) (st : ℕ) (reads : List ReadResult)
      → read_messages malloc garbage stale
          (length l)
          reads
          (record { m_parser = p; input_list = l; reader_status = st })
        ≡ ok (some (l, record { m_parser = p; input_list = []; reader_status = st }, reads))
  unfolding read_messages sync_connection_read_message take_message
  read_messages-queue [] p st reads = refl
  read_messages-queue (m ∷ l) p st reads =
      rw (ltb-true 0 (suc (length l)) (omega arith)) (rw (read_messages-queue l p st reads) refl)

  -- The state of the connection after a read that completes some requests.
  consume-requests :
      (p : HttpParser) {st : ℕ} (r : Request) (rs : List Request) (rc : ℕ)
      → Gives malloc
      → Opens st
      → Idle p st
      → AllFit (r ∷ rs)
      → (p' : HttpParser) × (st' : ℕ) × (m : Message) × (ms : List Message) × (http_parser_consume
            malloc garbage stale
            (requests_callbacks (r ∷ rs))
            rc
            (record { m_parser = p; input_list = []; reader_status = 0 })
          ≡ ok (record { m_parser = p'; input_list = m ∷ ms; reader_status = 1 }, rc))
        × AllReceived (r ∷ rs) (m ∷ ms)
        × Opens st'
        × Idle p' st'
  unfolding http_parser_consume parser_on_message_handler
  consume-requests p r rs rc gives opens idle fits =
      let (p', st', ms, fed, g, opens', idle') =
        feed-requests_callbacks malloc garbage stale parser_on_message_handler p (r ∷ rs) ([], 0)
          gives (λ t m. refl) opens idle fits in
      split p' st' ms fed g opens' idle'
    where
      split :
          (p' : HttpParser) (st' : ℕ) (ms : List Message)
          → feed malloc garbage stale parser_on_message_handler
              (requests_callbacks (r ∷ rs))
              p
              ([], 0)
            ≡ ok (p', deliver parser_on_message_handler ([], 0) ms, 0)
          → AllReceived (r ∷ rs) ms
          → Opens st'
          → Idle p' st'
          → (p' : HttpParser) × (st' : ℕ) × (m : Message) × (ms : List Message)
            × (http_parser_consume malloc garbage stale
                  (requests_callbacks (r ∷ rs))
                  rc
                  (record { m_parser = p; input_list = []; reader_status = 0 })
                ≡ ok (record { m_parser = p'; input_list = m ∷ ms; reader_status = 1 }, rc))
            × AllReceived (r ∷ rs) (m ∷ ms)
            × Opens st'
            × Idle p' st'
      split p' st' [] fed g opens' idle' = absurd g
      split p' st' (m ∷ ms) fed g opens' idle' =
          (p', st', m, ms, rw (fed, deliver-queue (m ∷ []) ms) refl, g, opens', idle')

  same_length : (rs : List Request) (ms : List Message) → AllReceived rs ms → length rs ≡ length ms
  same_length [] [] g = refl
  same_length [] (m ∷ ms) g = absurd g
  same_length (r ∷ rs) [] g = absurd g
  same_length (r ∷ rs) (m ∷ ms) g = ap suc (same_length rs ms (g.1))

  -- A read that completes messages, and one that fails behind a message.
  read_message-one :
      (cbs : List Callback) (p p' : HttpParser) (m : Message) (ms : List Message) (status : ℕ)
      (reads : List ReadResult)
      → http_parser_consume malloc garbage stale cbs 0
          (record { m_parser = p; input_list = []; reader_status = 0 })
        ≡ ok (record { m_parser = p'; input_list = m ∷ ms; reader_status = 1 }, 0)
      → sync_connection_read_message malloc garbage stale
          (nread cbs 0 ∷ reads)
          (record { m_parser = p; input_list = []; reader_status = status })
        ≡ ok (some (some m, record { m_parser = p'; input_list = ms; reader_status = 1 }, reads))
  unfolding sync_connection_read_message sync_connection_read after_read take_message
  read_message-one cbs p p' m ms status reads e =
      let some_left = ltb-true 0 (suc (length ms)) (omega arith) in
      rw e (rw some_left (rw some_left refl))

  read_message-failed :
      (cbs : List Callback) (rc : ℕ) (p p' : HttpParser) (m : Message) (ms : List Message)
      (status : ℕ) (reads : List ReadResult)
      → http_parser_consume malloc garbage stale cbs rc
          (record { m_parser = p; input_list = []; reader_status = 0 })
        ≡ ok (record { m_parser = p'; input_list = m ∷ ms; reader_status = 1 }, rc)
      → (rc == 0) ≡ false
      → sync_connection_read_message malloc garbage stale
          (nread cbs rc ∷ reads)
          (record { m_parser = p; input_list = []; reader_status = status })
        ≡ fault assert_failed
  unfolding sync_connection_read_message sync_connection_read after_read
  read_message-failed cbs rc p p' m ms status reads e f = rw e (rw f (rw f refl))

  -- When the bytes of one `read` complete several requests, as many calls of
  -- `sync_connection_read_message` give one message for each of them, in their order, and call `read`
  -- once.
  pub read_messages-requests :
      (p : HttpParser) {st : ℕ} (status : ℕ) (r : Request) (rs : List Request)
      (reads : List ReadResult)
      → Gives malloc
      → Opens st
      → Idle p st
      → AllFit (r ∷ rs)
      → (p' : HttpParser) × (st' : ℕ) × (ms : List Message) × (read_messages malloc garbage stale
            (length (r ∷ rs))
            (nread (requests_callbacks (r ∷ rs)) 0 ∷ reads)
            (record { m_parser = p; input_list = []; reader_status = status })
          ≡ ok (some (ms, record { m_parser = p'; input_list = []; reader_status = 1 }, reads)))
        × AllReceived (r ∷ rs) ms
        × Opens st'
        × Idle p' st'
  unfolding read_messages
  read_messages-requests p status r rs reads gives opens idle fits =
      let (p', st', m, ms, consumed, g, opens', idle') =
        consume-requests p r rs 0 gives opens idle fits in
      (
        p',
        st',
        m ∷ ms,
        rw
            (
              read_message-one (requests_callbacks (r ∷ rs)) p p' m ms status reads consumed,
              same_length rs ms (g.1),
            )
            (rw (read_messages-queue ms p' 1 reads) refl),
        g,
        opens',
        idle',
      )

  -- A request and, in the same read, something that llhttp refuses: the assertion on the two outcomes
  -- of a read stops the process.
  pub sync_connection_read_message-refused :
      (p : HttpParser) {st : ℕ} (status : ℕ) (r : Request) (rs : List Request) (rc : ℕ)
      (reads : List ReadResult)
      → Gives malloc
      → Opens st
      → Idle p st
      → AllFit (r ∷ rs)
      → rc ≢ 0
      → sync_connection_read_message malloc garbage stale
          (nread (requests_callbacks (r ∷ rs)) rc ∷ reads)
          (record { m_parser = p; input_list = []; reader_status = status })
        ≡ fault assert_failed
  sync_connection_read_message-refused p status r rs rc reads gives opens idle fits refused =
      let (p', st', m, ms, consumed, g, opens', idle') =
        consume-requests p r rs rc gives opens idle fits in
      read_message-failed (requests_callbacks (r ∷ rs)) rc p p' m ms status reads consumed
        (eq_false rc 0 refused)
