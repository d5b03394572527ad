-- ===== src/Connection/Serve.antt =====
-- Requests read from the socket, and their responses written to it.
use c_http.Prelude.{
  ℕ, ◌+◌, ◌≡◌, ◌<◌, refl, List, [], ◌∷◌, ◌++◌, Option, none, some, Run, ok, ◌>>=◌, Bool, false,
  arith, length, ap, sym, ◌∙◌, append-nil, append_assoc, drop, take, take-drop, Bool-cases, inl,
  inr, ◌-◌, eq_false, ◌==◌, length-drop,
}
use c_http.IoBuffer.{IoBuffer}
use c_http.IoBuffer.Laws as Io
use c_http.IoBuffer.Laws.{bytes, read_data-bytes, length-bytes}
use c_http.IoBuffer.Moves.{consume_lem}
use c_http.Cbuffer.Laws.{Gives}
use c_http.Message.{Malloc, Message}
use c_http.HttpParser.{HttpParser}
use c_http.HttpParser.Step.{Opens, Idle}
use c_http.HttpParser.Request.{Request, Received}
use c_http.HttpParser.Stream.{
  requests_callbacks, AllFit, AllReceived, deliver, feed-requests_callbacks,
}
use c_http.Connection.{
  AsyncConnection, received, recv_eagain, nsend, postable_handle_request, postable_write_complete,
  postable_writer, read_idle, read_active, write_idle, write_active, reader, run_writer,
  writer_send, on_read_message_complete, after_consume, read_new_message,
}
use c_http.Connection.Loop.{run_next, run_postable}
use c_http.Connection.Invariant.{conn, no_bytes}

-- The last of some requests, and those before it.
handler_last :
    (rs : List Request) (r : Request) (ms : List Message) (o : Option Message)
    → AllReceived (rs ++ r ∷ []) ms
    → (m : Message) × (deliver on_read_message_complete o ms ≡ some m) × Received r m
unfolding on_read_message_complete
handler_last [] r [] o g = absurd g
handler_last [] r (m ∷ []) o g = (m, refl, g.0)
handler_last [] r (m ∷ n ∷ ms) o g = absurd (g.1)
handler_last (r' ∷ rs) r [] o g = absurd g
handler_last (r' ∷ rs) r (m ∷ ms) o g = handler_last rs r ms (some m) (g.1)

module _ (malloc : Malloc) (garbage : ℕ × ℕ) (stale : Bool) where
  -- When one recv gives exactly the callbacks of some requests, each in pieces that fit as for
  -- feed-request_callbacks, to a connection that is reading, with its parser between messages, no
  -- write under way, no message waiting and nothing else posted, the connection stops reading and
  -- posts the last of the requests alone for the handler: those before it are lost.
  pub reader-last :
      (wp : Bool) (p : HttpParser) {st : ℕ} (s : List ℕ) (rq : List Message) (rs : List Request)
      (r : Request) (errno_eagain ec_ok : Bool)
      → Gives malloc
      → Opens st
      → Idle p st
      → AllFit (rs ++ r ∷ [])
      → (p' : HttpParser) × (st' : ℕ) × (m : Message) × (reader malloc garbage stale
            (received (requests_callbacks (rs ++ r ∷ [])) errno_eagain ec_ok)
            (conn read_active write_idle false wp none none p [] false s rq)
          ≡ ok (
              conn read_idle write_idle false wp
                (some m)
                none
                p'
                (postable_handle_request ∷ [])
                false
                s
                rq))
        × Received r m
        × Opens st'
        × Idle p' st'
  unfolding reader after_consume read_new_message on_read_message_complete
  reader-last wp p s rq rs r errno_eagain ec_ok gives opens idle fits =
      let (p', st', ms, fed, gs, opens', idle') =
        feed-requests_callbacks malloc garbage stale on_read_message_complete p (rs ++ r ∷ []) none
          gives (λ t m. refl) opens idle fits in
      let (m, last, g) = handler_last rs r ms none gs in
      (p', st', m, rw (fed, last) refl, g, opens', idle')

abbrev pub total : List ℕ → ℕ
total [] = 0
total (k ∷ ks) = k + total ks

abbrev pub AllPositive : List ℕ → Type 0
AllPositive [] = Unit
AllPositive (k ∷ ks) = (0 < k) × AllPositive ks

no_more : (ks : List ℕ) → AllPositive ks → total ks ≡ 0 → ks ≡ []
no_more [] pos e = refl
no_more (k ∷ ks) pos e = absurd (omega (arith, pos, e))

nonzero : (n : ℕ) → (n == 0) ≡ false → 0 < n
nonzero n e = ground arith

module _ (method_name : ℕ → List ℕ) (malloc : Malloc) (process_request : Message → Message)
    (garbage : ℕ × ℕ) (stale : Bool) where
  -- Rounds of the loop in which `send` takes the given numbers of bytes.
  pub run_sends : List ℕ → AsyncConnection → Run AsyncConnection
  run_sends [] c = ok c
  run_sends (k ∷ ks) c = do
    c' ←
        run_next method_name malloc process_request garbage stale
          (record { recv = recv_eagain; send = nsend k }) c
    run_sends ks c'

  -- However `send` splits the data of the output buffer, the connection has sent all of them when it
  -- posts the end of the write.
  pub run_sends-all :
      (ks : List ℕ) (wp : Bool) (p : HttpParser) (s : List ℕ) (rq : List Message) (b : IoBuffer)
      → Io.IsValid b
      → 0 < length (bytes b)
      → AllPositive ks
      → total ks ≡ length (bytes b)
      → run_sends ks
          (conn read_idle write_active false wp none (some b) p (postable_writer ∷ []) false s rq)
        ≡ ok (
            conn read_idle write_idle false wp none none p
              (postable_write_complete ∷ [])
              false
              (s ++ bytes b)
              rq)
  unfolding run_sends run_next run_postable run_writer writer_send
  run_sends-all [] wp p s rq b v some_data pos e = absurd (omega (arith, e))
  run_sends-all (k ∷ ks) wp p s rq b v some_data pos e =
      let len = length-bytes b v in
      let (b', done, v', rest) = consume_lem b k v (omega (arith, e)) in
      let left : length (bytes b') ≡ length (bytes b) - k =
        ap length rest ∙ length-drop k (bytes b) in
      let taken : (s ++ take k (bytes b)) ++ bytes b' ≡ s ++ bytes b =
        rw rest (
          append_assoc s (take k (bytes b)) (drop k (bytes b)) ∙ rw (take-drop k (bytes b)) refl) in
      elim (Bool-cases (b'.buffer_remaining == 0)) [
        | inl all ↦
            let none_more : bytes b' ≡ [] = no_bytes b' v' all in
            let ended : s ++ take k (bytes b) ≡ s ++ bytes b =
              sym (append-nil (s ++ take k (bytes b))) ∙ (rw none_more at taken) in
            let last : ks ≡ [] = no_more ks (pos.1) (omega (arith, e, left, ap length none_more)) in
            rw (eq_false k 0 (omega (arith, pos)), read_data-bytes b v, done, all, last)
              (ap
                (λ (t : List ℕ). ok (
                  conn read_idle write_idle false wp none none p (postable_write_complete ∷ [])
                    false t rq))
                ended)
        | inr more ↦
            rw (eq_false k 0 (omega (arith, pos)), read_data-bytes b v, done, more)
              (run_sends-all ks wp p (s ++ take k (bytes b)) rq b' v'
                  (omega (arith, left, e, length-bytes b' v', nonzero b'.buffer_remaining more))
                  (pos.1) (omega (arith, left, e))
                ∙ ap
                    (λ (t : List ℕ). ok (
                      conn read_idle write_idle false wp none none p (postable_write_complete ∷ [])
                        false t rq))
                    taken)
      ]
