-- ===== src/Connection/Reach.antt =====
-- The runs of a connection.
use c_http.Prelude.{
  ℕ, ◌≡◌, ◌≤◌, refl, List, [], ◌++◌, ok-injective, ok, Bool, false, arith, length, sym, ◌∙◌,
  append-nil,
}
use c_http.Cbuffer.Laws.{Gives}
use c_http.Message.{Malloc, Message}
use c_http.HttpParser.{HttpParser}
use c_http.Connection.{AsyncConnection, Recv, Input, async_connection_read}
use c_http.Connection.Loop.{run_next, async_event_handler, async_handler_init}
use c_http.Connection.Invariant.{
  pending, answers, RecvFits, SendFits, Inv, reading, waiting, requested, writing, blocked, written,
  closing, gone, reader-Inv,
}
use c_http.Connection.Progress.{Serializable, run_next-Inv, async_event_handler-Inv}

module _ (method_name : ℕ → List ℕ) (process_request : Message → Message) (malloc : Malloc)
    (garbage : ℕ × ℕ) (stale : Bool) where
  -- The connections that a run comes to: the start, a round of the loop over the ready list, and an
  -- event of a descriptor that is still registered.
  pub data Reach : AsyncConnection → Type 0 where
    started :
        {c : AsyncConnection} (p : HttpParser) (r : Recv)
        → RecvFits malloc garbage stale r p
        → async_handler_init malloc garbage stale p r ≡ ok c
        → Reach c
    looped :
        {c c' : AsyncConnection} (i : Input)
        → Reach c
        → RecvFits malloc garbage stale i.recv c.http_parser_ptr
        → SendFits i.send c.active_output_buffer_ref
        → run_next method_name malloc process_request garbage stale i c ≡ ok c'
        → Reach c'
    notified :
        {c c' : AsyncConnection} (epollout epollin : Bool)
        → Reach c
        → c.closed ≡ false
        → async_event_handler epollout epollin c ≡ ok c'
        → Reach c'

  module _ (gives : Gives malloc) (app : (m : Message) → Serializable (process_request m)) where
    async_handler_init-Inv :
        (p : HttpParser) (r : Recv)
        → RecvFits malloc garbage stale r p
        → (c : AsyncConnection) × (async_handler_init malloc garbage stale p r ≡ ok c)
          × Inv method_name process_request c
    unfolding async_handler_init async_connection_read
    async_handler_init-Inv p r fits =
        reader-Inv method_name process_request malloc garbage stale r false p [] [] refl fits

    Reach-Inv : (c : AsyncConnection) → Reach c → Inv method_name process_request c
    Reach-Inv c (started p r fits e) =
        let (c', done, v) = async_handler_init-Inv p r fits in
        rw (ok-injective c c' (sym e ∙ done)) v
    Reach-Inv c (looped {c = b} i before r o e) =
        let (c', done, v) =
          run_next-Inv method_name process_request malloc garbage stale gives app i b
            (Reach-Inv b before) r o in
        rw (ok-injective c c' (sym e ∙ done)) v
    Reach-Inv c (notified {c = b} epollout epollin before registered e) =
        let (c', done, v) =
          async_event_handler-Inv method_name process_request epollout epollin b
            (Reach-Inv b before) in
        rw (ok-injective c c' (sym e ∙ done)) v

    -- For an application whose responses can be serialized, in every state that a run of a
    -- connection comes to, whatever recv, send and epoll do, at most one function is posted, and
    -- the bytes that send has taken, followed by those still in the output buffer, are the texts of
    -- the responses to the requests that the application was given, in their order.
    pub Reach-answers :
        (c : AsyncConnection)
        → Reach c
        → (length c.posted ≤ 1)
          × (c.sent ++ pending c.active_output_buffer_ref
              ≡ answers method_name process_request c.requests)
    Reach-answers c steps = ordered c (Reach-Inv c steps)
      where
        ordered :
            (c : AsyncConnection)
            → Inv method_name process_request c
            → (length c.posted ≤ 1)
              × (c.sent ++ pending c.active_output_buffer_ref
                  ≡ answers method_name process_request c.requests)
        ordered _ (reading wp p s rq w) = (omega arith, append-nil s ∙ w)
        ordered _ (waiting wp p s rq w) = (omega arith, append-nil s ∙ w)
        ordered _ (requested wp p s rq m w) = (omega arith, append-nil s ∙ w)
        ordered _ (writing wp p s rq b v w) = (omega arith, w)
        ordered _ (blocked wp p s rq b v w) = (omega arith, w)
        ordered _ (written wp p s rq w) = (omega arith, append-nil s ∙ w)
        ordered _ (closing wp p s rq out w) = (omega arith, w)
        ordered _ (gone wp p s rq out w) = (omega arith, w)

    -- For an application whose responses can be serialized, in every state that a run comes to, the
    -- next round of the loop over the ready list returns whatever recv and send come to, if the
    -- parser takes what is read, and every event is handled: no assertion fails, and nothing is
    -- used after it was freed.
    pub Reach-safe :
        (c : AsyncConnection) (i : Input) (epollout epollin : Bool)
        → Reach c
        → RecvFits malloc garbage stale i.recv c.http_parser_ptr
        → SendFits i.send c.active_output_buffer_ref
        → ((c' : AsyncConnection) × (run_next method_name malloc process_request garbage stale i c
              ≡ ok c'))
          × ((c' : AsyncConnection) × (async_event_handler epollout epollin c ≡ ok c'))
    Reach-safe c i epollout epollin steps r o =
        let v = Reach-Inv c steps in
        let (c', next, v') =
          run_next-Inv method_name process_request malloc garbage stale gives app i c v r o in
        let (d, handled, w) =
          async_event_handler-Inv method_name process_request epollout epollin c v in
        ((c', next), (d, handled))
