-- ===== src/HttpParser/Stream.antt =====
-- Requests one after the other on the same parser.
use c_http.Prelude.{
  ℕ, ◌≡◌, refl, List, [], ◌∷◌, ◌++◌, Bool, true, false, Run, ok, fault, ap, ◌∙◌, sym, ◌==◌, eq_true,
  Bool-cases, inl, inr,
}
use c_http.Cbuffer.Laws.{Gives}
use c_http.Message.{Malloc, Message}
use c_http.HttpParser.{HttpParser}
use c_http.HttpParser.Feed.{Callback, Handler, call, feed}
use c_http.HttpParser.Step.{Opens, Idle}
use c_http.HttpParser.Request.{
  Request, RequestFits, Received, request_callbacks, feed-request_callbacks,
}

abbrev pub requests_callbacks : List Request → List Callback
requests_callbacks [] = []
requests_callbacks (r ∷ rs) = request_callbacks r ++ requests_callbacks rs

abbrev pub AllFit : List Request → Type 0
AllFit [] = Unit
AllFit (r ∷ rs) = RequestFits r × AllFit rs

-- A message for each request, in their order.
abbrev pub AllReceived : List Request → List Message → Type 0
AllReceived [] [] = Unit
AllReceived [] (m ∷ ms) = ⊥
AllReceived (r ∷ rs) [] = ⊥
AllReceived (r ∷ rs) (m ∷ ms) = Received r m × AllReceived rs ms

-- The handler's context when it has been called with each of the messages.
abbrev pub deliver {ℓ} : {S : Type ℓ} → Handler S → S → List Message → S
deliver handler s [] = s
deliver handler s (m ∷ ms) = deliver handler (handler s m).0 ms

module _ {ℓ} {S : Type ℓ} (malloc : Malloc) (garbage : ℕ × ℕ) (stale : Bool)
    (handler : Handler S) where
  answer_of : Run (HttpParser × S × ℕ) → ℕ
  answer_of (ok (p, s, a)) = a
  answer_of (fault f) = 0

  -- Callbacks that all return 0, and those after them.
  feed-append :
      (cs ds : List Callback) (p p' : HttpParser) (s s' : S)
      → feed malloc garbage stale handler cs p s ≡ ok (p', s', 0)
      → feed malloc garbage stale handler (cs ++ ds) p s
        ≡ feed malloc garbage stale handler ds p' s'
  unfolding feed answer_of
  feed-append [] ds p p' s s' e = cc
  feed-append (c ∷ cs) ds p p' s s' e =
      split (call malloc garbage stale handler c p s) refl (λ q t. feed-append cs ds q p' t s')
    where
      answered :
          (q : HttpParser) (t : S) (a : ℕ)
          → (feed malloc garbage stale handler cs q t ≡ ok (p', s', 0)
              → feed malloc garbage stale handler (cs ++ ds) q t
                ≡ feed malloc garbage stale handler ds p' s')
          → call malloc garbage stale handler c p s ≡ ok (q, t, a)
          → feed malloc garbage stale handler (c ∷ (cs ++ ds)) p s
            ≡ feed malloc garbage stale handler ds p' s'
      answered q t a rest called =
          let e' = rw called at e in
          elim (Bool-cases (a == 0)) [
            | inl z ↦ rw (called, z) (rest (rw z at e'))
            | inr nz ↦
                let same : a ≡ 0 = ap answer_of (rw nz at e') in
                let clash : false ≡ true = sym nz ∙ eq_true a 0 same in cc
          ]

      split :
          (result : Run (HttpParser × S × ℕ))
          → call malloc garbage stale handler c p s ≡ result
          → ((q : HttpParser) (t : S)
              → feed malloc garbage stale handler cs q t ≡ ok (p', s', 0)
              → feed malloc garbage stale handler (cs ++ ds) q t
                ≡ feed malloc garbage stale handler ds p' s')
          → feed malloc garbage stale handler (c ∷ (cs ++ ds)) p s
            ≡ feed malloc garbage stale handler ds p' s'
      split (ok (q, t, a)) called rest = answered q t a (rest q t) called
      split (fault f) called rest = let e' = rw called at e in cc

  -- For requests in short pieces one behind the other, on a parser between messages and with a handler
  -- that returns 0, every callback succeeds and the handler is called with one message for each
  -- request, in their order, that says what the request says.
  pub feed-requests_callbacks :
      (p : HttpParser) {st : ℕ} (rs : List Request) (s : S)
      → Gives malloc
      → ((t : S) (m : Message) → (handler t m).1 ≡ 0)
      → Opens st
      → Idle p st
      → AllFit rs
      → (p' : HttpParser) × (st' : ℕ) × (ms : List Message) × (feed malloc garbage stale handler
            (requests_callbacks rs)
            p
            s
          ≡ ok (p', deliver handler s ms, 0))
        × AllReceived rs ms
        × Opens st'
        × Idle p' st'
  unfolding feed
  feed-requests_callbacks p {st} [] s gives quiet opens idle fits =
      (p, st, [], refl, tt, opens, idle)
  feed-requests_callbacks p (r ∷ rs) s gives quiet opens idle fits =
      let (q, st1, m, one, g, opens1, idle1) =
        feed-request_callbacks malloc garbage stale handler gives p r s opens idle (fits.0) in
      let (p', st', ms, others, gs, opens', idle') =
        feed-requests_callbacks q rs (handler s m).0 gives quiet opens1 idle1 (fits.1) in
      let answered : feed malloc garbage stale handler (request_callbacks r) p s
          ≡ ok (q, (handler s m).0, 0) =
        one ∙ ap (λ (a : ℕ). ok (q, (handler s m).0, a)) (quiet s m) in
      (
        p',
        st',
        m ∷ ms,
        feed-append (request_callbacks r) (requests_callbacks rs) p q s (handler s m).0 answered
            ∙ others,
        (g, gs),
        opens',
        idle',
      )
