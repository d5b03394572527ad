-- ===== src/HttpParser/Feed.antt =====
-- http_in_c/http/parser.c: the callbacks as llhttp makes them, one after the other. A `Callback` is such
-- a call, with what the code reads of llhttp's state as arguments.
use c_http.Prelude.{ℕ, List, [], ◌∷◌, Run, ok, ◌>>=◌, Bool, ◌==◌, if◌then◌else◌}
use c_http.Message.{Malloc, Message}
use c_http.HttpParser.{
  HttpParser, message_begin_cb, message_complete_cb, url_data_cb, status_data_cb,
  header_field_data_cb, header_value_data_cb, headers_complete_cb, body_data_cb,
}

-- The callbacks of `llhttp_settings_t` that do something; `on_other` is any of those that return 0 at
-- once.
pub data Callback : Type 0 where
  on_message_begin : Callback
  on_url : (at : List ℕ) → Callback
  on_status : (status_code : ℕ) (at : List ℕ) → Callback
  on_header_field : (at : List ℕ) → Callback
  on_header_value : (at : List ℕ) → Callback
  on_headers_complete : (http_major http_minor method : ℕ) → Callback
  on_body : (at : List ℕ) → Callback
  on_message_complete : Callback
  on_other : Callback

-- The handler of complete messages: its context before, and after with its return value.
abbrev pub Handler {ℓ} : Type ℓ → Type ℓ
Handler S = S → Message → S × ℕ

module _ {ℓ} {S : Type ℓ} (malloc : Malloc) (garbage : ℕ × ℕ) (stale : Bool)
    (handler : Handler S) where
  quiet : S → Run HttpParser → Run (HttpParser × S × ℕ)
  quiet context m = m >>= λ this. ok (this, context, 0)

  -- One callback: the parser, the handler's context and the value that the callback returns.
  unfoldable pub call : Callback → HttpParser → S → Run (HttpParser × S × ℕ)
  unfolding quiet
  call on_message_begin this context = quiet context (message_begin_cb malloc garbage stale this)
  call (on_url at) this context = quiet context (url_data_cb malloc this at)
  call (on_status status_code at) this context =
      quiet context (status_data_cb malloc this status_code at)
  call (on_header_field at) this context = quiet context (header_field_data_cb malloc this at)
  call (on_header_value at) this context = quiet context (header_value_data_cb malloc this at)
  call (on_headers_complete major minor method) this context =
      quiet context (headers_complete_cb malloc this major minor method)
  call (on_body at) this context = quiet context (body_data_cb malloc this at)
  call on_message_complete this context = do
    (tmp, this') ← message_complete_cb malloc garbage stale this
    let (context', retval) = handler context tmp
    ok (this', context', retval)
  call on_other this context = ok (this, context, 0)

  -- Callbacks in a row; llhttp makes no more of them after one that does not return 0.
  unfoldable pub feed : List Callback → HttpParser → S → Run (HttpParser × S × ℕ)
  unfolding call
  feed [] this context = ok (this, context, 0)
  feed (c ∷ cs) this context = do
    (this', context', answer) ← call c this context
    if answer == 0 then feed cs this' context' else ok (this', context', answer)
