-- ===== src/HttpParser/Step.antt =====
-- What each callback of a message with short pieces does.
use c_http.Prelude.{
  ℕ, ◌+◌, ◌≡◌, ◌≤◌, ◌<◌, refl, List, [], ◌∷◌, ◌++◌, none, some, Bool, true, ok, length, ◌⊎◌,
}
use c_http.Cbuffer.{common_strategy}
use c_http.Cbuffer.Laws.{Gives, IsValid}
use c_http.Cbuffer.Holds.{Holds, new-Holds, clear-Holds, append-piece}
use c_http.Message.{Malloc, Message, message_set_is_request, message_add_header_cbuf}
use c_http.HttpParser.{
  HttpParser, http_parser_initialize, nothing_state, value_state, current_message, message_begin_cb,
  message_complete_cb, url_data_cb, http_parser_new,
}
use c_http.Message.New.{Blank, message_new-Blank}

-- The text in the four buffers.
pub record Texts : Type 0 where
  pub url : List ℕ
  pub status : List ℕ
  pub name : List ℕ
  pub value : List ℕ

abbrev pub no_texts : Texts
no_texts = record { url = []; status = []; name = []; value = [] }

-- A parser that builds the message `m`, in the header state `st`, with the given text in its buffers.
pub record Reads (p : HttpParser) (st : ℕ) (m : Message) (t : Texts) : Type 0 where
  pub message : p.current_message_ptr ≡ some m
  pub state : p.m_header_state ≡ st
  pub url_buf : Holds p.m_url_buf t.url
  pub status_buf : Holds p.m_status_buf t.status
  pub name_buf : Holds p.m_name_buf t.name
  pub value_buf : Holds p.m_value_buf t.value

-- A parser at the start or between two messages.
pub record Idle (p : HttpParser) (st : ℕ) : Type 0 where
  pub state : p.m_header_state ≡ st
  pub url_buf : IsValid p.m_url_buf
  pub status_buf : IsValid p.m_status_buf
  pub name_buf : IsValid p.m_name_buf
  pub value_buf : IsValid p.m_value_buf

-- The states in which a label starts a new header line.
abbrev pub Opens : ℕ → Type 0
Opens st = (st ≡ nothing_state) ⊎ (st ≡ value_state)

-- The message with the line that the buffers hold, if they hold one.
abbrev pub settled : Message → (name value : List ℕ) → Message
settled m [] value = m
settled m (ch ∷ name) value = message_add_header_cbuf m (ch ∷ name) value

pub Reads-Idle : {p : HttpParser} {st : ℕ} {m : Message} {t : Texts} → Reads p st m t → Idle p st
Reads-Idle r = record {
  state = r.state;
  url_buf = r.url_buf.valid;
  status_buf = r.status_buf.valid;
  name_buf = r.name_buf.valid;
  value_buf = r.value_buf.valid;
}

pub current_message-Reads :
    {p : HttpParser} {st : ℕ} {m : Message} {t : Texts} → Reads p st m t → current_message p ≡ ok m
unfolding current_message
current_message-Reads r = rw r.message refl

module _ (malloc : Malloc) (gives : Gives malloc) where
  -- `http_parser_new` returns a parser with empty buffers that is ready for a message.
  pub http_parser_new-Idle :
      (p : HttpParser) × (http_parser_new malloc ≡ ok p) × Idle p nothing_state
  unfolding http_parser_new http_parser_initialize
  http_parser_new-Idle =
      let (c, made, h, cap) = new-Holds malloc gives in
      let (c', cleared, h') = clear-Holds c h.valid in
      (
        record {
          current_message_ptr = none;
          m_header_state = nothing_state;
          m_url_buf = c';
          m_status_buf = c';
          m_name_buf = c';
          m_value_buf = c';
        },
        rw (made) (rw (cleared) refl),
        record {
          state = refl;
          url_buf = h'.valid;
          status_buf = h'.valid;
          name_buf = h'.valid;
          value_buf = h'.valid;
        },
      )

  pub message_begin_cb-Reads :
      (garbage : ℕ × ℕ) (stale : Bool) (p : HttpParser) {st : ℕ}
      → Idle p st
      → (p' : HttpParser) × (m : Message) × (message_begin_cb malloc garbage stale p ≡ ok p')
        × Reads p' st m no_texts
        × Blank m
  unfolding message_begin_cb
  message_begin_cb-Reads garbage stale p i =
      let (m, made, blank) = message_new-Blank malloc gives garbage stale in
      let (s, done_s, hs) = clear-Holds p.m_status_buf i.status_buf in
      let (u, done_u, hu) = clear-Holds p.m_url_buf i.url_buf in
      let (n, done_n, hn) = clear-Holds p.m_name_buf i.name_buf in
      let (v, done_v, hv) = clear-Holds p.m_value_buf i.value_buf in
      (
        record p {
          current_message_ptr = some m;
          m_status_buf = s;
          m_url_buf = u;
          m_name_buf = n;
          m_value_buf = v;
        },
        m,
        rw (made, done_s, done_u, done_n, done_v) refl,
        record {
          message = refl;
          state = i.state;
          url_buf = hu;
          status_buf = hs;
          name_buf = hn;
          value_buf = hv;
        },
        blank,
      )

  pub message_complete_cb-Idle :
      (garbage : ℕ × ℕ) (stale : Bool) (p : HttpParser) {st : ℕ} (m : Message) {t : Texts}
      → Reads p st m t
      → (p' : HttpParser) × (message_complete_cb malloc garbage stale p ≡ ok (m, p')) × Idle p' st
  unfolding message_complete_cb
  message_complete_cb-Idle garbage stale p m r =
      let (m', made, blank) = message_new-Blank malloc gives garbage stale in
      (
        record p { current_message_ptr = some m' },
        rw (current_message-Reads r, made) refl,
        record {
          state = r.state;
          url_buf = r.url_buf.valid;
          status_buf = r.status_buf.valid;
          name_buf = r.name_buf.valid;
          value_buf = r.value_buf.valid;
        },
      )

  pub url_data_cb-Reads :
      (p : HttpParser) {st : ℕ} {m : Message} {t : Texts} (at : List ℕ)
      → Reads p st m t
      → length at ≤ common_strategy.min_size
      → length t.url + length at < common_strategy.max_size
      → (p' : HttpParser) × (url_data_cb malloc p at ≡ ok p')
        × Reads p' st (message_set_is_request m true) (record t { url = t.url ++ at })
  unfolding url_data_cb
  url_data_cb-Reads p {m} {t} at r short room =
      let (u, done, h) = append-piece malloc p.m_url_buf t.url at gives r.url_buf short room in
      (
        record p { current_message_ptr = some (message_set_is_request m true); m_url_buf = u },
        rw (current_message-Reads r, done) refl,
        record {
          message = refl;
          state = r.state;
          url_buf = h;
          status_buf = r.status_buf;
          name_buf = r.name_buf;
          value_buf = r.value_buf;
        },
      )
