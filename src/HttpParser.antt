-- ===== src/HttpParser.antt =====
-- http_in_c/http/parser.c: the callbacks that build a message while llhttp, the vendored parser, reads
-- the bytes. llhttp itself is not modelled: what the
-- code reads of its state is an argument. `malloc` succeeds and is as in
-- http_in_c/common/cbuffer.c; `garbage` and `stale` are what it leaves in the fields that `Message_new`
-- does not set. The four string buffers are never `NULL` after `http_parser_new`, and freeing is left
-- out, as are `m_started`, which nothing reads, and the getters of llhttp's error.
pub mod Feed
pub mod Step
pub mod Lines
pub mod Pieces
pub mod Sections
pub mod Phases
pub mod Request
pub mod Response
pub mod Reprint
pub mod Stream
pub mod Limits
mod Tests
use c_http.Prelude.{
  ℕ, List, [], ◌∷◌, Option, none, some, Run, ok, fault, assert_failed, out_of_bounds, ◌>>=◌, Bool,
  true, false, not, ◌||◌, ◌==◌, if◌then◌else◌,
}
use c_http.BufferChain
use c_http.BufferChain.{BufferChain, empty_chain}
use c_http.Cbuffer
use c_http.Cbuffer.{Cbuffer}
use c_http.Message.{
  Malloc, Message, message_new, message_set_is_request, message_set_status, message_add_header_cbuf,
  message_set_version, message_set_method, message_set_body,
}
use c_http.Message.Buffers.{message_set_reason_cbuffer, message_set_target_cbuffer}
use c_http.Prelude.{slice}

-- `kHEADER_STATE_NOTHING`, `kHEADER_STATE_FIELD` and `kHEADER_STATE_VALUE`
abbrev pub nothing_state : ℕ
nothing_state = 10

abbrev pub field_state : ℕ
field_state = 11

abbrev pub value_state : ℕ
value_state = 12

-- `struct http_parser_s`, what the callbacks use of it.
pub record HttpParser : Type 0 where
  pub current_message_ptr : Option Message
  pub m_header_state : ℕ
  pub m_url_buf : Cbuffer
  pub m_status_buf : Cbuffer
  pub m_name_buf : Cbuffer
  pub m_value_buf : Cbuffer

-- `Cbuffer_data` and `Cbuffer_size` as one list of bytes.
abbrev pub cbuf_bytes : Cbuffer → List ℕ
cbuf_bytes cbuf = slice 0 (Cbuffer.size cbuf) cbuf.mem

-- Reading through `current_message_ptr`
pub current_message : HttpParser → Run Message
current_message this = elim this.current_message_ptr [
  | none ↦ fault out_of_bounds
  | some mref ↦ ok mref
]

-- `Message_add_header_cbuf` and the two `Cbuffer_clear`, if there is a name.
pub flush_header : HttpParser → Run HttpParser
flush_header this =
    if not (Cbuffer.size this.m_name_buf == 0)
    then (do
      mref ← current_message this
      name ← Cbuffer.clear this.m_name_buf
      value ← Cbuffer.clear this.m_value_buf
      let mref' =
          message_add_header_cbuf mref (cbuf_bytes this.m_name_buf) (cbuf_bytes this.m_value_buf)
      ok (record this { current_message_ptr = some mref'; m_name_buf = name; m_value_buf = value }))
    else ok this

-- `http_parser_initialize`, besides the set-up of llhttp. The message that it makes with `Message_new`
-- is lost at once.
pub http_parser_initialize : HttpParser → Run HttpParser
http_parser_initialize this = do
  status_buf ← Cbuffer.clear this.m_status_buf
  url_buf ← Cbuffer.clear this.m_url_buf
  name_buf ← Cbuffer.clear this.m_name_buf
  value_buf ← Cbuffer.clear this.m_value_buf
  ok (record {
    current_message_ptr = none;
    m_header_state = nothing_state;
    m_url_buf = url_buf;
    m_status_buf = status_buf;
    m_name_buf = name_buf;
    m_value_buf = value_buf;
  })

pub http_parser_new : Malloc → Run HttpParser
unfolding http_parser_initialize
http_parser_new malloc = do
  status_buf ← Cbuffer.new malloc
  url_buf ← Cbuffer.new malloc
  name_buf ← Cbuffer.new malloc
  value_buf ← Cbuffer.new malloc
  http_parser_initialize (record {
    current_message_ptr = none;
    m_header_state = nothing_state;
    m_url_buf = url_buf;
    m_status_buf = status_buf;
    m_name_buf = name_buf;
    m_value_buf = value_buf;
  })

module _ (malloc : Malloc) where
  module _ (garbage : ℕ × ℕ) (stale : Bool) where
    -- The header state stays what the last message left.
    pub message_begin_cb : HttpParser → Run HttpParser
    message_begin_cb this = do
      mref ← message_new malloc garbage stale
      status_buf ← Cbuffer.clear this.m_status_buf
      url_buf ← Cbuffer.clear this.m_url_buf
      name_buf ← Cbuffer.clear this.m_name_buf
      value_buf ← Cbuffer.clear this.m_value_buf
      ok (record this {
        current_message_ptr = some mref;
        m_status_buf = status_buf;
        m_url_buf = url_buf;
        m_name_buf = name_buf;
        m_value_buf = value_buf;
      })

    -- The message for the handler, and the parser with a new one.
    pub message_complete_cb : HttpParser → Run (Message × HttpParser)
    message_complete_cb this = do
      tmp ← current_message this
      mref ← message_new malloc garbage stale
      ok (tmp, record this { current_message_ptr = some mref })

  pub url_data_cb : HttpParser → List ℕ → Run HttpParser
  url_data_cb this at = do
    mref ← current_message this
    url_buf ← Cbuffer.append malloc this.m_url_buf at
    ok (record this {
      current_message_ptr = some (message_set_is_request mref true);
      m_url_buf = url_buf;
    })

  pub status_data_cb : HttpParser → ℕ → List ℕ → Run HttpParser
  status_data_cb this status_code at = do
    mref ← current_message this
    status_buf ← Cbuffer.append malloc this.m_status_buf at
    mref' ←
        message_set_reason_cbuffer malloc
          (message_set_status (message_set_is_request mref false) status_code) status_buf
    ok (record this { current_message_ptr = some mref'; m_status_buf = status_buf })

  -- The bytes of a label: those of a new line flush the line before.
  pub header_field_data_cb : HttpParser → List ℕ → Run HttpParser
  header_field_data_cb this at =
      let state = this.m_header_state in
      if (state == 0) || (state == nothing_state) || (state == value_state)
      then (do
        flushed ← flush_header this
        name_buf ← Cbuffer.append malloc flushed.m_name_buf at
        ok (record flushed { m_name_buf = name_buf; m_header_state = field_state }))
      else if state == field_state
      then (do
        name_buf ← Cbuffer.append malloc this.m_name_buf at
        ok (record this { m_name_buf = name_buf; m_header_state = field_state }))
      else fault assert_failed

  pub header_value_data_cb : HttpParser → List ℕ → Run HttpParser
  header_value_data_cb this at =
      let state = this.m_header_state in
      if state == field_state
      then (do
        cleared ← Cbuffer.clear this.m_value_buf
        value_buf ← Cbuffer.append malloc cleared at
        ok (record this { m_value_buf = value_buf; m_header_state = value_state }))
      else if state == value_state
      then (do
        value_buf ← Cbuffer.append malloc this.m_value_buf at
        ok (record this { m_value_buf = value_buf; m_header_state = value_state }))
      else fault assert_failed

  pub headers_complete_cb : HttpParser → (http_major http_minor method : ℕ) → Run HttpParser
  headers_complete_cb this http_major http_minor method = do
    flushed ← flush_header this
    mref ← current_message flushed
    let versioned = message_set_version mref http_major http_minor
    if Cbuffer.size flushed.m_url_buf == 0
        then ok (record flushed { current_message_ptr = some versioned })
        else (do
          mref' ←
              message_set_target_cbuffer malloc (message_set_method versioned method)
                flushed.m_url_buf
          ok (record flushed { current_message_ptr = some mref' }))

  pub body_data_cb : HttpParser → List ℕ → Run HttpParser
  body_data_cb this at = do
    mref ← current_message this
    let chain_ptr : BufferChain = elim mref.body [ none ↦ empty_chain | some bc ↦ bc ]
    chain_ptr' ← BufferChain.append malloc chain_ptr at
    ok (record this { current_message_ptr = some (message_set_body mref chain_ptr') })
