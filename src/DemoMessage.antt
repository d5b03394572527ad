-- ===== src/DemoMessage.antt =====
-- http_in_c/demo_protocol/demo_message.c: a message of the demo protocol, and its bytes.
-- `BufferChain_new` has no `return`; the message's body is the empty chain that it builds.
pub mod Serialize
use c_http.Prelude.{
  ℕ, List, [], ◌∷◌, Option, none, some, Bool, true, false, Run, ◌>>=◌, if◌then◌else◌,
}
use c_http.IoBuffer
use c_http.IoBuffer.{IoBuffer}
use c_http.BufferChain.{
  BufferChain, Malloc, empty_chain, append, append_io_buffer, append_bufferchain, compact,
}

-- `struct DemoMessage_s`; `opcode` is whether it is a request, `lrc` is `none` until it is set.
pub record DemoMessage : Type 0 where
  pub opcode : Bool
  pub lrc : Option ℕ
  pub body : BufferChain

unfoldable pub demo_message_new : DemoMessage
demo_message_new = record { opcode = false; lrc = none; body = empty_chain }

abbrev pub get_is_request : DemoMessage → Bool
get_is_request this = this.opcode

abbrev pub set_is_request : DemoMessage → Bool → DemoMessage
set_is_request this yn = record this { opcode = yn }

-- `lrc` is a `char` and the field a `uint8_t`: the byte stays the same.
abbrev pub set_lrc : DemoMessage → ℕ → DemoMessage
set_lrc this lrc = record this { lrc = some lrc }

abbrev pub get_body : DemoMessage → BufferChain
get_body this = this.body

abbrev pub set_body : DemoMessage → BufferChain → DemoMessage
set_body this bc = record this { body = bc }

-- 'Q' or 'R'
abbrev pub opcode_byte : Bool → ℕ
opcode_byte yn = if yn then 81 else 82

pub demo_message_serialize : Malloc → DemoMessage → Run IoBuffer
demo_message_serialize malloc mref = do
  b ← IoBuffer.from_buf (malloc 7) (1 ∷ opcode_byte mref.opcode ∷ 2 ∷ [])
  bc ← append_io_buffer malloc empty_chain b
  bc' ← append_bufferchain malloc bc mref.body
  bc'' ← append malloc bc' (3 ∷ 76 ∷ 4 ∷ [])
  compact malloc bc''
