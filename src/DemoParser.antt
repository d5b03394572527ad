-- ===== src/DemoParser.antt =====
-- http_in_c/demo_protocol/demo_parser.c: the parser of the demo protocol, one byte at a time.
-- A `char` is its byte, 0 to 255: on the negative ones `isprint` is false, as in glibc's C locale. The
-- address of the `int ch` is that of its lowest byte. `on_message_complete` is called at most once in
-- a call of `DemoParser_consume`; the call is the model's output, and what it does is the reader's
-- part. A lock-step of tags (CHECK_TAG) is left out.
pub mod States
pub mod Safe
pub mod Text
pub mod Roundtrip
mod Tests
use c_http.Prelude.{
  ℕ, ◌+◌, ◌-◌, List, [], ◌∷◌, Option, none, some, Bool, true, false, Run, ok, fault, assert_failed,
  out_of_bounds, ◌>>=◌, if◌then◌else◌, ◌==◌, ltb, leb, ◌&&◌, length,
}
use c_http.Prelude.Int.{ℤ, pos, negsuc}
use c_http.IoBuffer
use c_http.IoBuffer.{IoBuffer}
use c_http.BufferChain.{Malloc, append, compact}
use c_http.DemoMessage.{DemoMessage, demo_message_new, set_is_request, set_lrc}

-- `enum State`
pub data State : Type 0 where
  idle soh_wait opcode stx_wait body ext_wait lrc eot_wait error_recovery : State

-- `struct DemoParser_s`, less the context and the function pointers.
pub record DemoParser : Type 0 where
  pub state : State
  pub current : Option DemoMessage

unfoldable pub demo_parser_new : DemoParser
demo_parser_new = record { state = idle; current = none }

-- `isprint`
abbrev pub isprint : ℕ → Bool
isprint ch = leb 32 ch && leb ch 126

-- The arguments of `on_message_complete`: a message with code 0, or `NULL` with an error code.
pub data Event : Type 0 where
  completed : DemoMessage → Event
  parse_error : ℤ → Event

-- DemoParserErr_expected_stx, -12
abbrev pub err_expected_stx : ℤ
err_expected_stx = negsuc 11

-- What a turn of the loop does: it goes on, or the function returns after the callback.
pub data Turn : Type 0 where
  go : DemoParser → Turn
  return_code : DemoParser → ℤ → Event → Turn

-- A read through `m_current_message_ptr`.
abbrev pub current_message : DemoParser → Run DemoMessage
current_message this = elim this.current [ none ↦ fault out_of_bounds | some m ↦ ok m ]

abbrev pub on_idle : DemoParser → ℕ → Turn
on_idle this ch =
    let m : DemoMessage = elim this.current [ none ↦ demo_message_new | some m ↦ m ] in
    go (record { state = (if ch == 1 then opcode else this.state); current = some m })

abbrev pub on_opcode : DemoParser → ℕ → Run Turn
on_opcode this ch =
    if if ch == 82 then true else ch == 81
    then (do
      m ← current_message this
      ok (go (record { state = stx_wait; current = some (set_is_request m (ch == 81)) })))
    else ok (go (record this { state = error_recovery }))

abbrev pub on_stx_wait : DemoParser → ℕ → Turn
on_stx_wait this ch = go (record this { state = (if ch == 2 then body else error_recovery) })

-- The compacted copy of the body is made and freed at every byte.
pub on_body : Malloc → DemoParser → ℕ → Run Turn
on_body malloc this ch =
    if isprint ch
    then (do
      m ← current_message this
      bc ← append malloc m.body (ch ∷ [])
      iobtmp ← compact malloc bc
      ok (go (record this { current = some (record m { body = bc }) })))
    else ok (go (record this { state = (if ch == 3 then lrc else error_recovery) }))

abbrev pub on_lrc : DemoParser → ℕ → Run Turn
on_lrc this ch = do
  m ← current_message this
  ok (
      return_code (record { state = idle; current = some demo_message_new }) (pos 0)
        (completed (set_lrc m ch)))

-- `last` is `i == length - 1`. The message is disposed of, which reads through its pointer.
abbrev pub on_error_recovery : DemoParser → ℕ → Bool → Run Turn
on_error_recovery this ch last =
    if (ch == 1) && (if last then false else true)
    then ok (go (record this { state = opcode }))
    else if last
    then (do
      m ← current_message this
      ok (
          return_code (record this { current = some demo_message_new }) err_expected_stx
            (parse_error err_expected_stx)))
    else ok (go this)

-- One turn of the loop of `DemoParser_consume`.
unfoldable pub turn : Malloc → DemoParser → ℕ → Bool → Run Turn
unfolding on_body
turn malloc this ch last = elim this.state [
  | idle ↦ ok (on_idle this ch)
  | opcode ↦ on_opcode this ch
  | stx_wait ↦ ok (on_stx_wait this ch)
  | body ↦ on_body malloc this ch
  | lrc ↦ on_lrc this ch
  | eot_wait ↦ ok (go this)
  | error_recovery ↦ on_error_recovery this ch last
  | _ ↦ fault assert_failed
]

-- How the loop ends: the parser, the number of bytes to consume, and the return.
pub record Outcome : Type 0 where
  pub parser : DemoParser
  pub consumed : ℕ
  pub code : ℤ
  pub event : Option Event

-- The turns from index `i` on; the bytes are those of `charbuf[i]` on.
unfoldable pub consume_loop : Malloc → (len : ℕ) → DemoParser → (i : ℕ) → List ℕ → Run Outcome
unfolding turn
consume_loop malloc len this i [] =
    ok (record { parser = this; consumed = len; code = pos 0; event = none })
consume_loop malloc len this i (ch ∷ bytes) = do
  t ← turn malloc this ch (i == len - 1)
  elim t [
    | go this' ↦ consume_loop malloc len this' (i + 1) bytes
    | return_code this' code event ↦
        ok (record { parser = this'; consumed = i + 1; code = code; event = some event })
  ]

-- `DemoParser_consume`: how the loop ended, and the buffer after `IOBuffer_consume`.
unfoldable pub demo_parser_consume : Malloc → DemoParser → IoBuffer → Run (Outcome × IoBuffer)
unfolding consume_loop
demo_parser_consume malloc this iobuffer = do
  bytes ← IoBuffer.read_data iobuffer
  out ← consume_loop malloc (IoBuffer.data_len iobuffer) this 0 bytes
  iobuffer' ← IoBuffer.consume iobuffer out.consumed
  ok (out, iobuffer')
