-- ===== src/DemoParser/Tests.antt =====
-- Small frames.
use c_http.Prelude.{
  ◌≡◌, refl, [], ◌∷◌, none, some, true, false, ok, arith, drop, replicate, length-replicate,
}
use c_http.Prelude.Int.{pos}
use c_http.IoBuffer.{IoBuffer}
use c_http.IoBuffer.Laws as Io
use c_http.IoBuffer.Laws.{bytes}
use c_http.BufferChain.{Malloc}
use c_http.BufferChain.Laws
use c_http.BufferChain.Laws.{Gives, contents}
use c_http.DemoMessage.{DemoMessage, demo_message_serialize}
use c_http.DemoMessage.Serialize.{frame}
use c_http.DemoParser.{idle, error_recovery, demo_parser_new, Outcome, demo_parser_consume}
use c_http.DemoParser.Safe.{Finished, demo_parser_consume-safe}
use c_http.DemoParser.States.{new-IsValid}
use c_http.DemoParser.Roundtrip.{demo_parser_consume-serialize, demo_parser_consume-stale_text}
use c_http.DemoParser.Text.{Delivered}

abbrev zeros : Malloc
zeros n = replicate n 0

zeros-Gives : Gives zeros
zeros-Gives n = length-replicate n 0

-- The text "Hi".
abbrev hi : IoBuffer
hi = record {
  mem = 72 ∷ 105 ∷ 0 ∷ [];
  char_p = 0;
  allocated_capacity = 3;
  buffer_capacity = 2;
  buffer_ptr = 0;
  buffer_length = 2;
  buffer_remaining = 2;
}

abbrev request : DemoMessage
request = record { opcode = true; lrc = none; body = record { chain = hi ∷ []; size = pos 2 } }

hi-IsValid : Io.IsValid hi
hi-IsValid = record { block = refl; allocated = refl; inside = omega arith }

request-IsValid : Laws.IsValid request.body
request-IsValid = record { filled = (hi-IsValid, omega arith, tt); counted = refl; starts = refl }

-- The frame of a response "No".
abbrev arrived : IoBuffer
arrived = record {
  mem = 1 ∷ 82 ∷ 2 ∷ 78 ∷ 111 ∷ 3 ∷ 76 ∷ 4 ∷ 0 ∷ [];
  char_p = 0;
  allocated_capacity = 9;
  buffer_capacity = 8;
  buffer_ptr = 0;
  buffer_length = 8;
  buffer_remaining = 8;
}

arrived-IsValid : Io.IsValid arrived
arrived-IsValid = record { block = refl; allocated = refl; inside = omega arith }

demo_parser_consume-safe_example :
    (out : Outcome) × (b' : IoBuffer) × (demo_parser_consume zeros demo_parser_new arrived
      ≡ ok (out, b'))
    × Finished 8 0 out
    × Io.IsValid b'
    × (bytes b' ≡ drop out.consumed (frame false (78 ∷ 111 ∷ [])))
demo_parser_consume-safe_example =
    demo_parser_consume-safe zeros demo_parser_new arrived zeros-Gives new-IsValid arrived-IsValid

demo_parser_consume-serialize_example :
    (b : IoBuffer) × (out : Outcome) × (b' : IoBuffer) × (demo_message_serialize zeros request
      ≡ ok b)
    × (demo_parser_consume zeros (record { state = idle; current = none }) b ≡ ok (out, b'))
    × Delivered true (72 ∷ 105 ∷ []) 7 out
    × (bytes b' ≡ 4 ∷ [])
demo_parser_consume-serialize_example =
    demo_parser_consume-serialize zeros request none zeros-Gives request-IsValid (refl, (refl, tt))
      tt

-- The broken message "Hi" is delivered in front of "No".
demo_parser_consume-stale_text_example :
    (out : Outcome) × (b' : IoBuffer) × (demo_parser_consume zeros
        (record { state = error_recovery; current = some request })
        arrived
      ≡ ok (out, b'))
    × Delivered false (72 ∷ 105 ∷ 78 ∷ 111 ∷ []) 7 out
    × (bytes b' ≡ 4 ∷ [])
demo_parser_consume-stale_text_example =
    demo_parser_consume-stale_text zeros request arrived false (78 ∷ 111 ∷ []) zeros-Gives
      request-IsValid arrived-IsValid refl (refl, (refl, tt))
