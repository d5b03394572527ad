-- ===== src/Message/Tests.antt =====
-- A request "GET / HTTP/1.1" with one header and no body.
use c_http.Prelude.{
  ℕ, ◌≡◌, refl, List, [], ◌∷◌, ◌++◌, none, some, true, ok, arith, replicate, length-replicate,
}
use c_http.IoBuffer.{IoBuffer}
use c_http.IoBuffer.Laws as Io
use c_http.IoBuffer.Laws.{bytes}
use c_http.BufferChain.{Malloc}
use c_http.BufferChain.Laws.{Gives}
use c_http.Cbuffer.{Cbuffer}
use c_http.Cbuffer.Laws.{Terminated}
use c_http.KvPair.{KvPair}
use c_http.Message.{Message, message_serialize}
use c_http.Prelude.Int.{pos}
use c_http.Decimal.{decimal, digits}
use c_http.Message.{message_get_header_value}
use c_http.Message.Buffers.{content_length, message_set_content_length}
use c_http.Message.Buffers.ContentLength.{message_set_content_length-get}
use c_http.Message.Serialize.{line_text, message_serialize-text}

abbrev zeros : Malloc
zeros n = replicate n 0

zeros-Gives : Gives zeros
zeros-Gives n = length-replicate n 0

abbrev get : ℕ → List ℕ
get method = 71 ∷ 69 ∷ 84 ∷ []

abbrev slash : Cbuffer
slash = record { mem = 47 ∷ 0 ∷ []; m_length = 1; m_capacity = 2; m_size = 1 }

slash-Terminated : Terminated slash
slash-Terminated = record { sized = refl; zero_at = refl }

abbrev host : KvPair
host = record { label = 72 ∷ 0 ∷ []; label_len = 1; value = 120 ∷ 0 ∷ []; value_len = 1 }

abbrev request : Message
request = record {
  body = none;
  headers = host ∷ [];
  major_vers = 1;
  minor_vers = 1;
  is_request = true;
  status_code = 0;
  reason = none;
  method = 1;
  target = some slash;
}

message_serialize-text_example :
    (b : IoBuffer) × (message_serialize get zeros request ≡ ok b)
    × Io.IsValid b
    × (bytes b
        ≡ (line_text get request ++ (72 ∷ 58 ∷ 32 ∷ 120 ∷ 13 ∷ 10 ∷ [])) ++ 13 ∷ 10 ∷ [] ++ [])
message_serialize-text_example =
    message_serialize-text get zeros request zeros-Gives slash-Terminated tt

message_set_content_length-get_example :
    (m : Message) × (message_set_content_length request (pos 120) ≡ ok m)
    × (message_get_header_value m content_length ≡ some (49 ∷ 50 ∷ 48 ∷ 0 ∷ []))
unfolding decimal digits
message_set_content_length-get_example =
    message_set_content_length-get request 120 content_length (omega arith)
