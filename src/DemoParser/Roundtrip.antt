-- ===== src/DemoParser/Roundtrip.antt =====
-- What the parser makes of the bytes of a whole message.
use c_http.Prelude.{
  ℕ, ◌+◌, ◌≡◌, refl, List, [], ◌∷◌, ◌++◌, Option, some, Bool, ok, arith, length, drop, ap, ◌∙◌,
  length-append, length-drop, none,
}
use native.Mathlib.Numerals.{add-one}
use c_http.IoBuffer.{IoBuffer}
use c_http.IoBuffer.Laws as Io
use c_http.IoBuffer.Laws.{bytes, length-bytes, read_data-bytes}
use c_http.IoBuffer.Moves.{consume_lem, consume-start}
use c_http.BufferChain.{Malloc}
use c_http.BufferChain.Laws
use c_http.BufferChain.Laws.{Gives, contents}
use c_http.DemoMessage.{DemoMessage, demo_message_serialize}
use c_http.DemoMessage.Serialize.{frame, demo_message_serialize-frame}
use c_http.Prelude.Int.{pos}
use c_http.DemoParser.{
  turn, idle, error_recovery, DemoParser, Outcome, consume_loop, demo_parser_consume,
}
use c_http.DemoParser.Text.{AllPrintable, Delivered, NoText, idle-loop, error-loop}

drop-cons : (n m x : ℕ) (l rest : List ℕ) → n ≡ m + 1 → drop m l ≡ rest → drop n (x ∷ l) ≡ rest
drop-cons n m x l rest e h = rw (e, add-one m) h

drop-text :
    (text : List ℕ) (n : ℕ) → n ≡ length text + 2 → drop n (text ++ 3 ∷ 76 ∷ 4 ∷ []) ≡ 4 ∷ []
drop-text [] n e =
    drop-cons n 1 3 (76 ∷ 4 ∷ []) (4 ∷ []) (omega arith)
      (drop-cons 1 0 76 (4 ∷ []) (4 ∷ []) (omega arith) refl)
drop-text (ch ∷ text) n e =
    drop-cons n (length text + 2) ch (text ++ 3 ∷ 76 ∷ 4 ∷ []) (4 ∷ []) (omega arith)
      (drop-text text (length text + 2) refl)

drop-frame :
    (yn : Bool) (text : List ℕ) (n : ℕ) → n ≡ length text + 5 → drop n (frame yn text) ≡ 4 ∷ []
drop-frame yn text n e =
    let k = length text in
    drop-cons n (k + 4) _ _ _ (omega arith) (
      drop-cons (k + 4) (k + 3) _ _ _ (omega arith)
        (drop-cons (k + 3) (k + 2) _ _ _ (omega arith) (drop-text text (k + 2) refl)))

pub length-frame : (yn : Bool) (text : List ℕ) → length (frame yn text) ≡ length text + 6
length-frame yn text = omega (arith, length-append text (3 ∷ 76 ∷ 4 ∷ []))

-- The loop of `consume` on a whole buffer, and what is left in it.
consume-Delivered :
    (malloc : Malloc) (p : DemoParser) (b : IoBuffer) (yn : Bool) (text got : List ℕ)
    → Io.IsValid b
    → bytes b ≡ frame yn text
    → (out : Outcome) × (consume_loop malloc b.buffer_remaining p 0 (frame yn text) ≡ ok out)
      × Delivered yn got (length text + 5) out
    → (out : Outcome) × (b' : IoBuffer) × (demo_parser_consume malloc p b ≡ ok (out, b'))
      × Delivered yn got (length text + 5) out
      × (bytes b' ≡ 4 ∷ [])
      × Io.IsValid b'
      × (b'.buffer_capacity ≡ b.buffer_capacity)
unfolding demo_parser_consume
consume-Delivered malloc p b yn text got vb e (out, done, d) =
    let (b', consumed, vb', rest) =
      consume_lem b out.consumed vb
        (omega (arith, d.consumed, length-frame yn text, length-bytes b vb, ap length e)) in
    (
      out,
      b',
      rw (read_data-bytes b vb, e, done, consumed) refl,
      d,
      rest ∙ rw e (drop-frame yn text out.consumed d.consumed),
      vb',
      (consume-start b out.consumed consumed).0,
    )

-- The bytes of a frame in a buffer, to a parser that is between two messages.
pub demo_parser_consume-frame :
    (malloc : Malloc) (o : Option DemoMessage) (b : IoBuffer) (yn : Bool) (text : List ℕ)
    → Gives malloc
    → NoText o
    → AllPrintable text
    → Io.IsValid b
    → bytes b ≡ frame yn text
    → (out : Outcome) × (b' : IoBuffer) × (demo_parser_consume malloc
          (record { state = idle; current = o })
          b
        ≡ ok (out, b'))
      × Delivered yn text (length text + 5) out
      × (bytes b' ≡ 4 ∷ [])
      × Io.IsValid b'
      × (b'.buffer_capacity ≡ b.buffer_capacity)
demo_parser_consume-frame malloc o b yn text gives none_yet pr vb e =
    consume-Delivered malloc (record { state = idle; current = o }) b yn text text vb e
      (idle-loop malloc yn text b.buffer_remaining o gives none_yet pr)

-- EOT, to a parser that is between two messages: the buffer is empty again.
pub demo_parser_consume-eot :
    (malloc : Malloc) (m : DemoMessage) (b : IoBuffer)
    → Io.IsValid b
    → bytes b ≡ 4 ∷ []
    → (b' : IoBuffer) × (demo_parser_consume malloc (record { state = idle; current = some m }) b
        ≡ ok (
          record {
            parser = record { state = idle; current = some m };
            consumed = b.buffer_remaining;
            code = pos 0;
            event = none;
          },
          b',
        ))
      × Io.IsValid b'
      × (b'.buffer_remaining ≡ 0)
      × (b'.buffer_ptr ≡ 0)
      × (b'.buffer_capacity ≡ b.buffer_capacity)
unfolding demo_parser_consume consume_loop turn
demo_parser_consume-eot malloc m b vb e =
    let (b', consumed, vb', rest) = consume_lem b b.buffer_remaining vb (omega arith) in
    let (cap, start) = consume-start b b.buffer_remaining consumed in
    let left : b'.buffer_remaining ≡ 0 = omega (
      arith,
      length-bytes b' vb',
      ap length rest,
      length-drop b.buffer_remaining (bytes b),
      length-bytes b vb,
    ) in
    (b', rw (read_data-bytes b vb, e, consumed) refl, vb', left, start left, cap)

-- A parser that is between two messages, given the bytes that `demo_message_serialize` makes of a
-- message with a valid, printable body, delivers a message with the same opcode and the same
-- text, consumes all the bytes but EOT, and is again between two messages.
pub demo_parser_consume-serialize :
    (malloc : Malloc) (m : DemoMessage) (o : Option DemoMessage)
    → Gives malloc
    → Laws.IsValid m.body
    → AllPrintable (contents m.body.chain)
    → NoText o
    → (b : IoBuffer) × (out : Outcome) × (b' : IoBuffer) × (demo_message_serialize malloc m ≡ ok b)
      × (demo_parser_consume malloc (record { state = idle; current = o }) b ≡ ok (out, b'))
      × Delivered m.opcode (contents m.body.chain) (length (contents m.body.chain) + 5) out
      × (bytes b' ≡ 4 ∷ [])
demo_parser_consume-serialize malloc m o gives v pr none_yet =
    let text = contents m.body.chain in
    let (b, made, vb, e) = demo_message_serialize-frame malloc m gives v in
    let (out, b', done, d, left, vb', cap) =
      demo_parser_consume-frame malloc o b m.opcode text gives none_yet pr vb e in
    (b, out, b', made, done, d, left)

-- After a parse error the text of the broken message is not thrown away: from STATE_ERROR_RECOVERY
-- with a message whose body is a valid chain, a valid buffer that holds exactly the frame of a
-- printable text gives a message with the old text in front of that of the frame, and EOT stays in
-- the buffer.
pub demo_parser_consume-stale_text :
    (malloc : Malloc) (m : DemoMessage) (b : IoBuffer) (yn : Bool) (text : List ℕ)
    → Gives malloc
    → Laws.IsValid m.body
    → Io.IsValid b
    → bytes b ≡ frame yn text
    → AllPrintable text
    → (out : Outcome) × (b' : IoBuffer) × (demo_parser_consume malloc
          (record { state = error_recovery; current = some m })
          b
        ≡ ok (out, b'))
      × Delivered yn (contents m.body.chain ++ text) (length text + 5) out
      × (bytes b' ≡ 4 ∷ [])
demo_parser_consume-stale_text malloc m b yn text gives v vb e pr =
    let (out, done, d) =
      error-loop malloc yn text b.buffer_remaining m gives v pr
        (omega (arith, length-frame yn text, length-bytes b vb, ap length e)) in
    let (out, b', run, d', left, vb', cap) =
      consume-Delivered malloc (record { state = error_recovery; current = some m }) b yn text
        (contents m.body.chain ++ text) vb e (out, done, d) in
    (out, b', run, d', left)
