-- ===== src/DemoParser/Text.antt =====
-- The loop of `DemoParser_consume` on the parts of a frame.
use c_http.Prelude.{
  ℕ, ◌+◌, ◌-◌, ◌≡◌, refl, List, [], ◌∷◌, ◌++◌, Option, none, some, Bool, true, false, ok, arith,
  length, ◌==◌, eq_false, sym, ◌∙◌, append_assoc, append-nil, ◌<◌,
}
use c_http.Prelude.Int.{pos}
use c_http.BufferChain.{Malloc}
use c_http.BufferChain.Laws
use c_http.BufferChain.Laws.{Gives, contents}
use c_http.DemoMessage.{DemoMessage, demo_message_new, opcode_byte}
use c_http.DemoMessage.Serialize.{frame, demo_message_new-IsValid, demo_message_new-contents}
use c_http.DemoParser.{
  idle, opcode, body, error_recovery, completed, isprint, turn, on_body, Outcome, consume_loop,
}
use c_http.DemoParser.States.{body-turn}

abbrev pub AllPrintable : List ℕ → Type 0
AllPrintable [] = Unit
AllPrintable (ch ∷ text) = (isprint ch ≡ true) × AllPrintable text

-- A message with this opcode and this text was delivered, with the LRC of `frame`, after `n` bytes;
-- the parser is ready for the next message.
pub record Delivered (yn : Bool) (text : List ℕ) (n : ℕ) (out : Outcome) : Type 0 where
  pub message : DemoMessage
  pub event : out.event ≡ some (completed message)
  pub is_request : message.opcode ≡ yn
  pub lrc : message.lrc ≡ some 76
  pub text_is : contents message.body.chain ≡ text
  pub body-IsValid : Laws.IsValid message.body
  pub consumed : out.consumed ≡ n
  pub code : out.code ≡ pos 0
  pub parser : out.parser ≡ record { state = idle; current = some demo_message_new }

pub body-loop :
    (malloc : Malloc) (text rest : List ℕ) (len i : ℕ) (m : DemoMessage)
    → Gives malloc
    → Laws.IsValid m.body
    → AllPrintable text
    → (out : Outcome) × (consume_loop malloc len
          (record { state = body; current = some m })
          i
          (text ++ 3 ∷ 76 ∷ rest)
        ≡ ok out)
      × Delivered m.opcode (contents m.body.chain ++ text) (i + length text + 2) out
unfolding consume_loop turn on_body
body-loop malloc [] rest len i m gives v pr = (
  _,
  refl,
  record {
    message = record m { lrc = some 76 };
    event = refl;
    is_request = refl;
    lrc = refl;
    text_is = sym (append-nil (contents m.body.chain));
    body-IsValid = v;
    consumed = omega arith;
    code = refl;
    parser = refl;
  },
)
body-loop malloc (ch ∷ text) rest len i m gives v pr =
    let (m', turned, v', grown, same) = body-turn malloc m ch (i == len - 1) gives v pr.0 in
    let (out, done, d) = body-loop malloc text rest len (i + 1) m' gives v' pr.1 in
    (
      out,
      rw turned done,
      record {
        message = d.message;
        event = d.event;
        is_request = d.is_request ∙ same;
        lrc = d.lrc;
        text_is = d.text_is ∙ rw (grown, append_assoc) refl;
        body-IsValid = d.body-IsValid;
        consumed = omega (arith, d.consumed);
        code = d.code;
        parser = d.parser;
      },
    )

pub recount :
    {yn : Bool} {text : List ℕ} {n n' : ℕ} {out : Outcome}
    → n ≡ n'
    → Delivered yn text n out
    → Delivered yn text n' out
recount e d = rw e at d

-- From the state after SOH, with a current message whose body may already hold something.
pub opcode-loop :
    (malloc : Malloc) (yn : Bool) (text rest : List ℕ) (len i : ℕ) (m : DemoMessage)
    → Gives malloc
    → Laws.IsValid m.body
    → AllPrintable text
    → (out : Outcome) × (consume_loop malloc len
          (record { state = opcode; current = some m })
          i
          (opcode_byte yn ∷ 2 ∷ text ++ 3 ∷ 76 ∷ rest)
        ≡ ok out)
      × Delivered yn (contents m.body.chain ++ text) (i + length text + 4) out
unfolding consume_loop turn
opcode-loop malloc true text rest len i m gives v pr =
    let (out, done, d) =
      body-loop malloc text rest len (i + 1 + 1) (record m { opcode = true }) gives v pr in
    (out, done, recount (omega arith) d)
opcode-loop malloc false text rest len i m gives v pr =
    let (out, done, d) =
      body-loop malloc text rest len (i + 1 + 1) (record m { opcode = false }) gives v pr in
    (out, done, recount (omega arith) d)

-- No text has come in yet.
abbrev pub NoText : Option DemoMessage → Type 0
NoText none = Unit
NoText (some m) = Laws.IsValid m.body × (contents m.body.chain ≡ [])

pub idle-loop :
    (malloc : Malloc) (yn : Bool) (text : List ℕ) (len : ℕ) (o : Option DemoMessage)
    → Gives malloc
    → NoText o
    → AllPrintable text
    → (out : Outcome) × (consume_loop malloc len
          (record { state = idle; current = o })
          0
          (frame yn text)
        ≡ ok out)
      × Delivered yn text (length text + 5) out
unfolding consume_loop turn
idle-loop malloc yn text len none gives v pr =
    let (out, done, d) =
      opcode-loop malloc yn text (4 ∷ []) len 1 demo_message_new gives demo_message_new-IsValid
        pr in
    (out, done, recount (omega arith) (rw demo_message_new-contents at d))
idle-loop malloc yn text len (some m) gives v pr =
    let (out, done, d) = opcode-loop malloc yn text (4 ∷ []) len 1 m gives v.0 pr in
    (out, done, recount (omega arith) (rw v.1 at d))

pub error-loop :
    (malloc : Malloc) (yn : Bool) (text : List ℕ) (len : ℕ) (m : DemoMessage)
    → Gives malloc
    → Laws.IsValid m.body
    → AllPrintable text
    → 1 < len
    → (out : Outcome) × (consume_loop malloc len
          (record { state = error_recovery; current = some m })
          0
          (frame yn text)
        ≡ ok out)
      × Delivered yn (contents m.body.chain ++ text) (length text + 5) out
unfolding consume_loop turn
error-loop malloc yn text len m gives v pr h =
    let (out, done, d) = opcode-loop malloc yn text (4 ∷ []) len 1 m gives v pr in
    (out, rw (eq_false 0 (len - 1) (omega arith)) done, recount (omega arith) d)
