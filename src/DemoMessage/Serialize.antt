-- ===== src/DemoMessage/Serialize.antt =====
-- The bytes of a serialized message.
use c_http.Prelude.{ℕ, ◌≡◌, refl, List, [], ◌∷◌, ◌++◌, ok, arith, length, ap, ◌∙◌, Bool}
use c_http.IoBuffer.{IoBuffer}
use c_http.IoBuffer.Laws as Io
use c_http.IoBuffer.Laws.{bytes, read_data-bytes}
use c_http.IoBuffer.Moves.{from_buf_lem}
use c_http.BufferChain.{Malloc, empty_chain}
use c_http.BufferChain.Laws
use c_http.BufferChain.Laws.{Gives, contents, empty_chain-IsValid, empty_chain-contents}
use c_http.BufferChain.Append.{append-contents, append_io_buffer-contents}
use c_http.BufferChain.Whole.{compact-contents}
use c_http.BufferChain.Move.{append_bufferchain-contents}
use c_http.DemoMessage.{DemoMessage, opcode_byte, demo_message_serialize, demo_message_new}

-- SOH, the opcode, STX; the body; ETX, the fixed LRC 'L', EOT.
abbrev pub frame : Bool → List ℕ → List ℕ
frame opcode body = 1 ∷ opcode_byte opcode ∷ 2 ∷ body ++ 3 ∷ 76 ∷ 4 ∷ []

-- `demo_message_serialize` of a message whose body is a valid chain returns one buffer that holds exactly the message's frame.
pub demo_message_serialize-frame :
    (malloc : Malloc) (m : DemoMessage)
    → Gives malloc
    → Laws.IsValid m.body
    → (b : IoBuffer) × (demo_message_serialize malloc m ≡ ok b)
      × Io.IsValid b
      × (bytes b ≡ frame m.opcode (contents m.body.chain))
unfolding demo_message_serialize
demo_message_serialize-frame malloc m gives v =
    let head = 1 ∷ opcode_byte m.opcode ∷ 2 ∷ [] in
    let (b, made, vb, bb, rb) = from_buf_lem (malloc 7) head (omega arith) (gives 7) in
    let (c, first, vc, cc_is) =
      append_io_buffer-contents malloc empty_chain b gives empty_chain-IsValid vb
        (omega (arith, ap length bb)) in
    let (d, second, vd, dd) = append_bufferchain-contents malloc c m.body gives vc v in
    let (e, third, ve, ee) = append-contents malloc d (3 ∷ 76 ∷ 4 ∷ []) gives vd (omega arith) in
    let (f, last, vf, ff, start) = compact-contents malloc e gives ve in
    (
      f,
      rw (made, first, second, third) last,
      vf,
      ff ∙ rw (ee, dd, cc_is, empty_chain-contents, bb) refl,
    )

pub demo_message_new-IsValid : Laws.IsValid demo_message_new.body
unfolding demo_message_new
demo_message_new-IsValid = empty_chain-IsValid

pub demo_message_new-contents : contents demo_message_new.body.chain ≡ []
unfolding demo_message_new
demo_message_new-contents = empty_chain-contents
