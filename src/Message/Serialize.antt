-- ===== src/Message/Serialize.antt =====
-- The text of a serialized message.
use c_http.Prelude.{
  ℕ, zero, suc, get_elem?, ◌≡◌, ◌<◌, refl, List, [], ◌∷◌, ◌++◌, Option, none, some, ok, arith,
  length, length-append, append-nil, append_assoc, ap, sym, ◌∙◌, eq_true, eq_false, Bool-cases, inl,
  inr, ◌==◌, not, if◌then◌else◌,
}
use mathlib.Core.Option.{some-injective}
use c_http.Prelude.Int.{is_nonzero}
use c_http.Prelude.Text.{codes}
use c_http.Decimal.{decimal}
use c_http.IoBuffer.{IoBuffer}
use c_http.IoBuffer.Laws as Io
use c_http.IoBuffer.Laws.{bytes, length-bytes}
use c_http.BufferChain.{BufferChain, Malloc, empty_chain, add_back}
use c_http.BufferChain.Laws
use c_http.BufferChain.Laws.{Gives, contents, empty_chain-IsValid, empty_chain-contents}
use c_http.BufferChain.Append.{append_cstr-contents}
use c_http.BufferChain.Whole.{compact-contents, add_back-contents}
use c_http.Cbuffer.{Cbuffer}
use c_http.Cbuffer.Laws.{Terminated}
use c_http.KvPair.{c_string, KvPair}
use c_http.HeaderList.{HeaderList}
use c_http.Message.{
  Message, read_string, read_cbuffer, first_line, header_line, append_headers, append_body,
  message_serialize, version_text,
}

-- The lines of the headers: each label and value, with ": " between them.
abbrev pub headers_text : HeaderList → List ℕ
headers_text [] = []
headers_text (item ∷ items) =
    (c_string item.label ++ (codes ": " ++ (c_string item.value ++ 13 ∷ 10 ∷ [])))
    ++ headers_text items

abbrev pub body_text : Option BufferChain → List ℕ
body_text none = []
body_text (some body) = contents body.chain

-- A body, if there is one, is a valid chain.
abbrev pub BodyIsValid : Option BufferChain → Type 0
BodyIsValid none = Unit
BodyIsValid (some body) = Laws.IsValid body

some-header_line : (item : KvPair) → 0 < length (header_line item)
some-header_line item =
    omega
      (arith, length-append (c_string item.label) (58 ∷ 32 ∷ (c_string item.value ++ 13 ∷ 10 ∷ [])))

append_headers-contents :
    (malloc : Malloc) (items : HeaderList) (c : BufferChain)
    → Gives malloc
    → Laws.IsValid c
    → (c' : BufferChain) × (append_headers malloc c items ≡ ok c')
      × Laws.IsValid c'
      × (contents c'.chain ≡ contents c.chain ++ headers_text items)
unfolding append_headers
append_headers-contents malloc [] c gives v = (c, refl, v, sym (append-nil (contents c.chain)))
append_headers-contents malloc (item ∷ items) c gives v =
    let (d, added, vd, dd) =
      append_cstr-contents malloc c (header_line item) gives v (some-header_line item) in
    let (c', rest, v', all) = append_headers-contents malloc items d gives vd in
    (
      c',
      rw added rest,
      v',
      all ∙ rw dd (append_assoc (contents c.chain) (header_line item) (headers_text items)),
    )

append_body-contents :
    (malloc : Malloc) (c : BufferChain) (body : Option BufferChain)
    → Gives malloc
    → Laws.IsValid c
    → BodyIsValid body
    → (c' : BufferChain) × (append_body malloc c body ≡ ok c')
      × Laws.IsValid c'
      × (contents c'.chain ≡ contents c.chain ++ body_text body)
unfolding append_body
append_body-contents malloc c none gives v vb = (c, refl, v, sym (append-nil (contents c.chain)))
append_body-contents malloc c (some body) gives v vb = split (contents body.chain) refl
  where
    counts : (l : List ℕ) → contents body.chain ≡ l → is_nonzero body.size ≡ not (length l == 0)
    counts l e = rw vb.counted (rw e refl)

    split :
        (l : List ℕ)
        → contents body.chain ≡ l
        → (c' : BufferChain) × (append_body malloc c (some body) ≡ ok c')
          × Laws.IsValid c'
          × (contents c'.chain ≡ contents c.chain ++ contents body.chain)
    split [] e =
        (c, rw (append_body, counts [] e) refl, v, rw e (sym (append-nil (contents c.chain))))
    split (ch ∷ l) e =
        let (b, made, vm, same, start) = compact-contents malloc body gives vb in
        let some_data : 0 < b.buffer_remaining =
          omega (arith, length-bytes b vm, ap length same, ap length e) in
        let (va, all) = add_back-contents c b v vm some_data start in
        (
          add_back c b,
          rw (append_body, counts (ch ∷ l) e, eq_false (suc (length l)) 0 (omega arith), made) refl,
          va,
          rw all (ap (λ (t : List ℕ). contents c.chain ++ t) same),
        )

-- The text in the slab of a Cbuffer, up to its first terminator.
abbrev pub slab_text : Option Cbuffer → List ℕ
slab_text none = []
slab_text (some cbuf) = c_string cbuf.mem

-- The part of the first line that a Cbuffer holds.
abbrev pub line_buffer : Message → Option Cbuffer
line_buffer mref = if mref.is_request then mref.target else mref.reason

-- The number behind "HTTP/".
abbrev version_number : Message → List ℕ
version_number mref = decimal mref.major_vers ++ (codes "." ++ decimal mref.minor_vers)

abbrev end_of_line : List ℕ
end_of_line = 13 ∷ 10 ∷ []

-- The first line, piece by piece.
abbrev pub line_text : (method_name : ℕ → List ℕ) → Message → List ℕ
line_text method_name mref =
    if mref.is_request
    then method_name mref.method
      ++ (codes " "
          ++ (slab_text mref.target ++ (codes " HTTP/" ++ (version_number mref ++ end_of_line))))
    else (codes "HTTP/" ++ version_number mref)
      ++ (codes "  "
          ++ (decimal mref.status_code ++ (codes " " ++ (slab_text mref.reason ++ end_of_line))))

-- There is a buffer, with a terminator behind its bytes.
abbrev pub HasText : Option Cbuffer → Type 0
HasText none = ⊥
HasText (some cbuf) = Terminated cbuf

read_string-c_string :
    (s : List ℕ) (n : ℕ) → get_elem? s n ≡ some 0 → read_string s ≡ ok (c_string s)
unfolding read_string
read_string-c_string [] n e = cc
read_string-c_string (ch ∷ s) zero e = rw (eq_true ch 0 (some-injective ch 0 e)) refl
read_string-c_string (ch ∷ s) (suc n) e = elim (Bool-cases (ch == 0)) [
  | inl z ↦ rw z refl
  | inr nz ↦ rw (nz, read_string-c_string s n e) refl
]

read_cbuffer-slab_text : (o : Option Cbuffer) → HasText o → read_cbuffer o ≡ ok (slab_text o)
unfolding read_cbuffer
read_cbuffer-slab_text none t = absurd t
read_cbuffer-slab_text (some cbuf) t = read_string-c_string cbuf.mem cbuf.m_length t.zero_at

first_line-line_text :
    (method_name : ℕ → List ℕ) (mref : Message)
    → HasText (line_buffer mref)
    → (first_line method_name mref ≡ ok (line_text method_name mref))
      × (0 < length (line_text method_name mref))
unfolding first_line
first_line-line_text method_name mref t = elim (Bool-cases mref.is_request) [
  | inl e ↦ (
    rw (e, read_cbuffer-slab_text mref.target (rw e at t)) refl,
    rw e (
        omega (
          arith,
          length-append (method_name mref.method)
              (32 ∷ (slab_text mref.target ++ (32 ∷ (version_text mref ++ 13 ∷ 10 ∷ [])))),
        )),
  )
  | inr e ↦ (rw (e, read_cbuffer-slab_text mref.reason (rw e at t)) refl, rw e (omega arith))
]

-- `Message_serialize` of a message with any headers, whose target (of a request) or reason (of a
-- response) is a terminated buffer and whose body is absent or a valid chain, returns one buffer with
-- exactly its text: the first line, a line for each header, an empty line, and the body.
pub message_serialize-text :
    (method_name : ℕ → List ℕ) (malloc : Malloc) (mref : Message)
    → Gives malloc
    → HasText (line_buffer mref)
    → BodyIsValid mref.body
    → (b : IoBuffer) × (message_serialize method_name malloc mref ≡ ok b)
      × Io.IsValid b
      × (bytes b
          ≡ (line_text method_name mref ++ headers_text mref.headers)
            ++ 13 ∷ 10 ∷ []
            ++ body_text mref.body)
unfolding message_serialize
message_serialize-text method_name malloc mref gives t vb =
    let (line_is, some_line) = first_line-line_text method_name mref t in
    let line = line_text method_name mref in
    let (c, first, vc, cc_is) =
      append_cstr-contents malloc empty_chain line gives empty_chain-IsValid some_line in
    let (d, second, vd, dd) = append_headers-contents malloc mref.headers c gives vc in
    let (e, third, ve, ee) = append_cstr-contents malloc d (13 ∷ 10 ∷ []) gives vd (omega arith) in
    let (f, fourth, vf, ff) = append_body-contents malloc e mref.body gives ve vb in
    let (b, last, vl, all, start) = compact-contents malloc f gives vf in
    (
      b,
      rw (line_is, first, second, third, fourth) last,
      vl,
      all ∙ rw (ff, ee, dd, cc_is, empty_chain-contents) refl,
    )
