-- ===== src/HeaderList/Lines.antt =====
-- The text that `HdrList_serialize` makes of the header lines.
use c_http.Prelude.{
  ℕ, ◌+◌, ◌≡◌, ◌≤◌, ◌<◌, refl, List, [], ◌∷◌, ◌++◌, ok, arith, length, length-append, append-nil,
  append_assoc, ap, sym, ◌∙◌,
}
use c_http.Cbuffer.{Cbuffer, Malloc, common_strategy}
use c_http.Cbuffer.Laws.{Gives, IsValid, bytes, new-IsValid}
use c_http.Cbuffer.Append.{append_cstr-piece}
use c_http.KvPair.{c_string, KvPair}
use c_http.HeaderList.{HeaderList, serialize_line, serialize_loop, hdr_list_serialize}

-- "LABEL: value\r\n"
abbrev pub line_text : KvPair → List ℕ
line_text kv = c_string kv.label ++ (58 ∷ 32 ∷ (c_string kv.value ++ 13 ∷ 10 ∷ []))

abbrev pub text : HeaderList → List ℕ
text [] = []
text (kv ∷ l) = line_text kv ++ text l

-- No label and no value is longer than the smallest slab.
abbrev pub AllShort : HeaderList → Type 0
AllShort [] = Unit
AllShort (kv ∷ l) =
    (length (c_string kv.label) ≤ common_strategy.min_size)
    × (length (c_string kv.value) ≤ common_strategy.min_size)
    × AllShort l

length-line_text :
    (kv : KvPair)
    → length (line_text kv) ≡ length (c_string kv.label) + length (c_string kv.value) + 4
length-line_text kv = omega (
  arith,
  length-append (c_string kv.label) (58 ∷ 32 ∷ (c_string kv.value ++ 13 ∷ 10 ∷ [])),
  length-append (c_string kv.value) (13 ∷ 10 ∷ []),
)

serialize_line-text :
    (malloc : Malloc) (cb : Cbuffer) (kv : KvPair)
    → Gives malloc
    → IsValid cb
    → length (c_string kv.label) ≤ common_strategy.min_size
    → length (c_string kv.value) ≤ common_strategy.min_size
    → length (bytes cb) + length (line_text kv) < common_strategy.max_size
    → (cb' : Cbuffer) × (serialize_line malloc cb kv ≡ ok cb')
      × IsValid cb'
      × (bytes cb' ≡ bytes cb ++ line_text kv)
unfolding serialize_line
serialize_line-text malloc cb kv gives v h_label h_value room =
    let label = c_string kv.label in
    let value = c_string kv.value in
    let len = length-line_text kv in
    let (c1, done1, v1, b1) = append_cstr-piece malloc cb label gives v h_label (omega arith) in
    let len1 : length (bytes c1) ≡ length (bytes cb) + length label =
      ap length b1 ∙ length-append (bytes cb) label in
    let (c2, done2, v2, b2) =
      append_cstr-piece malloc c1 (58 ∷ 32 ∷ []) gives v1 (omega arith) (omega arith) in
    let len2 : length (bytes c2) ≡ length (bytes c1) + 2 =
      ap length b2 ∙ length-append (bytes c1) (58 ∷ 32 ∷ []) in
    let (c3, done3, v3, b3) = append_cstr-piece malloc c2 value gives v2 h_value (omega arith) in
    let len3 : length (bytes c3) ≡ length (bytes c2) + length value =
      ap length b3 ∙ length-append (bytes c2) value in
    let (c4, done4, v4, b4) =
      append_cstr-piece malloc c3 (13 ∷ 10 ∷ []) gives v3 (omega arith) (omega arith) in
    (c4, rw (done1, done2, done3) done4, v4, b4 ∙ rw (b3, b2, b1) (rejoin (bytes cb) label value))
  where
    rejoin :
        (a l v : List ℕ)
        → (((a ++ l) ++ 58 ∷ 32 ∷ []) ++ v) ++ 13 ∷ 10 ∷ []
          ≡ a ++ (l ++ (58 ∷ 32 ∷ (v ++ 13 ∷ 10 ∷ [])))
    rejoin a l v = simp (append_assoc) refl

serialize_loop-text :
    (malloc : Malloc) (cb : Cbuffer) (l : HeaderList)
    → Gives malloc
    → IsValid cb
    → AllShort l
    → length (bytes cb) + length (text l) < common_strategy.max_size
    → (cb' : Cbuffer) × (serialize_loop malloc cb l ≡ ok cb')
      × IsValid cb'
      × (bytes cb' ≡ bytes cb ++ text l)
unfolding serialize_loop
serialize_loop-text malloc cb [] gives v short room = (cb, refl, v, sym (append-nil (bytes cb)))
serialize_loop-text malloc cb (kv ∷ l) gives v short room =
    let len = length-append (line_text kv) (text l) in
    let (c1, done1, v1, b1) =
      serialize_line-text malloc cb kv gives v short.0 short.1 (omega arith) in
    let len1 = length-append (bytes cb) (line_text kv) in
    let (c2, done2, v2, b2) =
      serialize_loop-text malloc c1 l gives v1 short.2 (omega (arith, len1, ap length b1)) in
    (c2, rw done1 done2, v2, b2 ∙ rw (b1, append_assoc) refl)

-- `HdrList_serialize` returns a valid buffer with exactly the text of the lines, in order, if no label
-- or value is longer than 256 bytes and the text is shorter than the largest slab.
pub hdr_list_serialize-text :
    (malloc : Malloc) (l : HeaderList)
    → Gives malloc
    → AllShort l
    → length (text l) < common_strategy.max_size
    → (cb : Cbuffer) × (hdr_list_serialize malloc l ≡ ok cb) × IsValid cb × (bytes cb ≡ text l)
unfolding hdr_list_serialize
hdr_list_serialize-text malloc l gives short room =
    let (e, made, v, none_yet, len, cap) = new-IsValid malloc gives in
    let (cb, done, vb, all) =
      serialize_loop-text malloc e l gives v short (omega (arith, ap length none_yet)) in
    (cb, rw made done, vb, all ∙ rw none_yet refl)
