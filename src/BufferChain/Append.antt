-- ===== src/BufferChain/Append.antt =====
-- `BufferChain_append` adds its bytes at the end of a chain.
use c_http.Prelude.{
  ℕ, ◌+◌, ◌≤◌, ◌<◌, ◌≡◌, refl, List, [], ◌∷◌, ◌++◌, some, true, false, ok, fault, assert_failed,
  arith, length, inl, length-append, append_assoc, ap, sym, ◌∙◌, ltb-true, ltb-false,
}
use native.Mathlib.Decide.{dec_lt, dec_le}
use c_http.Prelude.Int.{pos, is_positive, leb_ℤ}
use c_http.IoBuffer
use c_http.IoBuffer.{IoBuffer}
use c_http.IoBuffer.Laws
use c_http.IoBuffer.Laws.{
  bytes, length-bytes, new_lem, new-IsValid, data_add-refused, read_data-bytes,
}
use c_http.IoBuffer.Terminator.{data_add-append}
use c_http.BufferChain.{
  BufferChain, Malloc, last, required_len, append_new, append_last, append, append_io_buffer,
  append_cstr,
}
use c_http.BufferChain.Laws.{
  Gives, contents, AllFilled, IsValid, contents_snoc, AllFilled_snoc, last_snoc, last-split,
  AllFilled-split, last-some,
}

-- What a call of `append` that returns has done.
abbrev pub Appended : BufferChain → List ℕ → BufferChain → Type 0
Appended c buf c' = IsValid c' × (contents c'.chain ≡ contents c.chain ++ buf)

snoc-Appended :
    (front : List IoBuffer) (b : IoBuffer) (all : List ℕ)
    → AllFilled front
    → Laws.IsValid b
    → 0 < b.buffer_remaining
    → b.buffer_ptr ≡ 0
    → contents (front ++ b ∷ []) ≡ all
    → IsValid (record { chain = front ++ b ∷ []; size = pos (length all) })
snoc-Appended front b all f v h start e = record {
  filled = AllFilled_snoc front b f v h;
  counted = ap (λ (l : List ℕ). pos (length l)) (sym e);
  starts = rw (last_snoc front b) start;
}

required_len-fits : (n : ℕ) → n ≤ required_len n
required_len-fits n = ground arith

append_new-Appended :
    (malloc : Malloc) (c : BufferChain) (buf : List ℕ)
    → Gives malloc
    → IsValid c
    → 0 < length buf
    → (c' : BufferChain) × (append_new malloc c buf ≡ ok c') × Appended c buf c'
unfolding append_new
append_new-Appended malloc c buf gives v pos_len =
    let required = required_len (length buf) in
    let fresh = IoBuffer.new_with_capacity (malloc (required + 1)) required in
    let (ptr, rem, cap, none_yet) = new_lem (malloc (required + 1)) required in
    let (t, done, vt, grown, pt, ct, rt) =
      data_add-append fresh buf
        (new-IsValid (malloc (required + 1)) required (gives (required + 1))) ptr pos_len
        (omega (arith, required_len-fits (length buf))) in
    let all : contents (c.chain ++ t ∷ []) ≡ contents c.chain ++ buf =
      contents_snoc c.chain t ∙ rw (grown, none_yet) refl in
    (
      record { chain = c.chain ++ t ∷ []; size = pos (length (contents c.chain ++ buf)) },
      rw (done, v.counted, length-append (contents c.chain) buf),
      (snoc-Appended c.chain t (contents c.chain ++ buf) v.filled vt (omega arith) pt all, all),
    )

-- The test of `append` on the space in a buffer.
space_len-enough :
    (b : IoBuffer) (n : ℕ)
    → IoBuffer.space b + n ≤ b.buffer_capacity
    → leb_ℤ n (IoBuffer.space_len b) ≡ true
space_len-enough b n h = ground arith

space_len-short :
    (b : IoBuffer) (n : ℕ)
    → b.buffer_capacity < IoBuffer.space b + n
    → 0 < n
    → leb_ℤ n (IoBuffer.space_len b) ≡ false
space_len-short b n h pos_n = ground arith

append_last-Appended :
    (malloc : Malloc) (c : BufferChain) (buf : List ℕ) (b : IoBuffer)
    → Gives malloc
    → IsValid c
    → 0 < length buf
    → last c.chain ≡ some b
    → (c' : BufferChain) × (append_last malloc c buf (some b) ≡ ok c') × Appended c buf c'
unfolding append_last
append_last-Appended malloc c buf b gives v pos_len e =
    let (front, split, sets) = last-split c.chain b e in
    let (ff, vb, hb) = AllFilled-split front b (rw split at v.filled) in
    let start : b.buffer_ptr ≡ 0 = rw e at v.starts in
    elim (dec_le (IoBuffer.space b + length buf) b.buffer_capacity) [
      | yes room ↦
          let (t, done, vt, grown, pt, ct, rt) = data_add-append b buf vb start pos_len room in
          let all : contents (front ++ t ∷ []) ≡ contents c.chain ++ buf =
            contents_snoc front t
            ∙ ap (λ (l : List ℕ). contents front ++ l) grown
            ∙ sym (append_assoc (contents front) (bytes b) buf)
            ∙ ap (λ (l : List ℕ). l ++ buf) (sym (ap contents split ∙ contents_snoc front b)) in
          (
            record { chain = front ++ t ∷ []; size = pos (length (contents c.chain ++ buf)) },
            rw (
              space_len-enough b (length buf) room,
              done,
              sets t,
              v.counted,
              length-append (contents c.chain) buf,
            ),
            (snoc-Appended front t (contents c.chain ++ buf) ff vt (omega arith) pt all, all),
          )
      | no full ↦
          rw (space_len-short b (length buf) (omega arith) pos_len)
            (append_new-Appended malloc c buf gives v pos_len)
    ]

space_len-any : (b : IoBuffer) → Laws.IsValid b → leb_ℤ 0 (IoBuffer.space_len b) ≡ true
space_len-any b v = ground (arith, v)

counts : (c : BufferChain) → IsValid c → 0 < length (contents c.chain) → is_positive c.size ≡ true
counts c v h = rw v.counted (ltb-true 0 (length (contents c.chain)) h)

counts_none :
    (c : BufferChain) → IsValid c → length (contents c.chain) ≡ 0 → is_positive c.size ≡ false
counts_none c v h = rw v.counted (ltb-false 0 (length (contents c.chain)) (omega arith))

-- `BufferChain_append` of some bytes to a valid chain returns, keeps the chain valid, and adds
-- exactly those bytes at the end, whether they go into the last buffer or into a new one.
pub append-contents :
    (malloc : Malloc) (c : BufferChain) (buf : List ℕ)
    → Gives malloc
    → IsValid c
    → 0 < length buf
    → (c' : BufferChain) × (append malloc c buf ≡ ok c')
      × IsValid c'
      × (contents c'.chain ≡ contents c.chain ++ buf)
unfolding append
append-contents malloc c buf gives v pos_len = elim (dec_lt 0 (length (contents c.chain))) [
  | yes some_data ↦
      let (b, e) = last-some c.chain some_data in
      let (c', done, kept) = append_last-Appended malloc c buf b gives v pos_len e in
      (c', rw (counts c v some_data, e) done, kept.0, kept.1)
  | no no_data ↦
      let (c', done, kept) = append_new-Appended malloc c buf gives v pos_len in
      (c', rw (counts_none c v (omega arith)) done, kept.0, kept.1)
]

-- Of no bytes it stops at the assertion in `IOBuffer_commit`.
pub append-nil_fault :
    (malloc : Malloc) (c : BufferChain)
    → Gives malloc
    → IsValid c
    → append malloc c [] ≡ fault assert_failed
unfolding append append_new append_last
append-nil_fault malloc c gives v = elim (dec_lt 0 (length (contents c.chain))) [
  | yes some_data ↦
      let (b, e) = last-some c.chain some_data in
      let (front, split, sets) = last-split c.chain b e in
      let (ff, vb, hb) = AllFilled-split front b (rw split at v.filled) in
      rw (counts c v some_data, e, space_len-any b vb, data_add-refused b [] vb (inl refl))
  | no no_data ↦
      let required = required_len 0 in
      rw (
        counts_none c v (omega arith),
        data_add-refused (IoBuffer.new_with_capacity (malloc (required + 1)) required) []
            (new-IsValid (malloc (required + 1)) required (gives (required + 1))) (inl refl),
      )
]

-- `BufferChain_append_IOBuffer` adds the data of a buffer.
pub append_io_buffer-contents :
    (malloc : Malloc) (c : BufferChain) (b : IoBuffer)
    → Gives malloc
    → IsValid c
    → Laws.IsValid b
    → 0 < length (bytes b)
    → (c' : BufferChain) × (append_io_buffer malloc c b ≡ ok c')
      × IsValid c'
      × (contents c'.chain ≡ contents c.chain ++ bytes b)
unfolding append_io_buffer
append_io_buffer-contents malloc c b gives v vb h =
    rw (read_data-bytes b vb) (append-contents malloc c (bytes b) gives v h)

-- `BufferChain_append_cstr` adds the bytes of a string that is not empty.
pub append_cstr-contents :
    (malloc : Malloc) (c : BufferChain) (s : List ℕ)
    → Gives malloc
    → IsValid c
    → 0 < length s
    → (c' : BufferChain) × (append_cstr malloc c s ≡ ok c')
      × IsValid c'
      × (contents c'.chain ≡ contents c.chain ++ s)
unfolding append_cstr
append_cstr-contents = append-contents
