-- ===== src/BufferChain/Whole.antt =====
-- Compaction of a chain, and its operations on one buffer.
use c_http.Prelude.{
  ℕ, ◌+◌, ◌≤◌, ◌<◌, ◌≡◌, refl, List, [], ◌∷◌, ◌++◌, some, ok, arith, length, length-append,
  append-nil, append_assoc, sym, ◌∙◌,
}
use c_http.Prelude.Int.{ℤ, pos, sub_len}
use c_http.IoBuffer
use c_http.IoBuffer.{IoBuffer}
use c_http.IoBuffer.Laws
use c_http.IoBuffer.Laws.{bytes, length-bytes, new_lem, new-IsValid, read_data-bytes}
use c_http.IoBuffer.Terminator.{data_add-append}
use c_http.BufferChain.{BufferChain, Malloc, last, compact_loop, compact, add_back, pop_front}
use c_http.BufferChain.Laws.{
  Gives, contents, AllFilled, IsValid, contents_snoc, AllFilled_snoc, last_snoc, Starts,
}

compact_loop-contents :
    (l : List IoBuffer) (b : IoBuffer)
    → AllFilled l
    → Laws.IsValid b
    → b.buffer_ptr ≡ 0
    → b.buffer_remaining + length (contents l) ≤ b.buffer_capacity
    → (b' : IoBuffer) × (compact_loop l b ≡ ok b')
      × Laws.IsValid b'
      × (bytes b' ≡ bytes b ++ contents l)
      × (b'.buffer_ptr ≡ 0)
unfolding compact_loop
compact_loop-contents [] b f v start room = (b, refl, v, sym (append-nil (bytes b)), start)
compact_loop-contents (t ∷ l) b f v start room =
    let len = length-append (bytes t) (contents l) in
    let len_t = length-bytes t f.0 in
    let (c, done, vc, grown, pc, cc_same, rc) =
      data_add-append b (bytes t) v start (omega (arith, f.1)) (omega arith) in
    let (b', rest, v', all, p') = compact_loop-contents l c f.2 vc pc (omega arith) in
    (b', rw (read_data-bytes t f.0, done) rest, v', all ∙ rw (grown, append_assoc) refl, p')

-- `BufferChain_compact` of a valid chain returns one buffer with all the data of the chain, in order.
pub compact-contents :
    (malloc : Malloc) (c : BufferChain)
    → Gives malloc
    → IsValid c
    → (b : IoBuffer) × (compact malloc c ≡ ok b)
      × Laws.IsValid b
      × (bytes b ≡ contents c.chain)
      × (b.buffer_ptr ≡ 0)
unfolding compact
compact-contents malloc c gives v =
    let n = length (contents c.chain) in
    let (ptr, rem, cap, none_yet) = new_lem (malloc (n + 1)) n in
    let (b, done, vb, all, pb) =
      compact_loop-contents c.chain (IoBuffer.new_with_capacity (malloc (n + 1)) n) v.filled
        (new-IsValid (malloc (n + 1)) n (gives (n + 1))) ptr (omega arith) in
    (b, sized c.size n v.counted done, vb, all ∙ rw none_yet refl, pb)
  where
    -- the size as the code reads it
    sized :
        (size : ℤ) (n : ℕ) {b : IoBuffer}
        → size ≡ pos n
        → compact_loop c.chain (IoBuffer.new_with_capacity (malloc (n + 1)) n) ≡ ok b
        → compact malloc (record { chain = c.chain; size = size }) ≡ ok b
    sized size n e run = rw e run

-- `BufferChain_add_back` of a buffer with data keeps a chain valid, if the buffer has not been read
-- from, and puts its data at the end.
pub add_back-contents :
    (c : BufferChain) (b : IoBuffer)
    → IsValid c
    → Laws.IsValid b
    → 0 < b.buffer_remaining
    → b.buffer_ptr ≡ 0
    → IsValid (add_back c b) × (contents (add_back c b).chain ≡ contents c.chain ++ bytes b)
unfolding add_back
add_back-contents c b v vb h start =
    let all = contents_snoc c.chain b in
    (
      record {
        filled = AllFilled_snoc c.chain b v.filled vb h;
        counted =
            rw (v.counted, all, length-append (contents c.chain) (bytes b), length-bytes b vb);
        starts = rw (last_snoc c.chain b) start;
      },
      all,
    )

-- No buffer has been read from.
abbrev pub AllStart : List IoBuffer → Type 0
AllStart [] = Unit
AllStart (b ∷ l) = (b.buffer_ptr ≡ 0) × AllStart l

Starts-tail : (b : IoBuffer) (l : List IoBuffer) → Starts (last (b ∷ l)) → Starts (last l)
Starts-tail b [] h = tt
Starts-tail b (d ∷ l) h = h

pub pop_front-IsValid :
    (b : IoBuffer) (l : List IoBuffer) (size : ℤ)
    → IsValid (record { chain = b ∷ l; size = size })
    → IsValid (record { chain = l; size = sub_len size (IoBuffer.data_len b) })
pop_front-IsValid b l size v = record {
  filled = v.filled.2;
  counted =
      rw v.counted
        (ground (arith, length-append (bytes b) (contents l), length-bytes b v.filled.0));
  starts = Starts-tail b l v.starts;
}

-- `BufferChain_pop_front` of a valid chain that holds data returns its first buffer, and leaves a
-- valid chain of the others.
pub pop_front-contents :
    (c : BufferChain)
    → IsValid c
    → 0 < length (contents c.chain)
    → (b : IoBuffer) × (c' : BufferChain) × (pop_front c ≡ (some b, c'))
      × IsValid c'
      × (c.chain ≡ b ∷ c'.chain)
unfolding pop_front
pop_front-contents c v h = split c.chain c.size v h
  where
    split :
        (l : List IoBuffer) (size : ℤ)
        → IsValid (record { chain = l; size = size })
        → 0 < length (contents l)
        → (b : IoBuffer) × (c' : BufferChain) × (pop_front (record { chain = l; size = size })
            ≡ (some b, c'))
          × IsValid c'
          × (l ≡ b ∷ c'.chain)
    split [] size v h = absurd (omega arith)
    split (b ∷ l) size v h = (
      b,
      record { chain = l; size = sub_len size (IoBuffer.data_len b) },
      refl,
      pop_front-IsValid b l size v,
      refl,
    )
