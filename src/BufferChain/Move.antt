-- ===== src/BufferChain/Move.antt =====
-- Copying and moving the buffers of one chain to another.
use c_http.Prelude.{
  ℕ, zero, suc, ◌+◌, ◌<◌, ◌≡◌, refl, List, [], ◌∷◌, ◌++◌, some, ok, arith, length, append-nil,
  append_assoc, ap, sym, ◌∙◌, length-append,
}
use c_http.Prelude.Int.{ℤ, pos, sub_len}
use c_http.IoBuffer
use c_http.IoBuffer.{IoBuffer}
use c_http.IoBuffer.Laws
use c_http.IoBuffer.Laws.{bytes, length-bytes}
use c_http.IoBuffer.Moves.{dup_lem}
use c_http.BufferChain.{
  BufferChain, Malloc, last, add_back, append_all, append_bufferchain, steal_loop,
  steal_bufferchain,
}
use c_http.BufferChain.Laws.{
  Gives, contents, AllFilled, AllFilled_snoc, contents_snoc, last_snoc, Starts, IsValid,
}
use c_http.BufferChain.Whole.{AllStart, add_back-contents, pop_front-IsValid}

-- A chain without the condition on its last buffer.
record Filled (c : BufferChain) : Type 0 where
  filled : AllFilled c.chain
  counted : c.size ≡ pos (length (contents c.chain))

add_back-Filled :
    (c : BufferChain) (b : IoBuffer)
    → Filled c
    → Laws.IsValid b
    → 0 < b.buffer_remaining
    → Filled (add_back c b)
      × (contents (add_back c b).chain ≡ contents c.chain ++ bytes b)
      × (last (add_back c b).chain ≡ some b)
unfolding add_back
add_back-Filled c b v vb h =
    let all = contents_snoc c.chain b in
    (
      record {
        filled = AllFilled_snoc c.chain b v.filled vb h;
        counted =
            rw (v.counted, all, length-append (contents c.chain) (bytes b), length-bytes b vb);
      },
      all,
      last_snoc c.chain b,
    )

-- The last buffer of the result is a copy of the last one that was appended.
abbrev LastCopied : List IoBuffer → BufferChain → BufferChain → Type 0
LastCopied [] c c' = c' ≡ c
LastCopied (t ∷ l) c c' = Starts (last (t ∷ l)) → Starts (last c'.chain)

append_all-contents :
    (malloc : Malloc) (l : List IoBuffer) (c : BufferChain)
    → Gives malloc
    → Filled c
    → AllFilled l
    → (c' : BufferChain) × (append_all malloc c l ≡ ok c')
      × Filled c'
      × (contents c'.chain ≡ contents c.chain ++ contents l)
      × LastCopied l c c'
unfolding append_all
append_all-contents malloc [] c gives v f = (c, refl, v, sym (append-nil (contents c.chain)), refl)
append_all-contents malloc (t ∷ l) c gives v f =
    let (d, copied, vd, same, pd) =
      dup_lem (malloc (t.buffer_capacity + 1)) t f.0 (gives (t.buffer_capacity + 1)) in
    let filled_d : 0 < d.buffer_remaining =
      omega (arith, f.1, length-bytes t f.0, length-bytes d vd, ap length same) in
    let (vn, all, last_d) = add_back-Filled c d v vd filled_d in
    let (c', rest, v', done, copies) = append_all-contents malloc l (add_back c d) gives vn f.2 in
    (
      c',
      rw copied rest,
      v',
      done ∙ rw (all, same) (append_assoc (contents c.chain) (bytes t) (contents l)),
      last_of l (add_back c d) c' d last_d pd copies,
    )
  where
    last_of :
        (l : List IoBuffer) (c c' : BufferChain) (d : IoBuffer)
        → last c.chain ≡ some d
        → d.buffer_ptr ≡ t.buffer_ptr
        → LastCopied l c c'
        → Starts (last (t ∷ l))
        → Starts (last c'.chain)
    last_of [] c c' d e pd copies start = rw (copies, e) (pd ∙ start)
    last_of (u ∷ l) c c' d e pd copies start = copies start

-- `BufferChain_append_bufferchain` copies the data of another chain behind those of this one.
pub append_bufferchain-contents :
    (malloc : Malloc) (c other : BufferChain)
    → Gives malloc
    → IsValid c
    → IsValid other
    → (c' : BufferChain) × (append_bufferchain malloc c other ≡ ok c')
      × IsValid c'
      × (contents c'.chain ≡ contents c.chain ++ contents other.chain)
unfolding append_bufferchain
append_bufferchain-contents malloc c other gives v vo =
    let (c', done, v', all, copies) =
      append_all-contents malloc other.chain c gives
        (record { filled = v.filled; counted = v.counted }) vo.filled in
    (
      c',
      done,
      record {
        filled = v'.filled;
        counted = v'.counted;
        starts = starts_of other.chain c c' v.starts copies vo.starts;
      },
      all,
    )
  where
    starts_of :
        (l : List IoBuffer) (c c' : BufferChain)
        → Starts (last c.chain)
        → LastCopied l c c'
        → Starts (last l)
        → Starts (last c'.chain)
    starts_of [] c c' start copies none_yet = rw copies start
    starts_of (u ∷ l) c c' start copies last_start = copies last_start

steal_loop-contents :
    (l : List IoBuffer) (fuel : ℕ) (c : BufferChain) (size : ℤ)
    → length l < fuel
    → IsValid c
    → IsValid (record { chain = l; size = size })
    → AllStart l
    → (c' : BufferChain) × (steal_loop fuel c (record { chain = l; size = size })
        ≡ some (c', record { chain = []; size = pos 0 }))
      × IsValid c'
      × (contents c'.chain ≡ contents c.chain ++ contents l)
unfolding steal_loop
steal_loop-contents l zero c size h v vo st = absurd (omega arith)
steal_loop-contents [] (suc fuel) c size h v vo st =
    (c, rw vo.counted, v, sym (append-nil (contents c.chain)))
steal_loop-contents (t ∷ l) (suc fuel) c size h v vo st =
    let (vn, all) = add_back-contents c t v vo.filled.0 vo.filled.1 st.0 in
    let (c', rest, v', done) =
      steal_loop-contents l fuel (add_back c t) (sub_len size (IoBuffer.data_len t)) (omega arith)
        vn (pop_front-IsValid t l size vo) st.1 in
    (c', rest, v', done ∙ rw all (append_assoc (contents c.chain) (bytes t) (contents l)))

-- `BufferChain_steal_bufferchain` ends, moves all the data of the other chain, whose buffers have not
-- been read from, behind those of this one, and leaves the other chain empty.
pub steal_bufferchain-contents :
    (c other : BufferChain)
    → IsValid c
    → IsValid other
    → AllStart other.chain
    → (c' : BufferChain) × (steal_bufferchain c other
        ≡ some (c', record { chain = []; size = pos 0 }))
      × IsValid c'
      × (contents c'.chain ≡ contents c.chain ++ contents other.chain)
unfolding steal_bufferchain
steal_bufferchain-contents c other v vo st =
    steal_loop-contents other.chain (length other.chain + 1) c other.size (omega arith) v vo st
