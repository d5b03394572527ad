-- ===== src/IoBuffer/Moves.antt =====
-- What `IOBuffer_consume`, `IOBuffer_reset`, `IOBuffer_dup` and `IOBuffer_consolidate_space` do to the
-- data of a buffer.
use c_http.Prelude.{
  ℕ, ◌+◌, ◌-◌, ◌≤◌, ◌<◌, ◌≡◌, refl, List, [], ok, fault, assert_failed, arith, length, drop, slice,
  if◌then◌else◌, ◌==◌, drop-slice, leb-true, take-ge, overwrite-all, sym, ◌∙◌, Bool-cases, inl, inr,
  ◌*◌, splice, length-splice, slice-splice,
}
use c_http.IoBuffer.{IoBuffer, new_with_capacity, from_buf, dup, consolidate_space, consume, reset}
use c_http.IoBuffer.Laws.{
  IsValid, bytes, length-bytes, new-IsValid, read_data-bytes, data_add_lem, data_add-refused,
  commit_lem,
}

slice-empty : (mem : List ℕ) (i j m : ℕ) → m ≡ 0 → slice i m mem ≡ slice j m mem
slice-empty mem i j m e = rw e

-- `consume` drops the bytes from the front; of more than there are it stops at an assertion.
pub consume_lem :
    (b : IoBuffer) (n : ℕ)
    → IsValid b
    → n ≤ b.buffer_remaining
    → (b' : IoBuffer) × (consume b n ≡ ok b') × IsValid b' × (bytes b' ≡ drop n (bytes b))
unfolding consume
consume_lem b n v h =
    let m = b.buffer_remaining - n in
    let rest =
      drop-slice b.mem b.buffer_ptr b.buffer_remaining n (b.buffer_ptr + n) m refl (omega arith) in
    (
      record b { buffer_ptr = (if m == 0 then 0 else b.buffer_ptr + n); buffer_remaining = m },
      ground (arith, v),
      ground (arith, v),
      elim (Bool-cases (m == 0)) [
        | inl last ↦ rw last (slice-empty b.mem 0 (b.buffer_ptr + n) m (ground arith) ∙ sym rest)
        | inr more ↦ rw more (sym rest)
      ],
    )

-- `IOBuffer_consume` keeps the capacity, and an empty buffer starts at the start of its block.
pub consume-start :
    (b : IoBuffer) (n : ℕ) {b' : IoBuffer}
    → consume b n ≡ ok b'
    → (b'.buffer_capacity ≡ b.buffer_capacity) × (b'.buffer_remaining ≡ 0 → b'.buffer_ptr ≡ 0)
unfolding consume
consume-start b n e = (ground arith, λ h. ground arith)

pub consume-too_many :
    (b : IoBuffer) (n : ℕ) → b.buffer_remaining < n → consume b n ≡ fault assert_failed
unfolding consume
consume-too_many b n h = ground arith

-- `reset` keeps the block and forgets the data.
pub reset_lem : (b : IoBuffer) → IsValid b → IsValid (reset b) × (bytes (reset b) ≡ [])
unfolding reset
reset_lem b v = (ground (arith, v), refl)

-- A copy has the same data and capacity, and its own block.
pub dup_lem :
    (block : List ℕ) (b : IoBuffer)
    → IsValid b
    → length block ≡ b.buffer_capacity + 1
    → (b' : IoBuffer) × (dup block b ≡ ok b')
      × IsValid b'
      × (bytes b' ≡ bytes b)
      × (b'.buffer_ptr ≡ b.buffer_ptr)
unfolding dup new_with_capacity
dup_lem block b v h =
    let whole = take-ge b.mem b.allocated_capacity (omega (arith, v)) in
    (
      record b { char_p = b.buffer_ptr; buffer_length = b.buffer_capacity },
      rw (
        leb-true (0 + b.allocated_capacity) (length b.mem) (omega (arith, v)),
        whole,
        leb-true (0 + length b.mem) (length block) (omega (arith, v)),
        overwrite-all block b.mem (omega (arith, v)),
      ),
      ground (arith, v),
      refl,
      refl,
    )

-- Consolidating moves the data to the start of a new block of the same capacity.
pub consolidate_space_lem :
    (block : List ℕ) (b : IoBuffer)
    → IsValid b
    → 0 < b.buffer_remaining
    → length block ≡ b.buffer_capacity + 1
    → (b' : IoBuffer) × (consolidate_space block b ≡ ok b')
      × IsValid b'
      × (bytes b' ≡ bytes b)
      × (b'.buffer_ptr ≡ 0)
      × (b'.buffer_capacity ≡ b.buffer_capacity)
unfolding consolidate_space new_with_capacity
consolidate_space_lem block b v some_data h =
    let fresh = new_with_capacity block b.buffer_capacity in
    let len = length-bytes b v in
    let (t, done, v', grown, ptr, cap, rem) =
      data_add_lem fresh (bytes b) (new-IsValid block b.buffer_capacity h) (omega arith)
        (omega arith) in
    (
      record t { char_p = 0; buffer_length = b.buffer_length },
      rw (read_data-bytes b v, done),
      ground (arith, v'),
      grown,
      ptr,
      cap,
    )

-- Without data `consolidate_space` stops at the assertion in `commit`.
pub consolidate_space-empty :
    (block : List ℕ) (b : IoBuffer)
    → IsValid b
    → b.buffer_remaining ≡ 0
    → length block ≡ b.buffer_capacity + 1
    → consolidate_space block b ≡ fault assert_failed
unfolding consolidate_space new_with_capacity
consolidate_space-empty block b v none_left h = rw (read_data-bytes b v) (
    ground (
      arith,
      data_add-refused (new_with_capacity block b.buffer_capacity) (bytes b)
          (new-IsValid block b.buffer_capacity h) (inl (omega (arith, length-bytes b v))),
    ))

-- A buffer made from bytes holds them.
pub from_buf_lem :
    (block buf : List ℕ)
    → 0 < length buf
    → length block ≡ length buf * 2 + 1
    → (b : IoBuffer) × (from_buf block buf ≡ ok b)
      × IsValid b
      × (bytes b ≡ buf)
      × (b.buffer_remaining ≡ length buf)
unfolding from_buf new_with_capacity
from_buf_lem block buf some_bytes h =
    let n = length buf in
    let fresh = new_with_capacity block (n * 2) in
    let filled = record fresh { mem = splice block 0 buf } in
    let valid : IsValid filled = record {
      block = omega (arith, length-splice block 0 buf);
      allocated = refl;
      inside = omega arith;
    } in
    let (b, done, v, all, ptr, cap, rem) = commit_lem filled n valid some_bytes (omega arith) in
    (
      b,
      rw (leb-true (0 + n) (length block) (omega arith)) done,
      v,
      all ∙ slice-splice block 0 0 0 (0 + n) buf refl (omega arith) (omega arith),
      omega (arith, rem),
    )
