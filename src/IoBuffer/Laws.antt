-- ===== src/IoBuffer/Laws.antt =====
-- The representation invariant of an IOBuffer and what each operation does to the data in it.
use c_http.Prelude.{
  ℕ, ◌+◌, ◌-◌, ◌≤◌, ◌<◌, ◌≡◌, refl, List, [], ◌++◌, ok, fault, assert_failed, arith, length, slice,
  splice, set, if◌then◌else◌, leb, ◌==◌, length-set, length-splice, length-slice, slice-splice,
  slice-set_after, slice-set_before, slice-set_inside, leb-true, leb-false, ap, ◌∙◌, Bool-cases,
  ◌⊎◌, inl, inr,
}
use native.Mathlib.Decide.{dec_lt}
use c_http.IoBuffer.{IoBuffer, new_with_capacity, commit, data_add, read_data, space}

-- The block is one byte larger than the capacity, and the data stand inside the capacity.
pub record IsValid (b : IoBuffer) : Type 0 where
  pub block : length b.mem ≡ b.buffer_capacity + 1
  pub allocated : b.allocated_capacity ≡ b.buffer_capacity + 1
  pub inside : b.buffer_ptr + b.buffer_remaining ≤ b.buffer_capacity

-- The unconsumed bytes.
abbrev pub bytes : IoBuffer → List ℕ
bytes b = slice b.buffer_ptr b.buffer_remaining b.mem

pub length-bytes : (b : IoBuffer) → IsValid b → length (bytes b) ≡ b.buffer_remaining
length-bytes b v = length-slice b.mem b.buffer_ptr b.buffer_remaining (omega (arith, v))

pub new-IsValid :
    (block : List ℕ) (capacity : ℕ)
    → length block ≡ capacity + 1
    → IsValid (new_with_capacity block capacity)
unfolding new_with_capacity
new-IsValid block capacity h = ground arith

pub new_lem :
    (block : List ℕ) (capacity : ℕ)
    → let b = new_with_capacity block capacity in
      (b.buffer_ptr ≡ 0)
      × (b.buffer_remaining ≡ 0)
      × (b.buffer_capacity ≡ capacity)
      × (bytes b ≡ [])
unfolding new_with_capacity
new_lem block capacity = (refl, refl, refl, refl)

pub read_data-bytes : (b : IoBuffer) → IsValid b → read_data b ≡ ok (bytes b)
read_data-bytes b v = ground (arith, v)

-- The terminator that `commit` writes lands in the data, unless the data start at `mem_p` or far
-- enough from it.
abbrev pub clobber : ℕ → List ℕ → List ℕ
clobber offset data_bytes =
    if offset == 0
    then data_bytes
    else if leb offset (length data_bytes)
    then set data_bytes (length data_bytes - offset) 0
    else data_bytes

-- What the terminator at `mem_p + n` does to the `n` bytes of data from `o` on.
slice-terminator :
    (mem : List ℕ) (o n : ℕ)
    → o + n ≤ length mem
    → slice o n (set mem n 0) ≡ clobber o (slice o n mem)
slice-terminator mem o n h = elim (Bool-cases (o == 0)) [
  | inl start ↦ rw start (slice-set_after mem o n n 0 (ground arith))
  | inr moved ↦ elim (dec_lt n o) [
    | yes far ↦
        rw (moved, length-slice mem o n h, leb-false o n far) (slice-set_before mem o n n 0 far)
    | no near ↦
        rw (moved, length-slice mem o n h, leb-true o n (omega arith))
          (slice-set_inside mem o n n (n - o) 0 (omega arith) (ground arith))
  ]
]

-- `commit` when the block has been filled behind the data: the data grow over what was written, and
-- the terminator goes to `mem_p + buffer_remaining`.
pub commit_lem :
    (b : IoBuffer) (n : ℕ)
    → IsValid b
    → 0 < n
    → space b + n ≤ b.buffer_capacity
    → (b' : IoBuffer) × (commit b n ≡ ok b')
      × IsValid b'
      × (bytes b' ≡ clobber b.buffer_ptr (slice b.buffer_ptr (b.buffer_remaining + n) b.mem))
      × (b'.buffer_ptr ≡ b.buffer_ptr)
      × (b'.buffer_capacity ≡ b.buffer_capacity)
      × (b'.buffer_remaining ≡ b.buffer_remaining + n)
unfolding commit
commit_lem b n v pos room =
    let r = b.buffer_remaining + n in
    (
      record b { mem = set b.mem r 0; buffer_remaining = r },
      ground (arith, v),
      record {
        block = omega (arith, length-set b.mem r 0, v.block);
        allocated = v.allocated;
        inside = omega arith;
      },
      slice-terminator b.mem b.buffer_ptr r (omega (arith, v)),
      refl,
      refl,
      refl,
    )

-- `data_add` with room appends the bytes; if the data do not start at `mem_p`, the terminator may
-- fall on one of them.
pub data_add_lem :
    (b : IoBuffer) (p : List ℕ)
    → IsValid b
    → 0 < length p
    → space b + length p ≤ b.buffer_capacity
    → (b' : IoBuffer) × (data_add b p ≡ ok b')
      × IsValid b'
      × (bytes b' ≡ clobber b.buffer_ptr (bytes b ++ p))
      × (b'.buffer_ptr ≡ b.buffer_ptr)
      × (b'.buffer_capacity ≡ b.buffer_capacity)
      × (b'.buffer_remaining ≡ b.buffer_remaining + length p)
unfolding data_add
data_add_lem b p v pos room =
    let filled = record b { mem = splice b.mem (space b) p } in
    let valid : IsValid filled = record {
      block = omega (arith, length-splice b.mem (space b) p, v.block);
      allocated = v.allocated;
      inside = v.inside;
    } in
    let (b', done, v', grown, ptr, cap, rem) = commit_lem filled (length p) valid pos room in
    (
      b',
      rw
          (
            leb-true (space b) b.buffer_capacity v.inside,
            leb-true (length p) (b.buffer_capacity - space b) (omega arith),
            leb-true (space b + length p) (length b.mem) (omega (arith, v)),
          )
          done,
      v',
      grown
          ∙ ap (clobber b.buffer_ptr) (
              slice-splice b.mem b.buffer_ptr b.buffer_remaining (space b) _ p refl refl
                (omega (arith, v))),
      ptr,
      cap,
      rem,
    )

-- Without room, or with nothing to add, `data_add` stops at an assertion.
pub data_add-refused :
    (b : IoBuffer) (p : List ℕ)
    → IsValid b
    → (length p ≡ 0) ⊎ (b.buffer_capacity < space b + length p)
    → data_add b p ≡ fault assert_failed
unfolding data_add commit
data_add-refused b p v h = ground (arith, v, h)
