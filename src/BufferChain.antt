-- ===== src/BufferChain.antt =====
-- http_in_c/common/buffer_chain.c: a list of IOBuffers and a running total of their data. The chain
-- owns its buffers, so they are values; `m_chain` is the sequence that common/list.c keeps, and
-- the iterator functions, which only pass list iterators on, are not modelled. `malloc n` is the block
-- that the allocator returns for `n` bytes during the call. `BufferChain_new` has no `return`: what it
-- builds is `empty_chain`.
pub mod Laws
pub mod Append
pub mod Whole
pub mod Move
pub mod Compare
mod Tests
use c_http.Prelude.{
  ℕ, zero, suc, ◌+◌, ◌*◌, List, [], ◌∷◌, ◌++◌, Option, none, some, Run, ok, fault, assert_failed,
  out_of_bounds, ◌>>=◌, ltb, ◌==◌, if◌then◌else◌, Bool, true, false, length, load,
}
use c_http.Prelude.Int.{ℤ, pos, negsuc, leb_ℤ, add_len, sub_len, is_positive}
use c_http.IoBuffer
use c_http.IoBuffer.{IoBuffer}

pub record BufferChain : Type 0 where
  pub chain : List IoBuffer
  pub size : ℤ

abbrev pub Malloc : Type 0
Malloc = ℕ → List ℕ

pub empty_chain : BufferChain
empty_chain = record { chain = []; size = pos 0 }

-- `List_last`, which is `NULL` on an empty list, and the write through that pointer.
abbrev pub last : List IoBuffer → Option IoBuffer
last [] = none
last (b ∷ []) = some b
last (b ∷ c ∷ rest) = last (c ∷ rest)

abbrev pub set_last : List IoBuffer → IoBuffer → List IoBuffer
set_last [] x = []
set_last (b ∷ []) x = x ∷ []
set_last (b ∷ c ∷ rest) x = b ∷ set_last (c ∷ rest) x

abbrev pub required_len : ℕ → ℕ
required_len len = if ltb (256 * 4 * 8) len then len + 100 else 256 * 4 * 8

-- The second half of `BufferChain_append`: a new buffer for the bytes.
pub append_new : Malloc → BufferChain → List ℕ → Run BufferChain
append_new malloc this buf = do
  let required = required_len (length buf)
  new_iob ← IoBuffer.data_add (IoBuffer.new_with_capacity (malloc (required + 1)) required) buf
  ok (record { chain = this.chain ++ new_iob ∷ []; size = add_len this.size (length buf) })

-- The first half, on the last buffer; `NULL` cannot be read through.
pub append_last : Malloc → BufferChain → List ℕ → Option IoBuffer → Run BufferChain
unfolding append_new
append_last malloc this buf none = fault out_of_bounds
append_last malloc this buf (some last_iob) =
    if leb_ℤ (length buf) (IoBuffer.space_len last_iob)
    then (do
      last_iob' ← IoBuffer.data_add last_iob buf
      ok (record { chain = set_last this.chain last_iob'; size = add_len this.size (length buf) }))
    else append_new malloc this buf

pub append : Malloc → BufferChain → List ℕ → Run BufferChain
unfolding append_new append_last
append malloc this buf =
    if is_positive this.size
    then append_last malloc this buf (last this.chain)
    else append_new malloc this buf

-- `BufferChain_append_IOBuffer`
pub append_io_buffer : Malloc → BufferChain → IoBuffer → Run BufferChain
unfolding append
append_io_buffer malloc this iobuf = IoBuffer.read_data iobuf >>= append malloc this

-- `BufferChain_append_cstr`: `cstr` is the bytes before the terminator.
pub append_cstr : Malloc → BufferChain → List ℕ → Run BufferChain
unfolding append
append_cstr malloc this cstr = append malloc this cstr

-- `BufferChain_clear` is `assert(false)`.
pub clear : BufferChain → Run BufferChain
clear bchain = fault assert_failed

pub compact_loop : List IoBuffer → IoBuffer → Run IoBuffer
compact_loop [] iob_final = ok iob_final
compact_loop (tmp ∷ rest) iob_final = do
  bytes ← IoBuffer.read_data tmp
  iob_final' ← IoBuffer.data_add iob_final bytes
  compact_loop rest iob_final'

-- A negative size is a request that `malloc` refuses; the buffer is then used after it was freed.
pub compact : Malloc → BufferChain → Run IoBuffer
unfolding compact_loop
compact malloc this = elim this.size [
  | pos required ↦
      compact_loop this.chain (IoBuffer.new_with_capacity (malloc (required + 1)) required)
  | negsuc n ↦ fault out_of_bounds
]

-- The inner loop of `BufferChain_eq_cstr`; `cstr` is the memory of the string, its terminator
-- included. `none` is `return false`.
pub eq_bytes : List ℕ → List ℕ → ℕ → Run (Option ℕ)
eq_bytes cstr [] cstr_index = ok (some cstr_index)
eq_bytes cstr (byte ∷ bytes) cstr_index = do
  c ← load cstr cstr_index
  let rest = eq_bytes cstr bytes (cstr_index + 1)
  if c == byte then rest else ok none

pub eq_loop : List ℕ → List IoBuffer → ℕ → Run Bool
unfolding eq_bytes
eq_loop cstr [] cstr_index = ok true
eq_loop cstr (tmp ∷ rest) cstr_index = do
  bytes ← IoBuffer.read_data tmp
  found ← eq_bytes cstr bytes cstr_index
  elim found [ none ↦ ok false | some next ↦ eq_loop cstr rest next ]

pub eq_cstr : BufferChain → List ℕ → Run Bool
unfolding eq_loop
eq_cstr this cstr = eq_loop cstr this.chain 0

-- `BufferChain_add_front` sets the size where `BufferChain_add_back` adds to it.
pub add_front : BufferChain → IoBuffer → BufferChain
add_front this iobuf = record { chain = iobuf ∷ this.chain; size = pos (IoBuffer.data_len iobuf) }

pub add_back : BufferChain → IoBuffer → BufferChain
add_back this iobuf = record {
  chain = this.chain ++ iobuf ∷ [];
  size = add_len this.size (IoBuffer.data_len iobuf);
}

pub front : BufferChain → Option IoBuffer
front this = elim this.chain [ [] ↦ none | b ∷ rest ↦ some b ]

pub pop_front : BufferChain → Option IoBuffer × BufferChain
pop_front this = elim this.chain [
  | [] ↦ (none, this)
  | b ∷ rest ↦ (some b, record { chain = rest; size = sub_len this.size (IoBuffer.data_len b) })
]

append_all : Malloc → BufferChain → List IoBuffer → Run BufferChain
unfolding add_back
append_all malloc this [] = ok this
append_all malloc this (iob ∷ rest) = do
  iob_dup ← IoBuffer.dup (malloc (iob.buffer_capacity + 1)) iob
  append_all malloc (add_back this iob_dup) rest

pub append_bufferchain : Malloc → BufferChain → BufferChain → Run BufferChain
unfolding append_all
append_bufferchain malloc this other = append_all malloc this other.chain

-- `other` loses its buffers one by one; `fuel` counts the calls of `BufferChain_pop_front`.
pub steal_loop : ℕ → BufferChain → BufferChain → Option (BufferChain × BufferChain)
unfolding pop_front add_back
steal_loop zero this other = none
steal_loop (suc fuel) this other =
    let (iob, other') = pop_front other in
    elim iob [ none ↦ some (this, other') | some b ↦ steal_loop fuel (add_back this b) other' ]

pub steal_bufferchain : BufferChain → BufferChain → Option (BufferChain × BufferChain)
unfolding steal_loop
steal_bufferchain this other = steal_loop (length other.chain + 1) this other
