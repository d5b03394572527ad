-- ===== src/IoBuffer.antt =====
-- http_in_c/common/iobuffer.c: a fixed block of memory with a stretch of unconsumed data in it.
-- A pointer into the block is its distance from `mem_p`. Sizes that the callers give (`int`
-- parameters) are not negative. `malloc` succeeds: the block that it returns is an argument. The tag
-- checks are compiled out unless CH_TAG_CHECK_ON is defined and are left out.
pub mod Laws
pub mod Moves
pub mod Terminator
mod Tests
use c_http.Prelude.{
  ℕ, ◌+◌, ◌-◌, ◌*◌, List, [], ◌∷◌, Run, ok, fault, ◌>>=◌, ◌>>◌, check, memcpy, read, store, slice,
  leb, ltb, ◌==◌, if◌then◌else◌, Bool, true, false, length, ◌&&◌,
}
use c_http.Prelude.Int.{ℤ, sub_ℕ, leb_ℤ}

-- `struct IOBuffer_s`; `mem` is the block at `mem_p`.
pub record IoBuffer : Type 0 where
  pub mem : List ℕ
  pub char_p : ℕ
  pub allocated_capacity : ℕ
  pub buffer_capacity : ℕ
  pub buffer_ptr : ℕ
  pub buffer_length : ℕ
  pub buffer_remaining : ℕ

-- `IOBuffer_init` and `IOBuffer_new_with_capacity`: `block` holds `capacity + 1` bytes.
unfoldable pub new_with_capacity : (block : List ℕ) → ℕ → IoBuffer
new_with_capacity block capacity = record {
  mem = block;
  char_p = 0;
  allocated_capacity = capacity + 1;
  buffer_capacity = capacity;
  buffer_ptr = 0;
  buffer_length = capacity;
  buffer_remaining = 0;
}

-- IOBUFFER_DEFAULT_CAPACITY
abbrev pub default_capacity : ℕ
default_capacity = 4 * 1024

pub new : (block : List ℕ) → IoBuffer
unfolding new_with_capacity
new block = new_with_capacity block default_capacity

-- `IOBuffer_data` and `IOBuffer_data_len` together: the bytes that a reader of the data reads.
abbrev pub data_len : IoBuffer → ℕ
data_len this = this.buffer_remaining

abbrev pub read_data : IoBuffer → Run (List ℕ)
read_data this = read this.mem this.buffer_ptr this.buffer_remaining

abbrev pub space : IoBuffer → ℕ
space this = this.buffer_ptr + this.buffer_remaining

abbrev pub space_len : IoBuffer → ℤ
space_len this = sub_ℕ this.buffer_capacity (this.buffer_ptr + this.buffer_remaining)

-- The terminator goes to `mem_p + buffer_remaining`, not to `buffer_ptr + buffer_remaining`.
pub commit : IoBuffer → ℕ → Run IoBuffer
commit this bytes_used = do
  check (ltb 0 bytes_used)
  let remaining = this.buffer_remaining + bytes_used
  mem ← store this.mem remaining 0
  ok (record this { mem = mem; buffer_remaining = remaining })

unfoldable pub data_add : IoBuffer → List ℕ → Run IoBuffer
data_add this p = do
  check (leb_ℤ (length p) (space_len this))
  mem ← memcpy this.mem (space this) p
  commit (record this { mem = mem }) (length p)

-- `IOBuffer_from_buf`; `IOBuffer_from_cstring` passes the bytes before the terminator.
pub from_buf : (block : List ℕ) → List ℕ → Run IoBuffer
from_buf block buf = do
  let this = new_with_capacity block (length buf * 2)
  mem ← memcpy this.mem (space this) buf
  commit (record this { mem = mem }) (length buf)

-- `block` holds `buffer_capacity + 1` bytes.
pub dup : (block : List ℕ) → IoBuffer → Run IoBuffer
dup block this = do
  let fresh = new_with_capacity block this.buffer_capacity
  bytes ← read this.mem 0 this.allocated_capacity
  mem ← memcpy fresh.mem 0 bytes
  ok (record fresh {
    buffer_capacity = this.buffer_capacity;
    allocated_capacity = this.allocated_capacity;
    buffer_remaining = this.buffer_remaining;
    mem = mem;
    buffer_ptr = this.buffer_ptr;
    char_p = this.buffer_ptr;
  })

-- `buffer_length` is the one field that is not taken over from `tmp`.
pub consolidate_space : (block : List ℕ) → IoBuffer → Run IoBuffer
consolidate_space block this = do
  bytes ← read_data this
  tmp ← data_add (new_with_capacity block this.buffer_capacity) bytes
  ok (record {
    mem = tmp.mem;
    char_p = 0;
    allocated_capacity = tmp.allocated_capacity;
    buffer_capacity = tmp.buffer_capacity;
    buffer_ptr = tmp.buffer_ptr;
    buffer_length = this.buffer_length;
    buffer_remaining = tmp.buffer_remaining;
  })

-- The second assertion is on `buffer_remaining - byte_count`.
unfoldable pub consume : IoBuffer → ℕ → Run IoBuffer
consume this byte_count = do
  let ptr = this.buffer_ptr + byte_count
  check (leb ptr this.buffer_capacity)
  check (leb byte_count this.buffer_remaining)
  let remaining = this.buffer_remaining - byte_count
  ok (record this {
    buffer_ptr = (if remaining == 0 then 0 else ptr);
    buffer_remaining = remaining;
  })

pub reset : IoBuffer → IoBuffer
reset this = record this { buffer_ptr = 0; buffer_remaining = 0 }

pub empty : IoBuffer → Bool
empty this = this.buffer_remaining == 0

-- `strncmp(a, b, n) == 0` on the first `n` bytes of each: equal, or equal up to a terminator.
abbrev pub strncmp_eq : List ℕ → List ℕ → Bool
strncmp_eq [] ys = true
strncmp_eq (x ∷ xs) [] = true
strncmp_eq (x ∷ xs) (y ∷ ys) = if x == y then (if x == 0 then true else strncmp_eq xs ys) else false

pub equal : IoBuffer → IoBuffer → Run Bool
equal a b =
    if a.buffer_remaining == b.buffer_remaining
    then (do x ← read_data a; y ← read_data b; ok (strncmp_eq x y))
    else ok false
