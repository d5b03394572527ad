-- ===== src/Cbuffer.antt =====
-- http_in_c/common/cbuffer.c: a growing contiguous buffer with a terminator behind its bytes. The
-- memory slab is a list of bytes; `m_cPtr` is always `m_memPtr`, and a pointer into the slab is its
-- distance from it. `malloc` succeeds and `malloc n` is the block that it returns for `n` bytes; the
-- live buffers of the model have a slab and the right tag, which CB_CHECK_TAG asserts.
pub mod Laws
pub mod Append
pub mod Moves
pub mod Holds
mod Tests
use c_http.Prelude.{
  ℕ, ◌+◌, ◌*◌, List, Run, ok, fault, ◌>>=◌, ◌>>◌, check, memcpy, load, store, take, overwrite, leb,
  ◌==◌, if◌then◌else◌, Bool, ◌&&◌, length,
}

-- `struct BufferStrategy_s`
pub record BufferStrategy : Type 0 where
  pub min_size : ℕ
  pub max_size : ℕ

abbrev pub common_strategy : BufferStrategy
common_strategy = record { min_size = 256; max_size = 1024 * 1024 }

-- `struct Cbuffer_s`; every buffer has the common strategy.
pub record Cbuffer : Type 0 where
  pub mem : List ℕ
  pub m_length : ℕ
  pub m_capacity : ℕ
  pub m_size : ℕ

abbrev pub Malloc : Type 0
Malloc = ℕ → List ℕ

abbrev pub max_of_two : ℕ → ℕ → ℕ
max_of_two a b = if leb b a then a else b

abbrev pub min_of_two : ℕ → ℕ → ℕ
min_of_two a b = if leb a b then a else b

-- `BufferStrategy_allocate`
abbrev pub allocate : Malloc → BufferStrategy → ℕ → Run (List ℕ)
allocate malloc bs required_size = do
  check (leb required_size bs.max_size)
  ok (malloc (max_of_two required_size bs.min_size))

-- `BufferStrategy_reallocate_size`
abbrev pub reallocate_size : BufferStrategy → ℕ → ℕ → Run ℕ
reallocate_size bs current_capacity requested_new_size = do
  check (leb requested_new_size bs.max_size)
  ok (max_of_two requested_new_size (min_of_two bs.max_size (2 * current_capacity)))

-- `BufferStrategy_reallocate`: `realloc` keeps the bytes of the old block.
abbrev pub reallocate : Malloc → BufferStrategy → List ℕ → ℕ → Run (List ℕ)
reallocate malloc bs mem new_size = do
  check (leb new_size bs.max_size)
  ok (overwrite (malloc new_size) (take new_size mem))

pub new : Malloc → Run Cbuffer
new malloc = do
  let tmp_cap = common_strategy.min_size
  mem ← allocate malloc common_strategy tmp_cap
  ok (record { mem = mem; m_length = 0; m_capacity = tmp_cap; m_size = 0 })

-- The first half of `Cbuffer_append`: room for `len` more bytes.
pub grow : Malloc → Cbuffer → ℕ → Run Cbuffer
grow malloc cbuf len =
    if leb cbuf.m_capacity (cbuf.m_length + len)
    then (do
      new_capacity ← reallocate_size common_strategy cbuf.m_capacity (cbuf.m_length + len)
      mem ← reallocate malloc common_strategy cbuf.mem new_capacity
      ok (record cbuf { mem = mem; m_capacity = new_capacity }))
    else ok cbuf

-- The second half: the bytes and the terminator.
pub put : Cbuffer → List ℕ → Run Cbuffer
put cbuf bytes = do
  mem ← memcpy cbuf.mem cbuf.m_length bytes
  let n = cbuf.m_length + length bytes
  mem' ← store mem n 0
  ok (record cbuf { mem = mem'; m_length = n; m_size = n })

pub append : Malloc → Cbuffer → List ℕ → Run Cbuffer
append malloc cbuf bytes =
    if length bytes == 0
    then ok cbuf
    else grow malloc cbuf (length bytes) >>= λ roomy. put roomy bytes

-- `Cbuffer_append_cstr` and `Cbuffer_from_cstring`: the string is its bytes before the terminator.
pub append_cstr : Malloc → Cbuffer → List ℕ → Run Cbuffer
unfolding append
append_cstr malloc cbuf cstr = append malloc cbuf cstr

pub from_cstring : Malloc → List ℕ → Run Cbuffer
from_cstring malloc c_str = do cbuf ← new malloc; append malloc cbuf c_str

-- `Cbuffer_clear` sets `m_length` twice and `m_size` never.
pub clear : Cbuffer → Run Cbuffer
clear cbuf = do mem ← store cbuf.mem 0 0; ok (record cbuf { m_length = 0; mem = mem })

pub set_size : Cbuffer → ℕ → Cbuffer
set_size cbuf n = record cbuf { m_length = n; m_size = n }

abbrev pub size : Cbuffer → ℕ
size cbuf = cbuf.m_length

-- `Cbuffer_cstr`: the assertion; the result is the slab itself.
pub cstr : Cbuffer → Run (List ℕ)
cstr this = do terminator ← load this.mem this.m_size; check (terminator == 0); ok this.mem

-- `Cbuffer_move` of two different buffers: the new `dest` and `src`.
pub move : Cbuffer → Cbuffer → Run (Cbuffer × Cbuffer)
unfolding clear
move dest src = do dest' ← clear dest; src' ← clear dest'; ok (src, src')

-- `Cbuffer_contains_charptr`, on addresses: `base` is that of the slab.
pub contains_charptr : ℕ → Cbuffer → ℕ → Bool
contains_charptr base cbuf ptr = leb ptr (base + cbuf.m_capacity) && leb base ptr
