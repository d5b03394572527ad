-- ===== src/Queue.antt =====
-- http_in_c/common/queue.c, as it is compiled (QUEUE_CIRCULAR, QUEUE_DYN_CAPACITY): the bounded
-- queue of sockets between the accepting thread and the workers. What a call does between
-- `pthread_mutex_lock` and `pthread_mutex_unlock` is one function; `Queue.Threads` has the waiting.
-- Sockets are only moved. The fields are `uint32_t`, and their arithmetic wraps.
pub mod Refine
pub mod Threads
mod Tests
use c_http.Prelude.{
  ℕ, ◌+◌, ◌-◌, ◌%◌, ◌^◌, List, Option, none, some, Run, ok, fault, div_by_zero, ◌>>=◌, ◌>>◌, check,
  load, store, leb, ltb, ◌==◌, not, if◌then◌else◌, Bool, true, false, ◌&&◌,
}

-- `struct Queue_s`, less the mutex and the two condition variables.
pub record Queue : Type 0 where
  pub q : List ℕ
  pub size : ℕ
  pub max_size : ℕ
  pub next : ℕ
  pub first : ℕ
  pub full : Bool

abbrev pub u32 : ℕ → ℕ
u32 n = n % 2 ^ 32

-- `(i + 1) % max_size` on `uint32_t`
abbrev pub advance : ℕ → ℕ → Run ℕ
advance i max_size = if max_size == 0 then fault div_by_zero else ok (u32 (i + 1) % max_size)

pub q_size : Queue → ℕ
q_size q =
    if leb q.first q.next
    then u32 (q.next + 2 ^ 32 - q.first)
    else u32 (u32 (q.next + q.max_size) + 2 ^ 32 - q.first)

abbrev pub is_full : Queue → Bool
is_full q = (q.first == q.next) && ltb 0 q.size

abbrev pub is_empty : Queue → Bool
is_empty q = (q.first == q.next) && (q.size == 0)

-- Each of these sets `full` after it has moved the index.
abbrev pub advance_next_pointer : Queue → Run Queue
advance_next_pointer q = do
  check (not (is_full q))
  next ← advance q.next q.max_size
  let q' = record q { next = next }
  ok (record q' { full = is_full q' })

abbrev pub advance_first_pointer : Queue → Run Queue
advance_first_pointer q = do
  check (not (is_empty q))
  first ← advance q.first q.max_size
  let q' = record q { first = first }
  ok (record q' { full = is_full q' })

-- `block` is the memory that `malloc(sizeof(SocketFD) * max_size)` returns. The `size_t` capacity is
-- stored in a `uint32_t`.
pub queue_new_with_capacity : (block : List ℕ) → ℕ → Queue
queue_new_with_capacity block capacity = record {
  q = block;
  size = 0;
  max_size = u32 capacity;
  next = 0;
  first = 0;
  full = false;
}

-- QUEUE_DEFAULT_SIZE
abbrev pub default_size : ℕ
default_size = 10000

pub queue_new : (block : List ℕ) → Queue
unfolding queue_new_with_capacity
queue_new block = queue_new_with_capacity block default_size

-- The loop test of `Queue_remove`: `none` is a thread that waits. Otherwise the socket, the new
-- queue, and whether `not_full_cv` is broadcast.
pub queue_remove : Queue → Run (Option (ℕ × Queue × Bool))
queue_remove q = if is_empty q then ok none else do
  r ← load q.q q.first
  q' ← advance_first_pointer q
  let q'' = record q' { size = u32 (q'.size + 2 ^ 32 - 1) }
  ok (some (r, q'', ltb q''.size q''.max_size))

-- The same for `Queue_add`, with `not_empty_cv`.
pub queue_add : Queue → ℕ → Run (Option (Queue × Bool))
queue_add q sock = if q.size == q.max_size then ok none else do
  block ← store q.q q.next sock
  q' ← advance_next_pointer (record q { q = block })
  let q'' = record q' { size = u32 (q'.size + 1) }
  ok (some (q'', q''.size == 1))
