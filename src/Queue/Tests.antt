-- ===== src/Queue/Tests.antt =====
-- A queue of one socket, with a thread that adds and another that waits.
use c_http.Prelude.{
  ℕ, ◌≡◌, ◌≢◌, ◌≤◌, refl, List, [], ◌∷◌, Option, none, some, Bool, true, false, ok, arith, length,
}
use c_http.Queue.{Queue, queue_new_with_capacity, queue_add, queue_remove}
use c_http.Queue.Threads.{
  Thread, idle, adding, add_waits, removing, remove_waits, System, call_add, call_remove,
  add_blocks, add_returns, remove_blocks, Reach, here, next, start, update, broadcast_not_empty,
}
use c_http.Queue.Threads.Safety.{
  queue_calls-safe, queue-fifo, queue_add-none_missed, queue-no_deadlock,
}

abbrev block : List ℕ
block = 0 ∷ []

abbrev tiny : Queue
tiny = queue_new_with_capacity block 1

abbrev filled : Queue
filled = record { q = 5 ∷ []; size = 1; max_size = 1; next = 0; first = 0; full = false }

abbrev with_thread : System → ℕ → Thread → System
with_thread s i t = record s { threads = update s.threads i t }

tiny_empty : queue_remove tiny ≡ ok none
unfolding queue_remove queue_new_with_capacity
tiny_empty = refl

tiny_add : queue_add tiny 5 ≡ ok (some (filled, true))
unfolding queue_add queue_new_with_capacity
tiny_add = refl

filled_full : queue_add filled 6 ≡ ok none
unfolding queue_add
filled_full = refl

-- Thread 1 waits for a socket.
abbrev remover_waits : System
remover_waits = with_thread (with_thread (start tiny) 1 removing) 1 remove_waits

remover_waits-Reach : Reach (start tiny) remover_waits
remover_waits-Reach = next (next here (call_remove 1 refl)) (remove_blocks 1 refl tiny_empty)

-- Thread 0 has put socket 5 in.
abbrev one_added : System
one_added = record {
  queue = filled;
  threads =
      update (broadcast_not_empty true (with_thread (start tiny) 0 (adding 5)).threads) 0 idle;
  added = 5 ∷ [];
  removed = [];
}

one_added-Reach : Reach (start tiny) one_added
one_added-Reach = next (next here (call_add 0 5 refl)) (add_returns 0 5 filled true refl tiny_add)

-- Then thread 1 waits for room.
abbrev adder_waits : System
adder_waits = with_thread (with_thread one_added 1 (adding 6)) 1 (add_waits 6)

adder_waits-Reach : Reach (start tiny) adder_waits
adder_waits-Reach =
    next (next one_added-Reach (call_add 1 6 refl)) (add_blocks 1 6 refl filled_full)

queue_calls-safe_example :
    ((o : Option (Queue × Bool)) × (queue_add filled 8 ≡ ok o))
    × ((o : Option (ℕ × Queue × Bool)) × (queue_remove filled ≡ ok o))
queue_calls-safe_example =
    queue_calls-safe block 1 (omega arith) (omega arith) (omega arith) adder_waits adder_waits-Reach
      8

queue-fifo_example : (rest : List ℕ) × (5 ∷ [] ≡ rest) × (1 ≡ length rest) × (length rest ≤ 1)
queue-fifo_example =
    queue-fifo block 1 (omega arith) (omega arith) (omega arith) adder_waits adder_waits-Reach

queue_add-none_missed_example : queue_add filled 6 ≡ ok none
queue_add-none_missed_example =
    queue_add-none_missed block 1 (omega arith) (omega arith) (omega arith) adder_waits
      adder_waits-Reach 1 6 refl

queue-no_deadlock_example : adder_waits.threads 2 ≢ remove_waits
queue-no_deadlock_example =
    queue-no_deadlock block 1 (omega arith) (omega arith) (omega arith) adder_waits
      adder_waits-Reach 1 2 6 refl
