-- ===== src/Queue/Threads/Safety.antt =====
-- What the threads round a queue can rely on, from its creation on and under every schedule.
use c_http.Prelude.{
  ℕ, ◌≡◌, ◌≤◌, ◌<◌, List, [], ◌∷◌, ◌++◌, ok, none, some, Option, true, ◌==◌, length, arith, Bool,
  ◌^◌, ◌≢◌,
}
use native.Mathlib.Decide.{dec_lt}
use c_http.Queue.{Queue, queue_add, queue_remove, queue_new_with_capacity}
use c_http.Queue.Refine.{
  Represents, new-Represents, queue_add-full, queue_add-snoc, queue_remove-nil, queue_remove-cons,
}
use c_http.Queue.Threads.{System, add_waits, remove_waits, Reach, start}
use c_http.Queue.Threads.Inv.{Inv, Reach-Inv, start-Inv}

-- The result of a round of `Queue_add` in a state that stands for `contents`.
add-ok :
    (q : Queue) (contents : List ℕ) (sock : ℕ)
    → Represents q contents
    → (o : Option (Queue × Bool)) × (queue_add q sock ≡ ok o)
add-ok q contents sock r = elim (dec_lt (length contents) q.max_size) [
  | yes room ↦
      let (q', done, r', same) = queue_add-snoc q contents sock r room in
      (some (q', length contents == 0), done)
  | no full ↦ (none, queue_add-full q contents sock r (omega (arith, r.fits)))
]

remove-ok :
    (q : Queue) (contents : List ℕ)
    → Represents q contents
    → (o : Option (ℕ × Queue × Bool)) × (queue_remove q ≡ ok o)
remove-ok q [] r = (none, queue_remove-nil q r)
remove-ok q (k ∷ contents) r =
    let (q', done, r', same) = queue_remove-cons q k contents r in (some (k, q', true), done)

remove-blocks :
    (q : Queue) (contents : List ℕ)
    → Represents q contents
    → length contents ≡ 0
    → queue_remove q ≡ ok none
remove-blocks q [] r e = queue_remove-nil q r
remove-blocks q (k ∷ contents) r e = absurd (omega arith)

module _ (block : List ℕ) (capacity : ℕ) (enough : capacity ≤ length block)
    (positive : 0 < capacity) (small : capacity < 2 ^ 32) where
  reached : (s : System) → Reach (start (queue_new_with_capacity block capacity)) s → Inv s
  reached s r = Reach-Inv r (start-Inv _ (new-Represents block capacity enough positive small))

  -- In every reachable state the next round of `Queue_add` and of `Queue_remove` ends without a
  -- failed assertion, an access outside the array or a division by zero: it returns or it waits.
  pub queue_calls-safe :
      (s : System)
      → Reach (start (queue_new_with_capacity block capacity)) s
      → (sock : ℕ)
      → ((o : Option (Queue × Bool)) × (queue_add s.queue sock ≡ ok o))
        × ((o : Option (ℕ × Queue × Bool)) × (queue_remove s.queue ≡ ok o))
  queue_calls-safe s r sock =
      let v = reached s r in
      (add-ok s.queue v.contents sock v.represents, remove-ok s.queue v.contents v.represents)

  -- The sockets that `Queue_remove` calls have returned are the first ones that `Queue_add` calls
  -- put in, in the same order; `size` counts the others, and they are at most the capacity.
  pub queue-fifo :
      (s : System)
      → Reach (start (queue_new_with_capacity block capacity)) s
      → (rest : List ℕ) × (s.added ≡ s.removed ++ rest)
        × (s.queue.size ≡ length rest)
        × (length rest ≤ s.queue.max_size)
  queue-fifo s r =
      let v = reached s r in (v.contents, v.fifo, v.represents.count, v.represents.fits)

  -- No wake-up is lost: a thread sleeps in `Queue_add` only while a round of it would wait again.
  pub queue_add-none_missed :
      (s : System)
      → Reach (start (queue_new_with_capacity block capacity)) s
      → (i sock : ℕ) → s.threads i ≡ add_waits sock
      → queue_add s.queue sock ≡ ok none
  queue_add-none_missed s r i sock e =
      let v = reached s r in
      queue_add-full s.queue v.contents sock v.represents (v.none_missed.adders i sock e)

  -- A thread sleeps in `Queue_remove` only while a round of it would wait again.
  pub queue_remove-none_missed :
      (s : System)
      → Reach (start (queue_new_with_capacity block capacity)) s
      → (i : ℕ) → s.threads i ≡ remove_waits
      → queue_remove s.queue ≡ ok none
  queue_remove-none_missed s r i e =
      let v = reached s r in
      remove-blocks s.queue v.contents v.represents (v.none_missed.removers i e)

  -- The threads cannot all be stuck: while one sleeps in `Queue_add` none sleeps in `Queue_remove`.
  pub queue-no_deadlock :
      (s : System)
      → Reach (start (queue_new_with_capacity block capacity)) s
      → (i j sock : ℕ) → s.threads i ≡ add_waits sock
      → s.threads j ≢ remove_waits
  queue-no_deadlock s r i j sock e f =
      let v = reached s r in
      omega
        (arith, v.none_missed.adders i sock e, v.none_missed.removers j f, v.represents.some_room)
