-- ===== src/Queue/Threads.antt =====
-- Threads that call `Queue_add` and `Queue_remove` of common/queue.c. The mutex makes each round of
-- a call's loop one step; `pthread_cond_wait` puts the thread to sleep until a broadcast (or, as
-- POSIX allows, wakes it for no reason), after which it tests the loop condition again.
pub mod Inv
pub mod Safety
use c_http.Prelude.{ℕ, ◌≡◌, List, [], ◌∷◌, ◌++◌, Run, ok, none, some, Bool, ◌==◌, if◌then◌else◌}
use c_http.Queue.{Queue, queue_add, queue_remove}

-- What a thread is doing with the queue.
pub data Thread : Type 0 where
  idle : Thread
  adding : ℕ → Thread
  add_waits : ℕ → Thread
  removing : Thread
  remove_waits : Thread

-- `added` and `removed` record the sockets of the calls that have returned, in order.
pub record System : Type 0 where
  pub queue : Queue
  pub threads : ℕ → Thread
  pub added : List ℕ
  pub removed : List ℕ

abbrev pub Threads : Type 0
Threads = ℕ → Thread

abbrev pub update : Threads → ℕ → Thread → Threads
update threads i t j = if j == i then t else threads j

abbrev pub wake_adder : Thread → Thread
wake_adder idle = idle
wake_adder (adding sock) = adding sock
wake_adder (add_waits sock) = adding sock
wake_adder removing = removing
wake_adder remove_waits = remove_waits

abbrev pub wake_remover : Thread → Thread
wake_remover idle = idle
wake_remover (adding sock) = adding sock
wake_remover (add_waits sock) = add_waits sock
wake_remover removing = removing
wake_remover remove_waits = removing

-- `if(…) pthread_cond_broadcast(&not_full_cv)`, which wakes every thread that waits there.
abbrev pub broadcast_not_full : Bool → Threads → Threads
broadcast_not_full b threads i = if b then wake_adder (threads i) else threads i

abbrev pub broadcast_not_empty : Bool → Threads → Threads
broadcast_not_empty b threads i = if b then wake_remover (threads i) else threads i

pub data Step (s : System) : System → Type 0 where
  call_add :
      (i sock : ℕ)
      → s.threads i ≡ idle
      → Step s (record s { threads = update s.threads i (adding sock) })
  call_remove :
      (i : ℕ) → s.threads i ≡ idle → Step s (record s { threads = update s.threads i removing })
  spurious_add :
      (i sock : ℕ)
      → s.threads i ≡ add_waits sock
      → Step s (record s { threads = update s.threads i (adding sock) })
  spurious_remove :
      (i : ℕ)
      → s.threads i ≡ remove_waits
      → Step s (record s { threads = update s.threads i removing })
  add_blocks :
      (i sock : ℕ)
      → s.threads i ≡ adding sock
      → queue_add s.queue sock ≡ ok none
      → Step s (record s { threads = update s.threads i (add_waits sock) })
  add_returns :
      (i sock : ℕ) (q : Queue) (signal : Bool)
      → s.threads i ≡ adding sock
      → queue_add s.queue sock ≡ ok (some (q, signal))
      → Step s (record {
        queue = q;
        threads = update (broadcast_not_empty signal s.threads) i idle;
        added = s.added ++ sock ∷ [];
        removed = s.removed;
      })
  remove_blocks :
      (i : ℕ)
      → s.threads i ≡ removing
      → queue_remove s.queue ≡ ok none
      → Step s (record s { threads = update s.threads i remove_waits })
  remove_returns :
      (i sock : ℕ) (q : Queue) (signal : Bool)
      → s.threads i ≡ removing
      → queue_remove s.queue ≡ ok (some (sock, q, signal))
      → Step s (record {
        queue = q;
        threads = update (broadcast_not_full signal s.threads) i idle;
        added = s.added;
        removed = s.removed ++ sock ∷ [];
      })

pub data Reach (s : System) : System → Type 0 where
  here : Reach s s
  next : {t u : System} → Reach s t → Step t u → Reach s u

-- A queue that `Queue_new_with_capacity` returned, before any thread uses it.
abbrev pub start : Queue → System
start q = record { queue = q; threads = λ _. idle; added = []; removed = [] }
