-- ===== src/EvfdQueue.antt =====
-- http_in_c/runloop/evfd_queue.c, the queue through which other threads post to the reactor, and
-- the two functions of http_in_c/runloop/reactor.c at its ends. Evfdq_add and Evfdq_remove hold the
-- mutex from the first to the last line, so a call is one step. The eventfd is the kernel's: its
-- three operations are parameters. Printing and the tag checks are left out.
pub mod Deliver
pub mod Reach
mod Tests
use c_http.Prelude.{ℕ, List, Run, ok, ◌>>=◌, Bool}
use c_http.FunctorList.{FunctorList, functor_list_new, functor_list_add, functor_list_remove}

-- RTOR_MAX_FDS
abbrev pub max_fds : ℕ
max_fds = 1024

-- A function to call and its argument.
pub record Functor {ℓ κ} (F : Type ℓ) (A : Type κ) : Type (ℓ ⊔ κ) where
  pub f : F
  pub arg : A

-- What the code uses of an eventfd: a write of the number 1, a read of the counter, which does not
-- block, and whether epoll reports that it can be read.
pub record Eventfd {ℓ} (E : Type ℓ) : Type ℓ where
  pub write_one : E → E
  pub read_counter : E → E
  pub readable : E → Bool

pub record EvfdQueue {ℓ κ} (E : Type ℓ) (X : Type κ) : Type (ℓ ⊔ κ) where
  pub list : FunctorList X
  pub eventfd : E

-- The parts of a reactor that its inter-thread queue uses. `queue_event_handler_arg` is the field of
-- the queue's watcher.
pub record Reactor {ℓ} (E F A : Type ℓ) : Type ℓ where
  pub interthread_queue_ref : EvfdQueue E (Functor F A)
  pub queue_event_handler_arg : A
  pub ready_list : FunctorList (Functor F A)

module _ {ℓ κ} {E : Type ℓ} {X : Type κ} (os : Eventfd E) where
  -- `block` is the memory of the list, `fd` the new eventfd, which `mk_fds` reads until it is empty.
  unfoldable pub evfdq_init : (block : List X) (fd : E) → Run (EvfdQueue E X)
  evfdq_init block fd = do
    list ← functor_list_new block max_fds
    ok (record { list = list; eventfd = os.read_counter fd })

  unfoldable pub evfdq_add : EvfdQueue E X → X → Run (EvfdQueue E X)
  evfdq_add me item = do
    list ← functor_list_add me.list item
    ok (record { list = list; eventfd = os.write_one me.eventfd })

  unfoldable pub evfdq_remove : EvfdQueue E X → Run (X × EvfdQueue E X)
  evfdq_remove me = do
    (op, list) ← functor_list_remove me.list
    ok (op, record { list = list; eventfd = os.read_counter me.eventfd })

module _ {ℓ} {E F A : Type ℓ} (os : Eventfd E) where
  unfoldable pub rtor_reactor_post : Reactor E F A → F → A → Run (Reactor E F A)
  rtor_reactor_post rx cb arg = do
    list ← functor_list_add rx.ready_list (record { f = cb; arg = arg })
    ok (record rx { ready_list = list })

  unfoldable pub rtor_reactor_interthread_post : Reactor E F A → F → A → Run (Reactor E F A)
  rtor_reactor_interthread_post rx cb arg = do
    queue ← evfdq_add os rx.interthread_queue_ref (record { f = cb; arg = arg })
    ok (record rx { interthread_queue_ref = queue })

  -- `watcher` is the pointer to the watcher, which the function posted gets as its argument.
  unfoldable pub interthread_queue_handler : (watcher : A) → Reactor E F A → Run (Reactor E F A)
  interthread_queue_handler watcher rx = do
    (func, queue) ← evfdq_remove os rx.interthread_queue_ref
    rtor_reactor_post
        (record rx { interthread_queue_ref = queue; queue_event_handler_arg = func.arg }) func.f
        watcher
