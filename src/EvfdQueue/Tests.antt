-- ===== src/EvfdQueue/Tests.antt =====
-- The queue with a counter for its eventfd, which a read sets to 0: two functors posted, one event.
use c_http.Prelude.{
  ℕ, ◌+◌, ◌≡◌, refl, List, [], ◌∷◌, ◌++◌, ok, arith, ltb, suc, false, length-replicate, replicate,
  set, ◌>>=◌,
}
use c_http.FunctorList.{FunctorList, functor_list_new, functor_list_add}
use c_http.FunctorList.Refine.{Represents}
use c_http.EvfdQueue.{
  Functor, Eventfd, EvfdQueue, Reactor, max_fds, evfdq_init, evfdq_add, evfdq_remove,
  interthread_queue_handler,
}
use c_http.EvfdQueue.Deliver.{post_all, post_all-first_only}
use c_http.EvfdQueue.Reach.{Reach, created, adding, Reach-removes}

abbrev counter : Eventfd ℕ
counter = record { write_one = suc; read_counter = λ _. 0; readable = ltb 0 }

abbrev block : List ℕ
block = replicate 1025 0

abbrev new_queue : EvfdQueue ℕ ℕ
new_queue = record {
  list = record { capacity = max_fds; head = 0; tail_plus = 0; list = block };
  eventfd = 0;
}

abbrev one_added : EvfdQueue ℕ ℕ
one_added = record {
  list = record { capacity = max_fds; head = 1; tail_plus = 0; list = set block 1 7 };
  eventfd = 1;
}

abbrev two_added : EvfdQueue ℕ ℕ
two_added = record {
  list = record { capacity = max_fds; head = 2; tail_plus = 0; list = set (set block 1 7) 2 8 };
  eventfd = 2;
}

two_added-Reach : Reach counter two_added (7 ∷ 8 ∷ []) []
unfolding evfdq_init evfdq_add functor_list_new functor_list_add
two_added-Reach =
    adding 8 (adding 7 (created block 5 (length-replicate {A = ℕ} 1025 0) refl) refl) refl

Reach-removes_example :
    (op : ℕ) × (rest : List ℕ) × (me : EvfdQueue ℕ ℕ) × (evfdq_remove counter two_added
      ≡ ok (op, me))
    × (7 ∷ 8 ∷ [] ≡ [] ++ op ∷ rest)
    × Represents me.list rest
Reach-removes_example =
    Reach-removes counter (λ _. refl) two_added (7 ∷ 8 ∷ []) [] two_added-Reach refl

abbrev functor : ℕ → Functor ℕ ℕ
functor n = record { f = n; arg = n + 100 }

abbrev empty_list : FunctorList (Functor ℕ ℕ)
empty_list = record { capacity = 4; head = 0; tail_plus = 0; list = replicate 5 (functor 0) }

abbrev reactor : Reactor ℕ ℕ ℕ
reactor = record {
  interthread_queue_ref = record { list = empty_list; eventfd = 0 };
  queue_event_handler_arg = 0;
  ready_list = empty_list;
}

empty_list-Represents : Represents empty_list []
empty_list-Represents = record {
  block = refl;
  small = omega arith;
  head_in = omega arith;
  tail_in = omega arith;
  fits = omega arith;
  ends = refl;
  held = tt;
}

post_all-first_only_example :
    (rx : Reactor ℕ ℕ ℕ) × (post_all counter reactor (functor 7 ∷ functor 8 ∷ [])
        >>= interthread_queue_handler counter 55
      ≡ ok rx)
    × Represents rx.interthread_queue_ref.list (functor 8 ∷ [])
    × Represents rx.ready_list (record { f = 7; arg = 55 } ∷ [])
    × (rx.queue_event_handler_arg ≡ 107)
    × (ltb 0 rx.interthread_queue_ref.eventfd ≡ false)
post_all-first_only_example =
    post_all-first_only counter (λ _. refl) 55 reactor (functor 7) (functor 8 ∷ [])
      empty_list-Represents (omega arith) empty_list-Represents (omega arith)
