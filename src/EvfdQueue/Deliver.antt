-- ===== src/EvfdQueue/Deliver.antt =====
-- What reaches the reactor of the functors that other threads post.
use c_http.Prelude.{
  ◌+◌, ◌<◌, ◌≡◌, refl, List, [], ◌∷◌, ◌++◌, Run, ok, ◌>>=◌, arith, length, length_snoc, sym,
  append-nil, append_assoc, false,
}
use c_http.FunctorList.Refine.{
  Represents, functor_list_add-Represents, functor_list_remove-Represents,
}
use c_http.EvfdQueue.{
  Functor, Eventfd, EvfdQueue, Reactor, evfdq_add, evfdq_remove, rtor_reactor_post,
  rtor_reactor_interthread_post, interthread_queue_handler,
}

module _ {ℓ} {E F A : Type ℓ} (os : Eventfd E) where
  -- Other threads post some functors before the reactor looks at the event.
  unfoldable pub post_all : Reactor E F A → List (Functor F A) → Run (Reactor E F A)
  post_all rx [] = ok rx
  post_all rx (func ∷ funcs) =
      rtor_reactor_interthread_post os rx func.f func.arg >>= λ rx'. post_all rx' funcs

  post_all-Represents :
      (funcs q : List (Functor F A)) (rx : Reactor E F A)
      → Represents rx.interthread_queue_ref.list q
      → length q + length funcs < rx.interthread_queue_ref.list.capacity
      → (rx' : Reactor E F A) × (post_all rx funcs ≡ ok rx')
        × Represents rx'.interthread_queue_ref.list (q ++ funcs)
        × (rx'.ready_list ≡ rx.ready_list)
  unfolding post_all rtor_reactor_interthread_post evfdq_add
  post_all-Represents [] q rx r room = (rx, refl, rw (append-nil q) r, refl)
  post_all-Represents (func ∷ funcs) q rx r room =
      let me = rx.interthread_queue_ref in
      let (list, done, r', same) = functor_list_add-Represents me.list q func r (omega arith) in
      let queue : EvfdQueue E (Functor F A) = record {
        list = list;
        eventfd = os.write_one me.eventfd;
      } in
      let next : Reactor E F A = record rx { interthread_queue_ref = queue } in
      let (rx', rest, held, kept) =
        post_all-Represents funcs (q ++ func ∷ []) next r'
          (omega (arith, same, length_snoc q func)) in
      (rx', rw done rest, rw (sym (append_assoc q (func ∷ []) funcs)) held, kept)

  module _ (read_counter-empty : (e : E) → os.readable (os.read_counter e) ≡ false) where
    -- The handler moves the oldest functor to the ready list and clears the event, however many
    -- functors the queue still holds.
    interthread_queue_handler-one :
        (watcher : A) (rx : Reactor E F A) (func : Functor F A) (q ready : List (Functor F A))
        → Represents rx.interthread_queue_ref.list (func ∷ q)
        → Represents rx.ready_list ready
        → length ready + 1 < rx.ready_list.capacity
        → (rx' : Reactor E F A) × (interthread_queue_handler os watcher rx ≡ ok rx')
          × Represents rx'.interthread_queue_ref.list q
          × Represents rx'.ready_list (ready ++ record { f = func.f; arg = watcher } ∷ [])
          × (rx'.queue_event_handler_arg ≡ func.arg)
          × (os.readable rx'.interthread_queue_ref.eventfd ≡ false)
    unfolding interthread_queue_handler evfdq_remove rtor_reactor_post
    interthread_queue_handler-one watcher rx func q ready r s room =
        let (list, removed, r', same) =
          functor_list_remove-Represents rx.interthread_queue_ref.list func q r in
        let posted : Functor F A = record { f = func.f; arg = watcher } in
        let (list', added, s', same') =
          functor_list_add-Represents rx.ready_list ready posted s room in
        let fd = os.read_counter rx.interthread_queue_ref.eventfd in
        (
          record {
            interthread_queue_ref = record { list = list; eventfd = fd };
            queue_event_handler_arg = func.arg;
            ready_list = list';
          },
          rw (removed, added) refl,
          r',
          s',
          refl,
          read_counter-empty rx.interthread_queue_ref.eventfd,
        )

    -- Of several functors posted before the handler runs, the first reaches the ready list. The others
    -- are left in the queue, with the eventfd not readable.
    pub post_all-first_only :
        (watcher : A) (rx : Reactor E F A) (func : Functor F A) (funcs : List (Functor F A))
        → Represents rx.interthread_queue_ref.list []
        → length (func ∷ funcs) < rx.interthread_queue_ref.list.capacity
        → Represents rx.ready_list []
        → 1 < rx.ready_list.capacity
        → (rx' : Reactor E F A) × (post_all rx (func ∷ funcs)
              >>= interthread_queue_handler os watcher
            ≡ ok rx')
          × Represents rx'.interthread_queue_ref.list funcs
          × Represents rx'.ready_list (record { f = func.f; arg = watcher } ∷ [])
          × (rx'.queue_event_handler_arg ≡ func.arg)
          × (os.readable rx'.interthread_queue_ref.eventfd ≡ false)
    post_all-first_only watcher rx func funcs r room s space =
        let (rx', posted, held, kept) = post_all-Represents (func ∷ funcs) [] rx r (omega arith) in
        let (rx'', handled, left, ready, arg, event) =
          interthread_queue_handler-one watcher rx' func funcs [] held (rw kept s)
            (rw kept space) in
        (rx'', rw posted handled, left, ready, arg, event)
