-- ===== src/EvfdQueue/Reach.antt =====
-- The calls of evfd_queue.c in the order in which the mutex lets the threads through.
use c_http.Prelude.{
  ◌+◌, ◌<◌, ◌≡◌, refl, List, [], ◌∷◌, ◌++◌, ok, fault, assert_failed, arith, length, sym, ◌∙◌, ap,
  ok-injective, append_assoc, true, false, length_snoc,
}
use native.Mathlib.Decide.{dec_lt}
use c_http.FunctorList.Refine.{
  Represents, functor_list_new-ok, functor_list_add-Represents, functor_list_add-full,
  functor_list_remove-Represents, functor_list_remove-nil,
}
use c_http.EvfdQueue.{Eventfd, EvfdQueue, max_fds, evfdq_init, evfdq_add, evfdq_remove}

module _ {ℓ κ} {E : Type ℓ} {X : Type κ} (os : Eventfd E) where
  -- A queue with the functors added and removed so far. The reactor removes one when epoll reports
  -- that the eventfd is readable.
  pub data Reach : EvfdQueue E X → (added removed : List X) → Type (ℓ ⊔ κ) where
    created :
        {me : EvfdQueue E X} (block : List X) (fd : E)
        → length block ≡ max_fds + 1
        → evfdq_init os block fd ≡ ok me
        → Reach me [] []
    adding :
        {me me' : EvfdQueue E X} {added removed : List X} (item : X)
        → Reach me added removed
        → evfdq_add os me item ≡ ok me'
        → Reach me' (added ++ item ∷ []) removed
    removing :
        {me me' : EvfdQueue E X} {added removed : List X} (op : X)
        → Reach me added removed
        → os.readable me.eventfd ≡ true
        → evfdq_remove os me ≡ ok (op, me')
        → Reach me' added (removed ++ op ∷ [])

  -- The functors that are still held, which are some whenever the eventfd is readable.
  pub record Held (me : EvfdQueue E X) (added removed held : List X) : Type (ℓ ⊔ κ) where
    pub list : Represents me.list held
    pub order : added ≡ removed ++ held
    pub event : os.readable me.eventfd ≡ true → 0 < length held

  module _ (read_counter-empty : (e : E) → os.readable (os.read_counter e) ≡ false) where
    evfdq_init-Held :
        (me : EvfdQueue E X) (block : List X) (fd : E)
        → length block ≡ max_fds + 1
        → evfdq_init os block fd ≡ ok me
        → Held me [] [] []
    unfolding evfdq_init
    evfdq_init-Held me block fd size e =
        let (list, done, r) = functor_list_new-ok block max_fds size (omega arith) (omega arith) in
        let now : EvfdQueue E X = record { list = list; eventfd = os.read_counter fd } in
        let reached : now ≡ me = ok-injective now me (sym (rw done refl) ∙ e) in
        rw (sym reached)
          (record { list = r; order = refl; event = λ h. cc (h, read_counter-empty fd) })

    evfdq_add-Held :
        (me me' : EvfdQueue E X) (added removed held : List X) (item : X)
        → Held me added removed held
        → evfdq_add os me item ≡ ok me'
        → Held me' (added ++ item ∷ []) removed (held ++ item ∷ [])
    unfolding evfdq_add
    evfdq_add-Held me me' added removed held item v e =
        elim (dec_lt (length held + 1) me.list.capacity) [
          | yes room ↦
              let (list, done, r, same) =
                functor_list_add-Represents me.list held item v.list room in
              let now : EvfdQueue E X = record { list = list; eventfd = os.write_one me.eventfd } in
              let reached : now ≡ me' = ok-injective now me' (sym (rw done refl) ∙ e) in
              rw (sym reached) (record {
                list = r;
                order = ap (λ l. l ++ item ∷ []) v.order ∙ append_assoc removed held (item ∷ []);
                event = λ _. omega (arith, length_snoc held item);
              })
          | no full ↦
              let stops : evfdq_add os me item ≡ fault assert_failed =
                rw (functor_list_add-full me.list held item v.list (omega (arith, v.list))) refl in
              cc
        ]

    evfdq_remove-Held :
        (me me' : EvfdQueue E X) (added removed held : List X) (op : X)
        → Held me added removed held
        → evfdq_remove os me ≡ ok (op, me')
        → (rest : List X) × Held me' added (removed ++ op ∷ []) rest
    unfolding evfdq_remove
    evfdq_remove-Held me me' added removed [] op v e =
        let stops : evfdq_remove os me ≡ fault assert_failed =
          rw (functor_list_remove-nil me.list v.list) refl in
        cc
    evfdq_remove-Held me me' added removed (x ∷ held) op v e =
        let (list, done, r, same) = functor_list_remove-Represents me.list x held v.list in
        let fd = os.read_counter me.eventfd in
        let now : EvfdQueue E X = record { list = list; eventfd = fd } in
        let reached : (x, now) ≡ (op, me') =
          ok-injective (x, now) (op, me') (sym (rw done refl) ∙ e) in
        (
          held,
          rw (sym (ap (λ p. p.0) reached), sym (ap (λ p. p.1) reached))
              (record {
                list = r;
                order = v.order ∙ sym (append_assoc removed (x ∷ []) held);
                event = λ h. cc (h, read_counter-empty me.eventfd);
              }),
        )

    pub Reach-Held :
        (me : EvfdQueue E X) (added removed : List X)
        → Reach me added removed
        → (held : List X) × Held me added removed held
    Reach-Held me added removed (created block fd size e) = ([], evfdq_init-Held me block fd size e)
    Reach-Held me _ removed (adding {me = b} {added = ins} item before e) =
        let (held, v) = Reach-Held b ins removed before in
        (held ++ item ∷ [], evfdq_add-Held b me ins removed held item v e)
    Reach-Held me added _ (removing {me = b} {removed = outs} op before ready e) =
        let (held, v) = Reach-Held b added outs before in
        evfdq_remove-Held b me added outs held op v e

    Held-removes :
        (me : EvfdQueue E X) (added removed held : List X)
        → Held me added removed held
        → os.readable me.eventfd ≡ true
        → (op : X) × (rest : List X) × (me' : EvfdQueue E X) × (evfdq_remove os me ≡ ok (op, me'))
          × (added ≡ removed ++ op ∷ rest)
          × Represents me'.list rest
    unfolding evfdq_remove
    Held-removes me added removed [] v ready = let nothing : 0 < 0 = v.event ready in ground arith
    Held-removes me added removed (op ∷ rest) v ready =
        let (list, done, r, same) = functor_list_remove-Represents me.list op rest v.list in
        let fd = os.read_counter me.eventfd in
        (op, rest, record { list = list; eventfd = fd }, rw done refl, v.order, r)

    -- When the eventfd is readable, evfdq_remove returns the functor that was added first of those not
    -- yet removed, and the queue keeps the others in their order.
    pub Reach-removes :
        (me : EvfdQueue E X) (added removed : List X)
        → Reach me added removed
        → os.readable me.eventfd ≡ true
        → (op : X) × (rest : List X) × (me' : EvfdQueue E X) × (evfdq_remove os me ≡ ok (op, me'))
          × (added ≡ removed ++ op ∷ rest)
          × Represents me'.list rest
    Reach-removes me added removed run ready =
        let (held, v) = Reach-Held me added removed run in
        Held-removes me added removed held v ready
