-- ===== src/Queue/Threads/Inv.antt =====
-- What holds of the threads round a queue, whatever the schedule.
use c_http.Prelude.{
  ℕ, suc, ◌≡◌, ◌≢◌, refl, ap, ◌∙◌, List, [], ◌∷◌, ◌++◌, ok, none, some, Bool, true, ◌==◌, length,
  arith, append_assoc, length_snoc, Bool-cases, inl, inr, ◌<◌,
}
use native.Mathlib.Decide.{dec_lt}
use c_http.Queue.{Queue, queue_add, queue_remove}
use c_http.Queue.Refine.{
  Represents, queue_add-full, queue_add-snoc, queue_remove-nil, queue_remove-cons,
}
use c_http.Queue.Threads.{
  Thread, idle, adding, add_waits, removing, remove_waits, System, Threads, Step, call_add,
  call_remove, spurious_add, spurious_remove, add_blocks, add_returns, remove_blocks,
  remove_returns, Reach, here, next, start, update, broadcast_not_empty, broadcast_not_full,
  wake_adder, wake_remover,
}

-- Nobody sleeps who could go on.
pub record NoneMissed (threads : Threads) (size room : ℕ) : Type 0 where
  pub adders : (i sock : ℕ) → threads i ≡ add_waits sock → size ≡ room
  pub removers : (i : ℕ) → threads i ≡ remove_waits → size ≡ 0

pub record Inv (s : System) : Type 0 where
  pub contents : List ℕ
  pub represents : Represents s.queue contents
  pub fifo : s.added ≡ s.removed ++ contents
  pub none_missed : NoneMissed s.threads (length contents) s.queue.max_size

-- A thread that is set running does not sleep.
update-NoneMissed :
    (threads : Threads) (i : ℕ) (t : Thread) (size room : ℕ)
    → ((sock : ℕ) → t ≡ add_waits sock → size ≡ room)
    → (t ≡ remove_waits → size ≡ 0)
    → NoneMissed threads size room
    → NoneMissed (update threads i t) size room
update-NoneMissed threads i t size room ha hr n = record {
  adders = λ j sock e. elim (Bool-cases (j == i)) [
    | inl same ↦ ha sock (rw same at e)
    | inr other ↦ n.adders j sock (rw other at e)
  ];
  removers = λ j e. elim (Bool-cases (j == i)) [
    | inl same ↦ hr (rw same at e)
    | inr other ↦ n.removers j (rw other at e)
  ];
}

wake_adder-awake : (t : Thread) (sock : ℕ) → wake_adder t ≢ add_waits sock
wake_adder-awake idle sock e = cc
wake_adder-awake (adding k) sock e = cc
wake_adder-awake (add_waits k) sock e = cc
wake_adder-awake removing sock e = cc
wake_adder-awake remove_waits sock e = cc

wake_adder-remover : (t : Thread) → wake_adder t ≡ remove_waits → t ≡ remove_waits
wake_adder-remover idle e = cc
wake_adder-remover (adding k) e = cc
wake_adder-remover (add_waits k) e = cc
wake_adder-remover removing e = cc
wake_adder-remover remove_waits e = refl

wake_remover-awake : (t : Thread) → wake_remover t ≢ remove_waits
wake_remover-awake idle e = cc
wake_remover-awake (adding k) e = cc
wake_remover-awake (add_waits k) e = cc
wake_remover-awake removing e = cc
wake_remover-awake remove_waits e = cc

wake_remover-adder : (t : Thread) (sock : ℕ) → wake_remover t ≡ add_waits sock → t ≡ add_waits sock
wake_remover-adder idle sock e = cc
wake_remover-adder (adding k) sock e = cc
wake_remover-adder (add_waits k) sock e = e
wake_remover-adder removing sock e = cc
wake_remover-adder remove_waits sock e = cc

-- After an addition that had room: no adder slept, and the removers that slept on an empty queue
-- are woken.
add-NoneMissed :
    (threads : Threads) (size room : ℕ)
    → size < room
    → NoneMissed threads size room
    → NoneMissed (broadcast_not_empty (size == 0) threads) (suc size) room
add-NoneMissed threads size room h n = elim (Bool-cases (size == 0)) [
  | inl empty ↦ rw empty (record {
    adders =
        λ j sock e. absurd (omega (arith, n.adders j sock (wake_remover-adder (threads j) sock e)));
    removers = λ j e. absurd (wake_remover-awake (threads j) e);
  })
  | inr busy ↦ rw busy (record {
    adders = λ j sock e. absurd (omega (arith, n.adders j sock e));
    removers = λ j e. absurd (ground (arith, n.removers j e));
  })
]

remove-NoneMissed :
    (threads : Threads) (size room : ℕ)
    → NoneMissed threads (suc size) room
    → NoneMissed (broadcast_not_full true threads) size room
remove-NoneMissed threads size room n = record {
  adders = λ j sock e. absurd (wake_adder-awake (threads j) sock e);
  removers = λ j e. absurd (omega (arith, n.removers j (wake_adder-remover (threads j) e)));
}

-- A call that blocks tells what the queue holds.
add_blocked-full :
    (q : Queue) (contents : List ℕ) (sock : ℕ)
    → Represents q contents
    → queue_add q sock ≡ ok none
    → length contents ≡ q.max_size
add_blocked-full q contents sock r e = elim (dec_lt (length contents) q.max_size) [
  | yes room ↦ let (q', done, r', same) = queue_add-snoc q contents sock r room in cc
  | no full ↦ omega (arith, r.fits)
]

remove_blocked-nil :
    (q : Queue) (contents : List ℕ)
    → Represents q contents
    → queue_remove q ≡ ok none
    → length contents ≡ 0
remove_blocked-nil q [] r e = refl
remove_blocked-nil q (k ∷ contents) r e =
    let (q', done, r', same) = queue_remove-cons q k contents r in cc

add_returns-Inv :
    {s : System} (i sock : ℕ) (q : Queue) (signal : Bool)
    → queue_add s.queue sock ≡ ok (some (q, signal))
    → Inv s
    → Inv (record {
      queue = q;
      threads = update (broadcast_not_empty signal s.threads) i idle;
      added = s.added ++ sock ∷ [];
      removed = s.removed;
    })
add_returns-Inv {s} i sock q signal e v = elim (dec_lt (length v.contents) s.queue.max_size) [
  | yes room ↦
      let (q', done, r', same) = queue_add-snoc s.queue v.contents sock v.represents room in
      let eq : q ≡ q' = cc in
      let sig : signal ≡ (length v.contents == 0) = cc in
      let room_same : q.max_size ≡ s.queue.max_size = rw eq same in
      record {
        contents = v.contents ++ sock ∷ [];
        represents = rw eq r';
        fifo =
            ap (λ (l : List ℕ). l ++ sock ∷ []) v.fifo
            ∙ append_assoc s.removed v.contents (sock ∷ []);
        none_missed =
            update-NoneMissed _ i idle _ _ (λ k h. cc) (λ h. cc)
              (rw (sig, length_snoc, room_same)
                (add-NoneMissed s.threads (length v.contents) s.queue.max_size room v.none_missed));
      }
  | no full ↦ absurd (
      ground (
        arith,
        e,
        queue_add-full s.queue v.contents sock v.represents (omega (arith, v.represents.fits)),
      ))
]

-- `contents` is split by clauses here.
remove_returns-Inv :
    (s : System) (i sock : ℕ) (q : Queue) (signal : Bool) (contents : List ℕ)
    → queue_remove s.queue ≡ ok (some (sock, q, signal))
    → Represents s.queue contents
    → s.added ≡ s.removed ++ contents
    → NoneMissed s.threads (length contents) s.queue.max_size
    → Inv (record {
      queue = q;
      threads = update (broadcast_not_full signal s.threads) i idle;
      added = s.added;
      removed = s.removed ++ sock ∷ [];
    })
remove_returns-Inv s i sock q signal [] e r fifo n =
    absurd (ground (arith, queue_remove-nil s.queue r))
remove_returns-Inv s i sock q signal (k ∷ contents) e r fifo n =
    let (q', done, r', same) = queue_remove-cons s.queue k contents r in
    let eq : q ≡ q' = cc in
    let sig : signal ≡ true = cc in
    let out : sock ≡ k = cc in
    let room_same : q.max_size ≡ s.queue.max_size = rw eq same in
    record {
      contents = contents;
      represents = rw eq r';
      fifo = rw (out, append_assoc) fifo;
      none_missed =
          update-NoneMissed _ i idle _ _ (λ k h. cc) (λ h. cc)
            (rw (sig, room_same)
              (remove-NoneMissed s.threads (length contents) s.queue.max_size n));
    }

-- A step that only sets one thread to another activity.
pub retask-Inv :
    {s : System} (i : ℕ) (t : Thread)
    → ((sock : ℕ) → t ≡ add_waits sock → queue_add s.queue sock ≡ ok none)
    → (t ≡ remove_waits → queue_remove s.queue ≡ ok none)
    → Inv s
    → Inv (record s { threads = update s.threads i t })
retask-Inv {s} i t ha hr v = record {
  contents = v.contents;
  represents = v.represents;
  fifo = v.fifo;
  none_missed =
      update-NoneMissed s.threads i t (length v.contents) s.queue.max_size
        (λ sock e. add_blocked-full s.queue v.contents sock v.represents (ha sock e))
        (λ e. remove_blocked-nil s.queue v.contents v.represents (hr e)) v.none_missed;
}

-- Every step keeps the invariant.
pub Step-Inv : {s t : System} → Step s t → Inv s → Inv t
Step-Inv (call_add i sock e) v = retask-Inv i (adding sock) (λ k h. cc) (λ h. cc) v
Step-Inv (call_remove i e) v = retask-Inv i removing (λ k h. cc) (λ h. cc) v
Step-Inv (spurious_add i sock e) v = retask-Inv i (adding sock) (λ k h. cc) (λ h. cc) v
Step-Inv (spurious_remove i e) v = retask-Inv i removing (λ k h. cc) (λ h. cc) v
Step-Inv (add_blocks i sock e blocked) v =
    retask-Inv i (add_waits sock) (λ k h. ground (arith, h, blocked)) (λ h. cc) v
Step-Inv (add_returns i sock q signal e done) v = add_returns-Inv i sock q signal done v
Step-Inv (remove_blocks i e blocked) v = retask-Inv i remove_waits (λ k h. cc) (λ h. blocked) v
Step-Inv (remove_returns i sock q signal e done) v =
    remove_returns-Inv _ i sock q signal v.contents done v.represents v.fifo v.none_missed

pub Reach-Inv : {s t : System} → Reach s t → Inv s → Inv t
Reach-Inv here v = v
Reach-Inv (next r st) v = Step-Inv st (Reach-Inv r v)

pub start-Inv : (q : Queue) → Represents q [] → Inv (start q)
start-Inv q r = record {
  contents = [];
  represents = r;
  fifo = refl;
  none_missed = record { adders = λ i sock e. cc; removers = λ i e. cc };
}
