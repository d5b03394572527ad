-- ===== src/Queue/Refine.antt =====
-- The circular array of queue.c against the list of the sockets in it.
use c_http.Prelude.{
  ℕ, suc, ◌+◌, ◌-◌, ◌%◌, ◌^◌, ◌≤◌, ◌<◌, ◌≡◌, refl, List, [], ◌∷◌, ◌++◌, ok, arith, none, some,
  length, ◌∙◌, length-set, length_snoc, sym, ap, set, ltb, ◌==◌, true, false, ◌&&◌,
}
use native.Mathlib.Nat.{mod-add-mod, mod-eq_of_lt, add-zero}
use c_http.Circular.{Holds, Holds-set_snoc, add-mod-ne, step-mod}
use c_http.Queue.{Queue, queue_new_with_capacity, queue_remove, queue_add, u32, is_full}

-- The queue holds the sockets `s`, the oldest first.
pub record Represents (q : Queue) (s : List ℕ) : Type 0 where
  pub block : q.max_size ≤ length q.q
  pub small : q.max_size < 2 ^ 32
  pub some_room : 0 < q.max_size
  pub first_in : q.first < q.max_size
  pub count : q.size ≡ length s
  pub fits : length s ≤ q.max_size
  pub ends : q.next ≡ (q.first + length s) % q.max_size
  pub held : Holds q.q q.max_size q.first s

-- A new queue is empty.
pub new-Represents :
    (block : List ℕ) (capacity : ℕ)
    → capacity ≤ length block
    → 0 < capacity
    → capacity < 2 ^ 32
    → Represents (queue_new_with_capacity block capacity) []
unfolding queue_new_with_capacity
new-Represents block capacity hb hc hs = ground arith

-- `first` and `next` meet only in an empty or a full queue.
is_full-of_room :
    (q : Queue) (s : List ℕ) → Represents q s → length s < q.max_size → is_full q ≡ false
is_full-of_room q [] r room = ground arith
is_full-of_room q (x ∷ s) r room =
    ground (arith, add-mod-ne q.max_size q.first (length s) r.first_in room)

-- `Queue_add` waits exactly on a full queue.
pub queue_add-full :
    (q : Queue) (s : List ℕ) (sock : ℕ)
    → Represents q s
    → length s ≡ q.max_size
    → queue_add q sock ≡ ok none
unfolding queue_add
queue_add-full q s sock r e = ground arith

next_in : (q : Queue) (s : List ℕ) → Represents q s → q.next < q.max_size
next_in q s r = rw r.ends (grind arith)

-- Below `2 ^ 32` an index is advanced without a wrap of `uint32_t`.
advance_small : (i m : ℕ) → i < m → m < 2 ^ 32 → u32 (i + 1) % m ≡ (i + 1) % m
advance_small i m hi hm = ap (λ (n : ℕ). n % m) (omega arith)

next-step :
    (q : Queue) (s : List ℕ)
    → Represents q s
    → u32 (q.next + 1) % q.max_size ≡ (q.first + suc (length s)) % q.max_size
next-step q s r =
    advance_small q.next q.max_size (next_in q s r) r.small
    ∙ rw (r.ends, mod-add-mod) (ap (λ (n : ℕ). n % q.max_size) (omega arith))

-- With room it appends the socket, and broadcasts `not_empty_cv` if the queue was empty.
pub queue_add-snoc :
    (q : Queue) (s : List ℕ) (sock : ℕ)
    → Represents q s
    → length s < q.max_size
    → (q' : Queue) × (queue_add q sock ≡ ok (some (q', length s == 0)))
      × Represents q' (s ++ sock ∷ [])
      × (q'.max_size ≡ q.max_size)
unfolding queue_add
queue_add-snoc q s sock r room =
    let m = q.max_size in
    let slot : u32 (q.next + 1) % m ≡ (q.first + suc (length s)) % m = next-step q s r in
    let block = set q.q q.next sock in
    let next = u32 (q.next + 1) % m in
    (
      record {
        q = block;
        size = u32 (q.size + 1);
        max_size = m;
        next = next;
        first = q.first;
        full = (q.first == next) && ltb 0 q.size;
      },
      ground (arith, is_full-of_room q s r room, next_in q s r),
      record {
        block = omega (arith, length-set q.q q.next sock, r.block);
        small = r.small;
        some_room = r.some_room;
        first_in = r.first_in;
        count = omega (arith, length_snoc s sock, r);
        fits = omega (arith, length_snoc s sock);
        ends = slot ∙ ap (λ (n : ℕ). (q.first + n) % m) (sym (length_snoc s sock));
        held = rw r.ends (Holds-set_snoc q.q m q.first s sock r.first_in room r.block r.held);
      },
      refl,
    )

-- `Queue_remove` waits exactly on an empty queue.
pub queue_remove-nil : (q : Queue) → Represents q [] → queue_remove q ≡ ok none
unfolding queue_remove
queue_remove-nil q r = ground (arith, r, mod-eq_of_lt r.first_in, add-zero q.first)

-- Otherwise it returns the oldest socket, and broadcasts `not_full_cv`.
pub queue_remove-cons :
    (q : Queue) (sock : ℕ) (s : List ℕ)
    → Represents q (sock ∷ s)
    → (q' : Queue) × (queue_remove q ≡ ok (some (sock, q', true)))
      × Represents q' s
      × (q'.max_size ≡ q.max_size)
unfolding queue_remove
queue_remove-cons q sock s r =
    let m = q.max_size in
    let first = u32 (q.first + 1) % m in
    let step : first ≡ (q.first + 1) % m = advance_small q.first m r.first_in r.small in
    (
      record q {
        size = u32 (q.size + 2 ^ 32 - 1);
        first = first;
        full = (first == q.next) && ltb 0 q.size;
      },
      ground (arith, r),
      record {
        block = r.block;
        small = r.small;
        some_room = r.some_room;
        first_in = rw step (grind arith);
        count = omega (arith, r);
        fits = omega (arith, r);
        ends = rw step (r.ends ∙ sym (step-mod m q.first (length s)));
        held = rw step r.held.1;
      },
      refl,
    )
