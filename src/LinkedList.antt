-- ===== src/LinkedList.antt =====
-- http_in_c/common/list.c: the doubly linked list, in a heap of nodes. A node's address is a number,
-- `NULL` is `none`; reading or writing through `NULL` or a freed node is a fault. `eg_alloc` succeeds
-- and gives the address `top`. An item is a pointer that the list only copies, or `NULL`. `ListNode_new`
-- has no `return`: what it builds is its result. `List_display` prints and is left out.
pub mod Front
pub mod Add
mod Tests
use c_http.Prelude.{
  ℕ, zero, suc, ◌+◌, ◌-◌, List, [], ◌∷◌, ◌++◌, Option, none, some, Bool, true, false, Run, ok,
  fault, out_of_bounds, assert_failed, ◌>>=◌, ◌>>◌, check, if◌then◌else◌, ◌==◌,
}

abbrev pub Pointer : Type 0
Pointer = Option ℕ

-- `struct ListNode_s`
pub record ListNode : Type 0 where
  pub forward : Pointer
  pub backward : Pointer
  pub item : Pointer

-- `ListItemDeallocator`, which is called with the address of an item: what it leaves there. Those that
-- free and clear leave `NULL`; `Functor_dealloc` of http_in_c/runloop/functor.c leaves the item.
abbrev pub Deallocator : Type 0
Deallocator = Pointer → Pointer

-- `released` are the items that a deallocator was called on, in order.
pub record Heap : Type 0 where
  pub node : ℕ → Option ListNode
  pub top : ℕ
  pub released : List Pointer

-- `struct List_s`
pub record LinkedList : Type 0 where
  pub count : ℕ
  pub head : Pointer
  pub tail : Pointer
  pub dealloc : Option Deallocator

abbrev pub update : (ℕ → Option ListNode) → ℕ → Option ListNode → ℕ → Option ListNode
update node a n i = if i == a then n else node i

abbrev pub write : Heap → ℕ → ListNode → Heap
write h a n = record h { node = update h.node a (some n) }

-- `p->…`
abbrev pub deref_at : Option ListNode → Run ListNode
deref_at none = fault out_of_bounds
deref_at (some n) = ok n

abbrev pub deref : Heap → Pointer → Run ListNode
deref h none = fault out_of_bounds
deref h (some a) = deref_at (h.node a)

-- `p->forward = q` and `p->backward = q`
abbrev pub set_forward : Heap → Pointer → Pointer → Run Heap
set_forward h none q = fault out_of_bounds
set_forward h (some a) q = deref_at (h.node a) >>= λ n. ok (write h a (record n { forward = q }))

abbrev pub set_backward : Heap → Pointer → Pointer → Run Heap
set_backward h none q = fault out_of_bounds
set_backward h (some a) q = deref_at (h.node a) >>= λ n. ok (write h a (record n { backward = q }))

-- `ListNode_new`: the heap with the node, whose address is the old `top`.
abbrev pub list_node_new : Heap → Pointer → Pointer → Pointer → Heap
list_node_new h content prev next = record h {
  node = update h.node h.top (some (record { forward = next; backward = prev; item = content }));
  top = h.top + 1;
}

-- The call of the deallocator in `ListNode_dispose`
abbrev pub release : Option Deallocator → Pointer → List Pointer → List Pointer
release none item released = released
release (some d) none released = released
release (some d) (some item) released = released ++ some item ∷ []

-- `ListNode_dispose`
abbrev pub list_node_dispose : Heap → Option Deallocator → Pointer → Run Heap
list_node_dispose h dealloc none = fault out_of_bounds
list_node_dispose h dealloc (some a) = do
  n ← deref_at (h.node a)
  ok (record h { node = update h.node a none; released = release dealloc n.item h.released })

pub list_new : Option Deallocator → LinkedList
list_new dealloc = record { count = 0; head = none; tail = none; dealloc = dealloc }

abbrev pub list_size : LinkedList → ℕ
list_size lref = lref.count

pub list_add_front : Heap → LinkedList → Pointer → Run (Heap × LinkedList)
list_add_front h lref content =
    let p = some h.top in
    let made = list_node_new h content none none in
    if lref.count == 0
    then ok (made, record lref { head = p; tail = p; count = lref.count + 1 })
    else (do
      h1 ← set_forward made p lref.head
      h2 ← set_backward h1 p none
      h3 ← set_backward h2 lref.head p
      ok (h3, record lref { head = p; count = lref.count + 1 }))

pub list_add_back : Heap → LinkedList → Pointer → Run (Heap × LinkedList)
list_add_back h lref content =
    let p = some h.top in
    let made = list_node_new h content none lref.head in
    if lref.count == 0
    then ok (made, record lref { tail = p; head = p; count = lref.count + 1 })
    else (do
      h1 ← set_backward made p lref.tail
      h2 ← set_forward h1 p none
      h3 ← set_forward h2 lref.tail p
      ok (h3, record lref { tail = p; count = lref.count + 1 }))

pub list_first : Heap → LinkedList → Run Pointer
list_first h lref = elim lref.head [ none ↦ ok none | some a ↦ deref h (some a) >>= λ n. ok n.item ]

pub list_last : Heap → LinkedList → Run Pointer
list_last h lref = elim lref.tail [ none ↦ ok none | some a ↦ deref h (some a) >>= λ n. ok n.item ]

-- A node taken out: its links and its item are `NULL` when it is disposed of.
abbrev pub cleared : ListNode
cleared = record { forward = none; backward = none; item = none }

abbrev pub clear_node : Heap → Pointer → Run Heap
clear_node h none = fault out_of_bounds
clear_node h (some a) = deref_at (h.node a) >>= λ n. ok (write h a cleared)

-- The branch `count == 1` of the two removals; only the item is set to `NULL`.
pub remove_only : Heap → LinkedList → Run (Pointer × Heap × LinkedList)
remove_only h lref = do
  n ← deref h lref.head
  h1 ← elim lref.head [
    | none ↦ fault out_of_bounds
    | some a ↦ ok (write h a (record n { item = none }))
  ]
  h2 ← list_node_dispose h1 lref.dealloc lref.head
  ok (n.item, h2, record lref { count = lref.count - 1; head = none; tail = none })

pub list_remove_first : Heap → LinkedList → Run (Pointer × Heap × LinkedList)
unfolding remove_only
list_remove_first h lref =
    if lref.count == 0
    then ok (none, h, lref)
    else if lref.count == 1
    then remove_only h lref
    else (do
      first ← deref h lref.head
      h1 ← set_backward h first.forward none
      h2 ← clear_node h1 lref.head
      h3 ← list_node_dispose h2 lref.dealloc lref.head
      ok (first.item, h3, record lref { head = first.forward; count = lref.count - 1 }))

pub list_remove_last : Heap → LinkedList → Run (Pointer × Heap × LinkedList)
unfolding remove_only
list_remove_last h lref =
    if lref.count == 0
    then ok (none, h, lref)
    else if lref.count == 1
    then remove_only h lref
    else (do
      last ← deref h lref.tail
      h1 ← set_forward h last.backward none
      h2 ← clear_node h1 lref.tail
      h3 ← list_node_dispose h2 lref.dealloc lref.tail
      ok (last.item, h3, record lref { tail = last.backward; count = lref.count - 1 }))

abbrev pub list_iterator : LinkedList → Pointer
list_iterator lref = lref.head

abbrev pub list_itr_next : Heap → Pointer → Run Pointer
list_itr_next h itr = deref h itr >>= λ n. ok n.forward

abbrev pub list_itr_unpack : Heap → Pointer → Run Pointer
list_itr_unpack h itr = deref h itr >>= λ n. ok n.item

abbrev pub same_pointer : Pointer → Pointer → Bool
same_pointer none none = true
same_pointer none (some b) = false
same_pointer (some a) none = false
same_pointer (some a) (some b) = a == b

-- The loop of `List_find`: `fuel` counts the nodes that are looked at.
pub find_node : ℕ → Heap → Pointer → Pointer → Run (Option Pointer)
find_node zero h needle iter = ok none
find_node (suc fuel) h needle none = ok (some none)
find_node (suc fuel) h needle (some a) = do
  n ← deref h (some a)
  let rest = find_node fuel h needle n.forward
  if same_pointer n.item needle then ok (some (some a)) else rest

-- `List_find`; `none` is a loop that has not ended.
pub list_find : Heap → LinkedList → Pointer → Run (Option Pointer)
unfolding find_node
list_find h lref needle = find_node (lref.count + 1) h needle lref.head

-- The call of the deallocator in `List_destroy`, also for an item that is `NULL`
abbrev pub dealloc_item : Option Deallocator → Heap → ℕ → ListNode → Heap
dealloc_item none h a n = h
dealloc_item (some d) h a n = record (write h a (record n { item = d n.item })) {
  released = h.released ++ n.item ∷ [];
}

-- A turn of the loop of `List_destroy` for the node `n` at `a`. `ListNode_dispose` calls the deallocator
-- again on what the first call has left.
pub destroy_node : Heap → Option Deallocator → ℕ → ListNode → Run Heap
destroy_node h dealloc a n = list_node_dispose (dealloc_item dealloc h a n) dealloc (some a)

-- The loop of `List_destroy`
pub destroy_loop : ℕ → Heap → Option Deallocator → Pointer → Run (Option Heap)
unfolding destroy_node
destroy_loop zero h dealloc t = ok none
destroy_loop (suc fuel) h dealloc none = ok (some h)
destroy_loop (suc fuel) h dealloc (some a) = do
  n ← deref h (some a)
  h' ← destroy_node h dealloc a n
  destroy_loop fuel h' dealloc n.forward

-- `List_destroy`, which ends with `List_init`.
pub list_destroy : Heap → LinkedList → Run (Option (Heap × LinkedList))
unfolding destroy_loop list_new
list_destroy h lref = do
  o ← destroy_loop (lref.count + 1) h lref.dealloc lref.head
  ok (elim o [ none ↦ none | some h' ↦ some (h', list_new lref.dealloc) ])

-- The relinking of `List_itr_remove`: the heap, `head` and `tail`.
pub unlink : Heap → LinkedList → Pointer → ListNode → Run (Heap × Pointer × Pointer)
unlink h lref itr n =
    if same_pointer lref.head itr
    then (do h1 ← set_backward h n.forward n.backward; ok (h1, n.forward, lref.tail))
    else if same_pointer lref.tail itr
    then (do h1 ← set_forward h n.backward n.forward; ok (h1, lref.head, n.backward))
    else (do
      h1 ← set_backward h n.forward n.backward
      h2 ← set_forward h1 n.backward n.forward
      ok (h2, lref.head, lref.tail))

-- `List_itr_remove` with an iterator that is not `NULL`.
pub list_itr_remove : Heap → LinkedList → Pointer → Run (Heap × LinkedList)
unfolding unlink
list_itr_remove h lref itr =
    if lref.count == 0
    then ok (h, lref)
    else if lref.count == 1
    then (do
      check (same_pointer itr lref.head)
      h1 ← list_node_dispose h lref.dealloc itr
      ok (h1, record lref { count = 0; head = none; tail = none }))
    else (do
      n ← deref h itr
      (h1, head, tail) ← unlink h lref itr n
      h2 ← list_node_dispose h1 lref.dealloc itr
      ok (h2, record lref { count = lref.count - 1; head = head; tail = tail }))
