-- ===== src/LinkedList/Add.antt =====
-- Adding an item at the front of a list.
use c_http.Prelude.{
  ℕ, ◌+◌, ◌≡◌, refl, List, [], ◌∷◌, none, some, ok, arith, length, eq_true, eq_false,
}
use c_http.LinkedList.{Pointer, ListNode, Heap, LinkedList, write, list_node_new, list_add_front}
use c_http.LinkedList.Front.{first_of, last_of, Apart, Linked, Below, Represents, Linked-update}

Below-Apart : (top : ℕ) (ps : List ℕ) → Below top ps → Apart top ps
Below-Apart top [] b = tt
Below-Apart top (p ∷ ps) b = (omega (arith, b.0), Below-Apart top ps b.1)

Below-mono : (top : ℕ) (ps : List ℕ) → Below top ps → Below (top + 1) ps
Below-mono top [] b = tt
Below-mono top (p ∷ ps) b = (omega (arith, b.0), Below-mono top ps b.1)

add_front-nodes :
    (h : Heap) (l : LinkedList) (xs : List Pointer) (content : Pointer) (ps : List ℕ)
    → Linked h.node none ps xs
    → Below h.top ps
    → l.count ≡ length xs
    → l.head ≡ first_of ps
    → l.tail ≡ last_of ps
    → (h' : Heap) × (l' : LinkedList) × (list_add_front h l content ≡ ok (h', l'))
      × Represents h' l' (content ∷ xs)
unfolding list_add_front
add_front-nodes h l [] content [] linked below count head tail = (
  list_node_new h content none none,
  record l { head = some h.top; tail = some h.top; count = l.count + 1 },
  rw (eq_true l.count 0 count) refl,
  record {
    nodes = h.top ∷ [];
    linked = (rw (eq_true h.top h.top refl) refl, tt, tt);
    below = (omega arith, tt);
    count = omega arith;
    head = refl;
    tail = refl;
  },
)
add_front-nodes h l (x ∷ xs) content [] linked below count head tail = absurd linked
add_front-nodes h l [] content (q ∷ ps) linked below count head tail = absurd linked
add_front-nodes h l (x ∷ xs) content (q ∷ ps) linked below count head tail =
    let top = h.top in
    let made = list_node_new h content none none in
    let apart : Apart top ps = Below-Apart top ps below.1 in
    let n : ListNode = record { forward = some q; backward = none; item = content } in
    let second : ListNode = record { forward = first_of ps; backward = some top; item = x } in
    let h1 = write made top n in
    let h2 = write h1 top n in
    let h3 = write h2 q second in
    let once = Linked-update h.node (some q) ps xs top _ apart linked.2 in
    let twice = Linked-update made.node (some q) ps xs top (some n) apart once in
    let thrice = Linked-update h1.node (some q) ps xs top (some n) apart twice in
    (
      h3,
      record l { head = some top; count = l.count + 1 },
      rw (eq_false l.count 0 (omega arith), head, eq_true top top refl)
          (rw (eq_true top top refl)
            (rw (eq_false q top (omega (arith, below.0))) (rw linked.0 refl))),
      record {
        nodes = top ∷ q ∷ ps;
        linked = (
          rw (eq_false top q (omega (arith, below.0)), eq_true top top refl) refl,
          (omega (arith, below.0), apart),
          (
            rw (eq_true q q refl) refl,
            linked.1,
            Linked-update h2.node (some q) ps xs q (some second) linked.1 thrice,
          ),
        );
        below = (omega arith, (omega (arith, below.0), Below-mono top ps below.1));
        count = omega arith;
        head = refl;
        tail = tail;
      },
    )

-- `List_add_front` on a list that stands for some items returns, and the list then stands for the item
-- and those behind it.
pub list_add_front-Represents :
    (h : Heap) (l : LinkedList) (xs : List Pointer) (content : Pointer)
    → Represents h l xs
    → (h' : Heap) × (l' : LinkedList) × (list_add_front h l content ≡ ok (h', l'))
      × Represents h' l' (content ∷ xs)
list_add_front-Represents h l xs content r =
    add_front-nodes h l xs content r.nodes r.linked r.below r.count r.head r.tail
