-- ===== src/LinkedList/Front.antt =====
-- The nodes of a list; finding an item, and emptying the list.
use c_http.Prelude.{
  ℕ, zero, suc, Bool-cases, inl, inr, ◌+◌, ◌≡◌, ◌≢◌, ◌<◌, refl, List, [], ◌∷◌, Option, none, some,
  ok, arith, length, eq_true, eq_false, ◌==◌, if◌then◌else◌, ◌++◌, ◌∙◌, sym, append-nil,
  append_assoc,
}
use c_http.LinkedList.{
  Pointer, ListNode, Heap, LinkedList, update, list_new, list_find, find_node, same_pointer,
  list_destroy, destroy_loop, destroy_node, release, Deallocator,
}

abbrev pub first_of : List ℕ → Pointer
first_of [] = none
first_of (p ∷ ps) = some p

abbrev pub last_of : List ℕ → Pointer
last_of [] = none
last_of (p ∷ []) = some p
last_of (p ∷ q ∷ ps) = last_of (q ∷ ps)

-- The nodes at `ps`, linked to one another and to `prev` in front, hold the items `xs`; their addresses
-- are different ones.
abbrev pub Apart : ℕ → List ℕ → Type 0
Apart a [] = Unit
Apart a (p ∷ ps) = (p ≢ a) × Apart a ps

abbrev pub Linked : (ℕ → Option ListNode) → Pointer → List ℕ → List Pointer → Type 0
Linked node prev [] [] = Unit
Linked node prev [] (x ∷ xs) = ⊥
Linked node prev (p ∷ ps) [] = ⊥
Linked node prev (p ∷ ps) (x ∷ xs) =
    (node p ≡ some (record { forward = first_of ps; backward = prev; item = x }))
    × Apart p ps
    × Linked node (some p) ps xs

abbrev pub Below : ℕ → List ℕ → Type 0
Below top [] = Unit
Below top (p ∷ ps) = (p < top) × Below top ps

-- The list stands for the sequence `xs`.
pub record Represents (h : Heap) (l : LinkedList) (xs : List Pointer) : Type 0 where
  pub nodes : List ℕ
  pub linked : Linked h.node none nodes xs
  pub below : Below h.top nodes
  pub count : l.count ≡ length xs
  pub head : l.head ≡ first_of nodes
  pub tail : l.tail ≡ last_of nodes

-- A write elsewhere leaves the nodes alone.
pub Linked-update :
    (node : ℕ → Option ListNode) (prev : Pointer) (ps : List ℕ) (xs : List Pointer) (a : ℕ)
    (n : Option ListNode)
    → Apart a ps
    → Linked node prev ps xs
    → Linked (update node a n) prev ps xs
Linked-update node prev [] [] a n apart l = tt
Linked-update node prev [] (x ∷ xs) a n apart l = l
Linked-update node prev (p ∷ ps) [] a n apart l = l
Linked-update node prev (p ∷ ps) (x ∷ xs) a n apart l =
    (rw (eq_false p a apart.0) l.0, l.1, Linked-update node (some p) ps xs a n apart.1 l.2)

-- The node of the first item that is the needle.
abbrev pub position : Pointer → List ℕ → List Pointer → Pointer
position needle [] xs = none
position needle (p ∷ ps) [] = none
position needle (p ∷ ps) (x ∷ xs) = if same_pointer x needle then some p else position needle ps xs

find_node-position :
    (fuel : ℕ) (h : Heap) (needle prev : Pointer) (ps : List ℕ) (xs : List Pointer)
    → length xs < fuel
    → Linked h.node prev ps xs
    → find_node fuel h needle (first_of ps) ≡ ok (some (position needle ps xs))
unfolding find_node
find_node-position zero h needle prev ps xs enough l = absurd (omega arith)
find_node-position (suc fuel) h needle prev [] xs enough l = refl
find_node-position (suc fuel) h needle prev (p ∷ ps) [] enough l = absurd l
find_node-position (suc fuel) h needle prev (p ∷ ps) (x ∷ xs) enough l =
    let rest = find_node-position fuel h needle (some p) ps xs (omega arith) l.2 in
    elim (Bool-cases (same_pointer x needle)) [
      | inl e ↦ rw (l.0, e) refl
      | inr e ↦ rw (l.0, e) rest
    ]

-- `List_find` ends, touches only nodes of the list, and returns the node of the first item that is the
-- needle, or `NULL` when there is none.
pub list_find-position :
    (h : Heap) (l : LinkedList) (xs : List Pointer) (needle : Pointer)
    → (r : Represents h l xs) → list_find h l needle ≡ ok (some (position needle r.nodes xs))
unfolding list_find
list_find-position h l xs needle r =
    rw r.head
      (find_node-position (l.count + 1) h needle none r.nodes xs (omega (arith, r.count)) r.linked)

-- What a second call of a deallocator is made on.
abbrev again : Pointer → List Pointer
again none = []
again (some item) = some item ∷ []

-- The calls of a deallocator for some items: one on each, and one on what it leaves there, if that is
-- not `NULL`.
abbrev pub calls : Option Deallocator → List Pointer → List Pointer
calls none xs = []
calls (some d) [] = []
calls (some d) (x ∷ xs) = x ∷ (again (d x) ++ calls (some d) xs)

-- A deallocator that leaves `NULL` is called once on each item.
calls-clearing :
    (d : Deallocator) (xs : List Pointer) → ((x : Pointer) → d x ≡ none) → calls (some d) xs ≡ xs
calls-clearing d [] clears = refl
calls-clearing d (x ∷ xs) clears = rw (clears x, calls-clearing d xs clears) refl

abbrev pub AllFreed : (ℕ → Option ListNode) → List ℕ → Type 0
AllFreed node [] = Unit
AllFreed node (p ∷ ps) = (node p ≡ none) × AllFreed node ps

-- What a turn of the loop makes of a heap.
record Turned (h : Heap) (dealloc : Option Deallocator) (p : ℕ) (x : Pointer) (h' : Heap)
    : Type 0 where
  pub items :
      (xs : List Pointer) → h'.released ++ calls dealloc xs ≡ h.released ++ calls dealloc (x ∷ xs)
  pub gone : h'.node p ≡ none
  pub stays : (a : ℕ) → h.node a ≡ none → h'.node a ≡ none
  pub others :
      (prev : Pointer) (ps : List ℕ) (xs : List Pointer)
      → Apart p ps
      → Linked h.node prev ps xs
      → Linked h'.node prev ps xs

freed-stays : (node : ℕ → Option ListNode) (p a : ℕ) → node a ≡ none → update node p none a ≡ none
freed-stays node p a e = elim (Bool-cases (a == p)) [
  | inl same ↦ rw same refl
  | inr other ↦ rw other e
]

written-stays :
    (node : ℕ → Option ListNode) (p a : ℕ) (n : Option ListNode)
    → node a ≡ none
    → update (update node p n) p none a ≡ none
written-stays node p a n e = elim (Bool-cases (a == p)) [
  | inl same ↦ rw same refl
  | inr other ↦ rw other e
]

release-again :
    (d : Deallocator) (y : Pointer) (released rest : List Pointer)
    → release (some d) y released ++ rest ≡ released ++ (again y ++ rest)
release-again d none released rest = refl
release-again d (some item) released rest = append_assoc released (some item ∷ []) rest

destroy_node-Turned :
    (h : Heap) (dealloc : Option Deallocator) (p : ℕ) (n : ListNode)
    → h.node p ≡ some n
    → (h' : Heap) × (destroy_node h dealloc p n ≡ ok h') × Turned h dealloc p n.item h'
unfolding destroy_node
destroy_node-Turned h none p n e = (
  record h { node = update h.node p none },
  rw e refl,
  record {
    items = λ xs. refl;
    gone = rw (eq_true p p refl) refl;
    stays = λ a free. freed-stays h.node p a free;
    others = λ prev ps xs apart l. Linked-update h.node prev ps xs p none apart l;
  },
)
destroy_node-Turned h (some d) p n e =
    let n' : ListNode = record n { item = d n.item } in
    let node' = update h.node p (some n') in
    (
      record h {
        node = update node' p none;
        released = release (some d) (d n.item) (h.released ++ n.item ∷ []);
      },
      rw (eq_true p p refl) refl,
      record {
        items = λ xs.
            release-again d (d n.item) (h.released ++ n.item ∷ []) (calls (some d) xs)
            ∙ append_assoc h.released (n.item ∷ []) (again (d n.item) ++ calls (some d) xs);
        gone = rw (eq_true p p refl) refl;
        stays = λ a free. written-stays h.node p a (some n') free;
        others = λ prev ps xs apart l.
            Linked-update node' prev ps xs p none apart
              (Linked-update h.node prev ps xs p (some n') apart l);
      },
    )

-- No call is left when the list is empty.
calls-nil :
    (dealloc : Option Deallocator) (released : List Pointer)
    → released ≡ released ++ calls dealloc []
calls-nil none released = sym (append-nil released)
calls-nil (some d) released = sym (append-nil released)

destroy_loop-calls :
    (fuel : ℕ) (h : Heap) (dealloc : Option Deallocator) (prev : Pointer) (ps : List ℕ)
    (xs : List Pointer)
    → length xs < fuel
    → Linked h.node prev ps xs
    → (h' : Heap) × (destroy_loop fuel h dealloc (first_of ps) ≡ ok (some h'))
      × (h'.released ≡ h.released ++ calls dealloc xs)
      × ((a : ℕ) → h.node a ≡ none → h'.node a ≡ none)
      × AllFreed h'.node ps
unfolding destroy_loop
destroy_loop-calls zero h dealloc prev ps xs enough l = absurd (omega arith)
destroy_loop-calls (suc fuel) h dealloc prev [] [] enough l =
    (h, refl, calls-nil dealloc h.released, λ a e. e, tt)
destroy_loop-calls (suc fuel) h dealloc prev [] (x ∷ xs) enough l = absurd l
destroy_loop-calls (suc fuel) h dealloc prev (p ∷ ps) [] enough l = absurd l
destroy_loop-calls (suc fuel) h dealloc prev (p ∷ ps) (x ∷ xs) enough l =
    let n : ListNode = record { forward = first_of ps; backward = prev; item = x } in
    let (h1, turned, t) = destroy_node-Turned h dealloc p n l.0 in
    let (h', done, items, stays, freed) =
      destroy_loop-calls fuel h1 dealloc (some p) ps xs (omega arith)
        (t.others (some p) ps xs l.1 l.2) in
    (
      h',
      rw (l.0, turned) done,
      items ∙ t.items xs,
      λ a e. stays a (t.stays a e),
      (stays p t.gone, freed),
    )

-- List_destroy of a list that stands for some items ends: it has freed every node, leaves an empty
-- list, and has called its deallocator, if it has one, on each item in order, NULL items too, each
-- call followed by one on what it has left in place of the item, if that is not NULL.
pub list_destroy-calls :
    (h : Heap) (l : LinkedList) (xs : List Pointer)
    → (r : Represents h l xs)
    → (h' : Heap) × (list_destroy h l ≡ ok (some (h', list_new l.dealloc)))
      × (h'.released ≡ h.released ++ calls l.dealloc xs)
      × AllFreed h'.node r.nodes
unfolding list_destroy
list_destroy-calls h l xs r =
    let (h', done, items, stays, freed) =
      destroy_loop-calls (l.count + 1) h l.dealloc none r.nodes xs (omega (arith, r.count))
        r.linked in
    (h', rw (r.head, done) refl, items, freed)
