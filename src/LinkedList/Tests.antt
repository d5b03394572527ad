-- ===== src/LinkedList/Tests.antt =====
-- A list of the items 7 and 8 at the addresses 3 and 5.
use c_http.Prelude.{◌≡◌, refl, [], ◌∷◌, none, some, ok, arith}
use c_http.LinkedList.{
  ListNode, Heap, LinkedList, Deallocator, update, list_new, list_find, list_destroy,
}
use c_http.LinkedList.Front.{Represents, AllFreed, list_find-position, list_destroy-calls}

abbrev node_seven : ListNode
node_seven = record { forward = some 5; backward = none; item = some 7 }

abbrev node_eight : ListNode
node_eight = record { forward = none; backward = some 3; item = some 8 }

abbrev heap : Heap
heap = record {
  node = update (update (λ _. none) 3 (some node_seven)) 5 (some node_eight);
  top = 6;
  released = [];
}

abbrev functor_dealloc : Deallocator
functor_dealloc item = item

abbrev two_items : LinkedList
two_items = record { count = 2; head = some 3; tail = some 5; dealloc = some functor_dealloc }

abbrev two_items-Represents : Represents heap two_items (some 7 ∷ some 8 ∷ [])
two_items-Represents = record {
  nodes = 3 ∷ 5 ∷ [];
  linked = (refl, (omega arith, tt), (refl, tt, tt));
  below = (omega arith, (omega arith, tt));
  count = refl;
  head = refl;
  tail = refl;
}

finds_second_item : list_find heap two_items (some 8) ≡ ok (some (some 5))
finds_second_item =
    list_find-position heap two_items (some 7 ∷ some 8 ∷ []) (some 8) two_items-Represents

-- With `Functor_dealloc`, which leaves the item where it is, each item is released twice.
list_destroy-calls_example :
    (h' : Heap) × (list_destroy heap two_items ≡ ok (some (h', list_new (some functor_dealloc))))
    × (h'.released ≡ some 7 ∷ some 7 ∷ some 8 ∷ some 8 ∷ [])
    × AllFreed h'.node (3 ∷ 5 ∷ [])
list_destroy-calls_example =
    list_destroy-calls heap two_items (some 7 ∷ some 8 ∷ []) two_items-Represents
