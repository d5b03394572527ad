-- ===== src/FunctorList/Tests.antt =====
-- The ready list at a small capacity.
use c_http.Prelude.{ℕ, ◌≡◌, refl, List, [], ◌∷◌, ok, fault, assert_failed, arith}
use c_http.FunctorList.{
  FunctorList, functor_list_new, functor_list_add, functor_list_remove, functor_list_size,
}
use c_http.FunctorList.Refine.{Represents, new-Represents}
use c_http.FunctorList.Calls.{Call, add, remove, run, fifo_run, run-fifo_run}

abbrev block : List ℕ
block = 0 ∷ 0 ∷ 0 ∷ 0 ∷ []

abbrev small_list : FunctorList ℕ
small_list = record { capacity = 3; head = 0; tail_plus = 0; list = block }

abbrev script : List (Call ℕ)
script = add 7 ∷ add 8 ∷ remove ∷ add 9 ∷ remove ∷ remove ∷ []

small_list-Represents : Represents small_list []
unfolding functor_list_new
small_list-Represents = new-Represents block 3 refl (omega arith) refl

script_output : run small_list script ≡ ok (7 ∷ 8 ∷ 9 ∷ [])
unfolding run functor_list_add functor_list_remove functor_list_size
script_output = refl

overflow : run small_list (add 7 ∷ add 8 ∷ add 9 ∷ []) ≡ fault assert_failed
unfolding run functor_list_add
overflow = refl

run-fifo_run_example : run small_list script ≡ fifo_run 3 [] script
run-fifo_run_example = run-fifo_run script small_list [] small_list-Represents
