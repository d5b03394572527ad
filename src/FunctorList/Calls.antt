-- ===== src/FunctorList/Calls.antt =====
-- Sequences of calls of functor_list.c, against a first-in first-out queue that holds at most
-- `capacity - 1` functors and stops the process on overflow and underflow.
use c_http.Prelude.{
  ℕ, ◌+◌, ◌≡◌, refl, List, [], ◌∷◌, ◌++◌, Run, ok, fault, assert_failed, ◌>>=◌, arith, length, ltb,
  ltb-true, ltb-false, if◌then◌else◌,
}
use native.Mathlib.Decide.{dec_lt}
use c_http.FunctorList.{FunctorList, functor_list_add, functor_list_remove}
use c_http.FunctorList.Refine.{
  Represents, functor_list_add-Represents, functor_list_add-full, functor_list_remove-Represents,
  functor_list_remove-nil,
}

pub data Call {ℓ} (F : Type ℓ) : Type ℓ where
  add : F → Call F
  remove : Call F

module _ {ℓ} {F : Type ℓ} where
  -- The functors that the `remove` calls return, in order.
  unfoldable pub run : FunctorList F → List (Call F) → Run (List F)
  run lst [] = ok []
  run lst (add f ∷ calls) = functor_list_add lst f >>= λ lst'. run lst' calls
  run lst (remove ∷ calls) =
      functor_list_remove lst >>= λ (f, lst'). run lst' calls >>= λ out. ok (f ∷ out)

  pub fifo_add : ℕ → List F → F → Run (List F)
  fifo_add room q f = if ltb (length q + 1) room then ok (q ++ f ∷ []) else fault assert_failed

  -- The same for the abstract queue.
  pub fifo_run : ℕ → List F → List (Call F) → Run (List F)
  fifo_run room q [] = ok []
  fifo_run room q (add f ∷ calls) = fifo_add room q f >>= λ q'. fifo_run room q' calls
  fifo_run room [] (remove ∷ calls) = fault assert_failed
  fifo_run room (f ∷ q) (remove ∷ calls) = fifo_run room q calls >>= λ out. ok (f ∷ out)

  -- No sequence of calls tells the circular array from the queue of the functors that it holds: the
  -- removed functors are the same, and the process stops at an assertion after the same calls.
  pub run-fifo_run :
      (calls : List (Call F)) (lst : FunctorList F) (q : List F)
      → Represents lst q
      → run lst calls ≡ fifo_run lst.capacity q calls
  unfolding run fifo_run fifo_add
  run-fifo_run [] lst q r = refl
  run-fifo_run (add f ∷ calls) lst q r = elim (dec_lt (length q + 1) lst.capacity) [
    | yes room ↦
        let (lst', done, r', same) = functor_list_add-Represents lst q f r room in
        rw (done, ltb-true _ _ room, run-fifo_run calls lst' (q ++ f ∷ []) r', same)
    | no full ↦ rw (
      functor_list_add-full lst q f r (omega (arith, r)),
      ltb-false (length q + 1) lst.capacity (omega arith),
    )
  ]
  run-fifo_run (remove ∷ calls) lst [] r = rw (functor_list_remove-nil lst r)
  run-fifo_run (remove ∷ calls) lst (f ∷ q) r =
      let (lst', done, r', same) = functor_list_remove-Represents lst f q r in
      rw (done, run-fifo_run calls lst' q r', same)
