-- ===== src/FunctorList.antt =====
-- http_in_c/runloop/functor_list.c: the reactor's ready list and the inter-thread queue, a circle of
-- functors in one block. A functor is any value: the list only copies it. The `int` fields stay
-- below the capacity, which the constructor bounds by 2048, so they are numbers. The tag checks
-- (`FNCLST_CHECK_TAG`) are compiled out unless CH_TAG_CHECK_ON is defined and are left out.
pub mod Calls
pub mod Refine
mod Tests
use c_http.Prelude.{
  ℕ, ◌+◌, ◌-◌, ◌%◌, ◌*◌, List, Run, ok, fault, div_by_zero, ◌>>=◌, ◌>>◌, check, load, store, leb,
  ◌==◌, not, if◌then◌else◌, Bool, true, false,
}

-- RTOR_READY_LIST_MAX
abbrev pub ready_list_max : ℕ
ready_list_max = 2 * 1024

pub record FunctorList {ℓ} (F : Type ℓ) : Type ℓ where
  pub capacity : ℕ
  pub head : ℕ
  pub tail_plus : ℕ
  pub list : List F

-- `a % b` on non-negative `int`s
abbrev pub remainder : ℕ → ℕ → Run ℕ
remainder a b = if b == 0 then fault div_by_zero else ok (a % b)

module _ {ℓ} {F : Type ℓ} where
  abbrev pub set_functor_entry : FunctorList F → ℕ → F → Run (FunctorList F)
  set_functor_entry lst index func = do
    block ← store lst.list index func
    ok (record lst { list = block })

  abbrev pub get_functor_entry : FunctorList F → ℕ → Run F
  get_functor_entry lst index = load lst.list index

  -- `block` is the memory that `malloc(sizeof(Functor) * (capacity + 1))` returns.
  unfoldable pub functor_list_new : (block : List F) → ℕ → Run (FunctorList F)
  functor_list_new block capacity = do
    check (leb capacity ready_list_max)
    ok (record { capacity = capacity; head = 0; tail_plus = 0; list = block })

  unfoldable pub functor_list_add : FunctorList F → F → Run (FunctorList F)
  functor_list_add lst func = do
    tmp ← remainder (lst.head + 1) lst.capacity
    check (not (tmp == lst.tail_plus))
    set_functor_entry (record lst { head = tmp }) tmp func

  unfoldable pub functor_list_size : FunctorList F → Run ℕ
  functor_list_size lst = remainder (lst.head + lst.capacity - lst.tail_plus) lst.capacity

  unfoldable pub functor_list_remove : FunctorList F → Run (F × FunctorList F)
  functor_list_remove lst = do
    size ← functor_list_size lst
    check (not (size == 0))
    tmpix ← remainder (lst.tail_plus + 1) lst.capacity
    func ← get_functor_entry lst tmpix
    ok (func, record lst { tail_plus = tmpix })
