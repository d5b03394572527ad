-- ===== src/FunctorList/Refine.antt =====
-- The ready list against a queue of at most `capacity - 1` functors.
use c_http.Prelude.{
  ℕ, suc, ◌+◌, ◌%◌, ◌≤◌, ◌<◌, ◌≡◌, ◌≢◌, refl, List, [], ◌∷◌, ◌++◌, ok, fault, assert_failed, arith,
  length, ◌∙◌, length-set, length_snoc, sym, ap, set,
}
use native.Mathlib.Nat.{mod-add-mod}
use c_http.Circular.{Holds, Holds-set_snoc, add-mod-ne, mod-wrap, circle_distance, step-mod}
use c_http.FunctorList.{
  FunctorList, functor_list_new, functor_list_add, functor_list_size, functor_list_remove,
  ready_list_max,
}

-- The list holds the functors `q`, the oldest first.
pub record Represents {ℓ} {F : Type ℓ} (lst : FunctorList F) (q : List F) : Type ℓ where
  pub block : length lst.list ≡ lst.capacity + 1
  pub small : lst.capacity ≤ ready_list_max
  pub head_in : lst.head < lst.capacity
  pub tail_in : lst.tail_plus < lst.capacity
  pub fits : length q < lst.capacity
  pub ends : lst.head ≡ (lst.tail_plus + length q) % lst.capacity
  pub held : Holds lst.list lst.capacity ((lst.tail_plus + 1) % lst.capacity) q

module _ {ℓ} {F : Type ℓ} where
  -- A list of positive capacity starts empty.
  pub new-Represents :
      (block : List F) (capacity : ℕ) {lst : FunctorList F}
      → length block ≡ capacity + 1
      → 0 < capacity
      → functor_list_new block capacity ≡ ok lst
      → Represents lst []
  unfolding functor_list_new
  new-Represents block capacity hb hc e = ground (arith, fits)
    where
      fits : 1 ≤ capacity
      fits = hc

  -- `functor_list_new` accepts a capacity of at most `ready_list_max`.
  pub functor_list_new-ok :
      (block : List F) (capacity : ℕ)
      → length block ≡ capacity + 1
      → 0 < capacity
      → capacity ≤ ready_list_max
      → (lst : FunctorList F) × (functor_list_new block capacity ≡ ok lst) × Represents lst []
  unfolding functor_list_new
  functor_list_new-ok block capacity hb hc fits =
      let lst : FunctorList F = record {
        capacity = capacity;
        head = 0;
        tail_plus = 0;
        list = block;
      } in
      let done : functor_list_new block capacity ≡ ok lst = ground (arith, fits) in
      (lst, done, new-Represents block capacity hb hc done)

  -- `functor_list_size` is the number of functors held.
  pub functor_list_size-length :
      (lst : FunctorList F) (q : List F) → Represents lst q → functor_list_size lst ≡ ok (length q)
  unfolding functor_list_size
  functor_list_size-length lst q r =
      ground (arith, r, circle_distance lst.tail_plus (length q) lst.capacity r.tail_in r.fits)

  -- The slot that `functor_list_add` fills is the one after the last functor.
  next_slot :
      (lst : FunctorList F) (q : List F)
      → Represents lst q
      → (lst.head + 1) % lst.capacity
        ≡ ((lst.tail_plus + 1) % lst.capacity + length q) % lst.capacity
  next_slot lst q r =
      rw (r.ends, mod-add-mod)
        (ap (λ (n : ℕ). n % lst.capacity) (omega arith)
          ∙ sym (step-mod lst.capacity lst.tail_plus (length q)))

  -- The list is full when the slot to fill is the one at `tail_plus`.
  next_slot-full :
      (lst : FunctorList F) (q : List F)
      → Represents lst q
      → length q + 1 ≡ lst.capacity
      → (lst.head + 1) % lst.capacity ≡ lst.tail_plus
  next_slot-full lst q r e =
      rw (next_slot lst q r, step-mod)
        (omega (
          arith,
          r,
          (mod-wrap (lst.tail_plus + suc (length q)) lst.capacity (omega arith)).1 (omega arith),
        ))

  -- `functor_list_add` with room left appends the functor.
  pub functor_list_add-Represents :
      (lst : FunctorList F) (q : List F) (func : F)
      → Represents lst q
      → length q + 1 < lst.capacity
      → (lst' : FunctorList F) × (functor_list_add lst func ≡ ok lst')
        × Represents lst' (q ++ func ∷ [])
        × (lst'.capacity ≡ lst.capacity)
  unfolding functor_list_add
  functor_list_add-Represents lst q func r room =
      let c = lst.capacity in
      let slot = next_slot lst q r in
      let differs : (lst.head + 1) % c ≢ lst.tail_plus =
        rw slot (rw step-mod (add-mod-ne c lst.tail_plus (length q) r.tail_in (omega arith))) in
      let inside : (lst.head + 1) % c < c = grind arith in
      (
        record lst { head = (lst.head + 1) % c; list = set lst.list ((lst.head + 1) % c) func },
        ground arith,
        record {
          block = omega (arith, length-set lst.list ((lst.head + 1) % c) func, r.block);
          small = r.small;
          head_in = inside;
          tail_in = r.tail_in;
          fits = omega (arith, length_snoc q func);
          ends =
              slot
              ∙ step-mod c lst.tail_plus (length q)
              ∙ ap (λ (n : ℕ). (lst.tail_plus + n) % c) (sym (length_snoc q func));
          held = rw slot (
              Holds-set_snoc lst.list c ((lst.tail_plus + 1) % c) q func (grind arith) r.fits
                (omega arith) r.held);
        },
        refl,
      )

  -- `functor_list_add` on a full list stops at the assertion.
  pub functor_list_add-full :
      (lst : FunctorList F) (q : List F) (func : F)
      → Represents lst q
      → length q + 1 ≡ lst.capacity
      → functor_list_add lst func ≡ fault assert_failed
  unfolding functor_list_add
  functor_list_add-full lst q func r e = ground (arith, r, next_slot-full lst q r e)

  -- `functor_list_remove` returns the oldest functor and leaves the others.
  pub functor_list_remove-Represents :
      (lst : FunctorList F) (func : F) (q : List F)
      → Represents lst (func ∷ q)
      → (lst' : FunctorList F) × (functor_list_remove lst ≡ ok (func, lst'))
        × Represents lst' q
        × (lst'.capacity ≡ lst.capacity)
  unfolding functor_list_remove
  functor_list_remove-Represents lst func q r =
      let c = lst.capacity in
      let inside : (lst.tail_plus + 1) % c < c = grind arith in
      (
        record lst { tail_plus = (lst.tail_plus + 1) % c },
        ground (arith, functor_list_size-length lst (func ∷ q) r),
        record {
          block = r.block;
          small = r.small;
          head_in = r.head_in;
          tail_in = inside;
          fits = omega arith;
          ends = r.ends ∙ sym (step-mod c lst.tail_plus (length q));
          held = r.held.1;
        },
        refl,
      )

  -- `functor_list_remove` on an empty list stops at the assertion.
  pub functor_list_remove-nil :
      (lst : FunctorList F) → Represents lst [] → functor_list_remove lst ≡ fault assert_failed
  unfolding functor_list_remove
  functor_list_remove-nil lst r = rw (functor_list_size-length lst [] r)
