-- ===== src/FdTable/Iterate.antt =====
-- What the iterators of a table return.
use c_http.Prelude.{
  ℕ, zero, suc, ◌+◌, ◌-◌, ◌≡◌, ◌≤◌, ◌<◌, ◌≢◌, refl, List, [], ◌∷◌, Option, none, some, ok, fault,
  assert_failed, arith, get_elem?, drop, ltb-true, ltb-false, ap, sym, ◌∙◌, ◌⊎◌, inl, inr,
}
use native.Mathlib.Decide.{dec_lt}
use c_http.Prelude.Int.{ℤ, pos, negsuc}
use c_http.FdTable.{fdtable_max, FdTable, scan, fdtable_iterator, fdtable_next_iterator}

module _ {ℓ} {W : Type ℓ} where
  -- `r` is the least descriptor from `i` on with a watcher, or -1 when there is none.
  pub data NextIs (l : List (Option W)) (i : ℕ) : ℤ → Type ℓ where
    found :
        (j : ℕ) (w : W)
        → i ≤ j
        → get_elem? l j ≡ some (some w)
        → ((k : ℕ) → i ≤ k → k < j → get_elem? l k ≡ some none)
        → NextIs l i (pos j)
    not_found : ((k : ℕ) (w : W) → i ≤ k → get_elem? l k ≢ some (some w)) → NextIs l i (negsuc 0)

  next-after :
      {l : List (Option W)} {i : ℕ} {r : ℤ}
      → get_elem? l i ≡ some none
      → NextIs l (i + 1) r
      → NextIs l i r
  next-after {l = l} {i = i} free (found j w h here between) =
      found j w (omega arith) here (λ k a b. elim (dec_lt i k) [
        | yes p ↦ between k (omega arith) b
        | no p ↦ ap (get_elem? l) (omega arith) ∙ free
      ])
  next-after {l = l} {i = i} free (not_found none_there) = not_found (λ k w a e. elim (dec_lt i k) [
    | yes p ↦ none_there k w (omega arith) e
    | no p ↦ some_none w (sym e ∙ ap (get_elem? l) (omega arith) ∙ free)
  ])
    where
      some_none : (w : W) → some (some w) ≢ some none
      some_none w e = cc

  -- The scan of `rest`, the entries of `l` from `i` on.
  scan-NextIs :
      (l rest : List (Option W)) (i : ℕ)
      → ((k j : ℕ) → i + k ≡ j → get_elem? l j ≡ get_elem? rest k)
      → NextIs l i (scan rest i)
  unfolding scan
  scan-NextIs l [] i same =
      not_found (λ k w h e. none_some w (sym (same (k - i) k (omega arith)) ∙ e))
    where
      none_some : (w : W) → none ≢ some (some w)
      none_some w e = cc
  scan-NextIs l (some w ∷ rest) i same =
      found i w (omega arith) (same 0 i (omega arith)) (λ k h h'. absurd (omega arith))
  scan-NextIs l (none ∷ rest) i same =
      next-after (same 0 i (omega arith))
        (scan-NextIs l rest (i + 1) (λ k j e. same (suc k) j (omega arith)))

  get_elem?-drop :
      (l : List (Option W)) (i k j : ℕ) → i + k ≡ j → get_elem? l j ≡ get_elem? (drop i l) k
  get_elem?-drop l zero k j e = ap (get_elem? l) (omega arith)
  get_elem?-drop [] (suc i) k j e = refl
  get_elem?-drop (x ∷ l) (suc i) k zero e = absurd (omega arith)
  get_elem?-drop (x ∷ l) (suc i) k (suc j) e = get_elem?-drop l i k j (omega arith)

  -- `FdTable_iterator` returns the least descriptor with a watcher, or -1 when there is none.
  pub fdtable_iterator-NextIs : (t : FdTable W) → NextIs t.entries 0 (fdtable_iterator t)
  unfolding fdtable_iterator
  fdtable_iterator-NextIs t =
      scan-NextIs t.entries t.entries 0 (λ k j e. ap (get_elem? t.entries) (omega arith))

  -- `FdTable_next_iterator` returns the least descriptor above the iterator with a watcher, or -1, if
  -- the iterator is below the last descriptor; at the last one it stops at its assertion.
  pub fdtable_next_iterator-NextIs :
      (t : FdTable W) (iter : ℕ)
      → ((iter + 1 < fdtable_max)
          × ((r : ℤ) × (fdtable_next_iterator t iter ≡ ok r) × NextIs t.entries (iter + 1) r))
        ⊎ ((fdtable_max ≤ iter + 1) × (fdtable_next_iterator t iter ≡ fault assert_failed))
  unfolding fdtable_next_iterator
  fdtable_next_iterator-NextIs t iter = elim (dec_lt (iter + 1) fdtable_max) [
    | yes p ↦ inl (
      p,
      (
        _,
        rw (ltb-true (iter + 1) fdtable_max p) refl,
        scan-NextIs t.entries (drop (iter + 1) t.entries) (iter + 1)
            (get_elem?-drop t.entries (iter + 1)),
      ),
    )
    | no p ↦ inr (omega arith, rw (ltb-false (iter + 1) fdtable_max (omega arith)) refl)
  ]
