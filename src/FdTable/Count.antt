-- ===== src/FdTable/Count.antt =====
-- The count of a table is the number of its watchers.
use c_http.Prelude.{
  ℕ, zero, suc, ◌+◌, ◌-◌, ◌%◌, ◌^◌, ◌≡◌, ◌≤◌, ◌<◌, ◌≢◌, refl, List, [], ◌∷◌, Option, none, some, ok,
  arith, length, set, get_elem?, get_elem?-set_self, get_elem?-set_ne, length-set, replicate,
  length-replicate, sym, ◌∙◌,
}
use c_http.FdTable.{
  fdtable_max, FdTable, fdtable_new, fdtable_insert, fdtable_remove, fdtable_lookup,
}

module _ {ℓ} {W : Type ℓ} where
  -- The number of watchers.
  abbrev pub occupied : List (Option W) → ℕ
  occupied [] = 0
  occupied (none ∷ l) = occupied l
  occupied (some w ∷ l) = suc (occupied l)

  pub record IsValid (t : FdTable W) : Type ℓ where
    pub size : length t.entries ≡ fdtable_max
    pub counted : t.count ≡ occupied t.entries

pub occupied-replicate {ℓ} : (W : Type ℓ) (n : ℕ) → occupied (replicate {A = Option W} n none) ≡ 0
occupied-replicate W zero = refl
occupied-replicate W (suc n) = occupied-replicate W n

module _ {ℓ} {W : Type ℓ} where
  -- `FdTable_new` makes a valid table.
  pub new-IsValid : IsValid (fdtable_new {W = W})
  unfolding fdtable_new
  new-IsValid = record {
    size = length-replicate {A = Option W} fdtable_max none;
    counted = sym (occupied-replicate W fdtable_max);
  }

  occupied_le : (l : List (Option W)) → occupied l ≤ length l
  occupied_le [] = omega arith
  occupied_le (none ∷ l) = omega (arith, occupied_le l)
  occupied_le (some w ∷ l) = omega (arith, occupied_le l)

  occupied-set-some :
      (l : List (Option W)) (i : ℕ) (w : W)
      → get_elem? l i ≡ some none
      → (occupied (set l i (some w)) ≡ occupied l + 1) × (occupied l < length l) × (i < length l)
  occupied-set-some [] i w e = cc
  occupied-set-some (none ∷ l) zero w e = (omega arith, omega (arith, occupied_le l), omega arith)
  occupied-set-some (some v ∷ l) zero w e = cc
  occupied-set-some (none ∷ l) (suc i) w e =
      let (a, b, c) = occupied-set-some l i w e in (a, omega arith, omega arith)
  occupied-set-some (some v ∷ l) (suc i) w e =
      let (a, b, c) = occupied-set-some l i w e in (omega arith, omega arith, omega arith)

  occupied-set-none :
      (l : List (Option W)) (i : ℕ) (w : W)
      → get_elem? l i ≡ some (some w)
      → (occupied (set l i none) + 1 ≡ occupied l) × (occupied l ≤ length l) × (i < length l)
  occupied-set-none [] i w e = cc
  occupied-set-none (none ∷ l) zero w e = cc
  occupied-set-none (some v ∷ l) zero w e = (omega arith, omega (arith, occupied_le l), omega arith)
  occupied-set-none (none ∷ l) (suc i) w e =
      let (a, b, c) = occupied-set-none l i w e in (a, omega arith, omega arith)
  occupied-set-none (some v ∷ l) (suc i) w e =
      let (a, b, c) = occupied-set-none l i w e in (omega arith, omega arith, omega arith)

  -- `FdTable_insert` at a free descriptor returns a valid table that counts one watcher more: `lookup`
  -- finds the new watcher there, and at every other descriptor what it found before.
  pub fdtable_insert-IsValid :
      (t : FdTable W) (w : W) (fd : ℕ)
      → IsValid t
      → get_elem? t.entries fd ≡ some none
      → (t' : FdTable W) × (fdtable_insert t w fd ≡ ok t')
        × IsValid t'
        × (t'.count ≡ t.count + 1)
        × (fdtable_lookup t' fd ≡ ok w)
        × ((other : ℕ) → other ≢ fd → fdtable_lookup t' other ≡ fdtable_lookup t other)
  unfolding fdtable_insert fdtable_lookup
  fdtable_insert-IsValid t w fd v free =
      let (more, room, inside) = occupied-set-some t.entries fd w free in
      let small : (t.count + 1) % 2 ^ 64 ≡ t.count + 1 = omega (arith, v) in
      (
        record { count = (t.count + 1) % 2 ^ 64; entries = set t.entries fd (some w) },
        ground (arith, free, inside),
        record {
          size = length-set t.entries fd (some w) ∙ v.size;
          counted = omega (arith, small, v.counted, more);
        },
        small,
        ground (arith, get_elem?-set_self t.entries fd (some w) inside),
        λ other ne. ground (arith, get_elem?-set_ne t.entries (some w) (λ e. ne (sym e))),
      )

  -- `FdTable_remove` of a watcher returns a valid table that counts one watcher less, with `NULL` at
  -- its descriptor and every other entry as it was.
  pub fdtable_remove-IsValid :
      (t : FdTable W) (w : W) (fd : ℕ)
      → IsValid t
      → get_elem? t.entries fd ≡ some (some w)
      → (t' : FdTable W) × (fdtable_remove t fd ≡ ok t')
        × IsValid t'
        × (t'.count + 1 ≡ t.count)
        × (get_elem? t'.entries fd ≡ some none)
        × ((other : ℕ) → other ≢ fd → fdtable_lookup t' other ≡ fdtable_lookup t other)
  unfolding fdtable_remove fdtable_lookup
  fdtable_remove-IsValid t w fd v used =
      let (less, room, inside) = occupied-set-none t.entries fd w used in
      let small : (t.count + 2 ^ 64 - 1) % 2 ^ 64 ≡ t.count - 1 = omega (arith, v) in
      (
        record { count = (t.count + 2 ^ 64 - 1) % 2 ^ 64; entries = set t.entries fd none },
        ground (arith, used, inside),
        record {
          size = length-set t.entries fd none ∙ v.size;
          counted = omega (arith, small, v.counted, less);
        },
        omega (arith, small, v.counted, less),
        get_elem?-set_self t.entries fd none inside,
        λ other ne. ground (arith, get_elem?-set_ne t.entries none (λ e. ne (sym e))),
      )
