-- ===== src/FdTable/Tests.antt =====
-- A table with the watcher 7 at descriptor 0.
use c_http.Prelude.{
  ℕ, suc, ◌+◌, ◌≡◌, ◌≢◌, ◌≤◌, ◌<◌, refl, ◌∷◌, Option, none, some, ok, fault, assert_failed,
  replicate, length-replicate, get_elem?, ap, sym, ◌⊎◌,
}
use c_http.Prelude.Int.{ℤ, pos}
use c_http.FdTable.{
  FdTable, fdtable_new, fdtable_insert, fdtable_lookup, fdtable_iterator, fdtable_next_iterator,
}
use c_http.FdTable.Count.{IsValid, occupied-replicate, new-IsValid, fdtable_insert-IsValid}
use c_http.FdTable.Iterate.{NextIs, fdtable_next_iterator-NextIs}

abbrev new_table : FdTable ℕ
new_table = fdtable_new

abbrev one_watcher : FdTable ℕ
one_watcher = record { count = 1; entries = some 7 ∷ replicate 1023 none }

one_watcher-IsValid : IsValid one_watcher
one_watcher-IsValid = record {
  size = ap suc (length-replicate {A = Option ℕ} 1023 none);
  counted = sym (ap suc (occupied-replicate ℕ 1023));
}

free_at_two : get_elem? new_table.entries 2 ≡ some none
unfolding fdtable_new
free_at_two = refl

first_watcher : fdtable_iterator one_watcher ≡ pos 0
unfolding fdtable_iterator
first_watcher = refl

fdtable_insert-IsValid_example :
    (t' : FdTable ℕ) × (fdtable_insert new_table 9 2 ≡ ok t')
    × IsValid t'
    × (t'.count ≡ new_table.count + 1)
    × (fdtable_lookup t' 2 ≡ ok 9)
    × ((other : ℕ) → other ≢ 2 → fdtable_lookup t' other ≡ fdtable_lookup new_table other)
fdtable_insert-IsValid_example = fdtable_insert-IsValid new_table 9 2 new-IsValid free_at_two

fdtable_next_iterator-NextIs_example :
    ((1 + 1 < 1024)
      × ((r : ℤ) × (fdtable_next_iterator one_watcher 1 ≡ ok r)
          × NextIs one_watcher.entries (1 + 1) r))
    ⊎ ((1024 ≤ 1 + 1) × (fdtable_next_iterator one_watcher 1 ≡ fault assert_failed))
fdtable_next_iterator-NextIs_example = fdtable_next_iterator-NextIs one_watcher 1
