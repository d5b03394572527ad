-- ===== src/FdTable.antt =====
-- http_in_c/runloop/fdtable.c: the reactor's table of watchers by file descriptor. A watcher is any
-- value; a `NULL` entry is `none`. A descriptor is not negative. Tag checks are left out.
pub mod Count
pub mod Iterate
mod Tests
use c_http.Prelude.{
  is_none, ℕ, zero, suc, ◌+◌, ◌-◌, ◌*◌, ◌%◌, ◌^◌, List, [], ◌∷◌, Option, none, some, Bool, true,
  false, Run, ok, fault, assert_failed, out_of_bounds, ◌>>=◌, ◌>>◌, check, load, store, replicate,
  ltb, drop, if◌then◌else◌,
}
use c_http.Prelude.Int.{ℤ, pos, negsuc}

-- RTOR_FDTABLE_MAX
abbrev pub fdtable_max : ℕ
fdtable_max = 1024

abbrev pub is_some {ℓ} : {A : Type ℓ} → Option A → Bool
is_some none = false
is_some (some a) = true

-- `struct FdTable_s`
pub record FdTable {ℓ} (W : Type ℓ) : Type ℓ where
  pub count : ℕ
  pub entries : List (Option W)

module _ {ℓ} {W : Type ℓ} where
  -- `FdTable_init` and `FdTable_new`
  pub fdtable_new : FdTable W
  fdtable_new = record { count = 0; entries = replicate fdtable_max none }

  pub fdtable_insert : FdTable W → W → ℕ → Run (FdTable W)
  fdtable_insert this watcher fd = do
    entry ← load this.entries fd
    check (is_none entry)
    entries ← store this.entries fd (some watcher)
    ok (record { count = (this.count + 1) % 2 ^ 64; entries = entries })

  pub fdtable_remove : FdTable W → ℕ → Run (FdTable W)
  fdtable_remove athis fd = do
    entry ← load athis.entries fd
    check (is_some entry)
    entries ← store athis.entries fd none
    ok (record { count = (athis.count + 2 ^ 64 - 1) % 2 ^ 64; entries = entries })

  pub fdtable_lookup : FdTable W → ℕ → Run W
  fdtable_lookup this fd = do
    entry ← load this.entries fd
    elim entry [ none ↦ fault assert_failed | some w ↦ ok w ]

  -- The loop of both iterators: the entries from index `i` on.
  pub scan : List (Option W) → ℕ → ℤ
  scan [] i = negsuc 0
  scan (entry ∷ entries) i =
      let rest = scan entries (i + 1) in if is_some entry then pos i else rest

  pub fdtable_iterator : FdTable W → ℤ
  unfolding scan
  fdtable_iterator this = scan this.entries 0

  pub fdtable_next_iterator : FdTable W → ℕ → Run ℤ
  unfolding scan
  fdtable_next_iterator this iter = do
    check (ltb (iter + 1) fdtable_max)
    ok (scan (drop (iter + 1) this.entries) (iter + 1))

  abbrev pub fdtable_size : FdTable W → ℕ
  fdtable_size this = this.count
