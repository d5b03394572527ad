-- ===== src/Prelude/Outcome.antt =====
-- What a run of C code comes to: a value, or the way in which the process goes wrong.
use mathlib.Core.Path.{◌≡◌}
use mathlib.Core.Bool.{Bool, true, false}
use mathlib.Core.Option.{Option, none, some}
use mathlib.Core.List.{List}
use Prim.Native.Nat.{ℕ}
use c_http.Prelude.Lists.{get_elem?, length, set}
use c_http.Prelude.Tests.{ltb, if◌then◌else◌}

-- `assert_failed`: an `assert` or `CHTTP_ASSERT` that stops the process. `out_of_bounds`: a read or
-- write outside the block that `malloc` returned. `div_by_zero`: `%` by zero.
pub data Fault : Type 0 where
  assert_failed out_of_bounds div_by_zero : Fault

pub data Run {ℓ} (A : Type ℓ) : Type ℓ where
  ok : A → Run A
  fault : Fault → Run A

-- `p == NULL`
abbrev pub is_none {ℓ} : {A : Type ℓ} → Option A → Bool
is_none none = true
is_none (some a) = false

infixl 5 ◌>>=◌ ◌>>◌
abbrev pub ◌>>=◌ {ℓ κ} : {A : Type ℓ} {B : Type κ} → Run A → (A → Run B) → Run B
ok a >>= f = f a
fault e >>= f = fault e

abbrev pub ◌>>◌ {ℓ} : {B : Type ℓ} → Run (Unit {0}) → Run B → Run B
m >> k = m >>= λ _. k

-- `assert(b)`
abbrev pub check : Bool → Run (Unit {0})
check true = ok tt
check false = fault assert_failed

module _ {ℓ} {A : Type ℓ} where
  -- `p[i]`
  abbrev pub load : List A → ℕ → Run A
  load xs i = elim (get_elem? xs i) [ none ↦ fault out_of_bounds | some x ↦ ok x ]

  -- `p[i] = v`
  abbrev pub store : List A → ℕ → A → Run (List A)
  store xs i v = if ltb i (length xs) then ok (set xs i v) else fault out_of_bounds

-- A run comes to one value.
pub ok-injective {ℓ} : {A : Type ℓ} (a b : A) → ok a ≡ ok b → a ≡ b
ok-injective a b e = cc
