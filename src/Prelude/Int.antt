-- ===== src/Prelude/Int.antt =====
-- Signed integers over the native numbers, under the library's names: as much of them as the
-- `int` results of the C code need.
use Prim.Native.Nat.{ℕ, suc, ◌-◌, ◌+◌}
use mathlib.Core.Bool.{Bool, true, false, not}
use c_http.Prelude.Tests.{leb, ltb, ◌==◌, if◌then◌else◌}

-- `negsuc n` is -(n + 1).
pub data ℤ : Type 0 where
  pos : ℕ → ℤ
  negsuc : ℕ → ℤ

-- `a - b` of two numbers
abbrev pub sub_ℕ : ℕ → ℕ → ℤ
sub_ℕ a b = if leb b a then pos (a - b) else negsuc (b - a - 1)

-- `n <= a` for a number on the left
abbrev pub leb_ℤ : ℕ → ℤ → Bool
leb_ℤ n (pos m) = leb n m
leb_ℤ n (negsuc m) = false

-- `a + n` and `a - n`
abbrev pub add_len : ℤ → ℕ → ℤ
add_len (pos m) n = pos (m + n)
add_len (negsuc m) n = sub_ℕ n (suc m)

abbrev pub sub_len : ℤ → ℕ → ℤ
sub_len (pos m) n = sub_ℕ m n
sub_len (negsuc m) n = negsuc (m + n)

-- `a > 0`
abbrev pub is_positive : ℤ → Bool
is_positive (pos n) = ltb 0 n
is_positive (negsuc n) = false

-- `z != 0`
abbrev pub is_nonzero : ℤ → Bool
is_nonzero (pos n) = not (n == 0)
is_nonzero (negsuc n) = true
