-- ===== src/KvPair/Strings.antt =====
-- What string.h reads of a block.
use c_http.Prelude.{
  ℕ, zero, suc, ◌≡◌, ◌≤◌, refl, List, [], ◌∷◌, some, arith, length, take, get_elem?, ap, Bool-cases,
  inl, inr, eq_true, ◌==◌,
}
use mathlib.Core.Option.{some-injective}
use c_http.KvPair.{c_string}

-- A terminator ends the string: what stands behind it is not read.
pub c_string-take :
    (mem : List ℕ) (n : ℕ) → get_elem? mem n ≡ some 0 → c_string mem ≡ c_string (take n mem)
c_string-take [] n e = cc
c_string-take (ch ∷ mem) zero e = rw (eq_true ch 0 (some-injective ch 0 e)) refl
c_string-take (ch ∷ mem) (suc n) e = elim (Bool-cases (ch == 0)) [
  | inl z ↦ rw z refl
  | inr nz ↦ rw (nz, c_string-take mem n e) refl
]

pub length-c_string : (s : List ℕ) → length (c_string s) ≤ length s
length-c_string [] = omega arith
length-c_string (ch ∷ s) = elim (Bool-cases (ch == 0)) [
  | inl z ↦ rw z (omega arith)
  | inr nz ↦ rw nz (omega (arith, length-c_string s))
]

pub c_string-c_string : (s : List ℕ) → c_string (c_string s) ≡ c_string s
c_string-c_string [] = refl
c_string-c_string (ch ∷ s) = elim (Bool-cases (ch == 0)) [
  | inl z ↦ rw z refl
  | inr nz ↦ rw nz (rw nz (ap (λ (t : List ℕ). ch ∷ t) (c_string-c_string s)))
]
