-- ===== src/Decimal.antt =====
-- What "%d" of the printf functions prints for a number that is not negative.
mod Tests
use c_http.Prelude.{
  ℕ, zero, suc, ◌+◌, ◌-◌, ◌*◌, ◌/◌, ◌%◌, ◌^◌, ◌≡◌, ◌<◌, ◌≤◌, refl, List, [], ◌∷◌, ◌==◌,
  if◌then◌else◌, arith, Bool-cases, inl, inr, length, ap, eq_true, false,
}
use c_http.KvPair.{c_string}
use native.Mathlib.Numerals.{unary_clauses}

-- The digits of `n` in front of `after`; an `int` has at most 10 of them.
unfoldable pub digits : ℕ → ℕ → List ℕ → List ℕ
digits zero n after = after
digits (suc fuel) n after =
    let shown = (48 + n % 10) ∷ after in
    let rest = digits fuel (n / 10) shown in if n / 10 == 0 then shown else rest

unfoldable pub decimal : ℕ → List ℕ
unfolding digits
decimal n = digits 10 n []

-- The number that a row of digits continues.
abbrev pub number_from : ℕ → List ℕ → ℕ
number_from n [] = n
number_from n (d ∷ ds) = number_from (10 * n + (d - 48)) ds

tenth : (n fuel : ℕ) → n < 10 ^ suc fuel → n / 10 < 10 ^ fuel
tenth n fuel h = omega (arith, simp unary_clauses at h)

digits-number_from :
    (fuel n : ℕ) (after : List ℕ)
    → n < 10 ^ fuel
    → number_from 0 (digits fuel n after) ≡ number_from n after
unfolding digits
digits-number_from zero n after h = rw (below_one n h) refl
  where
    below_one : (n : ℕ) → n < 10 ^ 0 → n ≡ 0
    below_one n h = omega arith
digits-number_from (suc fuel) n after h =
    let split : 10 * (n / 10) + (48 + n % 10 - 48) ≡ n = omega arith in
    elim (Bool-cases (n / 10 == 0)) [
      | inl e ↦
          let small : 0 + (48 + n % 10 - 48) ≡ n = ground (arith, split, e) in
          rw e (ap (λ (m : ℕ). number_from m after) small)
      | inr e ↦
          rw (e, digits-number_from fuel (n / 10) ((48 + n % 10) ∷ after) (tenth n fuel h), split)
            refl
    ]

-- The digits of a number below 10^10 spell that number.
pub decimal-number_from : (n : ℕ) → n < 10 ^ 10 → number_from 0 (decimal n) ≡ n
unfolding decimal
decimal-number_from n h = digits-number_from 10 n [] h

-- As many digits as the bound has zeros, at least one.
length-digits :
    (fuel n k : ℕ) (after : List ℕ)
    → n < 10 ^ suc k
    → length (digits fuel n after) ≤ suc k + length after
unfolding digits
length-digits zero n k after h = omega arith
length-digits (suc fuel) n zero after h =
    let last : n / 10 ≡ 0 = omega arith in rw (eq_true (n / 10) 0 last) (omega arith)
length-digits (suc fuel) n (suc k) after h = elim (Bool-cases (n / 10 == 0)) [
  | inl e ↦ rw e (omega arith)
  | inr e ↦
      rw e
        (omega (arith, length-digits fuel (n / 10) k ((48 + n % 10) ∷ after) (tenth n (suc k) h)))
]

pub length-decimal : (n : ℕ) → n < 10 ^ 9 → length (decimal n) ≤ 9
unfolding decimal
length-decimal n h = length-digits 10 n 8 [] h

-- No digit is a terminator.
c_string-digits :
    (fuel n : ℕ) (after : List ℕ) → c_string (digits fuel n after) ≡ digits fuel n (c_string after)
unfolding digits
c_string-digits zero n after = refl
c_string-digits (suc fuel) n after =
    let nonzero : ((48 + n % 10) == 0) ≡ false = ground arith in
    elim (Bool-cases (n / 10 == 0)) [
      | inl e ↦ rw (e, nonzero) refl
      | inr e ↦ rw (e, c_string-digits fuel (n / 10) ((48 + n % 10) ∷ after), nonzero) refl
    ]

pub c_string-decimal : (n : ℕ) → c_string (decimal n) ≡ decimal n
unfolding decimal
c_string-decimal n = c_string-digits 10 n []
