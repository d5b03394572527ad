-- ===== src/Prelude/Memory.antt =====
-- A block of memory as the list of its bytes: copying into it and reading a stretch of it.
use Prim.Native.Nat.{ℕ, zero, suc, ◌+◌, ◌≤◌, ◌<◌}
use mathlib.Core.Path.{◌≡◌, refl, ap}
use mathlib.Core.List.{List, [], ◌∷◌, ◌++◌}
use native.Mathlib.Omega.{arith}
use c_http.Prelude.Lists.{length, set, take, drop}
use c_http.Prelude.Tests.{leb, if◌then◌else◌}
use c_http.Prelude.Outcome.{Run, ok, fault, out_of_bounds}

module _ {ℓ} {A : Type ℓ} where
  abbrev pub overwrite : List A → List A → List A
  overwrite mem [] = mem
  overwrite [] (b ∷ bs) = []
  overwrite (x ∷ mem) (b ∷ bs) = b ∷ overwrite mem bs

  abbrev pub splice : List A → ℕ → List A → List A
  splice mem zero bs = overwrite mem bs
  splice [] (suc i) bs = []
  splice (x ∷ mem) (suc i) bs = x ∷ splice mem i bs

  -- The `n` cells from `i` on.
  abbrev pub slice : ℕ → ℕ → List A → List A
  slice i n mem = take n (drop i mem)

  -- `memcpy(mem + i, bs, length bs)`
  abbrev pub memcpy : List A → ℕ → List A → Run (List A)
  memcpy mem i bs =
      if leb (i + length bs) (length mem) then ok (splice mem i bs) else fault out_of_bounds

  -- Reading `n` cells from `mem + i`.
  abbrev pub read : List A → ℕ → ℕ → Run (List A)
  read mem i n = if leb (i + n) (length mem) then ok (slice i n mem) else fault out_of_bounds

  pub length-overwrite : (mem bs : List A) → length (overwrite mem bs) ≡ length mem
  length-overwrite mem [] = refl
  length-overwrite [] (b ∷ bs) = refl
  length-overwrite (x ∷ mem) (b ∷ bs) = ap suc (length-overwrite mem bs)

  pub length-splice : (mem : List A) (i : ℕ) (bs : List A) → length (splice mem i bs) ≡ length mem
  length-splice mem zero bs = length-overwrite mem bs
  length-splice [] (suc i) bs = refl
  length-splice (x ∷ mem) (suc i) bs = ap suc (length-splice mem i bs)

  take-overwrite :
      (mem bs : List A) → length bs ≤ length mem → take (length bs) (overwrite mem bs) ≡ bs
  take-overwrite mem [] h = refl
  take-overwrite [] (b ∷ bs) h = absurd (omega arith)
  take-overwrite (x ∷ mem) (b ∷ bs) h = ap (λ l. b ∷ l) (take-overwrite mem bs (omega arith))

  -- What a copy puts at the start of a block.
  pub take-overwrite_le :
      (n : ℕ) (mem bs : List A)
      → n ≤ length bs
      → length bs ≤ length mem
      → take n (overwrite mem bs) ≡ take n bs
  take-overwrite_le zero mem bs h k = refl
  take-overwrite_le (suc n) mem [] h k = absurd (omega arith)
  take-overwrite_le (suc n) [] (b ∷ bs) h k = absurd (omega arith)
  take-overwrite_le (suc n) (x ∷ mem) (b ∷ bs) h k =
      ap (λ l. b ∷ l) (take-overwrite_le n mem bs (omega arith) (omega arith))

  -- A copy of a whole block.
  pub overwrite-all : (mem bs : List A) → length mem ≡ length bs → overwrite mem bs ≡ bs
  overwrite-all [] [] h = refl
  overwrite-all [] (b ∷ bs) h = absurd (omega arith)
  overwrite-all (x ∷ mem) [] h = absurd (omega arith)
  overwrite-all (x ∷ mem) (b ∷ bs) h = ap (λ l. b ∷ l) (overwrite-all mem bs (omega arith))

  -- A copy just behind a stretch extends the stretch by what is copied.
  pub slice-splice :
      (mem : List A) (o n i m : ℕ) (bs : List A)
      → i ≡ o + n
      → m ≡ n + length bs
      → i + length bs ≤ length mem
      → slice o m (splice mem i bs) ≡ slice o n mem ++ bs
  slice-splice mem zero zero i m bs ei em h =
      let start : i ≡ 0 = omega arith in
      let all : m ≡ length bs = omega arith in rw (start, all) (take-overwrite mem bs (omega arith))
  slice-splice [] zero (suc n) i m bs ei em h = absurd (omega arith)
  slice-splice (x ∷ mem) zero (suc n) zero m bs ei em h = absurd (omega arith)
  slice-splice (x ∷ mem) zero (suc n) (suc i) zero bs ei em h = absurd (omega arith)
  slice-splice (x ∷ mem) zero (suc n) (suc i) (suc m) bs ei em h =
      ap (λ l. x ∷ l) (slice-splice mem zero n i m bs (omega arith) (omega arith) (omega arith))
  slice-splice [] (suc o) n i m bs ei em h = absurd (omega arith)
  slice-splice (x ∷ mem) (suc o) n zero m bs ei em h = absurd (omega arith)
  slice-splice (x ∷ mem) (suc o) n (suc i) m bs ei em h =
      slice-splice mem o n i m bs (omega arith) (omega arith) (omega arith)

  -- A write behind a stretch leaves it alone.
  pub slice-set_after :
      (mem : List A) (o n i : ℕ) (v : A) → o + n ≤ i → slice o n (set mem i v) ≡ slice o n mem
  slice-set_after [] o n i v h = refl
  slice-set_after (x ∷ mem) zero zero i v h = refl
  slice-set_after (x ∷ mem) zero (suc n) zero v h = absurd (omega arith)
  slice-set_after (x ∷ mem) zero (suc n) (suc i) v h =
      ap (λ l. x ∷ l) (slice-set_after mem zero n i v (omega arith))
  slice-set_after (x ∷ mem) (suc o) n zero v h = absurd (omega arith)
  slice-set_after (x ∷ mem) (suc o) n (suc i) v h = slice-set_after mem o n i v (omega arith)

  -- A write before a stretch leaves it alone.
  pub slice-set_before :
      (mem : List A) (o n i : ℕ) (v : A) → i < o → slice o n (set mem i v) ≡ slice o n mem
  slice-set_before [] o n i v h = refl
  slice-set_before (x ∷ mem) zero n i v h = absurd (omega arith)
  slice-set_before (x ∷ mem) (suc o) n zero v h = refl
  slice-set_before (x ∷ mem) (suc o) n (suc i) v h = slice-set_before mem o n i v (omega arith)

  -- A write into a stretch shows in it.
  pub slice-set_inside :
      (mem : List A) (o n i k : ℕ) (v : A)
      → i ≡ o + k
      → k < n
      → slice o n (set mem i v) ≡ set (slice o n mem) k v
  slice-set_inside [] zero zero i k v e h = absurd (omega arith)
  slice-set_inside [] zero (suc n) i k v e h = refl
  slice-set_inside [] (suc o) zero i k v e h = absurd (omega arith)
  slice-set_inside [] (suc o) (suc n) i k v e h = refl
  slice-set_inside (x ∷ mem) zero zero i k v e h = absurd (omega arith)
  slice-set_inside (x ∷ mem) zero (suc n) zero zero v e h = refl
  slice-set_inside (x ∷ mem) zero (suc n) zero (suc k) v e h = absurd (omega arith)
  slice-set_inside (x ∷ mem) zero (suc n) (suc i) zero v e h = absurd (omega arith)
  slice-set_inside (x ∷ mem) zero (suc n) (suc i) (suc k) v e h =
      ap (λ l. x ∷ l) (slice-set_inside mem zero n i k v (omega arith) (omega arith))
  slice-set_inside (x ∷ mem) (suc o) n zero k v e h = absurd (omega arith)
  slice-set_inside (x ∷ mem) (suc o) n (suc i) k v e h =
      slice-set_inside mem o n i k v (omega arith) h

  drop-nil : (k : ℕ) → drop {A = A} k [] ≡ []
  drop-nil zero = refl
  drop-nil (suc k) = refl

  take-nil : (k : ℕ) → take {A = A} k [] ≡ []
  take-nil zero = refl
  take-nil (suc k) = refl

  -- The rest of a stretch, behind its first `k` cells.
  pub drop-slice :
      (mem : List A) (o n k i m : ℕ)
      → i ≡ o + k
      → m + k ≡ n
      → drop k (slice o n mem) ≡ slice i m mem
  drop-slice [] o n k i m ei em = rw (drop-nil, drop-nil, take-nil, take-nil, drop-nil)
  drop-slice (x ∷ mem) zero n zero zero m ei em = ap (λ (j : ℕ). take j (x ∷ mem)) (omega arith)
  drop-slice (x ∷ mem) zero n zero (suc i) m ei em = absurd (omega arith)
  drop-slice (x ∷ mem) zero zero (suc k) i m ei em = absurd (omega arith)
  drop-slice (x ∷ mem) zero (suc n) (suc k) zero m ei em = absurd (omega arith)
  drop-slice (x ∷ mem) zero (suc n) (suc k) (suc i) m ei em =
      drop-slice mem zero n k i m (omega arith) (omega arith)
  drop-slice (x ∷ mem) (suc o) n k zero m ei em = absurd (omega arith)
  drop-slice (x ∷ mem) (suc o) n k (suc i) m ei em = drop-slice mem o n k i m (omega arith) em

  pub length-slice : (mem : List A) (o n : ℕ) → o + n ≤ length mem → length (slice o n mem) ≡ n
  length-slice mem zero zero h = refl
  length-slice [] zero (suc n) h = absurd (omega arith)
  length-slice (x ∷ mem) zero (suc n) h = ap suc (length-slice mem zero n (omega arith))
  length-slice [] (suc o) n h = absurd (omega arith)
  length-slice (x ∷ mem) (suc o) n h = length-slice mem o n (omega arith)

  pub take-ge : (l : List A) (n : ℕ) → length l ≤ n → take n l ≡ l
  take-ge [] zero h = refl
  take-ge [] (suc n) h = refl
  take-ge (x ∷ l) zero h = absurd (omega arith)
  take-ge (x ∷ l) (suc n) h = ap (λ t. x ∷ t) (take-ge l n (omega arith))

  pub take-all : (l : List A) → take (length l) l ≡ l
  take-all [] = refl
  take-all (x ∷ l) = ap (λ t. x ∷ t) (take-all l)
