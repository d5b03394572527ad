-- ===== src/BufferChain/Compare.antt =====
-- What `BufferChain_eq_cstr` decides.
use c_http.Prelude.{
  ℕ, zero, suc, ◌+◌, ◌≤◌, ◌≡◌, ◌≢◌, refl, List, [], ◌∷◌, ◌++◌, Option, none, some, ok, arith,
  length, drop, length-drop, Bool, true, false, ◌==◌, if◌then◌else◌, load, ap, ◌∙◌, Bool-cases, inl,
  inr,
}
use c_http.IoBuffer.Laws.{bytes, read_data-bytes}
use c_http.IoBuffer.{IoBuffer}
use c_http.BufferChain.{BufferChain, eq_bytes, eq_loop, eq_cstr}
use c_http.BufferChain.Laws.{contents, AllFilled, IsValid}

-- Whether a text starts with the bytes.
abbrev pub is_prefix : List ℕ → List ℕ → Bool
is_prefix [] s = true
is_prefix (b ∷ bs) [] = false
is_prefix (b ∷ bs) (c ∷ s) = if c == b then is_prefix bs s else false

abbrev pub NoZero : List ℕ → Type 0
NoZero [] = Unit
NoZero (b ∷ bs) = (b ≢ 0) × NoZero bs

NoZero-append : (xs ys : List ℕ) → NoZero (xs ++ ys) → NoZero xs × NoZero ys
NoZero-append [] ys h = (tt, h)
NoZero-append (x ∷ xs) ys h = let (a, b) = NoZero-append xs ys h.1 in ((h.0, a), b)

-- What stands at an index of a string's memory.
load-inside :
    (s : List ℕ) (i c : ℕ) (rest : List ℕ)
    → drop i s ≡ c ∷ rest
    → (load (s ++ 0 ∷ []) i ≡ ok c) × (drop (suc i) s ≡ rest)
load-inside [] zero c rest e = cc
load-inside [] (suc i) c rest e = cc
load-inside (x ∷ s) zero c rest e = (cc, cc)
load-inside (x ∷ s) (suc i) c rest e = load-inside s i c rest e

inside : (s : List ℕ) (i c : ℕ) (rest : List ℕ) → drop i s ≡ c ∷ rest → i + 1 ≤ length s
inside [] zero c rest e = cc
inside [] (suc i) c rest e = cc
inside (x ∷ s) zero c rest e = omega arith
inside (x ∷ s) (suc i) c rest e = omega (arith, inside s i c rest e)

load-end : (s : List ℕ) (i : ℕ) → i ≤ length s → drop i s ≡ [] → load (s ++ 0 ∷ []) i ≡ ok 0
load-end [] zero h e = refl
load-end [] (suc i) h e = absurd (omega arith)
load-end (x ∷ s) zero h e = cc
load-end (x ∷ s) (suc i) h e = load-end s i (omega arith) e

-- What comparing the bytes from an index on returns.
abbrev compared : Bool → ℕ → Option ℕ
compared matches next = if matches then some next else none

eq_bytes-is_prefix :
    (s bs : List ℕ) (i : ℕ)
    → NoZero bs
    → i ≤ length s
    → eq_bytes (s ++ 0 ∷ []) bs i ≡ ok (compared (is_prefix bs (drop i s)) (i + length bs))
unfolding eq_bytes
eq_bytes-is_prefix s [] i nz h = ap (λ (n : ℕ). ok (some n)) (omega arith)
eq_bytes-is_prefix s (b ∷ bs) i nz h =
    go (drop i s) (λ h'. eq_bytes-is_prefix s bs (i + 1) nz.1 h') refl
  where
    go :
        (t : List ℕ)
        → (i + 1 ≤ length s
            → eq_bytes (s ++ 0 ∷ []) bs (i + 1)
              ≡ ok (compared (is_prefix bs (drop (i + 1) s)) (i + 1 + length bs)))
        → drop i s ≡ t
        → eq_bytes (s ++ 0 ∷ []) (b ∷ bs) i
          ≡ ok (compared (is_prefix (b ∷ bs) (drop i s)) (i + length (b ∷ bs)))
    go [] ih e = rw (e, load-end s i h e) (ground (arith, nz.0))
    go (c ∷ t) ih e =
        let (here, next) = load-inside s i c t e in
        let one : i + 1 ≡ suc i = omega arith in
        let rest : drop (i + 1) s ≡ t = ap (λ (n : ℕ). drop n s) one ∙ next in
        let last : i + 1 + length bs ≡ i + suc (length bs) = omega arith in
        elim (Bool-cases (c == b)) [
          | inl same ↦ rw (here, e, same, ih (inside s i c t e), rest, last)
          | inr other ↦ rw (here, e, other)
        ]

is_prefix-append :
    (xs ys s : List ℕ)
    → is_prefix (xs ++ ys) s ≡ (if is_prefix xs s then is_prefix ys (drop (length xs) s) else false)
is_prefix-append [] ys s = refl
is_prefix-append (x ∷ xs) ys [] = refl
is_prefix-append (x ∷ xs) ys (c ∷ s) = ground (arith, is_prefix-append xs ys s)

is_prefix-le : (xs s : List ℕ) → is_prefix xs s ≡ true → length xs ≤ length s
is_prefix-le [] s h = omega arith
is_prefix-le (x ∷ xs) [] h = cc
is_prefix-le (x ∷ xs) (c ∷ s) h = ground (arith, is_prefix-le xs s)

drop-drop : (i j k : ℕ) (s : List ℕ) → k ≡ i + j → drop j (drop i s) ≡ drop k s
drop-drop zero j k s e = ap (λ (n : ℕ). drop n s) (omega arith)
drop-drop (suc i) zero zero [] e = refl
drop-drop (suc i) zero (suc k) [] e = refl
drop-drop (suc i) (suc j) zero [] e = refl
drop-drop (suc i) (suc j) (suc k) [] e = refl
drop-drop (suc i) j zero (x ∷ s) e = absurd (omega arith)
drop-drop (suc i) j (suc k) (x ∷ s) e = drop-drop i j k s (omega arith)

eq_loop-is_prefix :
    (s : List ℕ) (l : List IoBuffer) (i : ℕ)
    → AllFilled l
    → NoZero (contents l)
    → i ≤ length s
    → eq_loop (s ++ 0 ∷ []) l i ≡ ok (is_prefix (contents l) (drop i s))
unfolding eq_loop
eq_loop-is_prefix s [] i f nz h = refl
eq_loop-is_prefix s (b ∷ l) i f nz h =
    let (nb, nl) = NoZero-append (bytes b) (contents l) nz in
    let first = eq_bytes-is_prefix s (bytes b) i nb h in
    elim (Bool-cases (is_prefix (bytes b) (drop i s))) [
      | inl starts ↦
          let long = is_prefix-le (bytes b) (drop i s) starts in
          rw
            (
              read_data-bytes b f.0,
              first,
              starts,
              is_prefix-append (bytes b) (contents l) (drop i s),
              starts,
            )
            (eq_loop-is_prefix s l (i + length (bytes b)) f.2 nl (omega (arith, length-drop i s))
              ∙ rw (drop-drop i (length (bytes b)) _ s refl) refl)
      | inr differs ↦ rw (
        read_data-bytes b f.0,
        first,
        differs,
        is_prefix-append (bytes b) (contents l) (drop i s),
        differs,
      )
    ]

-- `BufferChain_eq_cstr` on a chain of non-zero bytes reads nothing outside the string and returns
-- whether the string starts with the chain's bytes: also for a string that goes on.
pub eq_cstr-is_prefix :
    (c : BufferChain) (s : List ℕ)
    → IsValid c
    → NoZero (contents c.chain)
    → eq_cstr c (s ++ 0 ∷ []) ≡ ok (is_prefix (contents c.chain) s)
unfolding eq_cstr
eq_cstr-is_prefix c s v nz = eq_loop-is_prefix s c.chain 0 v.filled nz (omega arith)
