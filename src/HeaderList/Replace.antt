-- ===== src/HeaderList/Replace.antt =====
-- A new value in the line that a key finds.
use c_http.Prelude.{
  ℕ, suc, ◌+◌, ◌≡◌, ◌≢◌, refl, List, [], ◌∷◌, none, some, true, arith, get_elem?, set, Bool-cases,
  ◌⊎◌, inl, inr, ap, sym, ◌∙◌,
}
use native.Mathlib.Nat.{zero-add}
use c_http.KvPair.{c_string, make_upper, strcmp_eq, KvPair, kv_pair_set_value}
use c_http.HeaderList.{HeaderList, find_loop, hdr_list_find_iter, hdr_list_find}
use c_http.HeaderList.Find.{lookup, upper, equal_bytes-eq, c_string-upper, find-lookup}

-- Looking up a list with a new value at the line that the loop finds.
abbrev Replaces : List ℕ → HeaderList → ℕ → List ℕ → Type 0
Replaces k l i v =
    ((find_loop k l i ≡ none) × (lookup k l ≡ none))
    ⊎ ((n : ℕ) × (kv : KvPair) × (find_loop k l i ≡ some (i + n))
        × (get_elem? l n ≡ some kv)
        × (lookup k (set l n (kv_pair_set_value kv v)) ≡ some (kv_pair_set_value kv v))
        × ((k' : List ℕ)
            → c_string k ≢ c_string k'
            → lookup k' (set l n (kv_pair_set_value kv v)) ≡ lookup k' l))

find_loop-Replaces : (k : List ℕ) (l : HeaderList) (i : ℕ) (v : List ℕ) → Replaces k l i v
unfolding find_loop kv_pair_set_value
find_loop-Replaces k [] i v = inl (refl, refl)
find_loop-Replaces k (kv ∷ l) i v = elim (Bool-cases (strcmp_eq kv.label k)) [
  | inl e ↦
      inr (0, kv, rw e (ap some (omega arith)), refl, rw e refl, λ k' other. differs k' other e)
  | inr e ↦ elim (find_loop-Replaces k l (i + 1) v) [
    | inl s ↦ inl (rw e s.0, rw e s.1)
    | inr (n, kv', found, at_n, looked, others) ↦ inr (
      suc n,
      kv',
      rw e (found ∙ ap some (omega arith)),
      at_n,
      rw e looked,
      λ k' other. elim (Bool-cases (strcmp_eq kv.label k')) [
        | inl f ↦ rw f refl
        | inr f ↦ rw f (others k' other)
      ],
    )
  ]
]
  where
    differs :
        (k' : List ℕ)
        → c_string k ≢ c_string k'
        → strcmp_eq kv.label k ≡ true
        → lookup k' (kv_pair_set_value kv v ∷ l) ≡ lookup k' (kv ∷ l)
    differs k' other e = elim (Bool-cases (strcmp_eq kv.label k')) [
      | inl f ↦ absurd (other (sym (equal_bytes-eq _ _ e) ∙ equal_bytes-eq _ _ f))
      | inr f ↦ rw f refl
    ]

-- A key finds nothing, or it finds a line; with a new value in that line it finds the changed line, and
-- every other key what it found before.
pub hdr_list_find-set :
    (l : HeaderList) (key v : List ℕ)
    → ((hdr_list_find_iter l key ≡ none) × (hdr_list_find l key ≡ none))
      ⊎ ((n : ℕ) × (kv : KvPair) × (hdr_list_find_iter l key ≡ some n)
          × (get_elem? l n ≡ some kv)
          × (hdr_list_find (set l n (kv_pair_set_value kv v)) key ≡ some (kv_pair_set_value kv v))
          × ((other : List ℕ)
              → upper key ≢ upper other
              → hdr_list_find (set l n (kv_pair_set_value kv v)) other ≡ hdr_list_find l other))
unfolding hdr_list_find_iter make_upper
hdr_list_find-set l key v = elim (find_loop-Replaces (make_upper key) l 0 v) [
  | inl s ↦ inl (s.0, find-lookup l key ∙ s.1)
  | inr (n, kv, found, at_n, looked, others) ↦ inr (
    n,
    kv,
    found ∙ ap some (zero-add n),
    at_n,
    find-lookup _ key ∙ looked,
    λ other h.
        find-lookup _ other
        ∙ others (make_upper other) (λ e. h (sym (c_string-upper key) ∙ e ∙ c_string-upper other))
        ∙ sym (find-lookup l other),
  )
]
