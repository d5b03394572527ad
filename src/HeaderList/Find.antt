-- ===== src/HeaderList/Find.antt =====
-- Looking up and removing header lines by name, whatever the case of its letters.
use c_http.Prelude.{
  ℕ, suc, ◌+◌, ◌≡◌, ◌≢◌, refl, List, [], ◌∷◌, ◌++◌, map, Option, none, some, true, false, arith,
  get_elem?, if◌then◌else◌, Bool-cases, ◌⊎◌, inl, inr, eq_true, ◌==◌, ap, ap₂, sym, ◌∙◌,
}
use native.Mathlib.Nat.{zero-add}
use c_http.KvPair.{c_string, toupper, make_upper, equal_bytes, strcmp_eq, KvPair, kv_pair_new}
use c_http.HeaderList.{
  HeaderList, hdr_list_itr_remove, find_loop, hdr_list_find_iter, hdr_list_find, hdr_list_remove,
  hdr_list_add_cstr,
}

-- The name that a key stands for.
abbrev pub upper : List ℕ → List ℕ
upper key = map toupper (c_string key)

-- The first line with a label, and the lines without it.
abbrev pub lookup : List ℕ → HeaderList → Option KvPair
lookup k [] = none
lookup k (kv ∷ l) = if strcmp_eq kv.label k then some kv else lookup k l

abbrev pub without : List ℕ → HeaderList → HeaderList
without k [] = []
without k (kv ∷ l) = if strcmp_eq kv.label k then l else kv ∷ without k l

pub equal_bytes_refl : (a : List ℕ) → equal_bytes a a ≡ true
equal_bytes_refl [] = refl
equal_bytes_refl (x ∷ a) = rw (eq_true x x refl, equal_bytes_refl a) refl

pub equal_bytes-eq : (a b : List ℕ) → equal_bytes a b ≡ true → a ≡ b
equal_bytes-eq [] [] e = refl
equal_bytes-eq [] (y ∷ b) e = cc
equal_bytes-eq (x ∷ a) [] e = cc
equal_bytes-eq (x ∷ a) (y ∷ b) e = elim (Bool-cases (x == y)) [
  | inl same ↦
      ap₂ (λ (h : ℕ) (t : List ℕ). h ∷ t) (ground arith) (equal_bytes-eq a b (rw same at e))
  | inr other ↦ absurd (ground (arith, e, other))
]

-- The upper-case name has no terminator inside.
pub c_string-upper :
    (s : List ℕ) → c_string (map toupper (c_string s) ++ 0 ∷ []) ≡ map toupper (c_string s)
c_string-upper [] = refl
c_string-upper (ch ∷ s) = elim (Bool-cases (ch == 0)) [
  | inl e ↦ rw e refl
  | inr e ↦
      let nonzero : (toupper ch == 0) ≡ false = ground arith in
      rw e (rw nonzero (ap (λ (t : List ℕ). toupper ch ∷ t) (c_string-upper s)))
]

-- Where the loop stops.
abbrev Stops : List ℕ → HeaderList → ℕ → Type 0
Stops k l i =
    ((find_loop k l i ≡ none) × (lookup k l ≡ none) × (without k l ≡ l))
    ⊎ ((n : ℕ) × (kv : KvPair) × (find_loop k l i ≡ some (i + n))
        × (get_elem? l n ≡ some kv)
        × (lookup k l ≡ some kv)
        × (hdr_list_itr_remove l n ≡ without k l))

find_loop-Stops : (k : List ℕ) (l : HeaderList) (i : ℕ) → Stops k l i
unfolding find_loop
find_loop-Stops k [] i = inl (refl, refl, refl)
find_loop-Stops k (kv ∷ l) i = elim (Bool-cases (strcmp_eq kv.label k)) [
  | inl e ↦ inr (0, kv, rw e (ap some (omega arith)), refl, rw e refl, rw e refl)
  | inr e ↦ elim (find_loop-Stops k l (i + 1)) [
    | inl s ↦ inl (rw e s.0, rw e s.1, rw e (ap (λ (t : HeaderList). kv ∷ t) s.2))
    | inr (n, kv', found, at_n, looked, removed) ↦ inr (
      suc n,
      kv',
      rw e (found ∙ ap some (omega arith)),
      at_n,
      rw e looked,
      rw e (ap (λ (t : HeaderList). kv ∷ t) removed),
    )
  ]
]

pub find-lookup : (l : HeaderList) (key : List ℕ) → hdr_list_find l key ≡ lookup (make_upper key) l
unfolding hdr_list_find hdr_list_find_iter
find-lookup l key = elim (find_loop-Stops (make_upper key) l 0) [
  | inl s ↦ rw (hdr_list_find, hdr_list_find_iter, s.0, s.1) refl
  | inr (n, kv, found, at_n, looked, removed) ↦
      rw (hdr_list_find, hdr_list_find_iter, found, looked) (rw (zero-add n) at_n)
]

remove-without :
    (l : HeaderList) (key : List ℕ) → hdr_list_remove l key ≡ without (make_upper key) l
unfolding hdr_list_remove hdr_list_find_iter
remove-without l key = elim (find_loop-Stops (make_upper key) l 0) [
  | inl s ↦ rw (hdr_list_remove, hdr_list_find_iter, s.0) (sym s.2)
  | inr (n, kv, found, at_n, looked, removed) ↦
      rw (hdr_list_remove, hdr_list_find_iter, found) (rw (zero-add n) removed)
]

-- The first of two results, if there is one, else the second.
abbrev pub or_else : Option KvPair → Option KvPair → Option KvPair
or_else none o = o
or_else (some kv) o = some kv

lookup_snoc :
    (k : List ℕ) (l : HeaderList) (kv : KvPair)
    → lookup k (l ++ kv ∷ [])
      ≡ or_else (lookup k l) (if strcmp_eq kv.label k then some kv else none)
lookup_snoc k [] kv = refl
lookup_snoc k (kv' ∷ l) kv = elim (Bool-cases (strcmp_eq kv'.label k)) [
  | inl e ↦ rw e refl
  | inr e ↦ rw e (lookup_snoc k l kv)
]

-- After `HdrList_add_cstr`, `HdrList_find` finds for every key what it found before, and, where it
-- found nothing, the new line if the key is the new label in any case of the letters.
pub hdr_list_find-add_cstr :
    (l : HeaderList) (label value key : List ℕ)
    → hdr_list_find (hdr_list_add_cstr l label value) key
      ≡ or_else (hdr_list_find l key) (
          if equal_bytes (upper label) (upper key)
          then some (kv_pair_new (c_string label) (c_string value))
          else none)
unfolding hdr_list_add_cstr kv_pair_new make_upper
hdr_list_find-add_cstr l label value key =
    let kv = kv_pair_new (c_string label) (c_string value) in
    find-lookup (l ++ kv ∷ []) key
    ∙ lookup_snoc (make_upper key) l kv
    ∙ rw (c_string-upper label, c_string-upper key, find-lookup l key) refl

lookup-without :
    (k k' : List ℕ) (l : HeaderList)
    → c_string k ≢ c_string k'
    → lookup k' (without k l) ≡ lookup k' l
lookup-without k k' [] other = refl
lookup-without k k' (kv ∷ l) other = elim (Bool-cases (strcmp_eq kv.label k)) [
  | inl e ↦ elim (Bool-cases (strcmp_eq kv.label k')) [
    | inl f ↦ absurd (other (sym (equal_bytes-eq _ _ e) ∙ equal_bytes-eq _ _ f))
    | inr f ↦ rw (e, f) refl
  ]
  | inr e ↦ elim (Bool-cases (strcmp_eq kv.label k')) [
    | inl f ↦ rw (e, f) refl
    | inr f ↦ rw (e, f) (lookup-without k k' l other)
  ]
]

-- `HdrList_remove` of a key changes what `HdrList_find` finds for no other key.
pub hdr_list_find-remove :
    (l : HeaderList) (key other : List ℕ)
    → upper key ≢ upper other
    → hdr_list_find (hdr_list_remove l key) other ≡ hdr_list_find l other
unfolding make_upper
hdr_list_find-remove l key other h =
    let apart : c_string (make_upper key) ≢ c_string (make_upper other) =
      λ e. h (sym (c_string-upper key) ∙ e ∙ c_string-upper other) in
    rw (remove-without l key, find-lookup, find-lookup)
      (lookup-without (make_upper key) (make_upper other) l apart)

-- What `HdrList_remove` takes out, for every list and key: nothing where `HdrList_find` finds nothing,
-- else one line, before which no line has the key.
pub hdr_list_remove-splits :
    (l : HeaderList) (key : List ℕ)
    → ((hdr_list_find l key ≡ none) × (hdr_list_remove l key ≡ l))
      ⊎ ((kv : KvPair) × (before after : HeaderList) × (hdr_list_find l key ≡ some kv)
          × (l ≡ before ++ kv ∷ after)
          × (hdr_list_remove l key ≡ before ++ after)
          × (hdr_list_find before key ≡ none))
hdr_list_remove-splits l key = rw (remove-without l key, find-lookup l key) (splits l)
  where
    splits :
        (l : HeaderList)
        → ((lookup (make_upper key) l ≡ none) × (without (make_upper key) l ≡ l))
          ⊎ ((kv : KvPair) × (before after : HeaderList) × (lookup (make_upper key) l ≡ some kv)
              × (l ≡ before ++ kv ∷ after)
              × (without (make_upper key) l ≡ before ++ after)
              × (hdr_list_find before key ≡ none))
    splits [] = inl (refl, refl)
    splits (kv ∷ l) = elim (Bool-cases (strcmp_eq kv.label (make_upper key))) [
      | inl e ↦ inr (kv, [], l, rw e refl, refl, rw e refl, find-lookup [] key)
      | inr e ↦ elim (splits l) [
        | inl s ↦ inl (rw e s.0, rw e (ap (λ (t : HeaderList). kv ∷ t) s.1))
        | inr (kv', before, after, found, split, removed, none_before) ↦ inr (
          kv',
          kv ∷ before,
          after,
          rw e found,
          ap (λ (t : HeaderList). kv ∷ t) split,
          rw e (ap (λ (t : HeaderList). kv ∷ t) removed),
          find-lookup (kv ∷ before) key ∙ rw e (sym (find-lookup before key) ∙ none_before),
        )
      ]
    ]
