-- ===== src/Message/Buffers/ContentLength.antt =====
-- The content length header.
use c_http.Prelude.{
  ℕ, ◌^◌, ◌≡◌, ◌≢◌, ◌<◌, true, false, refl, List, [], ◌∷◌, ◌++◌, Option, none, some, ok, arith,
  length, Bool-cases, inl, inr, ap, sym, ◌∙◌, ltb-true, if◌then◌else◌,
}
use c_http.Prelude.Int.{pos}
use c_http.KvPair.{
  make_upper, c_string, equal_bytes, KvPair, kv_pair_new, kv_pair_set_value, kv_pair_value,
}
use c_http.HeaderList.{HeaderList, hdr_list_find}
use c_http.HeaderList.Find.{
  upper, or_else, equal_bytes-eq, hdr_list_find-add_cstr, find-lookup, lookup, equal_bytes_refl,
}
use c_http.HeaderList.Replace.{hdr_list_find-set}
use c_http.Decimal.{decimal, length-decimal, c_string-decimal}
use c_http.Message.{Message, message_get_header_value}
use c_http.Message.Buffers.{
  content_length, put_content_length, set_value_at, message_set_content_length,
}

abbrev value_of : Option KvPair → Option (List ℕ)
value_of o = elim o [ none ↦ none | some kvp ↦ some (kv_pair_value kvp) ]

or_else-none : (o : Option KvPair) → or_else o none ≡ o
or_else-none none = refl
or_else-none (some kv) = refl

-- The two findings of the new list: the new value under the name, the old lines under all others.
put_content_length-finds :
    (l : HeaderList) (ds : List ℕ)
    → c_string ds ≡ ds
    → (value_of (hdr_list_find (put_content_length l ds) content_length) ≡ some (ds ++ 0 ∷ []))
      × ((key : List ℕ)
          → upper content_length ≢ upper key
          → hdr_list_find (put_content_length l ds) key ≡ hdr_list_find l key)
unfolding put_content_length kv_pair_set_value kv_pair_new
put_content_length-finds l ds plain = elim (hdr_list_find-set l content_length ds) [
  | inl (nowhere, absent) ↦ (
    rw (put_content_length, nowhere, hdr_list_find-add_cstr, absent) (rw plain refl),
    λ key h.
        rw (put_content_length, nowhere, hdr_list_find-add_cstr l content_length ds key)
          (other key h),
  )
  | inr (n, kv, found, at_n, looked, others) ↦ (
    rw (put_content_length, found, set_value_at, at_n, looked) refl,
    λ key h. rw (put_content_length, found, set_value_at, at_n) (others key h),
  )
]
  where
    other :
        (key : List ℕ)
        → upper content_length ≢ upper key
        → or_else (hdr_list_find l key) (
            if equal_bytes (upper content_length) (upper key)
            then some (kv_pair_new (c_string content_length) (c_string ds))
            else none)
          ≡ hdr_list_find l key
    other key h = elim (Bool-cases (equal_bytes (upper content_length) (upper key))) [
      | inl e ↦ absurd (h (equal_bytes-eq _ _ e))
      | inr e ↦ rw e (or_else-none (hdr_list_find l key))
    ]

-- `Message_set_content_length` of a length below 10^9 returns; under "Content-length", in any case of
-- the letters, the message then has its digits for value, and under every other name what it had.
pub message_set_content_length-get :
    (this : Message) (n : ℕ) (key : List ℕ)
    → n < 10 ^ 9
    → (m : Message) × (message_set_content_length this (pos n) ≡ ok m)
      × (message_get_header_value m key ≡ (
          if equal_bytes (upper content_length) (upper key)
          then some (decimal n ++ 0 ∷ [])
          else message_get_header_value this key))
unfolding message_set_content_length make_upper
message_set_content_length-get this n key small =
    let (found, others) = put_content_length-finds this.headers (decimal n) (c_string-decimal n) in
    let l = put_content_length this.headers (decimal n) in
    (
      record this { headers = l },
      rw (ltb-true (length (decimal n)) 10 (omega (arith, length-decimal n small))) refl,
      elim (Bool-cases (equal_bytes (upper content_length) (upper key))) [
        | inl e ↦
            let same : upper key ≡ upper content_length = sym (equal_bytes-eq _ _ e) in
            let same_find : hdr_list_find l key ≡ hdr_list_find l content_length =
              find-lookup l key
              ∙ ap (λ (k : List ℕ). lookup (k ++ 0 ∷ []) l) same
              ∙ sym (find-lookup l content_length) in
            rw e (ap value_of same_find ∙ found)
        | inr e ↦
            rw e (ap value_of (others key (λ h. differ (upper content_length) (upper key) e h)))
      ],
    )
  where
    differ : (a b : List ℕ) → equal_bytes a b ≡ false → a ≢ b
    differ a b e h = let clash : true ≡ false = sym (equal_bytes_refl b) ∙ (rw h at e) in cc
