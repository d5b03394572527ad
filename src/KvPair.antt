-- ===== src/KvPair.antt =====
-- http_in_c/http/kvpair.c and the string functions that it and the header list use (make_upper of
-- http_in_c/common/utils.c). A string is the block that it stands in, its terminator included.
pub mod Strings
use c_http.Prelude.{
  ℕ, ◌-◌, List, [], ◌∷◌, ◌++◌, map, Bool, true, false, leb, ◌&&◌, ◌==◌, if◌then◌else◌, length,
}

-- What the functions of string.h read of a block: the bytes before the first terminator.
abbrev pub c_string : List ℕ → List ℕ
c_string [] = []
c_string (ch ∷ s) = if ch == 0 then [] else ch ∷ c_string s

-- `toupper`
abbrev pub toupper : ℕ → ℕ
toupper ch = if leb 97 ch && leb ch 122 then ch - 32 else ch

unfoldable pub make_upper : List ℕ → List ℕ
make_upper src = map toupper (c_string src) ++ 0 ∷ []

abbrev pub equal_bytes : List ℕ → List ℕ → Bool
equal_bytes [] [] = true
equal_bytes [] (y ∷ ys) = false
equal_bytes (x ∷ xs) [] = false
equal_bytes (x ∷ xs) (y ∷ ys) = (x == y) && equal_bytes xs ys

-- `strcmp(a, b) == 0`
abbrev pub strcmp_eq : List ℕ → List ℕ → Bool
strcmp_eq a b = equal_bytes (c_string a) (c_string b)

-- `struct KVPair_s`
pub record KvPair : Type 0 where
  pub label : List ℕ
  pub label_len : ℕ
  pub value : List ℕ
  pub value_len : ℕ

-- `KVPair_new` on the `lablen` bytes at `labptr` and the `vallen` bytes at `valptr`.
unfoldable pub kv_pair_new : List ℕ → List ℕ → KvPair
kv_pair_new lab val = record {
  label = map toupper lab ++ 0 ∷ [];
  label_len = length lab;
  value = val ++ 0 ∷ [];
  value_len = length val;
}

pub kv_pair_from_cstrs : List ℕ → List ℕ → KvPair
unfolding kv_pair_new
kv_pair_from_cstrs key value = kv_pair_new (c_string key) (c_string value)

abbrev pub kv_pair_label : KvPair → List ℕ
kv_pair_label kv = kv.label

abbrev pub kv_pair_value : KvPair → List ℕ
kv_pair_value kv = kv.value

-- `value_len` stays what it was.
unfoldable pub kv_pair_set_value : KvPair → List ℕ → KvPair
kv_pair_set_value kv val = record kv { value = val ++ 0 ∷ [] }
