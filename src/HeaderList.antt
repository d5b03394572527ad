-- ===== src/HeaderList.antt =====
-- http_in_c/http/header_list.c: the header lines of a message. The list of common/list.c is the
-- sequence of its items; an iterator is the position of its node, and `NULL` is `none`.
pub mod Find
pub mod Lines
pub mod Replace
mod Tests
use c_http.Prelude.{
  ℕ, zero, suc, ◌+◌, List, [], ◌∷◌, ◌++◌, Option, none, some, Run, ok, ◌>>=◌, if◌then◌else◌, length,
  get_elem?,
}
use c_http.Cbuffer.{Cbuffer, Malloc}
use c_http.Cbuffer
use c_http.KvPair.{
  c_string, make_upper, strcmp_eq, KvPair, kv_pair_new, kv_pair_label, kv_pair_value,
}

abbrev pub HeaderList : Type 0
HeaderList = List KvPair

abbrev pub hdr_list_new : HeaderList
hdr_list_new = []

abbrev pub hdr_list_size : HeaderList → ℕ
hdr_list_size l = length l

abbrev pub hdr_list_first : HeaderList → Option KvPair
hdr_list_first [] = none
hdr_list_first (kv ∷ l) = some kv

abbrev pub hdr_list_add_back : HeaderList → KvPair → HeaderList
hdr_list_add_back l item = l ++ item ∷ []

abbrev pub hdr_list_add_front : HeaderList → KvPair → HeaderList
hdr_list_add_front l item = item ∷ l

abbrev pub hdr_list_itr_unpack : HeaderList → ℕ → Option KvPair
hdr_list_itr_unpack l iter = get_elem? l iter

-- `List_itr_remove`: the list without the node at the position.
abbrev pub hdr_list_itr_remove : HeaderList → ℕ → HeaderList
hdr_list_itr_remove [] iter = []
hdr_list_itr_remove (kv ∷ l) zero = l
hdr_list_itr_remove (kv ∷ l) (suc iter) = kv ∷ hdr_list_itr_remove l iter

-- The loop of `HdrList_find_iter` from the node at position `iter` on.
pub find_loop : List ℕ → HeaderList → ℕ → Option ℕ
find_loop fixed_key [] iter = none
find_loop fixed_key (kv ∷ l) iter =
    let rest = find_loop fixed_key l (iter + 1) in
    if strcmp_eq (kv_pair_label kv) fixed_key then some iter else rest

pub hdr_list_find_iter : HeaderList → List ℕ → Option ℕ
unfolding find_loop
hdr_list_find_iter l key = find_loop (make_upper key) l 0

pub hdr_list_find : HeaderList → List ℕ → Option KvPair
unfolding hdr_list_find_iter
hdr_list_find l key = elim (hdr_list_find_iter l key) [
  | none ↦ none
  | some iter ↦ hdr_list_itr_unpack l iter
]

pub hdr_list_remove : HeaderList → List ℕ → HeaderList
unfolding hdr_list_find_iter
hdr_list_remove l key = elim (hdr_list_find_iter l key) [
  | none ↦ l
  | some iter ↦ hdr_list_itr_remove l iter
]

-- Unlike the other two, `HdrList_add_line` adds at the front.
pub hdr_list_add_line : HeaderList → List ℕ → List ℕ → HeaderList
hdr_list_add_line l label value = hdr_list_add_front l (kv_pair_new label value)

unfoldable pub hdr_list_add_cbuf : HeaderList → (key value : List ℕ) → HeaderList
hdr_list_add_cbuf l key value = hdr_list_add_back l (kv_pair_new key value)

pub hdr_list_add_cstr : HeaderList → List ℕ → List ℕ → HeaderList
hdr_list_add_cstr l label value =
    hdr_list_add_back l (kv_pair_new (c_string label) (c_string value))

-- `HdrList_add_arr` on the rows before the one that starts with `NULL`; `HdrList_from_array` is this
-- on a new list.
pub hdr_list_add_arr : HeaderList → List (List ℕ × List ℕ) → HeaderList
unfolding hdr_list_add_cstr
hdr_list_add_arr l [] = l
hdr_list_add_arr l ((k, v) ∷ rows) = hdr_list_add_arr (hdr_list_add_cstr l k v) rows

pub hdr_list_from_array : List (List ℕ × List ℕ) → HeaderList
unfolding hdr_list_add_arr
hdr_list_from_array rows = hdr_list_add_arr hdr_list_new rows

-- The four calls for one line.
pub serialize_line : Malloc → Cbuffer → KvPair → Run Cbuffer
serialize_line malloc cb line = do
  cb1 ← Cbuffer.append_cstr malloc cb (c_string (kv_pair_label line))
  cb2 ← Cbuffer.append_cstr malloc cb1 (58 ∷ 32 ∷ [])
  cb3 ← Cbuffer.append_cstr malloc cb2 (c_string (kv_pair_value line))
  Cbuffer.append_cstr malloc cb3 (13 ∷ 10 ∷ [])

pub serialize_loop : Malloc → Cbuffer → HeaderList → Run Cbuffer
unfolding serialize_line
serialize_loop malloc cb [] = ok cb
serialize_loop malloc cb (line ∷ l) = do
  cb' ← serialize_line malloc cb line
  serialize_loop malloc cb' l

pub hdr_list_serialize : Malloc → HeaderList → Run Cbuffer
unfolding serialize_loop
hdr_list_serialize malloc l = do cb ← Cbuffer.new malloc; serialize_loop malloc cb l
