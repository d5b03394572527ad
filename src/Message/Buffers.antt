-- ===== src/Message/Buffers.antt =====
-- http_in_c/http/message.c: the target and the reason as strings and as Cbuffers, and the content
-- length. A string is the slab that it stands in; `NULL` has none.
pub mod Fill
pub mod ContentLength
use c_http.Prelude.{
  ℕ, ◌+◌, List, [], ◌∷◌, Option, none, some, Run, ok, fault, assert_failed, out_of_bounds, ◌>>=◌,
  ◌>>◌, check, ltb, if◌then◌else◌, length, set, ◌==◌,
}
use c_http.Prelude.Int.{ℤ, pos, negsuc}
use c_http.Cbuffer
use c_http.Cbuffer.{Cbuffer}
use c_http.KvPair.{c_string, KvPair, kv_pair_set_value}
use c_http.HeaderList.{HeaderList, hdr_list_find_iter, hdr_list_itr_unpack, hdr_list_add_cstr}
use c_http.Decimal.{decimal}
use c_http.Message.{Malloc, Message, fill}

-- `Cbuffer_cstr` of a field; `NULL` fails its tag.
abbrev field_cstr : Option Cbuffer → Run (List ℕ)
field_cstr none = fault assert_failed
field_cstr (some cbuf) = Cbuffer.cstr cbuf

pub message_get_target : Message → Run (List ℕ)
message_get_target this = field_cstr this.target

-- `Message_get_reason` has no `return`; this is the value of its expression.
pub message_get_reason : Message → Run (List ℕ)
message_get_reason this = field_cstr this.reason

pub message_get_target_cbuffer : Malloc → Message → Run Cbuffer
message_get_target_cbuffer malloc this = do
  s ← field_cstr this.target
  Cbuffer.from_cstring malloc (c_string s)

pub message_get_reason_cbuffer : Malloc → Message → Run Cbuffer
message_get_reason_cbuffer malloc this = do
  s ← field_cstr this.reason
  Cbuffer.from_cstring malloc (c_string s)

-- The assertion on the field, then `Cbuffer_cstr` of the other buffer and the append.
pub fill_cbuffer : Malloc → Option Cbuffer → Cbuffer → Run (Option Cbuffer)
fill_cbuffer malloc none other = fault assert_failed
fill_cbuffer malloc (some cbuf) other = do
  check (Cbuffer.size cbuf == 0)
  s ← Cbuffer.cstr other
  cbuf' ← Cbuffer.append_cstr malloc cbuf (c_string s)
  ok (some cbuf')

pub message_set_target_cbuffer : Malloc → Message → Cbuffer → Run Message
unfolding fill_cbuffer
message_set_target_cbuffer malloc this target = do
  target' ← fill_cbuffer malloc this.target target
  ok (record this { target = target' })

pub message_set_reason_cbuffer : Malloc → Message → Cbuffer → Run Message
unfolding fill_cbuffer
message_set_reason_cbuffer malloc this target = do
  reason ← fill_cbuffer malloc this.reason target
  ok (record this { reason = reason })

-- "Content-length"
abbrev pub content_length : List ℕ
content_length =
    67 ∷ 111 ∷ 110 ∷ 116 ∷ 101 ∷ 110 ∷ 116 ∷ 45 ∷ 108 ∷ 101 ∷ 110 ∷ 103 ∷ 116 ∷ 104 ∷ []

-- `KVPair_set_value` through the pointer that `HdrList_find` returned.
abbrev pub set_value_at : HeaderList → ℕ → List ℕ → HeaderList
set_value_at l iter val = elim (hdr_list_itr_unpack l iter) [
  | none ↦ l
  | some kvp ↦ set l iter (kv_pair_set_value kvp val)
]

-- The second half of `Message_set_content_length`, with the digits in `buf`.
pub put_content_length : HeaderList → List ℕ → HeaderList
put_content_length l digits = elim (hdr_list_find_iter l content_length) [
  | none ↦ hdr_list_add_cstr l content_length digits
  | some iter ↦ set_value_at l iter digits
]

-- `char buf[10]` has to hold the digits and the terminator.
pub message_set_content_length : Message → ℤ → Run Message
unfolding put_content_length
message_set_content_length this (negsuc n) = fault assert_failed
message_set_content_length this (pos n) =
    if ltb (length (decimal n)) 10
    then ok (record this { headers = put_content_length this.headers (decimal n) })
    else fault out_of_bounds
