-- ===== src/Message.antt =====
-- http_in_c/http/message.c: an HTTP message and its text. `method_name` is llhttp_method_name of the
-- vendored llhttp. The version, status and method numbers are not negative. `Message_dump`, which adds
-- two marker lines to the text, and freeing are left out.
pub mod Serialize
pub mod Buffers
pub mod New
mod Tests
use c_http.Prelude.{
  ℕ, ◌+◌, List, [], ◌∷◌, ◌++◌, Option, none, some, Bool, true, false, Run, ok, fault, assert_failed,
  out_of_bounds, ◌>>=◌, ◌>>◌, check, if◌then◌else◌, ◌==◌, leb, length,
}
use c_http.Prelude.Int.{ℤ, pos, negsuc, is_nonzero}
use c_http.IoBuffer.{IoBuffer}
use c_http.BufferChain
use c_http.BufferChain.{BufferChain, empty_chain, add_back, compact}
use c_http.Cbuffer
use c_http.Cbuffer.{Cbuffer}
use c_http.KvPair.{c_string, toupper, KvPair, kv_pair_label, kv_pair_value}
use c_http.HeaderList.{
  HeaderList, hdr_list_new, hdr_list_find, hdr_list_add_cstr, hdr_list_add_cbuf, hdr_list_add_arr,
}
use c_http.Decimal.{decimal}

abbrev pub Malloc : Type 0
Malloc = ℕ → List ℕ

-- `struct Message_s`. `status_code` and `method` hold what `malloc` left there until they are set.
pub record Message : Type 0 where
  pub body : Option BufferChain
  pub headers : HeaderList
  pub major_vers : ℕ
  pub minor_vers : ℕ
  pub is_request : Bool
  pub status_code : ℕ
  pub reason : Option Cbuffer
  pub method : ℕ
  pub target : Option Cbuffer

-- `Message_new_request` and `Message_new_response`, which call `Message_new`: `garbage` is the content
-- of the fields that they do not set.
pub message_new : Malloc → (garbage : ℕ × ℕ) → Bool → Run Message
message_new malloc garbage is_request = do
  target ← Cbuffer.new malloc
  reason ← Cbuffer.new malloc
  ok (record {
    body = none;
    headers = hdr_list_new;
    major_vers = 1;
    minor_vers = 1;
    is_request = is_request;
    status_code = garbage.0;
    reason = some reason;
    method = garbage.1;
    target = some target;
  })

-- `MessageResponse` disposes of the target and the reason.
pub message_response : Malloc → (garbage : ℕ × ℕ) → ℕ → Option BufferChain → Run Message
unfolding message_new
message_response malloc garbage status body = do
  mref ← message_new malloc garbage false
  ok (record mref { status_code = status; body = body; target = none; reason = none })

-- "%s" of a pointer to a block: the bytes before a terminator in the block.
pub read_string : List ℕ → Run (List ℕ)
read_string [] = fault out_of_bounds
read_string (ch ∷ s) =
    let rest = read_string s in if ch == 0 then ok [] else rest >>= λ t. ok (ch ∷ t)

-- `Cbuffer_data`, and a read through what it returns; `NULL` has no slab.
pub read_cbuffer : Option Cbuffer → Run (List ℕ)
unfolding read_string
read_cbuffer none = fault out_of_bounds
read_cbuffer (some cbuf) = read_string cbuf.mem

-- "HTTP/%d.%d"
abbrev pub version_text : Message → List ℕ
version_text mref =
    72 ∷ 84 ∷ 84 ∷ 80 ∷ 47 ∷ (decimal mref.major_vers ++ (46 ∷ decimal mref.minor_vers))

-- "%s %s HTTP/%d.%d\r\n"
abbrev pub request_line : Message → (method target : List ℕ) → List ℕ
request_line mref method target =
    method ++ (32 ∷ (target ++ (32 ∷ (version_text mref ++ 13 ∷ 10 ∷ []))))

-- "HTTP/%d.%d  %d %s\r\n", with two spaces before the status
abbrev pub status_line : Message → (reason : List ℕ) → List ℕ
status_line mref reason =
    version_text mref ++ (32 ∷ 32 ∷ (decimal mref.status_code ++ (32 ∷ (reason ++ 13 ∷ 10 ∷ []))))

-- The first line as `asprintf` makes it.
pub first_line : (method_name : ℕ → List ℕ) → Message → Run (List ℕ)
unfolding read_cbuffer
first_line method_name mref =
    if mref.is_request
    then (do
      target ← read_cbuffer mref.target
      ok (request_line mref (method_name mref.method) target))
    else (do reason ← read_cbuffer mref.reason; ok (status_line mref reason))

-- "%s: %s\r\n"
abbrev pub header_line : KvPair → List ℕ
header_line item =
    c_string (kv_pair_label item) ++ (58 ∷ 32 ∷ (c_string (kv_pair_value item) ++ 13 ∷ 10 ∷ []))

pub append_headers : Malloc → BufferChain → HeaderList → Run BufferChain
append_headers malloc bc [] = ok bc
append_headers malloc bc (item ∷ items) = do
  bc' ← BufferChain.append_cstr malloc bc (header_line item)
  append_headers malloc bc' items

-- The body, if it has any bytes, as one buffer at the end.
pub append_body : Malloc → BufferChain → Option BufferChain → Run BufferChain
append_body malloc bc none = ok bc
append_body malloc bc (some body) =
    if is_nonzero body.size
    then (do iob_body ← compact malloc body; ok (add_back bc iob_body))
    else ok bc

pub message_serialize : (method_name : ℕ → List ℕ) → Malloc → Message → Run IoBuffer
unfolding first_line append_headers append_body
message_serialize method_name malloc mref = do
  line ← first_line method_name mref
  bc ← BufferChain.append_cstr malloc empty_chain line
  bc' ← append_headers malloc bc mref.headers
  bc'' ← BufferChain.append_cstr malloc bc' (13 ∷ 10 ∷ [])
  bc''' ← append_body malloc bc'' mref.body
  compact malloc bc'''

abbrev pub message_set_status : Message → ℕ → Message
message_set_status this status = record this { status_code = status }

abbrev pub message_set_is_request : Message → Bool → Message
message_set_is_request this yn = record this { is_request = yn }

abbrev pub message_set_minor_version : Message → ℕ → Message
message_set_minor_version this mv = record this { minor_vers = mv }

-- `Message_set_version` sets the minor version alone.
abbrev pub message_set_version : Message → ℕ → ℕ → Message
message_set_version this major_vers minor_vers = record this { minor_vers = minor_vers }

abbrev pub message_set_method : Message → ℕ → Message
message_set_method this method = record this { method = method }

abbrev pub message_set_body : Message → BufferChain → Message
message_set_body this bc = record this { body = some bc }

abbrev pub message_add_header_cstring : Message → List ℕ → List ℕ → Message
message_add_header_cstring this key value = record this {
  headers = hdr_list_add_cstr this.headers key value;
}

abbrev pub message_add_header_cbuf : Message → List ℕ → List ℕ → Message
message_add_header_cbuf this key value = record this {
  headers = hdr_list_add_cbuf this.headers key value;
}

abbrev pub message_set_headers_arr : Message → List (List ℕ × List ℕ) → Message
message_set_headers_arr this ar = record this { headers = hdr_list_add_arr this.headers ar }

-- The assertion and the append of `Message_set_target` and `Message_set_reason`.
pub fill : Malloc → Option Cbuffer → List ℕ → Run (Option Cbuffer)
fill malloc none text = fault assert_failed
fill malloc (some cbuf) text = do
  check (Cbuffer.size cbuf == 0)
  cbuf' ← Cbuffer.append_cstr malloc cbuf text
  ok (some cbuf')

pub message_set_target : Malloc → Message → List ℕ → Run Message
unfolding fill
message_set_target malloc this targ = do
  target ← fill malloc this.target (c_string targ)
  ok (record this { target = target })

pub message_set_reason : Malloc → Message → List ℕ → Run Message
unfolding fill
message_set_reason malloc this reason_cstr = do
  reason ← fill malloc this.reason (c_string reason_cstr)
  ok (record this { reason = reason })

abbrev pub message_get_header_value : Message → List ℕ → Option (List ℕ)
message_get_header_value mref labptr = elim (hdr_list_find mref.headers labptr) [
  | none ↦ none
  | some kvp ↦ some (kv_pair_value kvp)
]

-- The loop of `Message_cmp_header` on strings of the same length.
abbrev pub same_letters : List ℕ → List ℕ → Bool
same_letters [] test_value = true
same_letters (x ∷ v) [] = true
same_letters (x ∷ v) (y ∷ test_value) =
    let rest = same_letters v test_value in if toupper x == toupper y then rest else false

pub message_cmp_header : Message → List ℕ → List ℕ → ℤ
message_cmp_header msgref key test_value = elim (hdr_list_find msgref.headers key) [
  | none ↦ negsuc 0
  | some kvp ↦
      let v = c_string (kv_pair_value kvp) in
      let t = c_string test_value in
      if length v == length t then (if same_letters v t then pos 1 else pos 0) else pos 0
]
