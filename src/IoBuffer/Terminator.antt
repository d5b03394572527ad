-- ===== src/IoBuffer/Terminator.antt =====
-- Where the terminator that `IOBuffer_commit` writes belongs, and where it goes.
use c_http.Prelude.{
  ℕ, ◌+◌, ◌-◌, ◌≤◌, ◌<◌, ◌≡◌, ◌≢◌, List, ◌++◌, ok, some, arith, length, get_elem?, length-append,
  get_elem?-set_self, ◌∙◌, leb-true, eq_false,
}
use c_http.IoBuffer.{IoBuffer, data_add, space}
use c_http.IoBuffer.Laws.{IsValid, bytes, length-bytes, clobber, data_add_lem}

-- In a buffer whose data start at `mem_p`, `IOBuffer_data_add` with room for the bytes appends them
-- and leaves the earlier data alone.
pub data_add-append :
    (b : IoBuffer) (p : List ℕ)
    → IsValid b
    → b.buffer_ptr ≡ 0
    → 0 < length p
    → space b + length p ≤ b.buffer_capacity
    → (b' : IoBuffer) × (data_add b p ≡ ok b')
      × IsValid b'
      × (bytes b' ≡ bytes b ++ p)
      × (b'.buffer_ptr ≡ 0)
      × (b'.buffer_capacity ≡ b.buffer_capacity)
      × (b'.buffer_remaining ≡ b.buffer_remaining + length p)
data_add-append b p v start pos room =
    let (b', done, v', grown, ptr, cap, rem) = data_add_lem b p v pos room in
    (b', done, v', grown ∙ rw start, ptr ∙ start, cap, rem)

get_elem?-clobber :
    (o : ℕ) (l : List ℕ) → 0 < o → o ≤ length l → get_elem? (clobber o l) (length l - o) ≡ some 0
get_elem?-clobber o l pos h =
    rw (eq_false o 0 (omega arith), leb-true o (length l) h)
      (get_elem?-set_self l (length l - o) 0 (omega arith))

-- If the data of a valid buffer do not start at mem_p, are with the bytes to add at least as long
-- as the bytes in front of them, and IOBuffer_data_add has room for the bytes, the terminator that
-- IOBuffer_commit writes falls on a byte of the data: if that byte was not zero, the data
-- afterwards are not the old data and the bytes.
pub data_add-corrupts :
    (b b' : IoBuffer) (p : List ℕ) (byte : ℕ)
    → IsValid b
    → 0 < b.buffer_ptr
    → b.buffer_ptr ≤ b.buffer_remaining + length p
    → 0 < length p
    → space b + length p ≤ b.buffer_capacity
    → get_elem? (bytes b ++ p) (b.buffer_remaining + length p - b.buffer_ptr) ≡ some byte
    → byte ≢ 0
    → data_add b p ≡ ok b'
    → bytes b' ≢ bytes b ++ p
data_add-corrupts b b' p byte v moved near pos room at_byte nonzero done same =
    let (c, done', v', grown, ptr, cap, rem) = data_add_lem b p v pos room in
    let n : length (bytes b ++ p) ≡ b.buffer_remaining + length p =
      omega (arith, length-append (bytes b) p, length-bytes b v) in
    let unchanged : clobber b.buffer_ptr (bytes b ++ p) ≡ bytes b ++ p = cc in
    let zeroed = get_elem?-clobber b.buffer_ptr (bytes b ++ p) moved (omega arith) in
    nonzero (ground (arith, zeroed, unchanged, n, at_byte))
