-- ===== src/IoBuffer/Tests.antt =====
-- Small buffers.
use c_http.Prelude.{ℕ, ◌≡◌, ◌≢◌, refl, List, [], ◌∷◌, true, ok, arith}
use c_http.IoBuffer.{IoBuffer, new_with_capacity, commit, data_add, from_buf, equal}
use c_http.IoBuffer.Laws.{IsValid, bytes}
use c_http.IoBuffer.Terminator.{data_add-corrupts}

abbrev block : List ℕ
block = 9 ∷ 9 ∷ 9 ∷ 9 ∷ 9 ∷ 9 ∷ 9 ∷ []

abbrev two_bytes : IoBuffer
two_bytes = record {
  mem = 1 ∷ 2 ∷ 0 ∷ 9 ∷ 9 ∷ 9 ∷ 9 ∷ [];
  char_p = 0;
  allocated_capacity = 7;
  buffer_capacity = 6;
  buffer_ptr = 0;
  buffer_length = 6;
  buffer_remaining = 2;
}

-- Two of four bytes are consumed.
abbrev half_read : IoBuffer
half_read = record {
  mem = 1 ∷ 2 ∷ 3 ∷ 4 ∷ 0 ∷ 9 ∷ 9 ∷ [];
  char_p = 0;
  allocated_capacity = 7;
  buffer_capacity = 6;
  buffer_ptr = 2;
  buffer_length = 6;
  buffer_remaining = 2;
}

-- Byte 5 is at the end, and the terminator is where byte 4 was.
abbrev corrupted : IoBuffer
corrupted = record half_read { mem = 1 ∷ 2 ∷ 3 ∷ 0 ∷ 5 ∷ 9 ∷ 9 ∷ []; buffer_remaining = 3 }

abbrev none_left : IoBuffer
none_left = record two_bytes { buffer_remaining = 0 }

two_bytes-IsValid : IsValid two_bytes
two_bytes-IsValid = record { block = refl; allocated = refl; inside = omega arith }

half_read-IsValid : IsValid half_read
half_read-IsValid = record { block = refl; allocated = refl; inside = omega arith }

none_left-IsValid : IsValid none_left
none_left-IsValid = record { block = refl; allocated = refl; inside = omega arith }

two_bytes_built : data_add (new_with_capacity block 6) (1 ∷ 2 ∷ []) ≡ ok two_bytes
unfolding data_add new_with_capacity commit
two_bytes_built = refl

half_read_built :
    from_buf block (1 ∷ 2 ∷ 3 ∷ [])
    ≡ ok (record {
      mem = 1 ∷ 2 ∷ 3 ∷ 0 ∷ 9 ∷ 9 ∷ 9 ∷ [];
      char_p = 0;
      allocated_capacity = 7;
      buffer_capacity = 6;
      buffer_ptr = 0;
      buffer_length = 6;
      buffer_remaining = 3;
    })
unfolding from_buf new_with_capacity commit
half_read_built = refl

half_read_add : data_add half_read (5 ∷ []) ≡ ok corrupted
unfolding data_add commit
half_read_add = refl

equal_to_itself : equal half_read half_read ≡ ok true
unfolding equal
equal_to_itself = refl

data_add-corrupts_example : bytes corrupted ≢ 3 ∷ 4 ∷ 5 ∷ []
data_add-corrupts_example =
    data_add-corrupts half_read corrupted (5 ∷ []) 4 half_read-IsValid (omega arith) (omega arith)
      (omega arith) (omega arith) refl (omega arith) half_read_add
