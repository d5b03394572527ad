-- ===== src/BufferChain/Tests.antt =====
-- Chains of small buffers.
use c_http.Prelude.{◌≡◌, refl, [], ◌∷◌, some, true, ok, arith, replicate, length-replicate}
use c_http.Prelude.Int.{pos}
use c_http.IoBuffer.{IoBuffer}
use c_http.IoBuffer.Laws
use c_http.IoBuffer.Laws.{bytes}
use c_http.BufferChain.{BufferChain, Malloc, append, eq_cstr, steal_bufferchain}
use c_http.BufferChain.Laws.{Gives, contents, IsValid}
use c_http.BufferChain.Append.{append-contents}
use c_http.BufferChain.Move.{steal_bufferchain-contents}
use c_http.BufferChain.Compare.{eq_cstr-is_prefix}

abbrev zeros : Malloc
zeros n = replicate n 0

zeros-Gives : Gives zeros
zeros-Gives n = length-replicate n 0

abbrev two_bytes : IoBuffer
two_bytes = record {
  mem = 1 ∷ 2 ∷ 0 ∷ 9 ∷ 9 ∷ [];
  char_p = 0;
  allocated_capacity = 5;
  buffer_capacity = 4;
  buffer_ptr = 0;
  buffer_length = 4;
  buffer_remaining = 2;
}

two_bytes-IsValid : Laws.IsValid two_bytes
two_bytes-IsValid = record { block = refl; allocated = refl; inside = omega arith }

abbrev small_chain : BufferChain
small_chain = record { chain = two_bytes ∷ two_bytes ∷ []; size = pos 4 }

small_chain-IsValid : IsValid small_chain
small_chain-IsValid = record {
  filled = (two_bytes-IsValid, omega arith, (two_bytes-IsValid, omega arith, tt));
  counted = refl;
  starts = refl;
}

append-contents_example :
    (c' : BufferChain) × (append zeros small_chain (3 ∷ 4 ∷ 5 ∷ []) ≡ ok c')
    × IsValid c'
    × (contents c'.chain ≡ 1 ∷ 2 ∷ 1 ∷ 2 ∷ 3 ∷ 4 ∷ 5 ∷ [])
append-contents_example =
    append-contents zeros small_chain (3 ∷ 4 ∷ 5 ∷ []) zeros-Gives small_chain-IsValid (omega arith)

steal_bufferchain-contents_example :
    (c' : BufferChain) × (steal_bufferchain small_chain small_chain
      ≡ some (c', record { chain = []; size = pos 0 }))
    × IsValid c'
    × (contents c'.chain ≡ 1 ∷ 2 ∷ 1 ∷ 2 ∷ 1 ∷ 2 ∷ 1 ∷ 2 ∷ [])
steal_bufferchain-contents_example =
    steal_bufferchain-contents small_chain small_chain small_chain-IsValid small_chain-IsValid
      (refl, (refl, tt))

-- The chain's four bytes are a proper prefix of the five of the string.
eq_cstr-is_prefix_example : eq_cstr small_chain (1 ∷ 2 ∷ 1 ∷ 2 ∷ 7 ∷ 0 ∷ []) ≡ ok true
eq_cstr-is_prefix_example =
    eq_cstr-is_prefix small_chain (1 ∷ 2 ∷ 1 ∷ 2 ∷ 7 ∷ []) small_chain-IsValid
      (omega arith, (omega arith, (omega arith, (omega arith, tt))))
