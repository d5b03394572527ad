-- ===== src/Cbuffer/Tests.antt =====
-- Buffers that a `malloc` of zeros gives.
use c_http.Prelude.{
  ℕ, ◌<◌, ◌≡◌, List, [], ◌∷◌, some, ok, fault, out_of_bounds, arith, length, replicate,
  length-replicate, get_elem?, inr,
}
use c_http.Cbuffer.{Cbuffer, Malloc, append, clear}
use c_http.Cbuffer.Laws.{Gives, IsValid, bytes}
use c_http.Cbuffer.Append.{Appended, append-bytes, append-overflow}
use c_http.Cbuffer.Moves.{clear_lem}

abbrev zeros : Malloc
zeros n = replicate n 0

zeros-Gives : Gives zeros
zeros-Gives n = length-replicate n 0

-- A buffer of 256 bytes that holds `n` of them.
abbrev holding : ℕ → Cbuffer
holding n = record { mem = zeros 256; m_length = n; m_capacity = 256; m_size = n }

holding-IsValid : (n : ℕ) → n < 256 → IsValid (holding n)
holding-IsValid n h = record {
  slab = length-replicate {A = ℕ} 256 0;
  lower = omega arith;
  upper = omega arith;
  room = h;
}

-- Too long to be computed.
long : ℕ → List ℕ
long n = replicate n 1

length-long : (n : ℕ) → length (long n) ≡ n
unfolding long
length-long n = length-replicate {A = ℕ} n 1

append-bytes_example :
    (c' : Cbuffer) × (append zeros (holding 255) (7 ∷ 8 ∷ []) ≡ ok c')
    × Appended (holding 255) (7 ∷ 8 ∷ []) c'
append-bytes_example =
    append-bytes zeros (holding 255) (7 ∷ 8 ∷ []) zeros-Gives (holding-IsValid 255 (omega arith))
      (omega arith) (inr (omega arith))

overflows_at_512 : append zeros (holding 200) (replicate 312 1) ≡ fault out_of_bounds
overflows_at_512 =
    append-overflow zeros (holding 200) (replicate 312 1) zeros-Gives
      (holding-IsValid 200 (omega arith)) (omega (arith, length-replicate {A = ℕ} 312 1))
      (omega (arith, length-replicate {A = ℕ} 312 1))
      (omega (arith, length-replicate {A = ℕ} 312 1))
      (omega (arith, length-replicate {A = ℕ} 312 1))

clear_example :
    (c' : Cbuffer) × (clear (holding 3) ≡ ok c')
    × IsValid c'
    × (bytes c' ≡ [])
    × (get_elem? c'.mem 0 ≡ some 0)
    × (c'.m_size ≡ 3)
clear_example = clear_lem (holding 3) (holding-IsValid 3 (omega arith))
