-- ===== src/Cbuffer/Holds.antt =====
-- A valid buffer together with the bytes that it holds, through the operations.
use c_http.Prelude.{
  ℕ, ◌+◌, ◌≤◌, ◌<◌, ◌≡◌, refl, List, [], ◌∷◌, ◌++◌, ok, fault, out_of_bounds, arith, length,
  append-nil, ◌⊎◌, inl, inr, sym, ap, ◌∙◌,
}
use c_http.Cbuffer.{Cbuffer, Malloc, common_strategy, new, append, append_cstr, clear}
use c_http.Cbuffer.Laws.{Gives, IsValid, bytes, Terminated, new-IsValid}
use c_http.Cbuffer.Append.{append-bytes, length-bytes, append-overflow}
use c_http.Cbuffer.Moves.{clear_lem}

-- The terminator stands behind the bytes as soon as there are any.
pub record Holds (c : Cbuffer) (bs : List ℕ) : Type 0 where
  pub valid : IsValid c
  pub holds : bytes c ≡ bs
  pub ended : 0 < length bs → Terminated c

pub Holds-length : {c : Cbuffer} {bs : List ℕ} → Holds c bs → c.m_length ≡ length bs
Holds-length {c} h = sym (length-bytes c h.valid) ∙ ap length h.holds

pub new-Holds :
    (malloc : Malloc)
    → Gives malloc
    → (c : Cbuffer) × (new malloc ≡ ok c) × Holds c [] × (c.m_capacity ≡ common_strategy.min_size)
new-Holds malloc gives =
    let (c, made, v, none_yet, len, cap) = new-IsValid malloc gives in
    (c, made, record { valid = v; holds = none_yet; ended = λ h. absurd (omega (arith, h)) }, cap)

pub clear-Holds : (c : Cbuffer) → IsValid c → (c' : Cbuffer) × (clear c ≡ ok c') × Holds c' []
clear-Holds c v =
    let (c', done, v', none_left, zero_at, kept) = clear_lem c v in
    (c', done, record { valid = v'; holds = none_left; ended = λ h. absurd (omega (arith, h)) })

-- Bytes that fit when the slab is doubled.
append-Holds :
    (malloc : Malloc) (c : Cbuffer) (bs at : List ℕ)
    → Gives malloc
    → Holds c bs
    → 0 < length at
    → (length bs + length at < 512) ⊎ (length at ≤ common_strategy.min_size)
    → length bs + length at < common_strategy.max_size
    → (c' : Cbuffer) × (append malloc c at ≡ ok c') × Holds c' (bs ++ at)
append-Holds malloc c bs at gives h some_bytes fits room =
    let len = Holds-length h in
    let (c', done, a) =
      append-bytes malloc c at gives h.valid some_bytes
        (inr (ground (arith, h.valid, len, room, fits))) in
    (
      c',
      done,
      record {
        valid = a.valid;
        holds = a.extended ∙ ap (λ (l : List ℕ). l ++ at) h.holds;
        ended = λ k. a.terminated;
      },
    )

append_nothing :
    (malloc : Malloc) (c : Cbuffer) (bs : List ℕ)
    → Holds c bs
    → (c' : Cbuffer) × (append malloc c [] ≡ ok c') × Holds c' (bs ++ [])
unfolding append
append_nothing malloc c bs h = (c, refl, rw (append-nil bs) h)

-- A piece of at most 256 bytes that keeps the text below the maximum is added at the end.
pub append-piece :
    (malloc : Malloc) (c : Cbuffer) (bs at : List ℕ)
    → Gives malloc
    → Holds c bs
    → length at ≤ common_strategy.min_size
    → length bs + length at < common_strategy.max_size
    → (c' : Cbuffer) × (append malloc c at ≡ ok c') × Holds c' (bs ++ at)
append-piece malloc c bs [] gives h short room = append_nothing malloc c bs h
append-piece malloc c bs (ch ∷ at) gives h short room =
    append-Holds malloc c bs (ch ∷ at) gives h (omega arith) (inr short) room

-- A string of fewer than 512 bytes fills an empty buffer.
pub append_cstr-empty :
    (malloc : Malloc) (c : Cbuffer) (s : List ℕ)
    → Gives malloc
    → Holds c []
    → length s < 512
    → (c' : Cbuffer) × (append_cstr malloc c s ≡ ok c') × Holds c' s
unfolding append_cstr
append_cstr-empty malloc c [] gives h short = append_nothing malloc c [] h
append_cstr-empty malloc c (ch ∷ s) gives h short =
    append-Holds malloc c [] (ch ∷ s) gives h (omega arith) (inl (omega arith)) (omega arith)

-- A string of 512 bytes or more does not fit in an empty buffer of the smallest size: the terminator
-- falls outside the slab.
pub append_cstr-overflow :
    (malloc : Malloc) (c : Cbuffer) (s : List ℕ)
    → Gives malloc
    → Holds c []
    → c.m_capacity ≡ common_strategy.min_size
    → 512 ≤ length s
    → length s ≤ common_strategy.max_size
    → append_cstr malloc c s ≡ fault out_of_bounds
unfolding append_cstr
append_cstr-overflow malloc c s gives h cap long fits =
    let len : c.m_length ≡ 0 = Holds-length h in
    append-overflow malloc c s gives h.valid (omega arith) (omega arith)
      (ground (arith, cap, len, long)) (omega arith)
