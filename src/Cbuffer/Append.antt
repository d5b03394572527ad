-- ===== src/Cbuffer/Append.antt =====
-- What `Cbuffer_append` does, for every length of buffer and bytes.
use c_http.Prelude.{
  ℕ, ◌+◌, ◌≤◌, ◌<◌, ◌≡◌, refl, List, ◌++◌, ok, fault, assert_failed, out_of_bounds, arith, length,
  leb-false, inr, append-nil, length-slice, [], ◌∷◌, eq_false, sym, ◌∙◌, ◌⊎◌,
}
use native.Mathlib.Decide.{dec_lt}
use c_http.Cbuffer.{Cbuffer, Malloc, common_strategy, grow, append, append_cstr}
use c_http.Cbuffer.Laws.{
  Gives, IsValid, bytes, Terminated, doubled, put-bytes, put-overflow, grow-bytes,
}

-- With room enough there is no growing.
grow-room :
    (malloc : Malloc) (c : Cbuffer) (len : ℕ)
    → c.m_length + len < c.m_capacity
    → grow malloc c len ≡ ok c
unfolding grow
grow-room malloc c len h = rw (leb-false c.m_capacity (c.m_length + len) h)

-- What holds of the buffer that `Cbuffer_append` returns.
pub record Appended (c : Cbuffer) (bs : List ℕ) (c' : Cbuffer) : Type 0 where
  pub valid : IsValid c'
  pub extended : bytes c' ≡ bytes c ++ bs
  pub terminated : Terminated c'

-- `Cbuffer_append` of some bytes to a valid buffer returns if the new length stays below the
-- capacity, or below what growing by doubling gives: the bytes are added at the end, the terminator
-- stands behind them, and the buffer stays valid.
pub append-bytes :
    (malloc : Malloc) (c : Cbuffer) (bs : List ℕ)
    → Gives malloc
    → IsValid c
    → 0 < length bs
    → (c.m_length + length bs < c.m_capacity) ⊎ (c.m_length + length bs < doubled c)
    → (c' : Cbuffer) × (append malloc c bs ≡ ok c') × Appended c bs c'
unfolding append
append-bytes malloc c bs gives v some_bytes fits =
    elim (dec_lt (c.m_length + length bs) c.m_capacity) [
      | yes room ↦
          let (c', done, all, t, slab, cap, len) = put-bytes c bs v.slab room in
          (
            c',
            rw (eq_false (length bs) 0 (omega arith), grow-room malloc c (length bs) room) done,
            record {
              valid = record {
                slab = slab ∙ sym cap;
                lower = omega (arith, v);
                upper = omega (arith, v);
                room = omega arith;
              };
              extended = all;
              terminated = t;
            },
          )
      | no full ↦
          let below : c.m_length + length bs < doubled c = omega (arith, fits) in
          let (g, grown, same, slab_g, cap_g, len_g) =
            grow-bytes malloc c (length bs) gives v (omega arith) (ground (arith, below)) in
          let cap_is : g.m_capacity ≡ doubled c = ground (arith, cap_g, below) in
          let (c', done, all, t, slab, cap, len) = put-bytes g bs slab_g (omega arith) in
          (
            c',
            rw (eq_false (length bs) 0 (omega arith), grown) done,
            record {
              valid = record {
                slab = slab ∙ sym cap;
                lower = ground (arith, v, cap, cap_is);
                upper = ground (arith, v, cap, cap_is);
                room = omega arith;
              };
              extended = rw (all, same) refl;
              terminated = t;
            },
          )
    ]

-- Some bytes of a length that does not stay below the capacity, nor below what growing by doubling gives,
-- and is not above the maximum, make `Cbuffer_append` of a valid buffer write outside its slab.
pub append-overflow :
    (malloc : Malloc) (c : Cbuffer) (bs : List ℕ)
    → Gives malloc
    → IsValid c
    → 0 < length bs
    → c.m_capacity ≤ c.m_length + length bs
    → doubled c ≤ c.m_length + length bs
    → c.m_length + length bs ≤ common_strategy.max_size
    → append malloc c bs ≡ fault out_of_bounds
unfolding append
append-overflow malloc c bs gives v some_bytes big short fits =
    let (g, grown, same, slab_g, cap_g, len_g) = grow-bytes malloc c (length bs) gives v big fits in
    rw (eq_false (length bs) 0 (omega arith), grown)
      (put-overflow g bs slab_g (ground (arith, cap_g, len_g, short)))

-- Above the maximum it stops at the assertion.
pub append-too_big :
    (malloc : Malloc) (c : Cbuffer) (bs : List ℕ)
    → IsValid c
    → common_strategy.max_size < c.m_length + length bs
    → append malloc c bs ≡ fault assert_failed
unfolding append grow
append-too_big malloc c bs v big = ground (arith, v)

pub length-bytes : (c : Cbuffer) → IsValid c → length (bytes c) ≡ c.m_length
length-bytes c v = length-slice c.mem 0 c.m_length (omega (arith, v))

-- A piece that is not longer than the smallest slab always finds room below the maximum.
pub append_cstr-piece :
    (malloc : Malloc) (c : Cbuffer) (s : List ℕ)
    → Gives malloc
    → IsValid c
    → length s ≤ common_strategy.min_size
    → length (bytes c) + length s < common_strategy.max_size
    → (c' : Cbuffer) × (append_cstr malloc c s ≡ ok c') × IsValid c' × (bytes c' ≡ bytes c ++ s)
unfolding append_cstr
append_cstr-piece malloc c [] gives v short room = (c, refl, v, sym (append-nil (bytes c)))
append_cstr-piece malloc c (ch ∷ s) gives v short room =
    let len = length-bytes c v in
    let (c', done, a) =
      append-bytes malloc c (ch ∷ s) gives v (omega arith) (inr (ground (arith, v, len, room))) in
    (c', done, a.valid, a.extended)
