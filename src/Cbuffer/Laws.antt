-- ===== src/Cbuffer/Laws.antt =====
-- A valid Cbuffer, and what growing it and writing into it do.
use c_http.Prelude.{
  ℕ, ◌+◌, ◌*◌, ◌≤◌, ◌<◌, ◌≡◌, refl, List, [], ◌++◌, ok, fault, out_of_bounds, some, arith, length,
  take, take-ge, take-overwrite_le, length-overwrite, slice, splice, set, get_elem?, overwrite,
  leb-true, ltb-true, ltb-false, length-set, length-splice, slice-splice, slice-set_after,
  get_elem?-set_self, ◌∙◌,
}
use c_http.Cbuffer.{Cbuffer, Malloc, common_strategy, max_of_two, min_of_two, new, grow, put}

abbrev pub Gives : Malloc → Type 0
Gives malloc = (n : ℕ) → length (malloc n) ≡ n

-- There is room for a terminator behind the bytes.
pub record IsValid (c : Cbuffer) : Type 0 where
  pub slab : length c.mem ≡ c.m_capacity
  pub lower : common_strategy.min_size ≤ c.m_capacity
  pub upper : c.m_capacity ≤ common_strategy.max_size
  pub room : c.m_length < c.m_capacity

abbrev pub bytes : Cbuffer → List ℕ
bytes c = slice 0 c.m_length c.mem

-- The terminator stands behind the bytes.
pub record Terminated (c : Cbuffer) : Type 0 where
  pub sized : c.m_size ≡ c.m_length
  pub zero_at : get_elem? c.mem c.m_length ≡ some 0

-- The capacity that growing aims at.
abbrev pub doubled : Cbuffer → ℕ
doubled c = min_of_two common_strategy.max_size (2 * c.m_capacity)

-- `Cbuffer_new` returns an empty valid buffer.
pub new-IsValid :
    (malloc : Malloc)
    → Gives malloc
    → (c : Cbuffer) × (new malloc ≡ ok c)
      × IsValid c
      × (bytes c ≡ [])
      × (c.m_length ≡ 0)
      × (c.m_capacity ≡ 256)
unfolding new
new-IsValid malloc gives = (
  record { mem = malloc 256; m_length = 0; m_capacity = 256; m_size = 0 },
  refl,
  record { slab = gives 256; lower = omega arith; upper = omega arith; room = omega arith },
  refl,
  refl,
  refl,
)

-- Writing inside the slab appends the bytes and a terminator.
pub put-bytes :
    (c : Cbuffer) (bs : List ℕ)
    → length c.mem ≡ c.m_capacity
    → c.m_length + length bs < c.m_capacity
    → (c' : Cbuffer) × (put c bs ≡ ok c')
      × (bytes c' ≡ bytes c ++ bs)
      × Terminated c'
      × (length c'.mem ≡ c.m_capacity)
      × (c'.m_capacity ≡ c.m_capacity)
      × (c'.m_length ≡ c.m_length + length bs)
unfolding put
put-bytes c bs slab room =
    let n = c.m_length + length bs in
    let mem = splice c.mem c.m_length bs in
    let len = length-splice c.mem c.m_length bs in
    (
      record c { mem = set mem n 0; m_length = n; m_size = n },
      rw (leb-true n (length c.mem) (omega arith), ltb-true n (length mem) (omega arith)),
      slice-set_after mem 0 n n 0 (omega arith)
          ∙ slice-splice c.mem 0 c.m_length c.m_length n bs (omega arith) refl (omega arith),
      record { sized = refl; zero_at = get_elem?-set_self mem n 0 (omega arith) },
      omega (arith, length-set mem n 0),
      refl,
      refl,
    )

-- At the end of the slab the terminator falls outside it.
pub put-overflow :
    (c : Cbuffer) (bs : List ℕ)
    → length c.mem ≡ c.m_capacity
    → c.m_length + length bs ≡ c.m_capacity
    → put c bs ≡ fault out_of_bounds
unfolding put
put-overflow c bs slab full =
    let n = c.m_length + length bs in
    rw (
      leb-true n (length c.mem) (omega arith),
      ltb-false n (length (splice c.mem c.m_length bs))
          (omega (arith, length-splice c.mem c.m_length bs)),
    )

-- Growing keeps the bytes.
pub grow-bytes :
    (malloc : Malloc) (c : Cbuffer) (len : ℕ)
    → Gives malloc
    → IsValid c
    → c.m_capacity ≤ c.m_length + len
    → c.m_length + len ≤ common_strategy.max_size
    → (c' : Cbuffer) × (grow malloc c len ≡ ok c')
      × (bytes c' ≡ bytes c)
      × (length c'.mem ≡ c'.m_capacity)
      × (c'.m_capacity ≡ max_of_two (c.m_length + len) (doubled c))
      × (c'.m_length ≡ c.m_length)
unfolding grow
grow-bytes malloc c len gives v big fits =
    let n = c.m_length + len in
    let cap = max_of_two n (doubled c) in
    let cap_le : cap ≤ common_strategy.max_size = ground arith in
    let cap_ge : c.m_capacity ≤ cap = ground (arith, big) in
    let whole : take cap c.mem ≡ c.mem = take-ge c.mem cap (omega (arith, v.slab)) in
    (
      record c { mem = overwrite (malloc cap) (take cap c.mem); m_capacity = cap },
      rw (
        leb-true c.m_capacity n big,
        leb-true n common_strategy.max_size fits,
        leb-true cap common_strategy.max_size cap_le,
      ),
      rw whole (
          take-overwrite_le c.m_length (malloc cap) c.mem (omega (arith, v))
            (omega (arith, v.slab, gives cap))),
      length-overwrite (malloc cap) (take cap c.mem) ∙ gives cap,
      refl,
      refl,
    )
