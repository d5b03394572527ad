-- ===== src/Cbuffer/Moves.antt =====
-- `Cbuffer_cstr`, `Cbuffer_clear`, `Cbuffer_move` and strings built from an empty buffer.
use c_http.Prelude.{
  ℕ, ◌<◌, ◌≡◌, refl, List, [], ok, some, arith, length, set, get_elem?, length-set,
  get_elem?-set_self, ◌∙◌, ltb-true, inr,
}
use c_http.Cbuffer.{Cbuffer, Malloc, clear, cstr, move, from_cstring}
use c_http.Cbuffer.Laws.{Gives, IsValid, bytes, Terminated, new-IsValid}
use c_http.Cbuffer.Append.{append-bytes}

-- `Cbuffer_cstr` of a terminated buffer returns the slab, which starts with the bytes and has the
-- terminator behind them.
pub cstr-Terminated :
    (c : Cbuffer) → Terminated c → (cstr c ≡ ok c.mem) × (get_elem? c.mem c.m_length ≡ some 0)
unfolding cstr
cstr-Terminated c t = (ground (arith, t), t.zero_at)

-- `Cbuffer_clear` of a valid buffer makes it an empty valid one with a terminator in front, and keeps
-- `m_size` as it was.
pub clear_lem :
    (c : Cbuffer)
    → IsValid c
    → (c' : Cbuffer) × (clear c ≡ ok c')
      × IsValid c'
      × (bytes c' ≡ [])
      × (get_elem? c'.mem 0 ≡ some 0)
      × (c'.m_size ≡ c.m_size)
unfolding clear
clear_lem c v = (
  record c { m_length = 0; mem = set c.mem 0 0 },
  rw (ltb-true 0 (length c.mem) (omega (arith, v))),
  record {
    slab = length-set c.mem 0 0 ∙ v.slab;
    lower = v.lower;
    upper = v.upper;
    room = omega (arith, v);
  },
  refl,
  get_elem?-set_self c.mem 0 0 (omega (arith, v)),
  refl,
)

-- `Cbuffer_move` gives `dest` the buffer that `src` was, and leaves `src` empty and valid.
pub move_lem :
    (dest src : Cbuffer)
    → IsValid dest
    → IsValid src
    → (d s : Cbuffer) × (move dest src ≡ ok (d, s)) × (d ≡ src) × IsValid s × (bytes s ≡ [])
unfolding move
move_lem dest src vd vs =
    let (d', done, v', none_left, zero_at, kept) = clear_lem dest vd in
    let (s', done', v'', none_left', zero_at', kept') = clear_lem d' v' in
    (src, s', rw (done, done'), refl, v'', none_left')

-- `Cbuffer_from_cstring` of a text of 1 to 511 bytes returns a valid buffer that holds it, with the
-- terminator behind it.
pub from_cstring-bytes :
    (malloc : Malloc) (s : List ℕ)
    → Gives malloc
    → 0 < length s
    → length s < 512
    → (c : Cbuffer) × (from_cstring malloc s ≡ ok c) × IsValid c × (bytes c ≡ s) × Terminated c
unfolding from_cstring
from_cstring-bytes malloc s gives some_bytes short =
    let (e, made, v, none_yet, len, cap) = new-IsValid malloc gives in
    let (c, done, a) =
      append-bytes malloc e s gives v some_bytes (inr (ground (arith, len, cap))) in
    (c, rw made done, a.valid, rw none_yet at a.extended, a.terminated)
