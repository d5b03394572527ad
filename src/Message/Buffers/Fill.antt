-- ===== src/Message/Buffers/Fill.antt =====
-- The target and the reason filled once from another buffer.
use c_http.Prelude.{
  ℕ, ◌≡◌, ◌≤◌, ◌<◌, refl, List, [], some, ok, fault, out_of_bounds, assert_failed, eq_false, arith,
  length, eq_true, ap, ◌∙◌,
}
use c_http.Cbuffer.{Cbuffer, common_strategy}
use c_http.Cbuffer.Laws.{Gives, Terminated}
use c_http.Cbuffer.Moves.{cstr-Terminated}
use c_http.Cbuffer.Holds.{Holds, Holds-length, append_cstr-empty, append_cstr-overflow}
use c_http.KvPair.{c_string}
use c_http.KvPair.Strings.{c_string-take, length-c_string}
use c_http.Message.{Malloc, Message}
use c_http.Message.Buffers.{fill_cbuffer, message_set_target_cbuffer, message_set_reason_cbuffer}

-- The string that `Cbuffer_cstr` points at.
pub Holds-c_string :
    (c : Cbuffer) (bs : List ℕ) → Holds c bs → Terminated c → c_string c.mem ≡ c_string bs
Holds-c_string c bs h t = c_string-take c.mem c.m_length t.zero_at ∙ ap c_string h.holds

-- An empty buffer takes the string of another, which ends at its first terminator.
fill_cbuffer-Holds :
    (malloc : Malloc) (cbuf other : Cbuffer) (bs : List ℕ)
    → Gives malloc
    → Holds cbuf []
    → Holds other bs
    → Terminated other
    → length bs < 512
    → (c : Cbuffer) × (fill_cbuffer malloc (some cbuf) other ≡ ok (some c)) × Holds c (c_string bs)
unfolding fill_cbuffer
fill_cbuffer-Holds malloc cbuf other bs gives h ho t short =
    let (c, done, hc) =
      append_cstr-empty malloc cbuf (c_string bs) gives h (omega (arith, length-c_string bs)) in
    (
      c,
      rw
          (
            eq_true cbuf.m_length 0 (Holds-length h),
            (cstr-Terminated other t).0,
            Holds-c_string other bs ho t,
            done,
          )
          refl,
      hc,
    )

pub message_set_target_cbuffer-Holds :
    (malloc : Malloc) (m : Message) (cbuf other : Cbuffer) (bs : List ℕ)
    → Gives malloc
    → m.target ≡ some cbuf
    → Holds cbuf []
    → Holds other bs
    → Terminated other
    → length bs < 512
    → (c : Cbuffer) × (message_set_target_cbuffer malloc m other
        ≡ ok (record m { target = some c }))
      × Holds c (c_string bs)
unfolding message_set_target_cbuffer
message_set_target_cbuffer-Holds malloc m cbuf other bs gives e h ho t short =
    let (c, done, hc) = fill_cbuffer-Holds malloc cbuf other bs gives h ho t short in
    (c, rw (e, done) refl, hc)

pub message_set_reason_cbuffer-Holds :
    (malloc : Malloc) (m : Message) (cbuf other : Cbuffer) (bs : List ℕ)
    → Gives malloc
    → m.reason ≡ some cbuf
    → Holds cbuf []
    → Holds other bs
    → Terminated other
    → length bs < 512
    → (c : Cbuffer) × (message_set_reason_cbuffer malloc m other
        ≡ ok (record m { reason = some c }))
      × Holds c (c_string bs)
unfolding message_set_reason_cbuffer
message_set_reason_cbuffer-Holds malloc m cbuf other bs gives e h ho t short =
    let (c, done, hc) = fill_cbuffer-Holds malloc cbuf other bs gives h ho t short in
    (c, rw (e, done) refl, hc)

-- A target of 512 bytes or more overflows the new buffer.
pub message_set_target_cbuffer-overflow :
    (malloc : Malloc) (m : Message) (cbuf other : Cbuffer) (bs : List ℕ)
    → Gives malloc
    → m.target ≡ some cbuf
    → Holds cbuf []
    → cbuf.m_capacity ≡ common_strategy.min_size
    → Holds other bs
    → Terminated other
    → 512 ≤ length (c_string bs)
    → length (c_string bs) ≤ common_strategy.max_size
    → message_set_target_cbuffer malloc m other ≡ fault out_of_bounds
unfolding message_set_target_cbuffer fill_cbuffer
message_set_target_cbuffer-overflow malloc m cbuf other bs gives e h cap ho t long fits =
    rw
      (
        e,
        eq_true cbuf.m_length 0 (Holds-length h),
        (cstr-Terminated other t).0,
        Holds-c_string other bs ho t,
        append_cstr-overflow malloc cbuf (c_string bs) gives h cap long fits,
      )
      refl

-- A field that has some text is not set again.
pub message_set_reason_cbuffer-twice :
    (malloc : Malloc) (m : Message) (cbuf other : Cbuffer) (bs : List ℕ)
    → m.reason ≡ some cbuf
    → Holds cbuf bs
    → 0 < length bs
    → message_set_reason_cbuffer malloc m other ≡ fault assert_failed
unfolding message_set_reason_cbuffer fill_cbuffer
message_set_reason_cbuffer-twice malloc m cbuf other bs e h some_text =
    rw (e, eq_false cbuf.m_length 0 (omega (arith, Holds-length h))) refl
