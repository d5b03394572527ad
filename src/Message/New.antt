-- ===== src/Message/New.antt =====
-- A new message.
use c_http.Prelude.{ℕ, ◌≡◌, refl, [], none, some, ok, Bool}
use c_http.Cbuffer.{Cbuffer, common_strategy}
use c_http.Cbuffer.Laws.{Gives}
use c_http.Cbuffer.Holds.{Holds, new-Holds}
use c_http.Message.{Malloc, Message, message_new}

-- A message as `Message_new` makes it.
pub record Blank (m : Message) : Type 0 where
  pub headers_none : m.headers ≡ []
  pub body_none : m.body ≡ none
  pub major_one : m.major_vers ≡ 1
  pub target_buf : Cbuffer
  pub target_is : m.target ≡ some target_buf
  pub target_empty : Holds target_buf []
  pub target_small : target_buf.m_capacity ≡ common_strategy.min_size
  pub reason_buf : Cbuffer
  pub reason_is : m.reason ≡ some reason_buf
  pub reason_empty : Holds reason_buf []

pub message_new-Blank :
    (malloc : Malloc)
    → Gives malloc
    → (garbage : ℕ × ℕ) (stale : Bool)
    → (m : Message) × (message_new malloc garbage stale ≡ ok m) × Blank m
unfolding message_new
message_new-Blank malloc gives garbage stale =
    let (c, made, h, cap) = new-Holds malloc gives in
    (
      record {
        body = none;
        headers = [];
        major_vers = 1;
        minor_vers = 1;
        is_request = stale;
        status_code = garbage.0;
        reason = some c;
        method = garbage.1;
        target = some c;
      },
      rw made refl,
      record {
        headers_none = refl;
        body_none = refl;
        major_one = refl;
        target_buf = c;
        target_is = refl;
        target_empty = h;
        target_small = cap;
        reason_buf = c;
        reason_is = refl;
        reason_empty = h;
      },
    )
