-- ===== src/DemoParser/States.antt =====
-- The states that the parser can be in, and what one turn of the loop of `DemoParser_consume` makes of
-- them.
use c_http.Prelude.{
  ℕ, ◌≡◌, refl, [], ◌∷◌, ◌++◌, Option, none, some, Bool, true, false, ok, arith, inl, inr,
  Bool-cases, ◌==◌, if◌then◌else◌,
}
use c_http.Prelude.Int.{ℤ, pos}
use c_http.BufferChain.{Malloc}
use c_http.BufferChain.Laws
use c_http.BufferChain.Laws.{Gives, contents, empty_chain-IsValid, empty_chain-contents}
use c_http.BufferChain.Append.{append-contents}
use c_http.BufferChain.Whole.{compact-contents}
use c_http.DemoMessage.Serialize.{demo_message_new-IsValid}
use c_http.DemoMessage.{DemoMessage, demo_message_new, set_is_request, set_lrc}
use c_http.DemoParser.{
  State, idle, soh_wait, opcode, stx_wait, body, ext_wait, lrc, eot_wait, error_recovery,
  DemoParser, demo_parser_new, Event, completed, parse_error, err_expected_stx, isprint, Turn, go,
  return_code, on_body, turn,
}

-- The `switch` has a case for the state that does something; STATE_EOT_WAIT is never entered.
abbrev pub Handled : State → Type 0
Handled idle = Unit
Handled soh_wait = ⊥
Handled opcode = Unit
Handled stx_wait = Unit
Handled body = Unit
Handled ext_wait = ⊥
Handled lrc = Unit
Handled eot_wait = ⊥
Handled error_recovery = Unit

-- The current message has a valid chain as its body; only an idle parser may have no message.
abbrev pub HasMessage : State → Option DemoMessage → Type 0
HasMessage s none = s ≡ idle
HasMessage s (some m) = Laws.IsValid m.body

pub record IsValid (p : DemoParser) : Type 0 where
  pub handled : Handled p.state
  pub has_message : HasMessage p.state p.current

-- The return value and the callback belong together.
abbrev pub Reported : ℤ → Option Event → Type 0
Reported code none = code ≡ pos 0
Reported code (some (completed m)) = (code ≡ pos 0) × Laws.IsValid m.body
Reported code (some (parse_error e)) = (code ≡ err_expected_stx) × (e ≡ err_expected_stx)

abbrev pub TurnIsValid : Turn → Type 0
TurnIsValid (go p) = IsValid p
TurnIsValid (return_code p code event) = IsValid p × Reported code (some event)

pub fresh-IsValid : IsValid (record { state = idle; current = some demo_message_new })
fresh-IsValid = record { handled = tt; has_message = demo_message_new-IsValid }

-- A parser that `DemoParser_new` returned is valid.
pub new-IsValid : IsValid demo_parser_new
unfolding demo_parser_new
new-IsValid = record { handled = tt; has_message = refl }

abbrev pub GoodTurn : Malloc → DemoParser → ℕ → Bool → Type 0
GoodTurn malloc p ch last = (t : Turn) × (turn malloc p ch last ≡ ok t) × TurnIsValid t

pub idle-turn :
    (malloc : Malloc) (o : Option DemoMessage) (ch : ℕ) (last : Bool)
    → HasMessage idle o
    → GoodTurn malloc (record { state = idle; current = o }) ch last
unfolding turn
idle-turn malloc none ch last h = elim (Bool-cases (ch == 1)) [
  | inl e ↦ (
    go (record { state = opcode; current = some demo_message_new }),
    rw e refl,
    record { handled = tt; has_message = demo_message_new-IsValid },
  )
  | inr e ↦
      (go (record { state = idle; current = some demo_message_new }), rw e refl, fresh-IsValid)
]
idle-turn malloc (some m) ch last h = elim (Bool-cases (ch == 1)) [
  | inl e ↦ (
    go (record { state = opcode; current = some m }),
    rw e refl,
    record { handled = tt; has_message = h },
  )
  | inr e ↦ (
    go (record { state = idle; current = some m }),
    rw e refl,
    record { handled = tt; has_message = h },
  )
]

-- A printable byte goes into the body, which stays valid.
pub body-turn :
    (malloc : Malloc) (m : DemoMessage) (ch : ℕ) (last : Bool)
    → Gives malloc
    → Laws.IsValid m.body
    → isprint ch ≡ true
    → (m' : DemoMessage) × (turn malloc (record { state = body; current = some m }) ch last
        ≡ ok (go (record { state = body; current = some m' })))
      × Laws.IsValid m'.body
      × (contents m'.body.chain ≡ contents m.body.chain ++ ch ∷ [])
      × (m'.opcode ≡ m.opcode)
unfolding turn on_body
body-turn malloc m ch last gives v e =
    let (bc, added, vb, all) = append-contents malloc m.body (ch ∷ []) gives v (omega arith) in
    let (b, compacted, vb', all', start) = compact-contents malloc bc gives vb in
    (record m { body = bc }, rw (e, added, compacted) refl, vb, all, refl)

pub message-turn :
    (malloc : Malloc) (s : State) (m : DemoMessage) (ch : ℕ) (last : Bool)
    → Gives malloc
    → Handled s
    → Laws.IsValid m.body
    → GoodTurn malloc (record { state = s; current = some m }) ch last
unfolding turn on_body
message-turn malloc idle m ch last gives h v = idle-turn malloc (some m) ch last v
message-turn malloc opcode m ch last gives h v =
    elim (Bool-cases (if ch == 82 then true else ch == 81)) [
      | inl e ↦ (
        go (record { state = stx_wait; current = some (set_is_request m (ch == 81)) }),
        rw e refl,
        record { handled = tt; has_message = v },
      )
      | inr e ↦ (
        go (record { state = error_recovery; current = some m }),
        rw e refl,
        record { handled = tt; has_message = v },
      )
    ]
message-turn malloc stx_wait m ch last gives h v = elim (Bool-cases (ch == 2)) [
  | inl e ↦ (
    go (record { state = body; current = some m }),
    rw e refl,
    record { handled = tt; has_message = v },
  )
  | inr e ↦ (
    go (record { state = error_recovery; current = some m }),
    rw e refl,
    record { handled = tt; has_message = v },
  )
]
message-turn malloc body m ch last gives h v = elim (Bool-cases (isprint ch)) [
  | inl e ↦
      let (m', done, v', all, op) = body-turn malloc m ch last gives v e in
      (
        go (record { state = body; current = some m' }),
        done,
        record { handled = tt; has_message = v' },
      )
  | inr e ↦ elim (Bool-cases (ch == 3)) [
    | inl f ↦ (
      go (record { state = lrc; current = some m }),
      rw (e, f) refl,
      record { handled = tt; has_message = v },
    )
    | inr f ↦ (
      go (record { state = error_recovery; current = some m }),
      rw (e, f) refl,
      record { handled = tt; has_message = v },
    )
  ]
]
message-turn malloc lrc m ch last gives h v = (
  return_code (record { state = idle; current = some demo_message_new }) (pos 0)
      (completed (set_lrc m ch)),
  refl,
  (fresh-IsValid, (refl, v)),
)
message-turn malloc soh_wait m ch last gives h v = absurd h
message-turn malloc ext_wait m ch last gives h v = absurd h
message-turn malloc eot_wait m ch last gives h v = absurd h
message-turn malloc error_recovery m ch true gives h v = (
  return_code (record { state = error_recovery; current = some demo_message_new }) err_expected_stx
      (parse_error err_expected_stx),
  elim (Bool-cases (ch == 1)) [ inl e ↦ rw e refl | inr e ↦ rw e refl ],
  (record { handled = tt; has_message = demo_message_new-IsValid }, (refl, refl)),
)
message-turn malloc error_recovery m ch false gives h v = elim (Bool-cases (ch == 1)) [
  | inl e ↦ (
    go (record { state = opcode; current = some m }),
    rw e refl,
    record { handled = tt; has_message = v },
  )
  | inr e ↦ (
    go (record { state = error_recovery; current = some m }),
    rw e refl,
    record { handled = tt; has_message = v },
  )
]

pub turn-valid :
    (malloc : Malloc) (s : State) (o : Option DemoMessage) (ch : ℕ) (last : Bool)
    → Gives malloc
    → IsValid (record { state = s; current = o })
    → GoodTurn malloc (record { state = s; current = o }) ch last
turn-valid malloc s (some m) ch last gives v =
    message-turn malloc s m ch last gives v.handled v.has_message
turn-valid malloc s none ch last gives v = rw (v.has_message) (idle-turn malloc none ch last refl)
