-- ===== src/DemoParser/Safe.antt =====
-- What a call of `DemoParser_consume` comes to in the states that the parser can be in.
use c_http.Prelude.{
  ℕ, ◌+◌, ◌-◌, ◌≤◌, ◌<◌, ◌≡◌, refl, List, [], ◌∷◌, none, some, ok, arith, length, drop, ◌==◌,
}
use c_http.Prelude.Int.{pos}
use c_http.IoBuffer.{IoBuffer}
use c_http.IoBuffer.Laws as Io
use c_http.IoBuffer.Laws.{bytes, length-bytes, read_data-bytes}
use c_http.IoBuffer.Moves.{consume_lem}
use c_http.BufferChain.{Malloc}
use c_http.BufferChain.Laws.{Gives}
use c_http.DemoParser.{
  DemoParser, Turn, go, return_code, Outcome, consume_loop, demo_parser_consume,
}
use c_http.DemoParser.States.{IsValid, Reported, TurnIsValid, turn-valid}

-- What holds of the way in which the loop ends, from index `i` on.
pub record Finished (len i : ℕ) (out : Outcome) : Type 0 where
  pub valid : IsValid out.parser
  pub reported : Reported out.code out.event
  pub within : out.consumed ≤ len
  pub forward : i ≤ out.consumed
  pub progress : i < len → i < out.consumed
  pub silent : out.event ≡ none → out.consumed ≡ len

consume_loop-Finished :
    (malloc : Malloc) (bytes : List ℕ) (len i : ℕ) (p : DemoParser)
    → Gives malloc
    → IsValid p
    → i + length bytes ≡ len
    → (out : Outcome) × (consume_loop malloc len p i bytes ≡ ok out) × Finished len i out
unfolding consume_loop
consume_loop-Finished malloc [] len i p gives v e = (
  record { parser = p; consumed = len; code = pos 0; event = none },
  refl,
  record {
    valid = v;
    reported = refl;
    within = omega arith;
    forward = omega arith;
    progress = λ h. h;
    silent = λ h. refl;
  },
)
consume_loop-Finished malloc (ch ∷ bytes) len i p gives v e =
    let (t, turned, good) = turn-valid malloc p.state p.current ch (i == len - 1) gives v in
    let (out, done, f) =
      after t good
        (λ p' good'. consume_loop-Finished malloc bytes len (i + 1) p' gives good' (omega arith)) in
    (out, rw turned done, f)
  where
    after :
        (t : Turn)
        → TurnIsValid t
        → ((p' : DemoParser)
            → IsValid p'
            → (out : Outcome) × (consume_loop malloc len p' (i + 1) bytes ≡ ok out)
              × Finished len (i + 1) out)
        → (out : Outcome) × (elim t [
          | go p' ↦ consume_loop malloc len p' (i + 1) bytes
          | return_code p' code event ↦
              ok (record { parser = p'; consumed = i + 1; code = code; event = some event })
        ]
            ≡ ok out)
          × Finished len i out
    after (go p') good later =
        let (out, done, f) = later p' good in
        (
          out,
          done,
          record {
            valid = f.valid;
            reported = f.reported;
            within = f.within;
            forward = omega (arith, f.forward);
            progress = λ h. omega (arith, f.forward);
            silent = f.silent;
          },
        )
    after (return_code p' code event) good later = (
      _,
      refl,
      record {
        valid = good.0;
        reported = good.1;
        within = omega arith;
        forward = omega arith;
        progress = λ h. omega arith;
        silent = λ h. cc;
      },
    )

-- `DemoParser_consume` by a valid parser on a valid buffer always returns, whatever the bytes. The
-- parser stays valid; the consumed bytes, at least one of any, leave the buffer; the callback, if it
-- was called, got what the return value says; and without a callback all the bytes are consumed.
pub demo_parser_consume-safe :
    (malloc : Malloc) (p : DemoParser) (b : IoBuffer)
    → Gives malloc
    → IsValid p
    → Io.IsValid b
    → (out : Outcome) × (b' : IoBuffer) × (demo_parser_consume malloc p b ≡ ok (out, b'))
      × Finished b.buffer_remaining 0 out
      × Io.IsValid b'
      × (bytes b' ≡ drop out.consumed (bytes b))
unfolding demo_parser_consume
demo_parser_consume-safe malloc p b gives v vb =
    let (out, done, f) =
      consume_loop-Finished malloc (bytes b) b.buffer_remaining 0 p gives v
        (omega (arith, length-bytes b vb)) in
    let (b', consumed, vb', rest) = consume_lem b out.consumed vb f.within in
    (out, b', rw (read_data-bytes b vb, done, consumed) refl, f, vb', rest)
