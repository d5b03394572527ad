-- ===== src/DemoConnection/Crash.antt =====
-- What becomes of a connection whose response does not go out in one piece.
use c_http.Prelude.{
  ℕ, zero, suc, ◌≢◌, ◌≡◌, ◌<◌, refl, List, [], ◌∷◌, ◌++◌, some, Run, ok, fault, out_of_bounds,
  Fault, Bool, true, false, arith, length, sym, ◌∙◌, append-nil, ap, ◌>>=◌, get_elem?,
  if◌then◌else◌, eq_false, take, length-drop,
}
use c_http.IoBuffer.{IoBuffer}
use c_http.IoBuffer.Laws as Io
use c_http.IoBuffer.Laws.{bytes, read_data-bytes, length-bytes}
use c_http.IoBuffer.Moves.{consume_lem}
use c_http.BufferChain.{Malloc}
use c_http.DemoConnection.{
  DemoConnection, DemoWriteState, is_write_eagained, DemoPostable, postable_writer, write_active,
  write_eagained, DemoInput, DemoSend, nsend, post_to_reactor,
}
use c_http.DemoConnection.WriteSide.{writer, run_writer}
use c_http.DemoConnection.Loop.{call_first, run_next, run_postable, run_rounds, write_epollout}
use c_http.DemoConnection.Kept.{Keeps}
use c_http.DemoConnection.KeptWrite.{run_postable-Keeps, run_writer-stops}

-- A write is under way and `postable_writer` is on the ready list behind `k` other functions.
abbrev Doomed : ℕ → DemoConnection → Type 0
Doomed k c = (c.write_state ≡ write_active) × (get_elem? c.posted k ≡ some postable_writer)

get_elem?-snoc :
    (l : List DemoPostable)
    → get_elem? (l ++ postable_writer ∷ []) (length l) ≡ some postable_writer
get_elem?-snoc [] = refl
get_elem?-snoc (f ∷ l) = get_elem?-snoc l

-- One round closer, or stopped.
abbrev Closer : ℕ → Run DemoConnection → Type 0
Closer k (fault e) = Unit
Closer zero (ok c) = ⊥
Closer (suc k) (ok c) = Doomed k c

get_elem?-append :
    (l extra : List DemoPostable) (k : ℕ)
    → get_elem? l k ≡ some postable_writer
    → get_elem? (l ++ extra) k ≡ some postable_writer
get_elem?-append [] extra k e = cc
get_elem?-append (f ∷ l) extra zero e = e
get_elem?-append (f ∷ l) extra (suc k) e = get_elem?-append l extra k e

Keeps-Closer :
    (rest : List DemoPostable) (k : ℕ) (m : Run DemoConnection)
    → get_elem? rest k ≡ some postable_writer
    → Keeps rest m
    → Closer (suc k) m
Keeps-Closer rest k (fault e) at_k kept = tt
Keeps-Closer rest k (ok c) at_k (state, extra, posted) =
    (state, rw posted (get_elem?-append rest extra k at_k))

if-Closer :
    (k : ℕ) (freed : Bool) (m : Run DemoConnection)
    → Closer k m
    → Closer k (if freed then fault out_of_bounds else m)
if-Closer zero true m closer = tt
if-Closer (suc k) true m closer = tt
if-Closer k false m closer = closer

writer-Closer :
    (o : DemoSend) (c : DemoConnection)
    → c.write_state ≡ write_active
    → Closer zero (run_writer o c)
writer-Closer o c e = rw (run_writer-stops o c e) tt

call_first-Closer :
    (malloc : Malloc) (input : DemoInput) (c : DemoConnection) (l : List DemoPostable) (k : ℕ)
    → c.write_state ≡ write_active
    → get_elem? l k ≡ some postable_writer
    → Closer k (call_first malloc input c l)
unfolding call_first run_postable
call_first-Closer malloc input c [] k e at_k = cc
call_first-Closer malloc input c (f ∷ rest) zero e at_k =
    let first : f ≡ postable_writer = cc in
    if-Closer zero c.closed (run_postable malloc input f (record c { posted = rest }))
      (rw first (writer-Closer input.send (record c { posted = rest }) e))
call_first-Closer malloc input c (f ∷ rest) (suc k) e at_k =
    let c' : DemoConnection = record c { posted = rest } in
    if-Closer (suc k) c.closed (run_postable malloc input f c') (
      Keeps-Closer rest k (run_postable malloc input f c') at_k
        (run_postable-Keeps malloc input f rest c' (e, [], sym (append-nil rest))))

-- Once a write is under way and the writer is on the ready list, the process stops when its turn comes,
-- if it has not stopped before.
pub run_rounds-Doomed :
    (malloc : Malloc) (inputs : List DemoInput) (k : ℕ) (c : DemoConnection)
    → Doomed k c
    → k < length inputs
    → (e : Fault) × (run_rounds malloc inputs c ≡ fault e)
unfolding run_rounds run_next
run_rounds-Doomed malloc [] k c d h = absurd (omega (arith, h))
run_rounds-Doomed malloc (input ∷ inputs) k c (state, at_k) h =
    after k (run_next malloc input c) (call_first-Closer malloc input c c.posted k state at_k) h
      (run_rounds-Doomed malloc inputs)
  where
    after :
        (k : ℕ) (m : Run DemoConnection)
        → Closer k m
        → k < length (input ∷ inputs)
        → ((j : ℕ) (c' : DemoConnection)
            → Doomed j c'
            → j < length inputs
            → (e : Fault) × (run_rounds malloc inputs c' ≡ fault e))
        → (e : Fault) × (m >>= run_rounds malloc inputs ≡ fault e)
    after zero (fault e) closer h later = (e, refl)
    after (suc k) (fault e) closer h later = (e, refl)
    after zero (ok c') closer h later = absurd closer
    after (suc k) (ok c') closer h later = later k c' closer (omega arith)

-- When send takes a part of a response, but not all of the data of a valid output buffer, on a
-- connection of the demo protocol, the process stops while the loop calls the functions that were
-- posted then and postable_writer behind them, whatever recv and send come to.
pub writer-partial :
    (malloc : Malloc) (inputs : List DemoInput) (n : ℕ) (b : IoBuffer) (c : DemoConnection)
    → Io.IsValid b
    → 0 < n
    → n < b.buffer_remaining
    → length c.posted < length inputs
    → (e : Fault) × ((writer (nsend n) c b >>= run_rounds malloc inputs) ≡ fault e)
unfolding writer
writer-partial malloc inputs n b c v some_taken part h =
    let (b', done, v', rest) = consume_lem b n v (omega arith) in
    let left : b'.buffer_remaining ≢ 0 =
      omega
        (arith, length-bytes b' v', ap length rest, length-drop n (bytes b), length-bytes b v) in
    let (e, stops) =
      run_rounds-Doomed malloc inputs (length c.posted)
        (post_to_reactor postable_writer (record c {
          sent = c.sent ++ take n (bytes b);
          write_state = write_active;
          active_output_buffer_ref = some b';
        }))
        (refl, get_elem?-snoc c.posted) h in
    (
      e,
      rw
          (
            eq_false n 0 (omega arith),
            read_data-bytes b v,
            done,
            eq_false b'.buffer_remaining 0 left,
          )
          stops,
    )

-- When `send` would block, the process stops after the event that the socket can be written to.
pub write_epollout-stops :
    (malloc : Malloc) (inputs : List DemoInput) (c : DemoConnection)
    → c.write_state ≡ write_eagained
    → length c.posted < length inputs
    → (e : Fault) × (run_rounds malloc inputs (write_epollout c) ≡ fault e)
unfolding write_epollout
write_epollout-stops malloc inputs c blocked h =
    let next : DemoConnection =
      post_to_reactor postable_writer
        (record c { write_state = write_active; writeside_posted = true }) in
    let (e, stops) =
      run_rounds-Doomed malloc inputs (length c.posted) next (refl, get_elem?-snoc c.posted) h in
    (
      e,
      ap (λ b. run_rounds malloc inputs (if b then next else c)) (waiting c.write_state blocked)
          ∙ stops,
    )
  where
    waiting : (s : DemoWriteState) → s ≡ write_eagained → is_write_eagained s ≡ true
    waiting s e = rw e
