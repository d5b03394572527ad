-- ===== src/DemoConnection/Kept.antt =====
-- What the posted functions leave alone while a write is under way: the write state, and the functions
-- on the ready list.
use c_http.Prelude.{
  ◌≡◌, List, [], ◌∷◌, ◌++◌, Option, none, some, Run, ok, fault, Bool, true, false, length,
  append_assoc, ◌==◌, Bool-cases, inl, inr, ◌>>=◌, check, not, if◌then◌else◌,
}
use c_http.Prelude.Int.{ℤ, pos, negsuc}
use c_http.IoBuffer
use c_http.IoBuffer.{IoBuffer}
use c_http.BufferChain.{Malloc}
use c_http.DemoMessage.{DemoMessage}
use c_http.DemoParser.{Event, completed, parse_error, demo_parser_consume}
use c_http.DemoConnection.{
  DemoConnection, DemoPostable, postable_reader, postable_cleanup, postable_write_start,
  postable_read_start, read_idle, read_active, read_stop, write_active, DemoRecv, received,
  recv_eagain, recv_failed, post_to_reactor, is_stop, is_idle, is_eagained, is_active,
}
use c_http.DemoConnection.ReadSide.{
  read_failed_cb, check_code, process_request, handle_request, on_read_complete, read_error,
  after_parse, consume_available, commit_received, receive, reader, run_reader, democonnection_read,
  read_start, input_buffer,
}

-- A write is under way, and what was posted is still posted, in front of other functions.
abbrev pub Kept : List DemoPostable → DemoConnection → Type 0
Kept rest c =
    (c.write_state ≡ write_active) × (extra : List DemoPostable) × (c.posted ≡ rest ++ extra)

-- If the run goes on.
abbrev pub Keeps : List DemoPostable → Run DemoConnection → Type 0
Keeps rest (ok c) = Kept rest c
Keeps rest (fault e) = Unit

module _ (rest : List DemoPostable) where
  pub bind-Keeps {ℓ} :
      {A : Type ℓ} (m : Run A) (f : A → Run DemoConnection)
      → ((a : A) → Keeps rest (f a))
      → Keeps rest (m >>= f)
  bind-Keeps (ok a) f k = k a
  bind-Keeps (fault e) f k = tt

  then-Keeps :
      (m : Run DemoConnection) (f : DemoConnection → Run DemoConnection)
      → Keeps rest m
      → ((c : DemoConnection) → Kept rest c → Keeps rest (f c))
      → Keeps rest (m >>= f)
  then-Keeps (ok c) f k g = g c k
  then-Keeps (fault e) f k g = tt

  pub post-Kept :
      (f : DemoPostable) (c : DemoConnection) → Kept rest c → Kept rest (post_to_reactor f c)
  post-Kept f c (state, extra, posted) =
      (state, extra ++ f ∷ [], rw posted (append_assoc rest extra (f ∷ [])))

  pub if-Kept :
      (b : Bool) (c d : DemoConnection) → Kept rest c → Kept rest d → Kept rest (if b then c else d)
  if-Kept true c d k l = k
  if-Kept false c d k l = l

  handle_request-Keeps :
      (malloc : Malloc) (c : DemoConnection) (m : DemoMessage)
      → Kept rest c
      → Keeps rest (handle_request malloc c m)
  unfolding handle_request
  handle_request-Keeps malloc c m k = bind-Keeps (process_request malloc m) _ λ response.
      let c' : DemoConnection = record c {
        output_list = c.output_list ++ response ∷ [];
        requests = c.requests ++ m ∷ [];
      } in
      let first : Bool = length c'.output_list == 1 in
      let started = post_to_reactor postable_write_start c' in
      post-Kept postable_read_start (if first then started else c')
        (if-Kept first started c' (post-Kept postable_write_start c' k) k)

  on_read_complete-Keeps :
      (malloc : Malloc) (c : DemoConnection) (event : Event)
      → Kept rest c
      → Keeps rest (on_read_complete malloc c event)
  unfolding on_read_complete
  on_read_complete-Keeps malloc c (completed m) k =
      bind-Keeps (read_failed_cb c) _ λ _.
        handle_request-Keeps malloc (record c { read_state = read_idle; on_read_cb = false }) m k
  on_read_complete-Keeps malloc c (parse_error code) k =
      bind-Keeps (check_code code) _ λ _. bind-Keeps (read_failed_cb c) _ λ _. k

  go_on-Keeps :
      (ec : ℤ) (c : DemoConnection)
      → Kept rest c
      → Keeps rest (elim ec [
        | negsuc n ↦ ok c
        | pos n ↦ ok (
            if n == 0
            then (if is_active c.read_state then post_to_reactor postable_reader c else c)
            else c)
      ])
  go_on-Keeps (negsuc n) c k = k
  go_on-Keeps (pos n) c k =
      let again = post_to_reactor postable_reader c in
      let more = if is_active c.read_state then again else c in
      if-Kept (n == 0) more c
        (if-Kept (is_active c.read_state) again c (post-Kept postable_reader c k) k) k

  after_parse-Keeps :
      (malloc : Malloc) (c : DemoConnection) (event : Option Event) (ec : ℤ)
      → Kept rest c
      → Keeps rest (after_parse malloc c event ec)
  unfolding after_parse
  after_parse-Keeps malloc c none ec k = go_on-Keeps ec c k
  after_parse-Keeps malloc c (some found) ec k =
      then-Keeps (on_read_complete malloc c found) _ (on_read_complete-Keeps malloc c found k)
        (go_on-Keeps ec)

  consume_available-Keeps :
      (malloc : Malloc) (c : DemoConnection) (iob : IoBuffer)
      → Kept rest c
      → Keeps rest (consume_available malloc c iob)
  unfolding consume_available
  consume_available-Keeps malloc c iob k =
      bind-Keeps (demo_parser_consume malloc c.parser_ref iob) _ λ (out, iob').
        after_parse-Keeps malloc
          (record c { parser_ref = out.parser; active_input_buffer_ref = some iob' }) out.event
          out.code k

  read_error-Keeps : (c : DemoConnection) → Kept rest c → Keeps rest (read_error c)
  unfolding read_error
  read_error-Keeps c k =
      bind-Keeps (read_failed_cb c) _
        λ _. post-Kept postable_cleanup (record c { read_state = read_stop; on_read_cb = false }) k

  receive-Keeps :
      (malloc : Malloc) (r : DemoRecv) (c : DemoConnection) (iob : IoBuffer)
      → Kept rest c
      → Keeps rest (receive malloc r c iob)
  unfolding receive
  receive-Keeps malloc recv_eagain c iob k = k
  receive-Keeps malloc recv_failed c iob k =
      read_error-Keeps (record c { active_input_buffer_ref = some iob }) k
  receive-Keeps malloc (received []) c iob k =
      read_error-Keeps (record c { active_input_buffer_ref = some iob }) k
  receive-Keeps malloc (received (b ∷ l)) c iob k =
      bind-Keeps (commit_received iob (b ∷ l)) _ λ iob'.
        consume_available-Keeps malloc (record c { active_input_buffer_ref = some iob' }) iob' k

  reader-Keeps :
      (malloc : Malloc) (r : DemoRecv) (c : DemoConnection)
      → Kept rest c
      → Keeps rest (reader malloc r c)
  unfolding reader
  reader-Keeps malloc r c k =
      let iob = input_buffer malloc c in
      elim (Bool-cases (IoBuffer.data_len iob == 0)) [
        | inl empty ↦ rw empty (receive-Keeps malloc r c iob k)
        | inr more ↦ rw more (consume_available-Keeps malloc c iob k)
      ]

  pub run_reader-Keeps :
      (malloc : Malloc) (r : DemoRecv) (c : DemoConnection)
      → Kept rest c
      → Keeps rest (run_reader malloc r c)
  unfolding run_reader
  run_reader-Keeps malloc r c k = elim (Bool-cases (is_stop c.read_state)) [
    | inl stop ↦ rw stop (bind-Keeps (read_failed_cb c) _ λ _. k)
    | inr other ↦ rw other (reader-Keeps malloc r c k)
  ]

  pub democonnection_read-Keeps :
      (c : DemoConnection) → Kept rest c → Keeps rest (democonnection_read c)
  unfolding democonnection_read
  democonnection_read-Keeps c k = bind-Keeps (check (not (is_active c.read_state))) _ λ _.
      let next : DemoConnection = record c { read_state = read_active; on_read_cb = true } in
      if-Kept (is_idle c.read_state) (read_start next)
        (record c { on_read_cb = is_eagained c.read_state })
        (post-Kept postable_reader (record next { readside_posted = true }) k) k
