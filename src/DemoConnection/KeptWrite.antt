-- ===== src/DemoConnection/KeptWrite.antt =====
-- What the writing functions leave alone while a write is under way, and any posted function.
use c_http.Prelude.{
  ◌≡◌, List, [], ◌∷◌, none, some, Run, ok, fault, assert_failed, out_of_bounds, Bool, true, false,
  arith, length, check, ◌==◌, if◌then◌else◌,
}
use c_http.BufferChain.{Malloc}
use c_http.DemoMessage.{DemoMessage}
use c_http.DemoConnection.{
  DemoConnection, DemoPostable, postable_reader, postable_writer, postable_write_call_cb,
  postable_cleanup, postable_write_start, postable_read_start, write_active, DemoInput, DemoSend,
  post_to_reactor,
}
use c_http.DemoConnection.WriteSide.{on_write_complete_cb, democonnection_write, run_writer}
use c_http.DemoConnection.Loop.{run_postable, run_write_start}
use c_http.DemoConnection.Kept.{
  Kept, Keeps, bind-Keeps, post-Kept, if-Kept, run_reader-Keeps, democonnection_read-Keeps,
}

module _ (rest : List DemoPostable) where
  if-Keeps :
      (b : Bool) (m n : Run DemoConnection)
      → Keeps rest m
      → Keeps rest n
      → Keeps rest (if b then m else n)
  if-Keeps true m n k l = k
  if-Keeps false m n k l = l

  on_write_complete_cb-Keeps :
      (c : DemoConnection) → Kept rest c → Keeps rest (on_write_complete_cb c)
  unfolding on_write_complete_cb
  on_write_complete_cb-Keeps c k =
      elim c.active_response
        as (λ o. Keeps rest (elim o [
          | none ↦ fault out_of_bounds
          | some response ↦
              let c' : DemoConnection = record c { active_response = none } in
              ok (if length c.output_list == 1 then post_to_reactor postable_write_start c' else c')
        ])) [
          | none ↦ tt
          | some response ↦
              let c' : DemoConnection = record c { active_response = none } in
              if-Kept rest (length c.output_list == 1) (post_to_reactor postable_write_start c') c'
                (post-Kept rest postable_write_start c' k) k
        ]

  -- The assertion on the write state stops a second write.
  democonnection_write-stops :
      (malloc : Malloc) (c : DemoConnection) (m : DemoMessage)
      → c.write_state ≡ write_active
      → democonnection_write malloc c m ≡ fault assert_failed
  unfolding democonnection_write
  democonnection_write-stops malloc c m e = ground (arith)

  start-Keeps :
      (malloc : Malloc) (c : DemoConnection) (waiting : List DemoMessage)
      → Kept rest c
      → Keeps rest (elim waiting [
        | [] ↦ ok c
        | response ∷ more ↦
            democonnection_write malloc
              (record c { output_list = more; active_response = some response })
              response
      ])
  start-Keeps malloc c [] k = k
  start-Keeps malloc c (response ∷ more) k =
      let c' : DemoConnection = record c { output_list = more; active_response = some response } in
      rw (democonnection_write-stops malloc c' response k.0) tt

  run_write_start-Keeps :
      (malloc : Malloc) (c : DemoConnection) → Kept rest c → Keeps rest (run_write_start malloc c)
  unfolding run_write_start
  run_write_start-Keeps malloc c k =
      elim c.active_response
        as (λ o. Keeps rest (elim o [
          | some response ↦ ok c
          | none ↦ elim c.output_list [
            | [] ↦ ok c
            | response ∷ more ↦
                democonnection_write malloc
                  (record c { output_list = more; active_response = some response }) response
          ]
        ])) [ some response ↦ k | none ↦ start-Keeps malloc c c.output_list k ]

pub run_writer-stops :
    (o : DemoSend) (c : DemoConnection)
    → c.write_state ≡ write_active
    → run_writer o c ≡ fault assert_failed
unfolding run_writer
run_writer-stops o c e = ground arith

pub run_postable-Keeps :
    (malloc : Malloc) (input : DemoInput) (f : DemoPostable) (rest : List DemoPostable)
    (c : DemoConnection)
    → Kept rest c
    → Keeps rest (run_postable malloc input f c)
unfolding run_postable
run_postable-Keeps malloc input postable_reader rest c k =
    run_reader-Keeps rest malloc input.recv c k
run_postable-Keeps malloc input postable_writer rest c k = rw (run_writer-stops input.send c k.0) tt
run_postable-Keeps malloc input postable_write_call_cb rest c k =
    bind-Keeps rest (check c.on_write_cb) _
      λ _. (if-Keeps rest c.on_write_cb _ _ (on_write_complete_cb-Keeps rest c k) tt)
run_postable-Keeps malloc input postable_cleanup rest c k = k
run_postable-Keeps malloc input postable_write_start rest c k =
    run_write_start-Keeps rest malloc c k
run_postable-Keeps malloc input postable_read_start rest c k = democonnection_read-Keeps rest c k
