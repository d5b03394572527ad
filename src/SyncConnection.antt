-- ===== src/SyncConnection.antt =====
-- http_in_c/sync/sync_connection.c: the blocking connection of the synchronous server and client, which
-- queues the messages that its parser completes. What `read` and llhttp come to is an input: a list of
-- results, one for each call. The list of messages is the sequence that http_in_c/common/list.c keeps.
-- The socket stays open, logging and freeing are left out, and `sync_connection_read_request`, which
-- does nothing, too.
pub mod Read
mod Tests
use c_http.Prelude.{
  ℕ, zero, suc, List, [], ◌∷◌, ◌++◌, Option, none, some, Run, ok, fault, assert_failed, ◌>>=◌, ◌>>◌,
  check, Bool, true, false, not, ◌==◌, ◌&&◌, ◌||◌, if◌then◌else◌, ltb, length,
}
use c_http.Message.{Malloc, Message}
use c_http.HttpParser.{HttpParser}
use c_http.HttpParser.Feed.{Callback, Handler, feed}

-- `struct sync_connection_s`
pub record SyncConnection : Type 0 where
  pub m_parser : HttpParser
  pub input_list : List Message
  pub reader_status : ℕ

-- What `read` comes to: bytes, with the callbacks that llhttp makes of them and its return value when
-- no callback stops it; the end of the input; an error.
pub data ReadResult : Type 0 where
  nread : (callbacks : List Callback) (rc : ℕ) → ReadResult
  end_of_input read_failed : ReadResult

-- HPE_USER of llhttp
abbrev pub hpe_user : ℕ
hpe_user = 24

-- `parser_on_message_handler`, on the list and the status
pub parser_on_message_handler : Handler (List Message × ℕ)
parser_on_message_handler context input_message_ref = ((context.0 ++ input_message_ref ∷ [], 1), 0)

module _ (malloc : Malloc) (garbage : ℕ × ℕ) (stale : Bool) where
  -- `http_parser_consume`: the value of a callback that stops llhttp, else that of llhttp.
  pub http_parser_consume : List Callback → ℕ → SyncConnection → Run (SyncConnection × ℕ)
  http_parser_consume callbacks rc this = do
    (parser, (input_list, reader_status), answer) ←
        feed malloc garbage stale parser_on_message_handler callbacks this.m_parser
          (this.input_list, this.reader_status)
    ok (
      record { m_parser = parser; input_list = input_list; reader_status = reader_status },
      (if answer == 0 then rc else answer),
    )

  -- The value that it returns, the connection, and the results that are left; `none` when a call of
  -- `read` blocks.
  pub sync_connection_read :
      List ReadResult → SyncConnection → Run (Option (ℕ × SyncConnection × List ReadResult))
  sync_connection_read [] this = ok none
  sync_connection_read (nread callbacks rc ∷ reads) this = do
    (this', rc') ← http_parser_consume callbacks rc this
    if not (rc' == 0)
        then ok (some (rc', this', reads))
        else if not (this'.reader_status == 0)
        then (do check (ltb 0 (length this'.input_list)); ok (some (0, this', reads)))
        else sync_connection_read reads this'
  sync_connection_read (end_of_input ∷ reads) this = ok (some (hpe_user, this, reads))
  sync_connection_read (read_failed ∷ reads) this = ok (some (hpe_user, this, reads))

  -- `List_remove_first` at the end of `sync_connection_read_message`
  pub take_message :
      SyncConnection
      → List ReadResult
      → Run (Option (Option Message × SyncConnection × List ReadResult))
  take_message this reads = elim this.input_list [
    | [] ↦ fault assert_failed
    | mref ∷ rest ↦ ok (some (some mref, record this { input_list = rest }, reads))
  ]

  -- The two invariants that are asserted after a read.
  pub after_read :
      ℕ
      → SyncConnection
      → List ReadResult
      → Run (Option (Option Message × SyncConnection × List ReadResult))
  after_read rc this reads = do
    let invariant_gotone = (rc == 0) && (this.reader_status == 1) && ltb 0 (length this.input_list)
    let invariant_goterror =
        not (rc == 0) && (this.reader_status == 0) && not (ltb 0 (length this.input_list))
    check (invariant_gotone || invariant_goterror)
    if invariant_goterror then ok (some (none, this, reads)) else take_message this reads

  -- The message, if there is one, the connection, and the results that are left.
  pub sync_connection_read_message :
      List ReadResult
      → SyncConnection
      → Run (Option (Option Message × SyncConnection × List ReadResult))
  sync_connection_read_message reads this =
      if not (ltb 0 (length this.input_list))
      then (do
        result ← sync_connection_read reads (record this { reader_status = 0 })
        elim result [ none ↦ ok none | some (rc, this', reads') ↦ after_read rc this' reads' ])
      else take_message this reads

  -- As many calls of `sync_connection_read_message`, and the messages that they give.
  pub read_messages :
      ℕ
      → List ReadResult
      → SyncConnection
      → Run (Option (List Message × SyncConnection × List ReadResult))
  read_messages zero reads this = ok (some ([], this, reads))
  read_messages (suc calls) reads this = do
    result ← sync_connection_read_message reads this
    elim result [
      | none ↦ ok none
      | some (none, this', reads') ↦ ok none
      | some (some mref, this', reads') ↦ (do
        more ← read_messages calls reads' this'
        elim more [
          | none ↦ ok none
          | some (mrefs, last, left) ↦ ok (some (mref ∷ mrefs, last, left))
        ])
    ]
