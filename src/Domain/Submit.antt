-- ===== src/Domain/Submit.antt =====
-- domain.py: `_submit_session_command`, the transaction around the commands of sessions.
pub mod ReceiptLaw
pub mod Lawful
pub mod Journaled
pub mod Filed
pub mod Replay
use open_quant_studio.Base.{
  ℕ, ◌+◌, ◌==◌, ◌||◌, not, Bool, Option, none, some, List, [], ◌∷◌, ◌++◌, if◌then◌else◌,
}
use open_quant_studio.Domain.Table.{find?, exists?}
use open_quant_studio.Domain.Outcome.{
  Action, Result, Error, ok, err, domain_conflict, command_id_conflict, integrity_error, type_error,
  gets, modify, raise_if, raise, pure, ◌>>=◌, ◌>>◌,
}
use open_quant_studio.Domain.Journal.{
  Event, ReceiptState, CommandReceipt, Journal, Outside, info, insert_outbox, insert_receipt,
  insert_log,
}
use open_quant_studio.Domain.Database.{
  Transition, Fabric, Database, Request, session_register, session_workbench_bind,
  session_message_send, session_message_reply, session_receipt, Command, in_journal, in_fabric,
}
use open_quant_studio.Domain.Sessions.{register_session, bind_workbench}
use open_quant_studio.Domain.Attachments.{Blobs}
use open_quant_studio.Domain.Messages.{
  Moved, payload_state, queue_message, transition_message_receipt,
}

pub data Disposition : Type 0 where
  accepted replayed : Disposition

-- The receipt that a caller gets.
pub record Response : Type 0 where
  pub command_id : ℕ
  pub disposition : Disposition
  pub event : Event

pub data Answer : Type 0 where
  returns : Response → Answer
  raises : Error → Answer

module _ (o : Outside) (command : Command) where
  -- INSERT INTO message_receipt_transitions, with its keys and the CHECK of its versions.
  insert_transition : Event → ReceiptState → Moved → Action Fabric (Unit {0})
  insert_transition event to_state moved = do
    f ← gets (λ f. f)
    raise_if
        (exists?
            (λ (t : Transition).
              t.transition_id == o.fresh_transition_id
              || t.command_id == command.command_id
              || t.event_id == event.event_id)
            f.message_receipt_transitions
          || not (moved.resulting_version == moved.expected_version + 1))
        integrity_error
    modify (λ f. record f {
      message_receipt_transitions =
          f.message_receipt_transitions
          ++ record {
            transition_id = o.fresh_transition_id;
            message_id = moved.message_id;
            from_state = moved.from_state;
            to_state = to_state;
            expected_version = moved.expected_version;
            resulting_version = moved.resulting_version;
            command_id = command.command_id;
            event_id = event.event_id;
          }
            ∷ [];
    })

  -- `if transition is not None:`
  unfoldable pub record_transition : Event → Option Moved → Action Database (Unit {0})
  unfolding insert_transition
  record_transition event none = pure tt
  record_transition event (some moved) = elim (payload_state event.payload) [
    | some to_state ↦ in_fabric (insert_transition event to_state moved)
    | none ↦ raise type_error
  ]

  unfoldable pub dispatch : Blobs → Request → Action Database (Event × Option Moved)
  dispatch blobs (session_register pi_session_id session_uri) = do
    event ← register_session o command pi_session_id session_uri
    pure (event, none)
  dispatch blobs (session_workbench_bind workbench_id) = do
    event ← bind_workbench o command workbench_id
    pure (event, none)
  dispatch blobs (session_message_send payload) = do
    event ← queue_message o command blobs payload
    pure (event, none)
  dispatch blobs (session_message_reply payload) = do
    event ← queue_message o command blobs payload
    pure (event, none)
  dispatch blobs (session_receipt move payload) = do
    (event, moved) ← transition_message_receipt o command move payload
    pure (event, some moved)

  -- The body of the `try`.
  unfoldable pub perform : Blobs → ℕ → Action Database Response
  perform blobs command_hash = do
    (event, moved) ← dispatch blobs command.request
    in_journal (insert_outbox o event)
    in_journal (insert_receipt o command.command_id command_hash event)
    record_transition event moved
    in_journal (
        insert_log o info command.project_id command.activity_id (some command.session_id) none
          command.correlation_id)
    pure (record { command_id = command.command_id; disposition = accepted; event = event })

-- The `except` clauses: an IntegrityError is raised anew as a DomainConflict.
abbrev pub reraised : Error → Error
reraised integrity_error = domain_conflict
reraised e = e

-- COMMIT, or a ROLLBACK that leaves the database as it was. An exception that no clause catches
-- closes the connection, which rolls back too.
abbrev pub commit : Database → Result (Response × Database) → Answer × Database
commit db (ok (response, db')) = (returns response, db')
commit db (err e) = (raises (reraised e), db)

abbrev pub of_command : ℕ → CommandReceipt → Bool
of_command command_id r = r.command_id == command_id

abbrev pub replay : ℕ → CommandReceipt → Answer
replay command_hash existing =
    if existing.command_hash == command_hash
    then returns (record {
      command_id = existing.command_id;
      disposition = replayed;
      event = existing.event;
    })
    else raises command_id_conflict

-- `hash` is the SHA-256 of a command's canonical JSON.
module _ (hash : Command → ℕ) (blobs : Blobs) (o : Outside) (command : Command)
    (db : Database) where
  -- After the SELECT of the command's receipt.
  unfoldable pub answer : Option CommandReceipt → Answer × Database
  answer (some existing) = (replay (hash command) existing, db)
  answer none = commit db (perform o command blobs (hash command) db)

  unfoldable pub submit_session_command : Answer × Database
  unfolding answer
  submit_session_command =
      answer (find? (of_command command.command_id) db.journal.command_receipts)
