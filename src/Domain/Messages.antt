-- ===== src/Domain/Messages.antt =====
-- domain.py: `_queue_message` and `_transition_message_receipt`.
pub mod Receipts
pub mod Frames
use open_quant_studio.Domain.Attachments.{
  Blobs, Witness, check_source, is_text_plain, media_eq, not_json, not_object, object, opt_eq,
  register_message_artifact, same_metadata, validate_source_refs,
}
use open_quant_studio.Base.{
  ℕ, ◌+◌, ◌==◌, ◌&&◌, ◌||◌, not, Bool, true, false, Option, none, some, List, [], ◌∷◌, ◌++◌, ltb,
  if◌then◌else◌, length,
}
use open_quant_studio.Domain.Table.{find?, exists?, update, count_rows}
use open_quant_studio.Domain.Outcome.{
  Action, Result, ok, err, contract_violation, domain_conflict, artifact_blob_missing,
  artifact_integrity_mismatch, message_receipt_conflict, message_access_denied, integrity_error,
  type_error, gets, modify, raise_if, raise, pure, or_raise, ◌>>=◌, ◌>>◌,
}
use open_quant_studio.Domain.Journal.{
  Uri, entry_uri_of, EventType, SourceRef, MessageFacts, MessageKind, ReceiptState, queued,
  receiver_received, injected, acknowledged, Event, Payload, Outside, Draft, has_activity,
  insert_event,
}
use open_quant_studio.Domain.Database.{
  MediaType, text_plain, other_media, Session, Artifact, Message, Receipt, Fabric, Database,
  MessagePayload, ReceiptPayload, ReceiptMove, message_receive, message_mark_injected,
  message_acknowledge, Command, in_journal, in_fabric,
}
use open_quant_studio.Domain.Sessions.{uri_eq, session_draft, validate_active_workbench}

abbrev is_ask : MessageKind → Bool
is_ask MessageKind.ask = true
is_ask _ = false

abbrev of_message : ℕ → Message → Bool
of_message message_id m = m.message_id == message_id

-- The checks under `if payload["reply_to"] is not None`.
unfoldable pub check_reply : Command → ℕ → Option ℕ → Action Database (Unit {0})
check_reply command recipient none = pure tt
check_reply command recipient (some reply_to) = do
  db ← gets (λ db. db)
  parent ← or_raise (find? (of_message reply_to) db.fabric.session_messages) domain_conflict
  raise_if
      (not (parent.project_id == command.project_id)
        || not (parent.activity_id == command.activity_id))
      domain_conflict
  raise_if (not (is_ask parent.message_kind)) domain_conflict
  raise_if
      (not (command.session_id == parent.recipient_session_id)
        || not (recipient == parent.sender_session_id))
      domain_conflict
  raise_if (not (command.correlation_id == parent.correlation_id)) domain_conflict

abbrev is_session : ℕ → ℕ → ℕ → Session → Bool
is_session session_id project_id activity_id r =
    r.session_id == session_id && r.project_id == project_id && r.activity_id == activity_id

module _ (o : Outside) (command : Command) where
  -- INSERT INTO session_messages: its key, and the foreign keys of sender and recipient. Those of
  -- the artifact and of `reply_to` name rows that the calls before have found or inserted.
  insert_message : MessagePayload → Action Fabric (Unit {0})
  insert_message payload = do
    f ← gets (λ f. f)
    raise_if
        (exists? (of_message payload.message_id) f.session_messages
          || not (
              exists? (is_session command.session_id command.project_id command.activity_id)
                f.agent_sessions)
          || not (
              exists?
                (is_session payload.recipient_session_id command.project_id command.activity_id)
                f.agent_sessions))
        integrity_error
    modify (λ f. record f {
      session_messages =
          f.session_messages
          ++ record {
            message_id = payload.message_id;
            project_id = command.project_id;
            activity_id = command.activity_id;
            sender_session_id = command.session_id;
            recipient_session_id = payload.recipient_session_id;
            correlation_id = command.correlation_id;
            message_kind = payload.message_kind;
            artifact_id = payload.artifact.artifact_id;
            reply_to = payload.reply_to;
            source_refs = payload.source_refs;
          }
            ∷ [];
    })

  insert_message_receipt : ℕ → Action Fabric (Unit {0})
  insert_message_receipt message_id = do
    f ← gets (λ f. f)
    raise_if (exists? (λ (r : Receipt). r.message_id == message_id) f.message_receipts)
        integrity_error
    modify (λ f. record f {
      message_receipts =
          f.message_receipts
          ++ record {
            message_id = message_id;
            project_id = command.project_id;
            activity_id = command.activity_id;
            state = queued;
            version = 0;
            updated_at = o.now;
          }
            ∷ [];
    })

  queued_facts : MessagePayload → MessageFacts
  queued_facts payload = record {
    message_id = payload.message_id;
    recipient_session_id = payload.recipient_session_id;
    message_kind = payload.message_kind;
    artifact_id = payload.artifact.artifact_id;
    artifact_sha256 = payload.artifact.sha256;
    state = queued;
    receipt_version = 0;
    reply_to = payload.reply_to;
    source_refs = payload.source_refs;
  }

  unfoldable pub queue_message : Blobs → MessagePayload → Action Database Event
  unfolding insert_message insert_message_receipt queued_facts
  queue_message blobs payload = do
    validate_active_workbench command
    validate_source_refs blobs command payload.source_refs
    check_reply command payload.recipient_session_id payload.reply_to
    in_fabric (register_message_artifact blobs payload.artifact)
    in_fabric (insert_message payload)
    in_fabric (insert_message_receipt payload.message_id)
    in_journal (
        insert_event o (
          session_draft command EventType.session_message_queued
            (Payload.message (queued_facts payload))))

abbrev pub required_state : ReceiptMove → ReceiptState
required_state message_receive = queued
required_state message_mark_injected = receiver_received
required_state message_acknowledge = injected

abbrev pub next_state : ReceiptMove → ReceiptState
next_state message_receive = receiver_received
next_state message_mark_injected = injected
next_state message_acknowledge = acknowledged

abbrev event_type_of : ReceiptMove → EventType
event_type_of message_receive = EventType.session_message_receiver_received
event_type_of message_mark_injected = EventType.session_message_injected
event_type_of message_acknowledge = EventType.session_message_acknowledged

abbrev pub state_eq : ReceiptState → ReceiptState → Bool
state_eq queued queued = true
state_eq receiver_received receiver_received = true
state_eq injected injected = true
state_eq acknowledged acknowledged = true
state_eq _ _ = false

-- `message_id = ? AND project_id = ? AND activity_id = ?` over either table.
abbrev pub is_message : ℕ → ℕ → ℕ → Message → Bool
is_message message_id project_id activity_id m =
    m.message_id == message_id && m.project_id == project_id && m.activity_id == activity_id

abbrev pub is_receipt : ℕ → ℕ → ℕ → Receipt → Bool
is_receipt message_id project_id activity_id r =
    r.message_id == message_id && r.project_id == project_id && r.activity_id == activity_id

-- `event["payload"]["state"]`
abbrev pub payload_state : Payload → Option ReceiptState
payload_state (Payload.message facts) = some facts.state
payload_state _ = none

-- The tuple that `_submit_session_command` writes to `message_receipt_transitions`.
pub record Moved : Type 0 where
  pub message_id : ℕ
  pub from_state : ReceiptState
  pub expected_version : ℕ
  pub resulting_version : ℕ

module _ (o : Outside) (command : Command) (move : ReceiptMove) (payload : ReceiptPayload) where
  -- The WHERE clause and the SET clause of the UPDATE.
  abbrev pub is_target : Receipt → Bool
  is_target r =
      is_receipt payload.message_id command.project_id command.activity_id r
      && state_eq r.state (required_state move)
      && r.version == payload.expected_version

  abbrev pub advanced : ℕ → Receipt → Receipt
  advanced resulting_version r = record r {
    state = next_state move;
    version = resulting_version;
    updated_at = o.now;
  }

  -- The compare-and-set UPDATE of `_transition_message_receipt` and the test of its rowcount.
  advance_receipt : ℕ → Action Fabric (Unit {0})
  advance_receipt resulting_version = do
    f ← gets (λ f. f)
    modify (λ f. record f {
      message_receipts = update is_target (advanced resulting_version) f.message_receipts;
    })
    raise_if (not (count_rows is_target f.message_receipts == 1)) message_receipt_conflict

  moved_facts : Message → ℕ → ℕ → MessageFacts
  moved_facts row resulting_version sha256 = record {
    message_id = row.message_id;
    recipient_session_id = row.recipient_session_id;
    message_kind = row.message_kind;
    artifact_id = row.artifact_id;
    artifact_sha256 = sha256;
    state = next_state move;
    receipt_version = resulting_version;
    reply_to = row.reply_to;
    source_refs = row.source_refs;
  }

  -- The join finds the message and its receipt under the same key.
  unfoldable pub transition_message_receipt : Action Database (Event × Moved)
  unfolding advance_receipt moved_facts
  transition_message_receipt = do
    db ← gets (λ db. db)
    row ←
        or_raise
          (find? (is_message payload.message_id command.project_id command.activity_id)
            db.fabric.session_messages)
          message_receipt_conflict
    receipt ←
        or_raise
          (find? (is_receipt payload.message_id command.project_id command.activity_id)
            db.fabric.message_receipts)
          message_receipt_conflict
    validate_active_workbench command
    raise_if (not (row.recipient_session_id == command.session_id)) message_access_denied
    raise_if (not (command.correlation_id == row.correlation_id)) message_receipt_conflict
    raise_if
        (not (state_eq payload.expected_state (required_state move))
          || not (payload.expected_version == receipt.version)
          || not (state_eq receipt.state (required_state move)))
        message_receipt_conflict
    let resulting_version = receipt.version + 1
    in_fabric (advance_receipt resulting_version)
    db ← gets (λ db. db)
    artifact ←
        or_raise (find? (λ (r : Artifact). r.artifact_id == row.artifact_id) db.fabric.artifacts)
          type_error
    event ← in_journal (
        insert_event o (
          session_draft command (event_type_of move)
            (Payload.message (moved_facts row resulting_version artifact.sha256))))
    pure (
      event,
      record {
        message_id = payload.message_id;
        from_state = required_state move;
        expected_version = payload.expected_version;
        resulting_version = resulting_version;
      },
    )
