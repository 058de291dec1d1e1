-- ===== src/Domain/Tests.antt =====
-- Concrete runs of session commands.
use open_quant_studio.Base.{arith, ℕ, ◌+◌, ◌≡◌, refl, true, none, some, List, [], ◌∷◌}
use open_quant_studio.Domain.Table.{find?}
use open_quant_studio.Domain.Samples.{outside, no_rows, queued_receipt, queued_rows}
use open_quant_studio.Domain.Outcome.{ok, command_id_conflict}
use open_quant_studio.Domain.Journal.{
  session_uri_of, EventType, Payload, registered, ask, queued, receiver_received, Event,
  insert_event, insert_outbox, insert_receipt, insert_log,
}
use open_quant_studio.Domain.Database.{
  Receipt, Database, ReceiptPayload, message_receive, session_register, session_receipt, Command,
}
use open_quant_studio.Domain.Sessions.{register_session, validate_active_workbench, session_draft}
use open_quant_studio.Domain.Attachments.{Blobs, not_json}
use open_quant_studio.Domain.Messages.{Moved, transition_message_receipt, is_receipt}
use open_quant_studio.Domain.Messages.Receipts.{transition-advances}
use open_quant_studio.Domain.Submit.{
  returns, raises, accepted, dispatch, perform, answer, record_transition, submit_session_command,
}
use open_quant_studio.Domain.Submit.Filed.{Submission, submit_all}
use open_quant_studio.Domain.Submit.ReceiptLaw.{IsLawful}
use open_quant_studio.Domain.Submit.Lawful.{submit-IsLawful}
use open_quant_studio.Domain.Submit.Replay.{IsJournaled, submit-IsJournaled, submit_again}

abbrev blobs : Blobs
blobs = record {
  body = λ sha256. none;
  digest = λ bytes. 0;
  is_utf8 = λ bytes. true;
  read_json = λ bytes. not_json;
}

abbrev hash : Command → ℕ
hash command = command.correlation_id

abbrev register_command : ℕ → Command
register_command correlation_id = record {
  command_id = 1;
  project_id = 10;
  activity_id = 20;
  session_id = 30;
  workbench_id = 40;
  correlation_id = correlation_id;
  request = session_register 31 (session_uri_of 31);
}

abbrev registered_event : Event
registered_event = record {
  event_id = 501;
  stream_seq = 1;
  event_type = EventType.session_registered;
  project_id = 10;
  activity_id = 20;
  session_id = some 30;
  workbench_id = some 40;
  correlation_id = 7;
  causation_id = 1;
  recorded_at = 1001;
  variant_id = none;
  base_revision_id = none;
  payload = registered 30 31 (session_uri_of 31) 40;
}

abbrev registered_rows : Database
registered_rows = (submit_session_command hash blobs (outside 1) (register_command 7) no_rows).1

register_answers : submit_session_command hash blobs (outside 1) (register_command 7) no_rows ≡ (
  returns (record { command_id = 1; disposition = accepted; event = registered_event }),
  registered_rows,
)
unfolding submit_session_command answer perform dispatch register_session session_draft insert_event
    insert_outbox insert_receipt insert_log record_transition
register_answers = refl

-- Another session is registered in between.
abbrev later : List Submission
later =
    record {
      blobs = blobs;
      outside = outside 2;
      command = record (register_command 9) { command_id = 2; session_id = 33 };
    }
    ∷ []

submit_again_example :
    submit_session_command hash blobs
      (outside 3)
      (register_command 8)
      (submit_all hash later registered_rows)
    ≡ (raises command_id_conflict, submit_all hash later registered_rows)
submit_again_example =
    submit_again hash blobs blobs (outside 1) (outside 3) (register_command 7) (register_command 8)
      no_rows registered_rows
      (record { command_id = 1; disposition = accepted; event = registered_event }) later
      register_answers refl

submit-IsJournaled_example :
    IsJournaled
      (submit_session_command hash blobs (outside 1) (register_command 7) no_rows).1.journal
submit-IsJournaled_example =
    submit-IsJournaled hash blobs (outside 1) (register_command 7) no_rows
      (record { delivered = refl; ascending = omega arith })

abbrev receive_payload : ReceiptPayload
receive_payload = record { message_id = 50; expected_state = queued; expected_version = 0 }

abbrev receive_command : Command
receive_command = record {
  command_id = 2;
  project_id = 10;
  activity_id = 20;
  session_id = 32;
  workbench_id = 42;
  correlation_id = 7;
  request = session_receipt message_receive receive_payload;
}

abbrev received_event : Event
received_event = record {
  event_id = 502;
  stream_seq = 1;
  event_type = EventType.session_message_receiver_received;
  project_id = 10;
  activity_id = 20;
  session_id = some 32;
  workbench_id = some 42;
  correlation_id = 7;
  causation_id = 2;
  recorded_at = 1002;
  variant_id = none;
  base_revision_id = none;
  payload = Payload.message (record {
    message_id = 50;
    recipient_session_id = 32;
    message_kind = ask;
    artifact_id = 60;
    artifact_sha256 = 61;
    state = receiver_received;
    receipt_version = 1;
    reply_to = none;
    source_refs = [];
  });
}

abbrev received : Moved
received = record {
  message_id = 50;
  from_state = queued;
  expected_version = 0;
  resulting_version = 1;
}

abbrev received_rows : Database
received_rows = record {
  journal = record (queued_rows.journal) {
    domain_events = received_event ∷ [];
    last_stream_seq = 1;
  };
  fabric = record (queued_rows.fabric) {
    message_receipts =
        record queued_receipt { state = receiver_received; version = 1; updated_at = 1002 } ∷ [];
  };
}

receive_moves :
    transition_message_receipt
      (outside 2)
      receive_command
      message_receive
      receive_payload
      queued_rows
    ≡ ok ((received_event, received), received_rows)
unfolding transition_message_receipt validate_active_workbench session_draft insert_event
receive_moves = refl

transition-advances_example :
    (r : Receipt) × (find? (is_receipt 50 10 20) queued_rows.fabric.message_receipts ≡ some r)
    × (r.state ≡ queued)
    × (r.version ≡ 0)
    × (find? (is_receipt 50 10 20) received_rows.fabric.message_receipts
        ≡ some (record r { state = receiver_received; version = r.version + 1; updated_at = 1002 }))
transition-advances_example =
    transition-advances (outside 2) receive_command message_receive receive_payload queued_rows
      received_event received received_rows receive_moves

submit-IsLawful_example :
    IsLawful (submit_session_command hash blobs (outside 2) receive_command queued_rows).1.fabric
submit-IsLawful_example =
    submit-IsLawful hash blobs (outside 2) receive_command queued_rows
      (record { ranked = (refl, tt); stepped = tt; logged = λ m. ground arith })
