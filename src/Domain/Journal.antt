-- ===== src/Domain/Journal.antt =====
-- The append-only part of the database: events, the outbox, command receipts and diagnostic logs,
-- with `_insert_event`, `_insert_outbox` and `_insert_log`. Identifiers, timestamps and texts are
-- only compared, so they are natural numbers.
pub mod Laws
use open_quant_studio.Base.{
  ℕ, ◌+◌, ◌==◌, ◌&&◌, ◌||◌, Bool, true, false, not, Option, none, some, List, [], ◌∷◌, ◌++◌,
  if◌then◌else◌,
}
use open_quant_studio.Domain.Table.{exists?}
use open_quant_studio.Domain.Outcome.{
  Action, Result, ok, event_contract_error, integrity_error, gets, modify, raise_if, pure, ◌>>=◌,
  ◌>>◌,
}

pub data EventType : Type 0 where
  session_registered session_workbench_bound session_message_queued
        session_message_receiver_received session_message_injected session_message_acknowledged
        strategy_variant_created workspace_revision_promoted formal_run_started formal_run_resumed
        formal_run_cancelled formal_run_retried verification_started verification_succeeded
        verification_failed :
      EventType

pub data ReceiptState : Type 0 where
  queued receiver_received injected acknowledged : ReceiptState

-- "send", "ask", "reply"
pub data MessageKind : Type 0 where
  send ask reply : MessageKind

-- A text that is `pi-jsonl://session/{id}`, one that is `pi-jsonl://session/{id}#entry={entry}`, or
-- any other.
pub data Uri : Type 0 where
  session_uri_of : ℕ → Uri
  entry_uri_of : ℕ → ℕ → Uri
  other_text : ℕ → Uri

pub record SourceRef : Type 0 where
  pub session_id : ℕ
  pub entry_id : ℕ
  pub source_uri : Uri
  pub sha256 : ℕ

pub record MessageFacts : Type 0 where
  pub message_id : ℕ
  pub recipient_session_id : ℕ
  pub message_kind : MessageKind
  pub artifact_id : ℕ
  pub artifact_sha256 : ℕ
  pub state : ReceiptState
  pub receipt_version : ℕ
  pub reply_to : Option ℕ
  pub source_refs : List SourceRef

pub data GatePolicy : Type 0 where
  m3_v1 m5_v1 m8_v1 : GatePolicy
  other_policy : ℕ → GatePolicy

-- The columns of a job's checkpoint. Its CHECK has them all, with a `checkpoint_seq` above 0, or
-- none.
pub record Checkpoint : Type 0 where
  pub checkpoint_seq : ℕ
  pub next_bar_index : ℕ
  pub checkpoint_artifact_id : ℕ
  pub calculation_context_sha256 : ℕ

-- What a resumed run adds to its event.
pub record Resumption : Type 0 where
  pub claim_epoch : ℕ
  pub checkpoint : Checkpoint
  pub checkpoint_sha256 : ℕ

-- The payload of `formal.run_started` and `formal.run_resumed`; `lifecycle` is the lifecycle version
-- with the execution version, under the policies that have them.
pub record RunStart : Type 0 where
  pub job_id : ℕ
  pub run_spec_id : ℕ
  pub run_id : ℕ
  pub validation_id : ℕ
  pub candidate_revision_id : ℕ
  pub run_spec_hash : ℕ
  pub lifecycle : Option (GatePolicy × ℕ)
  pub resumption : Option Resumption

-- The payload of `formal.run_cancelled`, less the keys that are constants.
pub record RunCancel : Type 0 where
  pub lifecycle_version : GatePolicy
  pub job_id : ℕ
  pub run_spec_id : ℕ
  pub run_id : ℕ
  pub validation_id : ℕ
  pub candidate_revision_id : ℕ
  pub run_spec_hash : ℕ
  pub execution_version : ℕ

-- The payload of `formal.run_retried`; its execution version is 0.
pub record RunRetry : Type 0 where
  pub lifecycle_version : GatePolicy
  pub job_id : ℕ
  pub run_spec_id : ℕ
  pub run_id : ℕ
  pub validation_id : ℕ
  pub candidate_revision_id : ℕ
  pub run_spec_hash : ℕ
  pub source_run_id : ℕ

pub data Payload : Type 0 where
  registered : (session_id pi_session_id : ℕ) (session_uri : Uri) (workbench_id : ℕ) → Payload
  bound : (session_id workbench_id : ℕ) → Payload
  message : MessageFacts → Payload
  variant_created : (variant_id revision_id : ℕ) → Payload
  promoted :
      (variant_id previous_revision_id promoted_revision_id validation_id git_commit_oid
        git_tree_oid : ℕ)
      → Payload
  verification :
      (artifact_id job_id : ℕ) (result : Option (ℕ × ℕ)) (error_code : Option ℕ) → Payload
  run_started : RunStart → Payload
  run_cancelled : RunCancel → Payload
  run_retried : RunRetry → Payload

pub record Event : Type 0 where
  pub event_id : ℕ
  pub stream_seq : ℕ
  pub event_type : EventType
  pub project_id : ℕ
  pub activity_id : ℕ
  pub session_id : Option ℕ
  pub workbench_id : Option ℕ
  pub correlation_id : ℕ
  pub causation_id : ℕ
  pub recorded_at : ℕ
  pub variant_id : Option ℕ
  pub base_revision_id : Option ℕ
  pub payload : Payload

pub record Activity : Type 0 where
  pub activity_id : ℕ
  pub project_id : ℕ

pub record OutboxRow : Type 0 where
  pub event_id : ℕ
  pub stream_seq : ℕ
  pub recorded_at : ℕ

-- `receipt_json` is the receipt, so its event is kept.
pub record CommandReceipt : Type 0 where
  pub command_id : ℕ
  pub command_hash : ℕ
  pub event : Event
  pub recorded_at : ℕ

pub data Level : Type 0 where
  debug info warn error : Level

pub record Log : Type 0 where
  pub log_id : ℕ
  pub timestamp : ℕ
  pub level : Level
  pub project_id : ℕ
  pub activity_id : ℕ
  pub session_id : Option ℕ
  pub job_id : Option ℕ
  pub correlation_id : ℕ

pub record Journal : Type 0 where
  pub research_projects : List ℕ
  pub activities : List Activity
  pub domain_events : List Event
  pub last_stream_seq : ℕ
  pub outbox : List OutboxRow
  pub command_receipts : List CommandReceipt
  pub diagnostic_logs : List Log

-- What a call takes from outside: the clock, `uuid4`, and the check of an event against its schema.
pub record Outside : Type 0 where
  pub now : ℕ
  pub fresh_event_id : ℕ
  pub fresh_log_id : ℕ
  pub fresh_transition_id : ℕ
  pub has_event_errors : Event → Bool

abbrev pub has_project : ℕ → Journal → Bool
has_project project_id j = exists? (λ p. p == project_id) j.research_projects

-- The row that the foreign key (activity_id, project_id) names.
abbrev pub has_activity : ℕ → ℕ → Journal → Bool
has_activity activity_id project_id j =
    exists? (λ (a : Activity). a.activity_id == activity_id && a.project_id == project_id)
      j.activities

-- The fields that a caller of `_insert_event` gives.
pub record Draft : Type 0 where
  pub event_type : EventType
  pub project_id : ℕ
  pub activity_id : ℕ
  pub session_id : Option ℕ
  pub workbench_id : Option ℕ
  pub correlation_id : ℕ
  pub causation_id : ℕ
  pub variant_id : Option ℕ
  pub base_revision_id : Option ℕ
  pub payload : Payload

abbrev pub event_of : ℕ → ℕ → ℕ → Draft → Event
event_of event_id stream_seq recorded_at d = record {
  event_id = event_id;
  stream_seq = stream_seq;
  event_type = d.event_type;
  project_id = d.project_id;
  activity_id = d.activity_id;
  session_id = d.session_id;
  workbench_id = d.workbench_id;
  correlation_id = d.correlation_id;
  causation_id = d.causation_id;
  recorded_at = recorded_at;
  variant_id = d.variant_id;
  base_revision_id = d.base_revision_id;
  payload = d.payload;
}

module _ (o : Outside) where
  -- `stream_seq` is AUTOINCREMENT. The columns' constraints come before the check of the event.
  unfoldable pub insert_event : Draft → Action Journal Event
  insert_event d = do
    j ← gets (λ j. j)
    raise_if
        (exists? (λ (e : Event). e.event_id == o.fresh_event_id) j.domain_events
          || not (has_project d.project_id j)
          || not (has_activity d.activity_id d.project_id j))
        integrity_error
    let event = event_of o.fresh_event_id (j.last_stream_seq + 1) o.now d
    modify (λ j. record j {
      domain_events = j.domain_events ++ event ∷ [];
      last_stream_seq = event.stream_seq;
    })
    raise_if (o.has_event_errors event) event_contract_error
    pure event

  unfoldable pub insert_outbox : Event → Action Journal (Unit {0})
  insert_outbox event = do
    j ← gets (λ j. j)
    raise_if
        (exists?
          (λ (r : OutboxRow). r.event_id == event.event_id || r.stream_seq == event.stream_seq)
          j.outbox)
        integrity_error
    modify (λ j. record j {
      outbox =
          j.outbox
          ++ record {
            event_id = event.event_id;
            stream_seq = event.stream_seq;
            recorded_at = event.recorded_at;
          }
            ∷ [];
    })

  -- The INSERT INTO command_receipts of each `_submit_…_command`.
  unfoldable pub insert_receipt : ℕ → ℕ → Event → Action Journal (Unit {0})
  insert_receipt command_id command_hash event = do
    j ← gets (λ j. j)
    raise_if
        (exists?
          (λ (r : CommandReceipt). r.command_id == command_id || r.event.event_id == event.event_id)
          j.command_receipts)
        integrity_error
    modify (λ j. record j {
      command_receipts =
          j.command_receipts
          ++ record {
            command_id = command_id;
            command_hash = command_hash;
            event = event;
            recorded_at = o.now;
          }
            ∷ [];
    })

  unfoldable pub insert_log : Level → ℕ → ℕ → Option ℕ → Option ℕ → ℕ → Action Journal (Unit {0})
  insert_log level project_id activity_id session_id job_id correlation_id = do
    j ← gets (λ j. j)
    raise_if (exists? (λ (l : Log). l.log_id == o.fresh_log_id) j.diagnostic_logs) integrity_error
    modify (λ j. record j {
      diagnostic_logs =
          j.diagnostic_logs
          ++ record {
            log_id = o.fresh_log_id;
            timestamp = o.now;
            level = level;
            project_id = project_id;
            activity_id = activity_id;
            session_id = session_id;
            job_id = job_id;
            correlation_id = correlation_id;
          }
            ∷ [];
    })
