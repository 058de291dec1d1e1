-- ===== src/Domain/Database.antt =====
-- The tables of the Session Fabric, the database, and the commands of sessions. A command has passed
-- `command_errors`, so its payload is that of its type.
use open_quant_studio.Base.{ℕ, Bool, Option, List}
use open_quant_studio.Domain.Outcome.{Action, ok, err}
use open_quant_studio.Domain.Journal.{Journal, Uri, SourceRef, ReceiptState, MessageKind}

-- Texts of few values that a column or a payload holds.
pub data MediaType : Type 0 where
  text_plain : MediaType
  other_media : ℕ → MediaType

pub record Session : Type 0 where
  pub session_id : ℕ
  pub project_id : ℕ
  pub activity_id : ℕ
  pub pi_session_id : ℕ
  pub session_uri : Uri

pub record Binding : Type 0 where
  pub project_id : ℕ
  pub activity_id : ℕ
  pub session_id : ℕ
  pub workbench_id : ℕ
  pub is_active : Bool
  pub updated_at : ℕ

-- `origin_kind` and `source_ref` are the artifact's `provenance`.
pub record Artifact : Type 0 where
  pub artifact_id : ℕ
  pub sha256 : ℕ
  pub media_type : MediaType
  pub byte_size : ℕ
  pub storage_uri : ℕ
  pub producing_revision_id : Option ℕ
  pub producing_run_id : Option ℕ
  pub origin_kind : ℕ
  pub source_ref : ℕ

pub record Message : Type 0 where
  pub message_id : ℕ
  pub project_id : ℕ
  pub activity_id : ℕ
  pub sender_session_id : ℕ
  pub recipient_session_id : ℕ
  pub correlation_id : ℕ
  pub message_kind : MessageKind
  pub artifact_id : ℕ
  pub reply_to : Option ℕ
  pub source_refs : List SourceRef

pub record Receipt : Type 0 where
  pub message_id : ℕ
  pub project_id : ℕ
  pub activity_id : ℕ
  pub state : ReceiptState
  pub version : ℕ
  pub updated_at : ℕ

pub record Transition : Type 0 where
  pub transition_id : ℕ
  pub message_id : ℕ
  pub from_state : ReceiptState
  pub to_state : ReceiptState
  pub expected_version : ℕ
  pub resulting_version : ℕ
  pub command_id : ℕ
  pub event_id : ℕ

pub record Fabric : Type 0 where
  pub agent_sessions : List Session
  pub workbench_bindings : List Binding
  pub artifacts : List Artifact
  pub session_messages : List Message
  pub message_receipts : List Receipt
  pub message_receipt_transitions : List Transition

pub record Database : Type 0 where
  pub journal : Journal
  pub fabric : Fabric

abbrev pub in_journal : {A : Type 0} → Action Journal A → Action Database A
in_journal m db = elim (m db.journal) [
  | ok (a, j) ↦ ok (a, record db { journal = j })
  | err e ↦ err e
]

-- A statement on the fabric's tables alone, such as an INSERT or an UPDATE.
abbrev pub in_fabric : {A : Type 0} → Action Fabric A → Action Database A
in_fabric m db = elim (m db.fabric) [ ok (a, f) ↦ ok (a, record db { fabric = f }) | err e ↦ err e ]

pub record MessagePayload : Type 0 where
  pub message_id : ℕ
  pub recipient_session_id : ℕ
  pub message_kind : MessageKind
  pub artifact : Artifact
  pub reply_to : Option ℕ
  pub source_refs : List SourceRef

pub record ReceiptPayload : Type 0 where
  pub message_id : ℕ
  pub expected_state : ReceiptState
  pub expected_version : ℕ

-- "session.message_receive", "session.message_mark_injected", "session.message_acknowledge"
pub data ReceiptMove : Type 0 where
  message_receive message_mark_injected message_acknowledge : ReceiptMove

pub data Request : Type 0 where
  session_register : (pi_session_id : ℕ) (session_uri : Uri) → Request
  session_workbench_bind : (workbench_id : ℕ) → Request
  session_message_send : MessagePayload → Request
  session_message_reply : MessagePayload → Request
  session_receipt : ReceiptMove → ReceiptPayload → Request

pub record Command : Type 0 where
  pub command_id : ℕ
  pub project_id : ℕ
  pub activity_id : ℕ
  pub session_id : ℕ
  pub workbench_id : ℕ
  pub correlation_id : ℕ
  pub request : Request
