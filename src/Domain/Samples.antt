-- ===== src/Domain/Samples.antt =====
-- Sample tables for concrete runs.
use open_quant_studio.Base.{ℕ, ◌+◌, true, false, none, [], ◌∷◌}
use open_quant_studio.Domain.Journal.{ask, queued, Outside}
use open_quant_studio.Domain.Database.{text_plain, Receipt, Database}

-- The clock and the identifiers of the `n`-th call.
abbrev pub outside : ℕ → Outside
outside n = record {
  now = 1000 + n;
  fresh_event_id = 500 + n;
  fresh_log_id = 600 + n;
  fresh_transition_id = 700 + n;
  has_event_errors = λ event. false;
}

abbrev pub no_rows : Database
no_rows = record {
  journal = record {
    research_projects = [];
    activities = [];
    domain_events = [];
    last_stream_seq = 0;
    outbox = [];
    command_receipts = [];
    diagnostic_logs = [];
  };
  fabric = record {
    agent_sessions = [];
    workbench_bindings = [];
    artifacts = [];
    session_messages = [];
    message_receipts = [];
    message_receipt_transitions = [];
  };
}

-- Session 30 has sent message 50 to session 32, which is bound to workbench 42.
abbrev pub queued_receipt : Receipt
queued_receipt = record {
  message_id = 50;
  project_id = 10;
  activity_id = 20;
  state = queued;
  version = 0;
  updated_at = 1001;
}

abbrev pub queued_rows : Database
queued_rows = record {
  journal = record (no_rows.journal) {
    research_projects = 10 ∷ [];
    activities = record { activity_id = 20; project_id = 10 } ∷ [];
  };
  fabric = record (no_rows.fabric) {
    workbench_bindings =
        record {
          project_id = 10;
          activity_id = 20;
          session_id = 32;
          workbench_id = 42;
          is_active = true;
          updated_at = 1000;
        }
        ∷ [];
    artifacts =
        record {
          artifact_id = 60;
          sha256 = 61;
          media_type = text_plain;
          byte_size = 3;
          storage_uri = 62;
          producing_revision_id = none;
          producing_run_id = none;
          origin_kind = 63;
          source_ref = 64;
        }
        ∷ [];
    session_messages =
        record {
          message_id = 50;
          project_id = 10;
          activity_id = 20;
          sender_session_id = 30;
          recipient_session_id = 32;
          correlation_id = 7;
          message_kind = ask;
          artifact_id = 60;
          reply_to = none;
          source_refs = [];
        }
        ∷ [];
    message_receipts = queued_receipt ∷ [];
  };
}
