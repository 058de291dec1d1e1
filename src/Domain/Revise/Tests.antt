-- ===== src/Domain/Revise/Tests.antt =====
-- A concrete promotion: variant 3 of project 10 goes from revision 1 to revision 2.
use open_quant_studio.Base.{arith, ◌+◌, ◌≡◌, refl, false, some, [], ◌∷◌}
use open_quant_studio.Domain.Table.{find?, exists?}
use open_quant_studio.Domain.Outcome.{ok}
use open_quant_studio.Domain.Journal.{m5_v1, Event, EventType, Payload, insert_event}
use open_quant_studio.Domain.Sessions.{validate_workbench}
use open_quant_studio.Domain.Samples.{outside, queued_rows}
use open_quant_studio.Domain.RevisionTables.{Workspace, RevisionCommand, revision_promote, passed}
use open_quant_studio.Domain.Revisions.{
  HeadMove, Candidate, is_head_of, is_variant_head, was_head, select_candidate, check_candidate,
  promote_candidate, promote_revision,
}
use open_quant_studio.Domain.Revisions.Promote.{Checked, IsOnRecord, promote-advances}
use open_quant_studio.Domain.Revise.{submit_revision_command}
use open_quant_studio.Domain.Revise.Graph.{IsGraph, submit_revision-IsGraph}

abbrev merged_rows : Workspace
merged_rows = record {
  database = queued_rows;
  workspace_revisions =
      record {
        revision_id = 1;
        project_id = 10;
        activity_id = 20;
        git_commit_oid = 101;
        git_tree_oid = 111;
      }
      ∷ record {
        revision_id = 2;
        project_id = 10;
        activity_id = 20;
        git_commit_oid = 102;
        git_tree_oid = 112;
      }
      ∷ [];
  strategy_variants =
      record {
        variant_id = 3;
        project_id = 10;
        activity_id = 20;
        base_revision_id = 1;
        created_by_session_id = 32;
      }
      ∷ [];
  strategy_variant_heads =
      record {
        variant_id = 3;
        project_id = 10;
        activity_id = 20;
        head_revision_id = 1;
        version = 0;
        updated_at = 1000;
      }
      ∷ [];
  project_revision_heads =
      record { project_id = 10; head_revision_id = 1; version = 0; updated_at = 1000 } ∷ [];
  project_revision_head_history =
      record {
        project_id = 10;
        head_revision_id = 1;
        head_version = 0;
        command_id = 70;
        event_id = 80;
      }
      ∷ [];
  workspace_merge_candidates =
      record {
        candidate_revision_id = 2;
        project_id = 10;
        activity_id = 20;
        variant_id = 3;
        project_parent_revision_id = 1;
        variant_parent_revision_id = 1;
        expected_project_head_version = 0;
        expected_variant_head_version = 0;
      }
      ∷ [];
  merge_validations =
      record {
        validation_id = 5;
        project_id = 10;
        activity_id = 20;
        variant_id = 3;
        candidate_revision_id = 2;
        outcome = passed;
        gate_policy_version = m5_v1;
      }
      ∷ [];
  revision_promotions = [];
  revision_promotion_validations = [];
}

abbrev promote_command : RevisionCommand
promote_command = record {
  command_id = 71;
  project_id = 10;
  activity_id = 20;
  session_id = 32;
  workbench_id = 42;
  correlation_id = 9;
  variant_id = 3;
  base_revision_id = 1;
  expected_revision_id = 1;
  request = revision_promote 2 5;
}

abbrev promoted_event : Event
promoted_event = record {
  event_id = 501;
  stream_seq = 1;
  event_type = EventType.workspace_revision_promoted;
  project_id = 10;
  activity_id = 20;
  session_id = some 32;
  workbench_id = some 42;
  correlation_id = 9;
  causation_id = 71;
  recorded_at = 1001;
  variant_id = some 3;
  base_revision_id = some 1;
  payload = Payload.promoted 3 1 2 5 102 112;
}

abbrev promotion : HeadMove
promotion = record {
  previous_revision_id = 1;
  promoted_revision_id = 2;
  previous_head_version = 0;
  resulting_head_version = 1;
}

abbrev promoted_rows : Workspace
promoted_rows = record merged_rows {
  database = record queued_rows {
    journal = record (queued_rows.journal) {
      domain_events = promoted_event ∷ [];
      last_stream_seq = 1;
    };
  };
  strategy_variant_heads =
      record {
        variant_id = 3;
        project_id = 10;
        activity_id = 20;
        head_revision_id = 2;
        version = 1;
        updated_at = 1001;
      }
      ∷ [];
  project_revision_heads =
      record { project_id = 10; head_revision_id = 2; version = 1; updated_at = 1001 } ∷ [];
}

promotes :
    promote_revision (outside 1) promote_command 2 5 merged_rows
    ≡ ok ((promoted_event, promotion), promoted_rows)
unfolding promote_revision select_candidate check_candidate promote_candidate validate_workbench
    insert_event
promotes = refl

promote-advances_example :
    (candidate : Candidate) × Checked (outside 1) promote_command candidate
    × IsOnRecord 5 2 merged_rows candidate
    × (find? (is_head_of 10) merged_rows.project_revision_heads ≡ some candidate.project_head)
    × (find? (is_variant_head 3 10 20) merged_rows.strategy_variant_heads
        ≡ some candidate.variant_head)
    × (exists? (was_head 10 2) merged_rows.project_revision_head_history ≡ false)
    × (find? (is_head_of 10) promoted_rows.project_revision_heads
        ≡ some (record (candidate.project_head) {
          head_revision_id = 2;
          version = candidate.project_head.version + 1;
          updated_at = 1001;
        }))
    × (find? (is_variant_head 3 10 20) promoted_rows.strategy_variant_heads
        ≡ some (record (candidate.variant_head) {
          head_revision_id = 2;
          version = candidate.variant_head.version + 1;
          updated_at = 1001;
        }))
promote-advances_example =
    promote-advances (outside 1) promote_command 2 5 merged_rows promoted_rows promoted_event
      promotion promotes

submit_revision-IsGraph_example :
    IsGraph
      (submit_revision_command
        (λ id. id + 900)
        (λ command. command.correlation_id)
        (outside 1)
        promote_command
        merged_rows).1
submit_revision-IsGraph_example =
    submit_revision-IsGraph (λ id. id + 900) (λ command. command.correlation_id) (outside 1)
      promote_command merged_rows (record { recorded = (refl, tt); bounded = λ p. ground arith })
