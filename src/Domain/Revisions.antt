-- ===== src/Domain/Revisions.antt =====
-- domain.py: `_create_variant` and `_promote_revision`.
pub mod Promote
use open_quant_studio.Domain.RevisionTables.{
  GateOutcome, MergeCandidate, PastHead, ProjectHead, Promotion, PromotionValidation, Revision,
  RevisionCommand, RevisionRequest, Validation, Variant, VariantHead, Workspace, failed,
  in_database, not_run, passed, revision_promote, variant_create,
}
use open_quant_studio.Base.{
  ℕ, ◌+◌, ◌==◌, ◌&&◌, ◌||◌, not, leb, Bool, true, false, Option, none, some, List, [], ◌∷◌, ◌++◌,
  if◌then◌else◌,
}
use open_quant_studio.Domain.Table.{find?, exists?, update, count_rows}
use open_quant_studio.Domain.Outcome.{
  Action, Result, Error, ok, err, revision_conflict, promotion_conflict, integrity_error, gets,
  modify, raise_if, raise, pure, or_raise, ◌>>=◌, ◌>>◌,
}
use open_quant_studio.Domain.Journal.{
  GatePolicy, m3_v1, m5_v1, m8_v1, other_policy, EventType, Payload, Event, Journal, Outside, Draft,
  has_activity, insert_event,
}
use open_quant_studio.Domain.Database.{Session, Database, in_journal}
use open_quant_studio.Domain.Sessions.{validate_workbench}

abbrev pub max_project_variants : ℕ
max_project_variants = 64

abbrev pub is_passed : GateOutcome → Bool
is_passed passed = true
is_passed _ = false

-- `gate_policy_version in {"m3-v1", "m5-v1", "m8-v1"}`
abbrev pub is_accepted_policy : GatePolicy → Bool
is_accepted_policy (other_policy _) = false
is_accepted_policy _ = true

abbrev pub is_revision : ℕ → ℕ → ℕ → Revision → Bool
is_revision revision_id project_id activity_id r =
    r.revision_id == revision_id && r.project_id == project_id && r.activity_id == activity_id

abbrev pub variant_of : ℕ → Variant → Bool
variant_of project_id v = v.project_id == project_id

abbrev pub is_head_of : ℕ → ProjectHead → Bool
is_head_of project_id h = h.project_id == project_id

abbrev pub is_variant_head : ℕ → ℕ → ℕ → VariantHead → Bool
is_variant_head variant_id project_id activity_id h =
    h.variant_id == variant_id && h.project_id == project_id && h.activity_id == activity_id

-- The SELECT of a prior head.
abbrev pub was_head : ℕ → ℕ → PastHead → Bool
was_head project_id head_revision_id r =
    r.project_id == project_id && r.head_revision_id == head_revision_id

-- The ON conditions of `merge_validations`.
abbrev pub is_validation : ℕ → MergeCandidate → Validation → Bool
is_validation validation_id merge v =
    v.validation_id == validation_id
    && v.candidate_revision_id == merge.candidate_revision_id
    && v.project_id == merge.project_id
    && v.activity_id == merge.activity_id
    && v.variant_id == merge.variant_id

-- A row of the SELECT of `_promote_revision`.
pub record Candidate : Type 0 where
  pub merge : MergeCandidate
  pub revision : Revision
  pub validation : Validation
  pub project_head : ProjectHead
  pub variant_head : VariantHead

-- Every table is joined on its key, so there is one row at most; none is a PromotionConflict.
unfoldable pub select_candidate : ℕ → ℕ → Action Workspace Candidate
select_candidate validation_id candidate_revision_id = do
  w ← gets (λ w. w)
  merge ←
      or_raise
        (find? (λ (m : MergeCandidate). m.candidate_revision_id == candidate_revision_id)
          w.workspace_merge_candidates)
        promotion_conflict
  revision ←
      or_raise
        (find? (is_revision merge.candidate_revision_id merge.project_id merge.activity_id)
          w.workspace_revisions)
        promotion_conflict
  validation ←
      or_raise (find? (is_validation validation_id merge) w.merge_validations) promotion_conflict
  project_head ←
      or_raise (find? (is_head_of merge.project_id) w.project_revision_heads) promotion_conflict
  variant_head ←
      or_raise
        (find? (is_variant_head merge.variant_id merge.project_id merge.activity_id)
          w.strategy_variant_heads)
        promotion_conflict
  pure (record {
    merge = merge;
    revision = revision;
    validation = validation;
    project_head = project_head;
    variant_head = variant_head;
  })

-- What `_promote_revision` returns beside the event.
pub record HeadMove : Type 0 where
  pub previous_revision_id : ℕ
  pub promoted_revision_id : ℕ
  pub previous_head_version : ℕ
  pub resulting_head_version : ℕ

module _ (o : Outside) (command : RevisionCommand) where
  revision_draft : EventType → Payload → Draft
  revision_draft event_type payload = record {
    event_type = event_type;
    project_id = command.project_id;
    activity_id = command.activity_id;
    session_id = some command.session_id;
    workbench_id = some command.workbench_id;
    correlation_id = command.correlation_id;
    causation_id = command.command_id;
    variant_id = some command.variant_id;
    base_revision_id = some command.base_revision_id;
    payload = payload;
  }

  -- INSERT INTO strategy_variants and strategy_variant_heads: their keys and the session's.
  insert_variant : Action Workspace (Unit {0})
  insert_variant = do
    w ← gets (λ w. w)
    raise_if
        (exists? (λ (v : Variant). v.variant_id == command.variant_id) w.strategy_variants
          || not (has_activity command.activity_id command.project_id w.database.journal)
          || not (
              exists?
                (λ (r : Session).
                  r.session_id == command.session_id
                  && r.project_id == command.project_id
                  && r.activity_id == command.activity_id)
                w.database.fabric.agent_sessions))
        integrity_error
    raise_if
        (exists? (λ (h : VariantHead). h.variant_id == command.variant_id) w.strategy_variant_heads)
        integrity_error
    modify (λ w. record w {
      strategy_variants =
          w.strategy_variants
          ++ record {
            variant_id = command.variant_id;
            project_id = command.project_id;
            activity_id = command.activity_id;
            base_revision_id = command.base_revision_id;
            created_by_session_id = command.session_id;
          }
            ∷ [];
      strategy_variant_heads =
          w.strategy_variant_heads
          ++ record {
            variant_id = command.variant_id;
            project_id = command.project_id;
            activity_id = command.activity_id;
            head_revision_id = command.base_revision_id;
            version = 0;
            updated_at = o.now;
          }
            ∷ [];
    })

  unfoldable pub create_variant : Action Workspace Event
  unfolding revision_draft insert_variant
  create_variant = do
    in_database (
        validate_workbench command.project_id command.activity_id command.session_id
          command.workbench_id)
    w ← gets (λ w. w)
    raise_if
        (not (
          exists? (is_revision command.base_revision_id command.project_id command.activity_id)
            w.workspace_revisions))
        revision_conflict
    raise_if
        (leb max_project_variants (count_rows (variant_of command.project_id) w.strategy_variants))
        revision_conflict
    insert_variant
    in_database (
        in_journal (
          insert_event o (
            revision_draft EventType.strategy_variant_created
              (Payload.variant_created command.variant_id command.base_revision_id))))

  -- The compare-and-set UPDATE of the project's head and the test of its rowcount.
  abbrev pub is_old_head : Candidate → ProjectHead → Bool
  is_old_head candidate h =
      h.project_id == command.project_id
      && h.head_revision_id == command.expected_revision_id
      && h.version == candidate.project_head.version

  abbrev pub moved_head : ℕ → ProjectHead → ProjectHead
  moved_head candidate_revision_id h = record h {
    head_revision_id = candidate_revision_id;
    version = h.version + 1;
    updated_at = o.now;
  }

  move_project_head : ℕ → Candidate → Action Workspace (Unit {0})
  move_project_head candidate_revision_id candidate = do
    w ← gets (λ w. w)
    modify (λ w. record w {
      project_revision_heads =
          update (is_old_head candidate) (moved_head candidate_revision_id)
            w.project_revision_heads;
    })
    raise_if (not (count_rows (is_old_head candidate) w.project_revision_heads == 1))
        promotion_conflict

  abbrev pub is_old_variant_head : Candidate → VariantHead → Bool
  is_old_variant_head candidate h =
      is_variant_head command.variant_id command.project_id command.activity_id h
      && h.head_revision_id == candidate.merge.variant_parent_revision_id
      && h.version == candidate.variant_head.version

  abbrev pub moved_variant_head : ℕ → VariantHead → VariantHead
  moved_variant_head candidate_revision_id h = record h {
    head_revision_id = candidate_revision_id;
    version = h.version + 1;
    updated_at = o.now;
  }

  move_variant_head : ℕ → Candidate → Action Workspace (Unit {0})
  move_variant_head candidate_revision_id candidate = do
    w ← gets (λ w. w)
    modify (λ w. record w {
      strategy_variant_heads =
          update (is_old_variant_head candidate) (moved_variant_head candidate_revision_id)
            w.strategy_variant_heads;
    })
    raise_if (not (count_rows (is_old_variant_head candidate) w.strategy_variant_heads == 1))
        promotion_conflict

  -- The three tests of the candidate, in their order.
  unfoldable pub check_candidate : Candidate → Action Workspace (Unit {0})
  check_candidate candidate = do
    let merge = candidate.merge
    raise_if
        (not (merge.project_id == command.project_id)
          || not (merge.activity_id == command.activity_id)
          || not (merge.variant_id == command.variant_id)
          || not (is_passed candidate.validation.outcome)
          || not (is_accepted_policy candidate.validation.gate_policy_version))
        promotion_conflict
    raise_if
        (not (merge.project_parent_revision_id == command.expected_revision_id)
          || not (candidate.project_head.head_revision_id == merge.project_parent_revision_id)
          || not (candidate.project_head.version == merge.expected_project_head_version))
        promotion_conflict
    raise_if
        (not (candidate.variant_head.head_revision_id == merge.variant_parent_revision_id)
          || not (candidate.variant_head.version == merge.expected_variant_head_version))
        promotion_conflict

  -- The rest of `_promote_revision`, once the candidate has been checked.
  unfoldable pub promote_candidate : ℕ → ℕ → Candidate → Action Workspace (Event × HeadMove)
  unfolding revision_draft move_project_head move_variant_head
  promote_candidate candidate_revision_id validation_id candidate = do
    w ← gets (λ w. w)
    raise_if
        (exists? (was_head command.project_id candidate_revision_id)
          w.project_revision_head_history)
        promotion_conflict
    move_project_head candidate_revision_id candidate
    move_variant_head candidate_revision_id candidate
    event ← in_database (
        in_journal (
          insert_event o (
            revision_draft EventType.workspace_revision_promoted (
              Payload.promoted command.variant_id command.expected_revision_id candidate_revision_id
                validation_id candidate.revision.git_commit_oid candidate.revision.git_tree_oid))))
    pure (
      event,
      record {
        previous_revision_id = command.expected_revision_id;
        promoted_revision_id = candidate_revision_id;
        previous_head_version = candidate.project_head.version;
        resulting_head_version = candidate.project_head.version + 1;
      },
    )

  unfoldable pub promote_revision : ℕ → ℕ → Action Workspace (Event × HeadMove)
  promote_revision candidate_revision_id validation_id = do
    in_database (
        validate_workbench command.project_id command.activity_id command.session_id
          command.workbench_id)
    raise_if (candidate_revision_id == command.expected_revision_id) promotion_conflict
    candidate ← select_candidate validation_id candidate_revision_id
    check_candidate candidate
    promote_candidate candidate_revision_id validation_id candidate
