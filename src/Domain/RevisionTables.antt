-- ===== src/Domain/RevisionTables.antt =====
-- The tables of the graph of revisions in domain.py, and the commands that move its heads.
use open_quant_studio.Base.{ℕ, List}
use open_quant_studio.Domain.Outcome.{Action, ok, err}
use open_quant_studio.Domain.Journal.{GatePolicy}
use open_quant_studio.Domain.Database.{Database}

pub record Revision : Type 0 where
  pub revision_id : ℕ
  pub project_id : ℕ
  pub activity_id : ℕ
  pub git_commit_oid : ℕ
  pub git_tree_oid : ℕ

pub record Variant : Type 0 where
  pub variant_id : ℕ
  pub project_id : ℕ
  pub activity_id : ℕ
  pub base_revision_id : ℕ
  pub created_by_session_id : ℕ

pub record VariantHead : Type 0 where
  pub variant_id : ℕ
  pub project_id : ℕ
  pub activity_id : ℕ
  pub head_revision_id : ℕ
  pub version : ℕ
  pub updated_at : ℕ

pub record ProjectHead : Type 0 where
  pub project_id : ℕ
  pub head_revision_id : ℕ
  pub version : ℕ
  pub updated_at : ℕ

-- A row of `project_revision_head_history`.
pub record PastHead : Type 0 where
  pub project_id : ℕ
  pub head_revision_id : ℕ
  pub head_version : ℕ
  pub command_id : ℕ
  pub event_id : ℕ

pub record MergeCandidate : Type 0 where
  pub candidate_revision_id : ℕ
  pub project_id : ℕ
  pub activity_id : ℕ
  pub variant_id : ℕ
  pub project_parent_revision_id : ℕ
  pub variant_parent_revision_id : ℕ
  pub expected_project_head_version : ℕ
  pub expected_variant_head_version : ℕ

-- "passed", "failed", "not_run"
pub data GateOutcome : Type 0 where
  passed failed not_run : GateOutcome

pub record Validation : Type 0 where
  pub validation_id : ℕ
  pub project_id : ℕ
  pub activity_id : ℕ
  pub variant_id : ℕ
  pub candidate_revision_id : ℕ
  pub outcome : GateOutcome
  pub gate_policy_version : GatePolicy

pub record Promotion : Type 0 where
  pub promotion_id : ℕ
  pub project_id : ℕ
  pub variant_id : ℕ
  pub previous_revision_id : ℕ
  pub promoted_revision_id : ℕ
  pub previous_head_version : ℕ
  pub resulting_head_version : ℕ
  pub command_id : ℕ
  pub event_id : ℕ

-- A row of `revision_promotion_validations`.
pub record PromotionValidation : Type 0 where
  pub promotion_id : ℕ
  pub validation_id : ℕ

pub record Workspace : Type 0 where
  pub database : Database
  pub workspace_revisions : List Revision
  pub strategy_variants : List Variant
  pub strategy_variant_heads : List VariantHead
  pub project_revision_heads : List ProjectHead
  pub project_revision_head_history : List PastHead
  pub workspace_merge_candidates : List MergeCandidate
  pub merge_validations : List Validation
  pub revision_promotions : List Promotion
  pub revision_promotion_validations : List PromotionValidation

abbrev pub in_database : {A : Type 0} → Action Database A → Action Workspace A
in_database m w = elim (m w.database) [
  | ok (a, d) ↦ ok (a, record w { database = d })
  | err e ↦ err e
]

-- "strategy.variant_create" and "workspace.revision_promote"
pub data RevisionRequest : Type 0 where
  variant_create : RevisionRequest
  revision_promote : (candidate_revision_id validation_id : ℕ) → RevisionRequest

pub record RevisionCommand : Type 0 where
  pub command_id : ℕ
  pub project_id : ℕ
  pub activity_id : ℕ
  pub session_id : ℕ
  pub workbench_id : ℕ
  pub correlation_id : ℕ
  pub variant_id : ℕ
  pub base_revision_id : ℕ
  pub expected_revision_id : ℕ
  pub request : RevisionRequest
