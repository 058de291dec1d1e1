-- ===== src/Domain/RunTables.antt =====
-- The tables of formal runs in domain.py, and the commands that cancel and retry them.
use open_quant_studio.Base.{ℕ, ◌==◌, ◌&&◌, ◌||◌, Bool, false, Option, none, some, List}
use open_quant_studio.Domain.Table.{find?}
use open_quant_studio.Domain.Outcome.{Action, ok, err}
use open_quant_studio.Domain.Journal.{GatePolicy}
use open_quant_studio.Domain.RevisionTables.{GateOutcome}
use open_quant_studio.Domain.JobTables.{
  FormalRun, Job, formal_run, verify_sha256, Queue, RunSpec, Status, pending, running,
}
use open_quant_studio.Domain.Jobs.{status_eq}

-- A row of `formal_runs`.
pub record Run : Type 0 where
  pub run_id : ℕ
  pub run_spec_id : ℕ
  pub project_id : ℕ
  pub activity_id : ℕ
  pub variant_id : ℕ
  pub candidate_revision_id : ℕ
  pub status : Status
  pub execution_version : ℕ
  pub retry_of_run_id : Option ℕ
  pub finished_at : ℕ

-- A row of `merge_validations`.
pub record RunValidation : Type 0 where
  pub validation_id : ℕ
  pub project_id : ℕ
  pub activity_id : ℕ
  pub variant_id : ℕ
  pub candidate_revision_id : ℕ
  pub run_id : ℕ
  pub gate_policy_version : GatePolicy
  pub engine_version : ℕ
  pub contract_outcome : GateOutcome
  pub strategy_import_outcome : GateOutcome
  pub smoke_run_outcome : GateOutcome
  pub outcome : GateOutcome
  pub manifest_artifact_id : Option ℕ
  pub created_at : ℕ

pub record Runs : Type 0 where
  pub queue : Queue
  pub formal_runs : List Run
  pub merge_validations : List RunValidation

abbrev pub in_queue : {A : Type 0} → Action Queue A → Action Runs A
in_queue m r = elim (m r.queue) [ ok (a, q) ↦ ok (a, record r { queue = q }) | err e ↦ err e ]

-- "formal.run_cancel" and "formal.run_retry"
pub data LifecycleRequest : Type 0 where
  run_cancel :
      (run_id : ℕ) (expected_status : Status) (expected_execution_version : ℕ) → LifecycleRequest
  run_retry : (source_run_id source_execution_version run_id validation_id : ℕ) → LifecycleRequest

pub record LifecycleCommand : Type 0 where
  pub command_id : ℕ
  pub project_id : ℕ
  pub activity_id : ℕ
  pub session_id : ℕ
  pub workbench_id : ℕ
  pub correlation_id : ℕ
  pub variant_id : ℕ
  pub base_revision_id : ℕ
  pub request : LifecycleRequest

-- A row of the JOIN of a formal run's job with its spec.
pub record RunJob : Type 0 where
  pub job : Job
  pub run : FormalRun
  pub spec : RunSpec

abbrev pub run_of : Job → Option FormalRun
run_of j = elim j.job_type [ formal_run run ↦ some run | verify_sha256 ↦ none ]

abbrev pub has_run : ℕ → Option FormalRun → Bool
has_run run_id none = false
has_run run_id (some run) = run.run_id == run_id

abbrev pub has_spec : ℕ → RunSpec → Bool
has_spec run_spec_id s = s.run_spec_id == run_spec_id

abbrev with_spec : Job → FormalRun → Option RunSpec → Option RunJob
with_spec job run none = none
with_spec job run (some spec) = some (record { job = job; run = run; spec = spec })

abbrev with_run : List RunSpec → Job → Option FormalRun → Option RunJob
with_run specs job none = none
with_run specs job (some run) = with_spec job run (find? (has_spec run.run_spec_id) specs)

abbrev pub with_job : List RunSpec → Option Job → Option RunJob
with_job specs none = none
with_job specs (some job) = with_run specs job (run_of job)

abbrev is_of_candidate : ℕ → Option FormalRun → Bool
is_of_candidate candidate_revision_id none = false
is_of_candidate candidate_revision_id (some run) =
    run.candidate_revision_id == candidate_revision_id

abbrev pub has_validation : ℕ → Option FormalRun → Bool
has_validation validation_id none = false
has_validation validation_id (some run) = run.validation_id == validation_id

-- A pending or running job of a candidate.
abbrev pub is_active_of : ℕ → Job → Bool
is_active_of candidate_revision_id j =
    is_of_candidate candidate_revision_id (run_of j)
    && (status_eq j.status pending || status_eq j.status running)
