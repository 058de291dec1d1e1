-- ===== src/Domain/JobTables.antt =====
-- The tables of the queue of jobs in domain.py. Timestamps are milliseconds.
use open_quant_studio.Base.{ℕ, Option, List}
use open_quant_studio.Domain.Outcome.{Action, ok, err}
use open_quant_studio.Domain.Journal.{GatePolicy, Checkpoint}
use open_quant_studio.Domain.Database.{Database}

pub record FormalRun : Type 0 where
  pub run_spec_id : ℕ
  pub run_id : ℕ
  pub validation_id : ℕ
  pub candidate_revision_id : ℕ
  pub retry_of_run_id : Option ℕ

-- "artifact.verify_sha256" and "formal.run", with the columns that only the latter has.
pub data JobType : Type 0 where
  verify_sha256 : JobType
  formal_run : FormalRun → JobType

pub data Status : Type 0 where
  pending running succeeded failed cancelled : Status

pub record Job : Type 0 where
  pub job_id : ℕ
  pub job_type : JobType
  pub project_id : ℕ
  pub activity_id : ℕ
  pub session_id : Option ℕ
  pub workbench_id : Option ℕ
  pub correlation_id : ℕ
  pub artifact_id : ℕ
  pub status : Status
  pub attempts : ℕ
  pub execution_version : ℕ
  pub claim_epoch : ℕ
  pub claim_token : Option ℕ
  pub lease_expires_at : Option ℕ
  pub checkpoint : Option Checkpoint
  pub result : Option (ℕ × ℕ)
  pub error_code : Option ℕ
  pub error_message : Option ℕ
  pub created_at : ℕ
  pub started_at : Option ℕ
  pub finished_at : Option ℕ

pub record RunSpec : Type 0 where
  pub run_spec_id : ℕ
  pub spec_hash : ℕ
  pub variant_id : ℕ
  pub gate_policy_version : GatePolicy
  pub engine_version : ℕ

pub record Queue : Type 0 where
  pub database : Database
  pub jobs : List Job
  pub run_specs : List RunSpec

abbrev pub in_database : {A : Type 0} → Action Database A → Action Queue A
in_database m q = elim (m q.database) [
  | ok (a, d) ↦ ok (a, record q { database = d })
  | err e ↦ err e
]
