-- ===== src/Domain/Verification/Tests.antt =====
-- A concrete verification: the stored bytes of artifact 60 have its digest and its size.
use open_quant_studio.Base.{◌==◌, true, none, some, [], ◌∷◌, if◌then◌else◌}
use open_quant_studio.Domain.Outcome.{ok}
use open_quant_studio.Domain.Attachments.{Blobs, not_json}
use open_quant_studio.Domain.Samples.{outside, queued_rows}
use open_quant_studio.Domain.JobTables.{Queue, Job, verify_sha256, running}
use open_quant_studio.Domain.Jobs.{Claimant}
use open_quant_studio.Domain.Verification.{verify_artifact}

abbrev blobs : Blobs
blobs = record {
  body = λ sha256. if sha256 == 61 then some (1 ∷ 2 ∷ 3 ∷ []) else none;
  digest = λ bytes. 61;
  is_utf8 = λ bytes. true;
  read_json = λ bytes. not_json;
}

abbrev claimant : Claimant
claimant = record { selected_at = 0; updated_at = 0; fresh_claim_token = 0 }

abbrev job : Job
job = record {
  job_id = 1;
  job_type = verify_sha256;
  project_id = 10;
  activity_id = 20;
  session_id = some 30;
  workbench_id = some 40;
  correlation_id = 7;
  artifact_id = 60;
  status = running;
  attempts = 1;
  execution_version = 0;
  claim_epoch = 0;
  claim_token = none;
  lease_expires_at = none;
  checkpoint = none;
  result = none;
  error_code = none;
  error_message = none;
  created_at = 900;
  started_at = some 1000;
  finished_at = none;
}

abbrev busy : Queue
busy = record { database = queued_rows; jobs = job ∷ []; run_specs = [] }

-- The tables after the verification, if it finishes.
abbrev closed : Queue
closed = elim (verify_artifact (outside 1) claimant job blobs busy) [ ok (u, q) ↦ q | _ ↦ busy ]
