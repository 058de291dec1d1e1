-- ===== src/Domain/Lifecycle.antt =====
-- domain.py: `_cancel_formal_run` and `_retry_formal_run`. Of the tables' constraints the keys are
-- modelled; the foreign keys of a new row repeat those of the row that it is made from.
pub mod Cancelled
pub mod Retried
pub mod Active
pub mod Replayed
pub mod Tests
use open_quant_studio.Base.{
  ℕ, ◌+◌, ◌==◌, ◌&&◌, ◌||◌, not, Bool, true, false, Option, none, some, List, [], ◌∷◌, ◌++◌,
  if◌then◌else◌,
}
use open_quant_studio.Domain.Table.{find?, exists?, update, count_rows}
use open_quant_studio.Domain.Outcome.{
  Action, Result, Error, ok, err, formal_run_lifecycle_conflict, integrity_error, gets, modify,
  raise_if, raise, pure, or_raise, ◌>>=◌, ◌>>◌,
}
use open_quant_studio.Domain.Journal.{
  GatePolicy, EventType, Payload, Event, CommandReceipt, Journal, Outside, info, Draft,
  insert_event, insert_outbox, insert_receipt, insert_log,
}
use open_quant_studio.Domain.Database.{Database, in_journal}
use open_quant_studio.Domain.Sessions.{validate_workbench}
use open_quant_studio.Domain.Submit.{
  Response, accepted, Answer, returns, raises, replay, of_command,
}
use open_quant_studio.Domain.RevisionTables.{GateOutcome, not_run}
use open_quant_studio.Domain.JobTables.{
  FormalRun, Job, JobType, formal_run, verify_sha256, Queue, RunSpec, Status, cancelled, failed,
  pending, running, in_database,
}
use open_quant_studio.Domain.Jobs.{status_eq, has_id}
pub use open_quant_studio.Domain.RunTables.{
  Run, RunValidation, Runs, in_queue, LifecycleRequest, LifecycleCommand, RunJob, run_of, has_run,
  has_spec, with_job, has_validation, is_active_of, run_cancel, run_retry,
}

module _ (o : Outside) (command : LifecycleCommand) where
  abbrev validate : Action Runs (Unit {0})
  validate = in_queue (
      in_database (
        validate_workbench command.project_id command.activity_id command.session_id
          command.workbench_id))

  -- The WHERE clause of the SELECT of a job by its run.
  abbrev pub is_job_of : ℕ → Job → Bool
  is_job_of run_id j =
      has_run run_id (run_of j)
      && j.project_id == command.project_id
      && j.activity_id == command.activity_id

  abbrev pub selected : ℕ → Queue → Option RunJob
  selected run_id q = with_job q.run_specs (find? (is_job_of run_id) q.jobs)

  abbrev pub is_stale_run : Status → ℕ → RunJob → Bool
  is_stale_run expected_status expected_version row =
      not (row.spec.variant_id == command.variant_id)
      || not (row.run.candidate_revision_id == command.base_revision_id)
      || not (status_eq row.job.status expected_status)
      || not (row.job.execution_version == expected_version)

  -- The WHERE clause and the SET clause of the UPDATE.
  abbrev pub is_cancelled : RunJob → Status → ℕ → Job → Bool
  is_cancelled row expected_status expected_version j =
      has_id row.job.job_id j
      && status_eq j.status expected_status
      && j.execution_version == expected_version

  abbrev pub set_cancelled : RunJob → Job → Job
  set_cancelled row j = record j {
    status = cancelled;
    execution_version = row.job.execution_version + 1;
    claim_token = none;
    lease_expires_at = none;
    result = none;
    error_code = none;
    error_message = none;
    finished_at = some o.now;
  }

  unfoldable pub cancel_job : RunJob → Status → ℕ → Action Runs (Unit {0})
  cancel_job row expected_status expected_version = do
    r ← gets (λ r. r)
    modify (λ r. record r {
      queue = record r.queue {
        jobs =
            update (is_cancelled row expected_status expected_version) (set_cancelled row)
              r.queue.jobs;
      };
    })
    raise_if
        (not (count_rows (is_cancelled row expected_status expected_version) r.queue.jobs == 1))
        formal_run_lifecycle_conflict

  abbrev pub cancelled_run : RunJob → Run
  cancelled_run row = record {
    run_id = row.run.run_id;
    run_spec_id = row.run.run_spec_id;
    project_id = row.job.project_id;
    activity_id = row.job.activity_id;
    variant_id = row.spec.variant_id;
    candidate_revision_id = row.run.candidate_revision_id;
    status = cancelled;
    execution_version = row.job.execution_version + 1;
    retry_of_run_id = row.run.retry_of_run_id;
    finished_at = o.now;
  }

  abbrev pub skipped : RunJob → RunValidation
  skipped row = record {
    validation_id = row.run.validation_id;
    project_id = row.job.project_id;
    activity_id = row.job.activity_id;
    variant_id = row.spec.variant_id;
    candidate_revision_id = row.run.candidate_revision_id;
    run_id = row.run.run_id;
    gate_policy_version = row.spec.gate_policy_version;
    engine_version = row.spec.engine_version;
    contract_outcome = not_run;
    strategy_import_outcome = not_run;
    smoke_run_outcome = not_run;
    outcome = not_run;
    manifest_artifact_id = none;
    created_at = o.now;
  }

  -- INSERT INTO formal_runs, by its key.
  unfoldable pub insert_run : Run → Action Runs (Unit {0})
  insert_run run = do
    r ← gets (λ r. r)
    raise_if (exists? (λ (x : Run). x.run_id == run.run_id) r.formal_runs) integrity_error
    modify (λ r. record r { formal_runs = r.formal_runs ++ run ∷ [] })

  -- INSERT INTO merge_validations, by its two keys.
  unfoldable pub insert_validation : RunValidation → Action Runs (Unit {0})
  insert_validation v = do
    r ← gets (λ r. r)
    raise_if
        (exists? (λ (x : RunValidation). x.validation_id == v.validation_id || x.run_id == v.run_id)
          r.merge_validations)
        integrity_error
    modify (λ r. record r { merge_validations = r.merge_validations ++ v ∷ [] })

  abbrev pub lifecycle_draft : EventType → ℕ → ℕ → ℕ → ℕ → Payload → Draft
  lifecycle_draft event_type project_id activity_id variant_id base_revision_id payload = record {
    event_type = event_type;
    project_id = project_id;
    activity_id = activity_id;
    session_id = some command.session_id;
    workbench_id = some command.workbench_id;
    correlation_id = command.correlation_id;
    causation_id = command.command_id;
    variant_id = some variant_id;
    base_revision_id = some base_revision_id;
    payload = payload;
  }

  abbrev pub cancelled_draft : RunJob → Draft
  cancelled_draft row =
      lifecycle_draft EventType.formal_run_cancelled row.job.project_id row.job.activity_id
        row.spec.variant_id row.run.candidate_revision_id
        (Payload.run_cancelled (record {
          lifecycle_version = row.spec.gate_policy_version;
          job_id = row.job.job_id;
          run_spec_id = row.run.run_spec_id;
          run_id = row.run.run_id;
          validation_id = row.run.validation_id;
          candidate_revision_id = row.run.candidate_revision_id;
          run_spec_hash = row.spec.spec_hash;
          execution_version = row.job.execution_version + 1;
        }))

  -- The event with its row of the outbox and the command's receipt.
  unfoldable pub publish_run : ℕ → Draft → Action Runs Event
  publish_run command_hash draft = do
    event ← in_queue (in_database (in_journal (insert_event o draft)))
    in_queue (in_database (in_journal (insert_outbox o event)))
    in_queue (in_database (in_journal (insert_receipt o command.command_id command_hash event)))
    pure event

  unfoldable pub log_run : ℕ → ℕ → ℕ → Action Runs (Unit {0})
  log_run project_id activity_id job_id = in_queue (
      in_database (
        in_journal (
          insert_log o info project_id activity_id (some command.session_id) (some job_id)
            command.correlation_id)))

  -- After the SELECT.
  unfoldable pub cancel_row : ℕ → Status → ℕ → RunJob → Action Runs Response
  cancel_row command_hash expected_status expected_version row = do
    raise_if (is_stale_run expected_status expected_version row) formal_run_lifecycle_conflict
    cancel_job row expected_status expected_version
    insert_run (cancelled_run row)
    insert_validation (skipped row)
    event ← publish_run command_hash (cancelled_draft row)
    log_run row.job.project_id row.job.activity_id row.job.job_id
    pure (record { command_id = command.command_id; disposition = accepted; event = event })

  unfoldable pub cancel_formal_run : ℕ → ℕ → Status → ℕ → Action Runs Response
  cancel_formal_run command_hash run_id expected_status expected_version = do
    validate
    r ← gets (λ r. r)
    row ← or_raise (selected run_id r.queue) formal_run_lifecycle_conflict
    cancel_row command_hash expected_status expected_version row

  -- The SELECT of a run that is on record, with its job and its spec.
  abbrev pub is_run_of : ℕ → Run → Bool
  is_run_of run_id r =
      r.run_id == run_id
      && r.project_id == command.project_id
      && r.activity_id == command.activity_id

  abbrev pub is_stale_source : ℕ → Run → Bool
  is_stale_source source_execution_version source =
      not (status_eq source.status failed || status_eq source.status cancelled)
      || not (source.execution_version == source_execution_version)
      || not (source.variant_id == command.variant_id)
      || not (source.candidate_revision_id == command.base_revision_id)

  -- `uuid5` is the identifier of the new job, made from the command's.
  abbrev pub retried_job : ℕ → ℕ → ℕ → Run → Job → Job
  retried_job uuid5 run_id validation_id source job = record {
    job_id = uuid5;
    job_type = formal_run (record {
      run_spec_id = source.run_spec_id;
      run_id = run_id;
      validation_id = validation_id;
      candidate_revision_id = source.candidate_revision_id;
      retry_of_run_id = some source.run_id;
    });
    project_id = source.project_id;
    activity_id = source.activity_id;
    session_id = some command.session_id;
    workbench_id = some command.workbench_id;
    correlation_id = command.correlation_id;
    artifact_id = job.artifact_id;
    status = pending;
    attempts = 0;
    execution_version = 0;
    claim_epoch = 0;
    claim_token = none;
    lease_expires_at = none;
    checkpoint = none;
    result = none;
    error_code = none;
    error_message = none;
    created_at = o.now;
    started_at = none;
    finished_at = none;
  }

  -- INSERT INTO jobs, with its key and the unique indexes on the run, the validation and the active
  -- candidate of a formal run. Its `command_id` is unique with the receipt.
  unfoldable pub insert_job : ℕ → ℕ → ℕ → Job → Action Runs (Unit {0})
  insert_job run_id validation_id candidate_revision_id job = do
    r ← gets (λ r. r)
    raise_if
        (exists?
          (λ (j : Job).
            j.job_id == job.job_id
            || has_run run_id (run_of j)
            || has_validation validation_id (run_of j)
            || is_active_of candidate_revision_id j)
          r.queue.jobs)
        integrity_error
    modify (λ r. record r { queue = record r.queue { jobs = r.queue.jobs ++ job ∷ [] } })

  abbrev pub retried_draft : ℕ → ℕ → ℕ → Run → RunSpec → Draft
  retried_draft uuid5 run_id validation_id source spec =
      lifecycle_draft EventType.formal_run_retried source.project_id source.activity_id
        source.variant_id source.candidate_revision_id
        (Payload.run_retried (record {
          lifecycle_version = spec.gate_policy_version;
          job_id = uuid5;
          run_spec_id = source.run_spec_id;
          run_id = run_id;
          validation_id = validation_id;
          candidate_revision_id = source.candidate_revision_id;
          run_spec_hash = spec.spec_hash;
          source_run_id = source.run_id;
        }))

  -- After the SELECT.
  unfoldable pub retry_row : ℕ → ℕ → ℕ → ℕ → ℕ → Run → Job → RunSpec → Action Runs Response
  retry_row uuid5 command_hash source_execution_version run_id validation_id source job spec = do
    raise_if (is_stale_source source_execution_version source) formal_run_lifecycle_conflict
    event ← publish_run command_hash (retried_draft uuid5 run_id validation_id source spec)
    insert_job run_id validation_id source.candidate_revision_id
        (retried_job uuid5 run_id validation_id source job)
    log_run source.project_id source.activity_id uuid5
    pure (record { command_id = command.command_id; disposition = accepted; event = event })

  abbrev pub is_job_with : ℕ → Job → Bool
  is_job_with run_id j = has_run run_id (run_of j)

  unfoldable pub retry_formal_run : ℕ → ℕ → ℕ → ℕ → ℕ → ℕ → Action Runs Response
  retry_formal_run uuid5 command_hash source_run_id source_execution_version run_id validation_id =
      do
        validate
        r ← gets (λ r. r)
        source ←
            or_raise (find? (is_run_of source_run_id) r.formal_runs) formal_run_lifecycle_conflict
        job ←
            or_raise (find? (is_job_with source_run_id) r.queue.jobs) formal_run_lifecycle_conflict
        spec ←
            or_raise (find? (has_spec source.run_spec_id) r.queue.run_specs)
              formal_run_lifecycle_conflict
        retry_row uuid5 command_hash source_execution_version run_id validation_id source job spec

-- COMMIT, or a ROLLBACK that leaves the tables as they were.
abbrev pub commit_run : Runs → Result (Response × Runs) → Answer × Runs
commit_run r (ok (response, r')) = (returns response, r')
commit_run r (err e) = (raises e, r)

module _ (uuid5 : ℕ → ℕ) (hash : LifecycleCommand → ℕ) (o : Outside) (command : LifecycleCommand)
    (r : Runs) where
  abbrev pub perform_run : LifecycleRequest → Action Runs Response
  perform_run (run_cancel run_id expected_status expected_version) =
      cancel_formal_run o command (hash command) run_id expected_status expected_version
  perform_run (run_retry source_run_id source_execution_version run_id validation_id) =
      retry_formal_run o command (uuid5 command.command_id) (hash command) source_run_id
        source_execution_version run_id validation_id

  unfoldable pub answer_run : Option CommandReceipt → Answer × Runs
  answer_run (some existing) = (replay (hash command) existing, r)
  answer_run none = commit_run r (perform_run command.request r)

  -- The start of both functions: a command with a receipt is replayed.
  unfoldable pub submit_lifecycle_command : Answer × Runs
  unfolding answer_run
  submit_lifecycle_command =
      answer_run (find? (of_command command.command_id) r.queue.database.journal.command_receipts)
