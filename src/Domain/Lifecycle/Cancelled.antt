-- ===== src/Domain/Lifecycle/Cancelled.antt =====
-- What the cancellation of a formal run does.
use open_quant_studio.Base.{
  ℕ, ◌+◌, ◌==◌, ◌≡◌, inl, inr, true, none, some, List, [], ◌∷◌, ◌++◌, arith, Option-cases,
}
use open_quant_studio.Domain.Table.{find?, update, count_rows, find?-holds}
use open_quant_studio.Domain.Outcome.{ok}
use open_quant_studio.Domain.Journal.{Outside}
use open_quant_studio.Domain.Sessions.{validate_workbench}
use open_quant_studio.Domain.Submit.{Response}
use open_quant_studio.Domain.JobTables.{Job, Status, Queue, formal_run, RunSpec, cancelled}
use open_quant_studio.Domain.Jobs.{status_eq}
use open_quant_studio.Domain.Lifecycle.{
  Runs, RunJob, LifecycleCommand, selected, is_cancelled, cancelled_run, skipped, is_job_of,
  with_job, has_spec, cancel_job, insert_run, insert_validation, publish_run, log_run, cancel_row,
  cancel_formal_run,
}

pub status_eq→eq : (s t : Status) → status_eq s t ≡ true → s ≡ t
status_eq→eq s t h = ground arith

module _ (o : Outside) (command : LifecycleCommand) where
  -- A row has the status, the version, the variant and the candidate that the command expects.
  abbrev pub IsExpected : Status → ℕ → RunJob → Type 0
  IsExpected status version row =
      (row.job.status ≡ status)
      × (row.job.execution_version ≡ version)
      × (row.spec.variant_id ≡ command.variant_id)
      × (row.run.candidate_revision_id ≡ command.base_revision_id)

  -- A job that is cancelled a version later, with neither claim nor result.
  abbrev pub cancelled_at : ℕ → Job → Job
  cancelled_at version j = record j {
    status = cancelled;
    execution_version = version + 1;
    claim_token = none;
    lease_expires_at = none;
    result = none;
    error_code = none;
    error_message = none;
    finished_at = some o.now;
  }

  -- The one row of the job is cancelled a version later, and its run and its validation are on
  -- record.
  abbrev pub IsCancellation : Status → ℕ → RunJob → Runs → Runs → Type 0
  IsCancellation status version row r r' =
      (count_rows (is_cancelled o command row status version) r.queue.jobs ≡ 1)
      × (r'.queue.jobs
          ≡ update (is_cancelled o command row status version) (cancelled_at version) r.queue.jobs)
      × (r'.formal_runs ≡ r.formal_runs ++ cancelled_run o command row ∷ [])
      × (r'.merge_validations ≡ r.merge_validations ++ skipped o command row ∷ [])

  row-cancels :
      (hash : ℕ) (status : Status) (version : ℕ) (row : RunJob) (r r' : Runs) (response : Response)
      → cancel_row o command hash status version row r ≡ ok (response, r')
      → IsExpected status version row × IsCancellation status version row r r'
  unfolding cancel_row cancel_job insert_run insert_validation publish_run log_run
  row-cancels hash status version row r r' response h =
      ground (arith, status_eq→eq row.job.status status)

  selected_lem :
      (run_id : ℕ) (q : Queue) (row : RunJob)
      → selected o command run_id q ≡ some row
      → (find? (is_job_of o command run_id) q.jobs ≡ some row.job)
        × (row.job.job_type ≡ formal_run row.run)
        × (find? (has_spec row.run.run_spec_id) q.run_specs ≡ some row.spec)
  selected_lem run_id q row h = elim (Option-cases (find? (is_job_of o command run_id) q.jobs)) [
    | inl e ↦ absurd (ground (arith, rw e at h))
    | inr (job, e) ↦ of_job q.run_specs job row (rw e at h) e
  ]
    where
      of_job :
          (specs : List RunSpec) (job : Job) (row : RunJob)
          → with_job specs (some job) ≡ some row
          → find? (is_job_of o command run_id) q.jobs ≡ some job
          → (find? (is_job_of o command run_id) q.jobs ≡ some row.job)
            × (row.job.job_type ≡ formal_run row.run)
            × (find? (has_spec row.run.run_spec_id) specs ≡ some row.spec)
      of_job specs job row h e = ground arith

  -- The row is of the command's run, project and activity, with the spec that the run names.
  abbrev pub IsOfRun : ℕ → RunJob → Runs → Type 0
  IsOfRun run_id row r =
      (row.run.run_id ≡ run_id)
      × (row.job.project_id ≡ command.project_id)
      × (row.job.activity_id ≡ command.activity_id)
      × (find? (λ (s : RunSpec). s.run_spec_id == row.run.run_spec_id) r.queue.run_specs
          ≡ some row.spec)

  of_run :
      (run_id : ℕ) (row : RunJob) (r : Runs)
      → find? (is_job_of o command run_id) r.queue.jobs ≡ some row.job
      → row.job.job_type ≡ formal_run row.run
      → find? (has_spec row.run.run_spec_id) r.queue.run_specs ≡ some row.spec
      → IsOfRun run_id row r
  of_run run_id row r found formal spec =
      let fits = find?-holds (is_job_of o command run_id) r.queue.jobs row.job found in
      (ground (arith, rw formal at fits), ground arith, ground arith, spec)

  pub cancel-cancels :
      (hash run_id : ℕ) (status : Status) (version : ℕ) (r r' : Runs) (response : Response)
      → cancel_formal_run o command hash run_id status version r ≡ ok (response, r')
      → (row : RunJob) × (find? (is_job_of o command run_id) r.queue.jobs ≡ some row.job)
        × (row.job.job_type ≡ formal_run row.run)
        × IsOfRun run_id row r
        × IsExpected status version row
        × IsCancellation status version row r r'
  unfolding cancel_formal_run validate_workbench
  cancel-cancels hash run_id status version r r' response h =
      elim (Option-cases (selected o command run_id r.queue)) [
        | inl e ↦ absurd (ground (arith, e))
        | inr (row, e) ↦
            let (found, formal, spec) = selected_lem run_id r.queue row e in
            let (expected, done) =
              row-cancels hash status version row r r' response (ground (arith, e)) in
            (row, found, formal, of_run run_id row r found formal spec, expected, done)
      ]
