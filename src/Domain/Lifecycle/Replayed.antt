-- ===== src/Domain/Lifecycle/Replayed.antt =====
-- What a command of a formal run does when it comes a second time.
use open_quant_studio.Base.{ℕ, ◌≡◌, inl, inr, none, some, List, [], ◌∷◌, ◌++◌, arith, Option-cases}
use open_quant_studio.Domain.Table.{find?, find?-snoc}
use open_quant_studio.Domain.Outcome.{Result, ok, err}
use open_quant_studio.Domain.Journal.{
  Outside, Event, CommandReceipt, Draft, insert_event, insert_outbox, insert_receipt, insert_log,
}
use open_quant_studio.Domain.Sessions.{validate_workbench}
use open_quant_studio.Domain.Submit.{Response, accepted, replayed, returns, of_command}
use open_quant_studio.Domain.JobTables.{Status, Job, RunSpec}
use open_quant_studio.Domain.Lifecycle.{
  Runs, Run, RunJob, LifecycleCommand, LifecycleRequest, run_cancel, run_retry, selected, is_run_of,
  is_job_with, has_spec, cancel_job, insert_run, insert_validation, insert_job, publish_run,
  log_run, cancel_row, cancel_formal_run, retry_row, retry_formal_run, perform_run, commit_run,
  answer_run, submit_lifecycle_command,
}

abbrev receipts : Runs → List CommandReceipt
receipts r = r.queue.database.journal.command_receipts

abbrev receipt_of : Outside → LifecycleCommand → ℕ → Event → CommandReceipt
receipt_of o command hash event = record {
  command_id = command.command_id;
  command_hash = hash;
  event = event;
  recorded_at = o.now;
}

module _ (o : Outside) (command : LifecycleCommand) where
  -- The receipt of an accepted command is the newest one.
  abbrev IsReceipted : ℕ → Runs → Response → Runs → Type 0
  IsReceipted hash r response r' =
      (response ≡ record {
        command_id = command.command_id;
        disposition = accepted;
        event = response.event;
      })
      × (receipts r' ≡ receipts r ++ receipt_of o command hash response.event ∷ [])

  publish-receipt :
      (hash : ℕ) (draft : Draft) (r r' : Runs) (event : Event)
      → publish_run o command hash draft r ≡ ok (event, r')
      → receipts r' ≡ receipts r ++ receipt_of o command hash event ∷ []
  unfolding publish_run insert_event insert_outbox insert_receipt
  publish-receipt hash draft r r' event h = ground arith

  cancel-receipt :
      (hash : ℕ) (status : Status) (version : ℕ) (row : RunJob) (r r' : Runs) (response : Response)
      → cancel_row o command hash status version row r ≡ ok (response, r')
      → IsReceipted hash r response r'
  unfolding cancel_row cancel_job insert_run insert_validation publish_run log_run insert_event
      insert_outbox insert_receipt insert_log
  cancel-receipt hash status version row r r' response h = ground arith

  retry-receipt :
      (uuid5 hash version run_id validation_id : ℕ) (source : Run) (job : Job) (spec : RunSpec)
      (r r' : Runs) (response : Response)
      → retry_row o command uuid5 hash version run_id validation_id source job spec r
        ≡ ok (response, r')
      → IsReceipted hash r response r'
  unfolding retry_row insert_job publish_run log_run insert_event insert_outbox insert_receipt
      insert_log
  retry-receipt uuid5 hash version run_id validation_id source job spec r r' response h =
      ground arith

module _ (uuid5 : ℕ → ℕ) (hash : LifecycleCommand → ℕ) (o : Outside) (command : LifecycleCommand)
    (r : Runs) where
  perform-receipt :
      (request : LifecycleRequest) (response : Response) (r' : Runs)
      → perform_run uuid5 hash o command r request r ≡ ok (response, r')
      → IsReceipted o command (hash command) r response r'
  unfolding cancel_formal_run retry_formal_run validate_workbench
  perform-receipt (run_cancel run_id status version) response r' h =
      elim (Option-cases (selected o command run_id r.queue)) [
        | inl e ↦ absurd (ground (arith, e))
        | inr (row, e) ↦
            cancel-receipt o command (hash command) status version row r r' response
              (ground (arith, e))
      ]
  perform-receipt (run_retry source_run_id version run_id validation_id) response r' h =
      elim (Option-cases (find? (is_run_of o command source_run_id) r.formal_runs)) [
        | inl e ↦ absurd (ground (arith, e))
        | inr (source, e) ↦
            elim (Option-cases (find? (is_job_with o command source_run_id) r.queue.jobs)) [
              | inl f ↦ absurd (ground (arith, e, f))
              | inr (job, f) ↦
                  elim (Option-cases (find? (has_spec source.run_spec_id) r.queue.run_specs)) [
                    | inl g ↦ absurd (ground (arith, e, f, g))
                    | inr (spec, g) ↦
                        retry-receipt o command (uuid5 command.command_id) (hash command) version
                          run_id validation_id source job spec r r' response
                          (ground (arith, e, f, g))
                  ]
            ]
      ]

  found-again :
      (response : Response) (r' : Runs)
      → find? (of_command command.command_id) (receipts r) ≡ none
      → IsReceipted o command (hash command) r response r'
      → find? (of_command command.command_id) (receipts r')
        ≡ some (receipt_of o command (hash command) response.event)
  found-again response r' fresh (shape, appended) =
      rw appended (find?-snoc (of_command command.command_id) (receipts r) _ fresh (ground arith))

  commit-ok :
      (result : Result (Response × Runs)) (response : Response) (r' : Runs)
      → commit_run r result ≡ (returns response, r')
      → result ≡ ok (response, r')
  commit-ok (ok (a, s)) response r' h = ground arith
  commit-ok (err e) response r' h = absurd (ground arith)

  -- A command that cancels or retries a formal run, that no receipt is on file for and that is
  -- answered, changes nothing when it comes again, whatever the clock: it gets the same event, as
  -- replayed.
  pub lifecycle_again :
      (later : Outside) (response : Response) (r' : Runs)
      → find? (of_command command.command_id) r.queue.database.journal.command_receipts ≡ none
      → submit_lifecycle_command uuid5 hash o command r ≡ (returns response, r')
      → submit_lifecycle_command uuid5 hash later command r' ≡ (
        returns (record {
          command_id = command.command_id;
          disposition = replayed;
          event = response.event;
        }),
        r',
      )
  unfolding submit_lifecycle_command answer_run
  lifecycle_again later response r' fresh h =
      let done =
        commit-ok (perform_run uuid5 hash o command r command.request r) response r'
          (rw fresh at h) in
      let receipted = perform-receipt command.request response r' done in
      rw (found-again response r' fresh receipted) (ground arith)
