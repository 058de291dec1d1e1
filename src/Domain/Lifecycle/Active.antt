-- ===== src/Domain/Lifecycle/Active.antt =====
-- The active formal runs of a candidate, under the commands that cancel and retry a run.
use open_quant_studio.Base.{
  ℕ, ◌+◌, ◌==◌, ◌≤◌, ◌≡◌, refl, inl, inr, Bool, false, Option, none, some, List, [], ◌∷◌, ◌++◌,
  arith, Bool-cases, if◌then◌else◌,
}
use open_quant_studio.Domain.Table.{find?, exists?, update, count_rows}
use open_quant_studio.Domain.Outcome.{Result, ok, err}
use open_quant_studio.Domain.Journal.{Outside, CommandReceipt}
use open_quant_studio.Domain.Submit.{Response, of_command}
use open_quant_studio.Domain.JobTables.{Job, Status}
use open_quant_studio.Domain.Lifecycle.{
  Runs, Run, LifecycleCommand, LifecycleRequest, run_cancel, run_retry, is_active_of, retried_job,
  is_cancelled, retry_formal_run, cancel_formal_run, perform_run, commit_run, answer_run,
  submit_lifecycle_command,
}
use open_quant_studio.Domain.Lifecycle.Cancelled.{cancelled_at, cancel-cancels}
use open_quant_studio.Domain.Lifecycle.Retried.{retry-retries}

abbrev pub IsActiveOnce : Runs → Type 0
IsActiveOnce r =
    (candidate_revision_id : ℕ) → count_rows (is_active_of candidate_revision_id) r.queue.jobs ≤ 1

module _ {ℓ} {R : Type ℓ} where
  count-update :
      (p q : R → Bool) (f : R → R) (t : List R)
      → ((x : R) → p (f x) ≡ false)
      → count_rows p (update q f t) ≤ count_rows p t
  count-update p q f [] gone = omega arith
  count-update p q f (x ∷ t) gone = ground (arith, gone x, count-update p q f t gone)

  count-snoc :
      (p : R → Bool) (t : List R) (x : R)
      → count_rows p (t ++ x ∷ []) ≡ count_rows p t + (if p x then 1 else 0)
  count-snoc p [] x = omega arith
  count-snoc p (y ∷ t) x = omega (arith, count-snoc p t x)

  count-none : (p : R → Bool) (t : List R) → exists? p t ≡ false → count_rows p t ≡ 0
  count-none p [] h = refl
  count-none p (x ∷ t) h = ground (arith, count-none p t)

module _ (o : Outside) (command : LifecycleCommand) where
  set-inactive :
      (version candidate : ℕ) (j : Job)
      → is_active_of candidate (cancelled_at o command version j) ≡ false
  set-inactive version candidate j = ground arith

  cancelled-IsActiveOnce :
      (hash run_id : ℕ) (status : Status) (version : ℕ) (r r' : Runs) (response : Response)
      → cancel_formal_run o command hash run_id status version r ≡ ok (response, r')
      → IsActiveOnce r
      → IsActiveOnce r'
  cancelled-IsActiveOnce hash run_id status version r r' response h once candidate =
      let (row, found, formal, of_run, expected, done) =
        cancel-cancels o command hash run_id status version r r' response h in
      let (one, jobs, runs, validations) = done in
      rw jobs (
        omega (
          arith,
          once candidate,
          count-update (is_active_of candidate) (is_cancelled o command row status version)
              (cancelled_at o command version) r.queue.jobs (set-inactive version candidate),
        ))

  other-inactive :
      (uuid5 run_id validation_id candidate : ℕ) (source : Run) (job : Job)
      → (candidate ≡ source.candidate_revision_id → ⊥)
      → is_active_of candidate (retried_job o command uuid5 run_id validation_id source job) ≡ false
  other-inactive uuid5 run_id validation_id candidate source job other = ground arith

  retried-IsActiveOnce :
      (uuid5 hash source_run_id version run_id validation_id : ℕ) (r r' : Runs)
      (response : Response)
      → retry_formal_run o command uuid5 hash source_run_id version run_id validation_id r
        ≡ ok (response, r')
      → IsActiveOnce r
      → IsActiveOnce r'
  retried-IsActiveOnce uuid5 hash source_run_id version run_id validation_id r r' response h once
        candidate =
      let (source, job, found, has, ready, free, jobs, runs, validations) =
        retry-retries o command uuid5 hash source_run_id version run_id validation_id r r' response
          h in
      let new = retried_job o command uuid5 run_id validation_id source job in
      let split = count-snoc (is_active_of candidate) r.queue.jobs new in
      rw jobs (elim (Bool-cases (candidate == source.candidate_revision_id)) [
        | inl e ↦
            let same : candidate ≡ source.candidate_revision_id = ground arith in
            let zero_active : count_rows (is_active_of candidate) r.queue.jobs ≡ 0 =
              count-none (is_active_of candidate) r.queue.jobs (rw same free) in
            ground (arith, split, zero_active)
        | inr e ↦
            let gone =
              other-inactive uuid5 run_id validation_id candidate source job
                (λ s. ground (arith, s)) in
            ground (arith, split, gone, once candidate)
      ])

module _ (uuid5 : ℕ → ℕ) (hash : LifecycleCommand → ℕ) (o : Outside) (command : LifecycleCommand)
    (r : Runs) where
  perform-IsActiveOnce :
      (request : LifecycleRequest) (response : Response) (r' : Runs)
      → perform_run uuid5 hash o command r request r ≡ ok (response, r')
      → IsActiveOnce r
      → IsActiveOnce r'
  perform-IsActiveOnce (run_cancel run_id status version) response r' h once =
      cancelled-IsActiveOnce o command (hash command) run_id status version r r' response h once
  perform-IsActiveOnce (run_retry source_run_id version run_id validation_id) response r' h once =
      retried-IsActiveOnce o command (uuid5 command.command_id) (hash command) source_run_id version
        run_id validation_id r r' response h once

  commit-IsActiveOnce :
      (result : Result (Response × Runs))
      → ((response : Response) (r' : Runs) → result ≡ ok (response, r') → IsActiveOnce r')
      → IsActiveOnce r
      → IsActiveOnce (commit_run r result).1
  commit-IsActiveOnce (ok (response, r')) keeps once = keeps response r' refl
  commit-IsActiveOnce (err e) keeps once = once

  answer-IsActiveOnce :
      (existing : Option CommandReceipt)
      → IsActiveOnce r
      → IsActiveOnce (answer_run uuid5 hash o command r existing).1
  unfolding answer_run
  answer-IsActiveOnce (some existing) once = once
  answer-IsActiveOnce none once =
      commit-IsActiveOnce (perform_run uuid5 hash o command r command.request r)
        (λ response r' e. perform-IsActiveOnce command.request response r' e once) once

  -- A command that cancels or retries a formal run, accepted, replayed or refused, leaves every
  -- candidate with at most one job that is pending or running, if it was so before.
  pub lifecycle-IsActiveOnce :
      (candidate_revision_id : ℕ)
      → IsActiveOnce r
      → count_rows
          (is_active_of candidate_revision_id)
          (submit_lifecycle_command uuid5 hash o command r).1.queue.jobs
        ≤ 1
  unfolding submit_lifecycle_command
  lifecycle-IsActiveOnce candidate_revision_id once =
      answer-IsActiveOnce
        (find? (of_command command.command_id) r.queue.database.journal.command_receipts) once
        candidate_revision_id
