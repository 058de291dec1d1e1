-- ===== src/Domain/Lifecycle/Retried.antt =====
-- What the retry of a formal run does.
use open_quant_studio.Base.{
  ℕ, ◌==◌, ◌||◌, ◌≡◌, refl, ◌⊎◌, inl, inr, Bool, false, some, List, [], ◌∷◌, ◌++◌, arith,
  Option-cases, Bool-cases,
}
use open_quant_studio.Domain.Table.{find?, exists?}
use open_quant_studio.Domain.Outcome.{ok}
use open_quant_studio.Domain.Journal.{Outside}
use open_quant_studio.Domain.Sessions.{validate_workbench}
use open_quant_studio.Domain.Submit.{Response}
use open_quant_studio.Domain.JobTables.{Job, failed, cancelled, RunSpec}
use open_quant_studio.Domain.Lifecycle.{
  Runs, Run, LifecycleCommand, run_of, has_run, has_validation, is_run_of, is_job_with, has_spec,
  is_active_of, retried_job, insert_job, publish_run, log_run, retry_row, retry_formal_run,
}
use open_quant_studio.Domain.Lifecycle.Cancelled.{status_eq→eq}

exists?-weaken {ℓ} :
    {R : Type ℓ} (p q : R → Bool) (t : List R)
    → ((x : R) → p x ≡ false → q x ≡ false)
    → exists? p t ≡ false
    → exists? q t ≡ false
exists?-weaken p q [] weaker h = refl
exists?-weaken p q (x ∷ t) weaker h = elim (Bool-cases (p x)) [
  | inl e ↦ absurd (ground (arith, e))
  | inr e ↦ ground (arith, e, weaker x e, exists?-weaken p q t weaker)
]

module _ (o : Outside) (command : LifecycleCommand) where
  -- The run on record that the command expects: it failed or was cancelled, at that version.
  abbrev pub IsRetryable : ℕ → Run → Type 0
  IsRetryable version source =
      ((source.status ≡ failed) ⊎ (source.status ≡ cancelled))
      × (source.execution_version ≡ version)
      × (source.variant_id ≡ command.variant_id)
      × (source.candidate_revision_id ≡ command.base_revision_id)

  row-retries :
      (uuid5 hash version run_id validation_id : ℕ) (source : Run) (job : Job) (spec : RunSpec)
      (r r' : Runs) (response : Response)
      → retry_row o command uuid5 hash version run_id validation_id source job spec r
        ≡ ok (response, r')
      → IsRetryable version source
        × (exists? (is_active_of source.candidate_revision_id) r.queue.jobs ≡ false)
        × (r'.queue.jobs
            ≡ r.queue.jobs ++ retried_job o command uuid5 run_id validation_id source job ∷ [])
        × (r'.formal_runs ≡ r.formal_runs)
        × (r'.merge_validations ≡ r.merge_validations)
  unfolding retry_row insert_job publish_run log_run
  row-retries uuid5 hash version run_id validation_id source job spec r r' response h =
      let free : exists?
            (λ (j : Job).
              j.job_id == uuid5
              || has_run run_id (run_of j)
              || has_validation validation_id (run_of j)
              || is_active_of source.candidate_revision_id j)
            r.queue.jobs
          ≡ false =
        ground arith in
      let inactive =
        exists?-weaken _ (is_active_of source.candidate_revision_id) r.queue.jobs
          (λ j e. ground arith) free in
      ground
        (arith, inactive, status_eq→eq source.status failed, status_eq→eq source.status cancelled)

  pub retry-retries :
      (uuid5 hash source_run_id version run_id validation_id : ℕ) (r r' : Runs)
      (response : Response)
      → retry_formal_run o command uuid5 hash source_run_id version run_id validation_id r
        ≡ ok (response, r')
      → (source : Run) × (job : Job) × (find? (is_run_of o command source_run_id) r.formal_runs
          ≡ some source)
        × (find? (is_job_with o command source_run_id) r.queue.jobs ≡ some job)
        × IsRetryable version source
        × (exists? (is_active_of source.candidate_revision_id) r.queue.jobs ≡ false)
        × (r'.queue.jobs
            ≡ r.queue.jobs ++ retried_job o command uuid5 run_id validation_id source job ∷ [])
        × (r'.formal_runs ≡ r.formal_runs)
        × (r'.merge_validations ≡ r.merge_validations)
  unfolding retry_formal_run validate_workbench
  retry-retries uuid5 hash source_run_id version run_id validation_id r r' response h =
      elim (Option-cases (find? (is_run_of o command source_run_id) r.formal_runs)) [
        | inl e ↦ absurd (ground (arith, e))
        | inr (source, e) ↦
            elim (Option-cases (find? (is_job_with o command source_run_id) r.queue.jobs)) [
              | inl f ↦ absurd (ground (arith, e, f))
              | inr (job, f) ↦
                  elim (Option-cases (find? (has_spec source.run_spec_id) r.queue.run_specs)) [
                    | inl g ↦ absurd (ground (arith, e, f, g))
                    | inr (spec, g) ↦
                        let (ready, free, jobs, runs, validations) =
                          row-retries uuid5 hash version run_id validation_id source job spec r r'
                            response (ground (arith, e, f, g)) in
                        (source, job, e, f, ready, free, jobs, runs, validations)
                  ]
            ]
      ]
