-- ===== src/Domain/Jobs.antt =====
-- domain.py: the claim of a job in `run_next_job`. The execution of a claimed formal run is not
-- modelled.
pub mod Claim
pub mod Exclusive
pub mod Tests
use open_quant_studio.Domain.JobTables.{
  FormalRun, Job, JobType, Queue, RunSpec, Status, cancelled, failed, formal_run, in_database,
  pending, running, succeeded, verify_sha256,
}
use open_quant_studio.Base.{
  ℕ, ◌+◌, ◌==◌, ◌&&◌, ◌||◌, not, ltb, leb, Bool, true, false, Option, none, some, List, [], ◌∷◌,
  ◌++◌, if◌then◌else◌, length,
}
use open_quant_studio.Domain.Table.{find?, exists?, update, count_rows}
use open_quant_studio.Domain.Outcome.{
  Action, Result, ok, err, job_transition_conflict, integrity_error, type_error, gets, modify,
  raise_if, raise, pure, or_raise, ◌>>=◌, ◌>>◌,
}
use open_quant_studio.Domain.Journal.{
  GatePolicy, m3_v1, m5_v1, m8_v1, other_policy, Checkpoint, Resumption, RunStart, EventType,
  Payload, Event, Journal, Outside, Level, info, error, Draft, insert_event, insert_outbox,
  insert_log,
}
use open_quant_studio.Domain.Database.{Artifact, Database, in_journal}
use open_quant_studio.Domain.Attachments.{Blobs}

abbrev pub status_eq : Status → Status → Bool
status_eq pending pending = true
status_eq running running = true
status_eq succeeded succeeded = true
status_eq failed failed = true
status_eq cancelled cancelled = true
status_eq _ _ = false

abbrev pub is_formal : Job → Bool
is_formal j = elim j.job_type [ formal_run _ ↦ true | verify_sha256 ↦ false ]

abbrev pub is_running_formal : Job → Bool
is_running_formal j = is_formal j && status_eq j.status running

-- `lease_expires_at <= now`, which is not true of NULL.
abbrev pub is_expired : ℕ → Job → Bool
is_expired now j = elim j.lease_expires_at [ some lease ↦ leb lease now | none ↦ false ]

-- The WHERE clause of the SELECT of a job to claim.
abbrev pub is_claimable : ℕ → List Job → Job → Bool
is_claimable now jobs j =
    (status_eq j.status pending || (is_formal j && status_eq j.status running && is_expired now j))
    && (not (is_formal j) || status_eq j.status running || not (exists? is_running_formal jobs))

-- ORDER BY created_at, job_id
abbrev pub comes_before : Job → Job → Bool
comes_before a b =
    ltb a.created_at b.created_at || (a.created_at == b.created_at && ltb a.job_id b.job_id)

abbrev pub sooner : Job → Option Job → Job
sooner j none = j
sooner j (some k) = if comes_before k j then k else j

-- … LIMIT 1
unfoldable pub earliest : (Job → Bool) → List Job → Option Job
earliest p [] = none
earliest p (j ∷ jobs) = let rest = earliest p jobs in if p j then some (sooner j rest) else rest

abbrev pub coalesce : Option ℕ → ℕ → Option ℕ
coalesce (some a) b = some a
coalesce none b = some b

-- What the claim takes from outside: SQLite's clock at the SELECT and at the UPDATE, and `uuid4`.
pub record Claimant : Type 0 where
  pub selected_at : ℕ
  pub updated_at : ℕ
  pub fresh_claim_token : ℕ

abbrev pub has_id : ℕ → Job → Bool
has_id job_id j = j.job_id == job_id

module _ (o : Outside) (claimant : Claimant) where
  -- The WHERE clause and the SET clause of the two UPDATE statements of a claim.
  abbrev pub is_claimed : Job → Job → Bool
  is_claimed claimed j =
      if is_formal claimed
      then has_id claimed.job_id j
        && status_eq j.status claimed.status
        && (status_eq claimed.status pending || is_expired claimant.updated_at j)
      else has_id claimed.job_id j && status_eq j.status pending

  abbrev pub set_claim : Job → Job → Job
  set_claim claimed j =
      if is_formal claimed
      then record j {
        status = running;
        attempts = j.attempts + 1;
        execution_version = j.execution_version + 1;
        claim_epoch = j.claim_epoch + 1;
        claim_token = some claimant.fresh_claim_token;
        lease_expires_at = some (claimant.updated_at + 30_000);
        started_at = coalesce j.started_at o.now;
        finished_at = none;
      }
      else record j { status = running; attempts = j.attempts + 1; started_at = some o.now }

  abbrev has_token : ℕ → Job → Bool
  has_token token j = elim j.claim_token [ some t ↦ t == token | none ↦ false ]

  -- The UPDATE, with the UNIQUE of `claim_token`, and the test of its rowcount. The unique index of
  -- one running formal run is left out: it repeats what the SELECT asks.
  unfoldable pub take_job : Job → Action Queue (Unit {0})
  take_job claimed = do
    q ← gets (λ q. q)
    raise_if (is_formal claimed && exists? (has_token claimant.fresh_claim_token) q.jobs)
        integrity_error
    modify (λ q. record q { jobs = update (is_claimed claimed) (set_claim claimed) q.jobs })
    raise_if (not (count_rows (is_claimed claimed) q.jobs == 1)) job_transition_conflict

  abbrev lifecycle_of : RunSpec → Job → Option (GatePolicy × ℕ)
  lifecycle_of spec j = elim spec.gate_policy_version [
    | m5_v1 ↦ some (m5_v1, j.execution_version)
    | m8_v1 ↦ some (m8_v1, j.execution_version)
    | _ ↦ none
  ]

  resume : Checkpoint → Job → Action Queue (Option Resumption)
  resume checkpoint j = do
    q ← gets (λ q. q)
    artifact ←
        or_raise
          (find? (λ (a : Artifact). a.artifact_id == checkpoint.checkpoint_artifact_id)
            q.database.fabric.artifacts)
          type_error
    pure (
        some (record {
          claim_epoch = j.claim_epoch;
          checkpoint = checkpoint;
          checkpoint_sha256 = artifact.sha256;
        }))

  -- `if was_running and claimed["checkpoint_seq"] > 0:`, under a policy with a lifecycle.
  resumption_of :
      Bool → Job → Option (GatePolicy × ℕ) → Option Checkpoint → Action Queue (Option Resumption)
  unfolding resume
  resumption_of true j (some _) (some checkpoint) = resume checkpoint j
  resumption_of _ j _ _ = pure none

  abbrev start_type : Option Resumption → EventType
  start_type none = EventType.formal_run_started
  start_type (some _) = EventType.formal_run_resumed

  unfoldable pub job_draft : Job → EventType → Option ℕ → Option ℕ → Payload → Draft
  job_draft j event_type variant_id base_revision_id payload = record {
    event_type = event_type;
    project_id = j.project_id;
    activity_id = j.activity_id;
    session_id = j.session_id;
    workbench_id = j.workbench_id;
    correlation_id = j.correlation_id;
    causation_id = j.job_id;
    variant_id = variant_id;
    base_revision_id = base_revision_id;
    payload = payload;
  }

  start_draft : Bool → Job → Action Queue Draft
  unfolding resumption_of job_draft
  start_draft was_running j = elim j.job_type [
    | formal_run run ↦ do
      q ← gets (λ q. q)
      spec ←
          or_raise (find? (λ (s : RunSpec). s.run_spec_id == run.run_spec_id) q.run_specs)
            type_error
      resumption ← resumption_of was_running j (lifecycle_of spec j) j.checkpoint
      pure (
          job_draft j (start_type resumption) (some spec.variant_id)
            (some run.candidate_revision_id)
            (Payload.run_started (record {
              job_id = j.job_id;
              run_spec_id = run.run_spec_id;
              run_id = run.run_id;
              validation_id = run.validation_id;
              candidate_revision_id = run.candidate_revision_id;
              run_spec_hash = spec.spec_hash;
              lifecycle = lifecycle_of spec j;
              resumption = resumption;
            })))
    | verify_sha256 ↦ pure (
        job_draft j EventType.verification_started none none
          (Payload.verification j.artifact_id j.job_id none none))
  ]

  -- The event of the start, and its row of the outbox.
  unfoldable pub announce : Bool → Job → Action Queue (Unit {0})
  unfolding start_draft
  announce was_running j = do
    draft ← start_draft was_running j
    event ← in_database (in_journal (insert_event o draft))
    in_database (in_journal (insert_outbox o event))

  -- The first transaction of `run_next_job`, after its SELECT; it returns the row that it has
  -- claimed.
  unfoldable pub claim_job : Option Job → Action Queue (Option Job)
  claim_job none = pure none
  claim_job (some claimed) = do
    take_job claimed
    q ← gets (λ q. q)
    j ← or_raise (find? (has_id claimed.job_id) q.jobs) type_error
    announce (status_eq claimed.status running) j
    pure (some j)

  unfoldable pub claim_next_job : Action Queue (Option Job)
  unfolding claim_job
  claim_next_job = do
    q ← gets (λ q. q)
    claim_job (earliest (is_claimable claimant.selected_at q.jobs) q.jobs)
