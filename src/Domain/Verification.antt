-- ===== src/Domain/Verification.antt =====
-- domain.py: the end of `run_next_job` for the verification of an artifact, and `_finish_job`.
pub mod Finish
pub mod Tests
use open_quant_studio.Base.{
  ℕ, ◌+◌, ◌==◌, ◌&&◌, ◌||◌, not, Bool, true, false, Option, none, some, List, [], ◌∷◌,
  if◌then◌else◌, length,
}
use open_quant_studio.Domain.Table.{find?, update, count_rows}
use open_quant_studio.Domain.Outcome.{
  Action, Result, ok, err, job_transition_conflict, type_error, gets, modify, raise_if, raise, pure,
  or_raise, ◌>>=◌, ◌>>◌,
}
use open_quant_studio.Domain.Journal.{
  EventType, Payload, Event, Journal, Outside, Level, info, error, insert_event, insert_outbox,
  insert_log,
}
use open_quant_studio.Domain.Database.{Artifact, in_journal}
use open_quant_studio.Domain.Attachments.{Blobs}
use open_quant_studio.Domain.JobTables.{Queue, Job, Status, running, succeeded, failed, in_database}
use open_quant_studio.Domain.Jobs.{Claimant, status_eq, has_id, job_draft}

-- What a verification comes to: the keyword arguments that `_finish_job` is called with.
pub data Verdict : Type 0 where
  verified : (sha256 byte_size : ℕ) → Verdict
  refused : (error_code error_message : ℕ) → Verdict

abbrev pub status_of : Verdict → Status
status_of (verified _ _) = succeeded
status_of (refused _ _) = failed

abbrev pub result_of : Verdict → Option (ℕ × ℕ)
result_of (verified sha256 byte_size) = some (sha256, byte_size)
result_of (refused _ _) = none

abbrev pub error_code_of : Verdict → Option ℕ
error_code_of (verified _ _) = none
error_code_of (refused error_code _) = some error_code

abbrev pub error_message_of : Verdict → Option ℕ
error_message_of (verified _ _) = none
error_message_of (refused _ error_message) = some error_message

abbrev event_type_of : Verdict → EventType
event_type_of (verified _ _) = EventType.verification_succeeded
event_type_of (refused _ _) = EventType.verification_failed

abbrev level_of : Verdict → Level
level_of (verified _ _) = info
level_of (refused _ _) = error

-- The texts "artifact_blob_missing" and "artifact_integrity_mismatch", and their messages.
abbrev pub blob_missing : Verdict
blob_missing = refused 0 0

abbrev pub integrity_mismatch : Verdict
integrity_mismatch = refused 1 1

module _ (o : Outside) (claimant : Claimant) (claimed : Job) where
  -- The WHERE clause and the SET clause of the UPDATE.
  abbrev pub is_unfinished : Job → Bool
  is_unfinished j =
      has_id claimed.job_id j && status_eq j.status running && j.attempts == claimed.attempts

  abbrev pub finished : Verdict → Job → Job
  finished verdict j = record j {
    status = status_of verdict;
    result = result_of verdict;
    error_code = error_code_of verdict;
    error_message = error_message_of verdict;
    finished_at = some o.now;
  }

  close_job : Verdict → Action Queue (Unit {0})
  close_job verdict = do
    q ← gets (λ q. q)
    modify (λ q. record q { jobs = update is_unfinished (finished verdict) q.jobs })
    raise_if (not (count_rows is_unfinished q.jobs == 1)) job_transition_conflict

  -- The call of `job` that reads the result is left out.
  unfoldable pub finish_job : Verdict → Action Queue (Unit {0})
  unfolding close_job job_draft
  finish_job verdict = do
    close_job verdict
    event ← in_database (
        in_journal (
          insert_event o (
            job_draft o claimant claimed (event_type_of verdict) none none (
              Payload.verification claimed.artifact_id claimed.job_id (result_of verdict)
                (error_code_of verdict)))))
    in_database (in_journal (insert_outbox o event))
    in_database (
        in_journal (
          insert_log o (level_of verdict) claimed.project_id claimed.activity_id claimed.session_id
            (some claimed.job_id) claimed.correlation_id))

  abbrev pub verdict_on : Blobs → Artifact → Option (List ℕ) → Verdict
  verdict_on blobs artifact none = blob_missing
  verdict_on blobs artifact (some body) =
      if not (blobs.digest body == artifact.sha256) || not (length body == artifact.byte_size)
      then integrity_mismatch
      else verified (blobs.digest body) (length body)

  -- `run_next_job` after the claim of a job that verifies an artifact.
  unfoldable pub verify_artifact : Blobs → Action Queue (Unit {0})
  verify_artifact blobs = do
    q ← gets (λ q. q)
    artifact ←
        or_raise
          (find? (λ (a : Artifact). a.artifact_id == claimed.artifact_id)
            q.database.fabric.artifacts)
          type_error
    finish_job (verdict_on blobs artifact (blobs.body artifact.sha256))
