-- ===== src/Domain/Jobs/Tests.antt =====
-- Concrete claims: a worker finds a formal run whose lease has run out, and an older verification.
use open_quant_studio.Base.{
  arith, ◌≡◌, refl, true, false, none, some, List, [], ◌∷◌, ◌++◌, ◌&&◌, All,
}
use open_quant_studio.Domain.Outcome.{ok}
use open_quant_studio.Domain.Journal.{insert_event, insert_outbox, m5_v1, EventType, Payload, Event}
use open_quant_studio.Domain.Samples.{outside, queued_rows}
use open_quant_studio.Domain.JobTables.{Queue, Job, formal_run, pending, running}
use open_quant_studio.Domain.Jobs.{
  Claimant, is_claimable, comes_before, set_claim, earliest, take_job, announce, claim_job,
  claim_next_job,
}
use open_quant_studio.Domain.Jobs.Claim.{IsClaimOf, claim-claims}
use open_quant_studio.Domain.Jobs.Exclusive.{IsExclusive, claim-IsExclusive}

abbrev claimant : Claimant
claimant = record { selected_at = 5000; updated_at = 5001; fresh_claim_token = 900 }

abbrev pub expired_run : Job
expired_run = record {
  job_id = 2;
  job_type = formal_run (record {
    run_spec_id = 12;
    run_id = 13;
    validation_id = 14;
    candidate_revision_id = 15;
    retry_of_run_id = none;
  });
  project_id = 10;
  activity_id = 20;
  session_id = some 30;
  workbench_id = some 40;
  correlation_id = 7;
  artifact_id = 60;
  status = running;
  attempts = 1;
  execution_version = 1;
  claim_epoch = 1;
  claim_token = some 899;
  lease_expires_at = some 4000;
  checkpoint = none;
  result = none;
  error_code = none;
  error_message = none;
  created_at = 3000;
  started_at = some 3100;
  finished_at = none;
}

abbrev younger_run : Job
younger_run = record expired_run {
  job_id = 1;
  status = pending;
  claim_token = none;
  lease_expires_at = none;
  created_at = 3500;
  started_at = none;
}

abbrev waiting : Queue
waiting = record {
  database = queued_rows;
  jobs = younger_run ∷ expired_run ∷ [];
  run_specs =
      record {
        run_spec_id = 12;
        spec_hash = 121;
        variant_id = 3;
        gate_policy_version = m5_v1;
        engine_version = 6;
      }
      ∷ [];
}

abbrev claimed_run : Job
claimed_run = set_claim (outside 1) claimant expired_run expired_run

abbrev started_event : Event
started_event = record {
  event_id = 501;
  stream_seq = 1;
  event_type = EventType.formal_run_started;
  project_id = 10;
  activity_id = 20;
  session_id = some 30;
  workbench_id = some 40;
  correlation_id = 7;
  causation_id = 2;
  recorded_at = 1001;
  variant_id = some 3;
  base_revision_id = some 15;
  payload = Payload.run_started (record {
    job_id = 2;
    run_spec_id = 12;
    run_id = 13;
    validation_id = 14;
    candidate_revision_id = 15;
    run_spec_hash = 121;
    lifecycle = some (m5_v1, 2);
    resumption = none;
  });
}

abbrev claimed_rows : Queue
claimed_rows = record waiting {
  database = record queued_rows {
    journal = record (queued_rows.journal) {
      domain_events = started_event ∷ [];
      last_stream_seq = 1;
      outbox = record { event_id = 501; stream_seq = 1; recorded_at = 1001 } ∷ [];
    };
  };
  jobs = younger_run ∷ claimed_run ∷ [];
}

claims : claim_next_job (outside 1) claimant waiting ≡ ok (some claimed_run, claimed_rows)
unfolding claim_next_job claim_job take_job announce earliest insert_event insert_outbox
claims = refl

claim-claims_example :
    (old : Job) × (before : List Job) × (after : List Job) × (waiting.jobs ≡ before ++ old ∷ after)
    × (is_claimable 5000 waiting.jobs old ≡ true)
    × All
        (λ (k : Job). (is_claimable 5000 waiting.jobs k && comes_before k old) ≡ false)
        waiting.jobs
    × (new : Job) × (claimed_rows.jobs ≡ before ++ new ∷ after)
    × IsClaimOf (outside 1) claimant old new
claim-claims_example =
    claim-claims (outside 1) claimant waiting claimed_rows claimed_run (omega arith) claims

claim-IsExclusive_example : IsExclusive claimed_rows
claim-IsExclusive_example =
    claim-IsExclusive (outside 1) claimant waiting claimed_rows claimed_run (omega arith)
      (omega arith) claims
