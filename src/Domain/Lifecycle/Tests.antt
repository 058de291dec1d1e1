-- ===== src/Domain/Lifecycle/Tests.antt =====
-- A running formal run that is cancelled and then retried.
use open_quant_studio.Base.{ℕ, ◌+◌, ◌≡◌, ◌≤◌, refl, none, some, [], ◌∷◌, arith}
use open_quant_studio.Domain.Table.{count_rows}
use open_quant_studio.Domain.Outcome.{err, integrity_error}
use open_quant_studio.Domain.Journal.{
  m5_v1, info, Draft, event_of, insert_event, insert_outbox, insert_receipt, insert_log,
}
use open_quant_studio.Domain.Sessions.{validate_workbench}
use open_quant_studio.Domain.Submit.{Response, accepted, replayed, returns}
use open_quant_studio.Domain.Samples.{outside, queued_rows}
use open_quant_studio.Domain.Database.{Database}
use open_quant_studio.Domain.JobTables.{Job, running}
use open_quant_studio.Domain.Jobs.Tests.{expired_run}
use open_quant_studio.Domain.Lifecycle.{
  Run, RunJob, Runs, LifecycleCommand, LifecycleRequest, run_cancel, run_retry, is_active_of,
  retried_job, retried_draft, cancelled_draft, cancelled_run, skipped, set_cancelled, cancel_job,
  insert_run, insert_validation, insert_job, publish_run, log_run, cancel_row, cancel_formal_run,
  retry_row, retry_formal_run, submit_lifecycle_command, answer_run,
}
use open_quant_studio.Domain.Lifecycle.Replayed.{lifecycle_again}
use open_quant_studio.Domain.Lifecycle.Active.{IsActiveOnce, lifecycle-IsActiveOnce}

abbrev runs : Runs
runs = record {
  queue = record {
    database = queued_rows;
    jobs = expired_run ∷ [];
    run_specs =
        record {
          run_spec_id = 12;
          spec_hash = 121;
          variant_id = 3;
          gate_policy_version = m5_v1;
          engine_version = 6;
        }
        ∷ [];
  };
  formal_runs = [];
  merge_validations = [];
}

abbrev command : ℕ → LifecycleRequest → LifecycleCommand
command command_id request = record {
  command_id = command_id;
  project_id = 10;
  activity_id = 20;
  session_id = 32;
  workbench_id = 42;
  correlation_id = 7;
  variant_id = 3;
  base_revision_id = 15;
  request = request;
}

abbrev cancel : LifecycleCommand
cancel = command 80 (run_cancel 13 running 1)

abbrev retry : LifecycleCommand
retry = command 81 (run_retry 13 2 23 24)

-- The job that the log of a command names.
abbrev log_of : LifecycleRequest → ℕ
log_of (run_cancel run_id status version) = 2
log_of (run_retry source_run_id version run_id validation_id) = 90

abbrev row : RunJob
row = record {
  job = expired_run;
  run = record {
    run_spec_id = 12;
    run_id = 13;
    validation_id = 14;
    candidate_revision_id = 15;
    retry_of_run_id = none;
  };
  spec = record {
    run_spec_id = 12;
    spec_hash = 121;
    variant_id = 3;
    gate_policy_version = m5_v1;
    engine_version = 6;
  };
}

abbrev job_after : Job
job_after = set_cancelled (outside 1) cancel row expired_run

-- The database after the event of an accepted command, the first of its journal.
abbrev with_event : LifecycleCommand → ℕ → Draft → Database
with_event c hash draft =
    let o = outside 1 in
    let event = event_of o.fresh_event_id 1 o.now draft in
    record queued_rows {
      journal = record (queued_rows.journal) {
        domain_events = event ∷ [];
        last_stream_seq = 1;
        outbox = record { event_id = event.event_id; stream_seq = 1; recorded_at = o.now } ∷ [];
        command_receipts =
            record {
              command_id = c.command_id;
              command_hash = hash;
              event = event;
              recorded_at = o.now;
            }
            ∷ [];
        diagnostic_logs =
            record {
              log_id = o.fresh_log_id;
              timestamp = o.now;
              level = info;
              project_id = 10;
              activity_id = 20;
              session_id = some 32;
              job_id = some (log_of c.request);
              correlation_id = 7;
            }
            ∷ [];
      };
    }

abbrev response_to : LifecycleCommand → Draft → Response
response_to c draft = record {
  command_id = c.command_id;
  disposition = accepted;
  event = event_of (outside 1).fresh_event_id 1 (outside 1).now draft;
}

abbrev cancelled_rows : Runs
cancelled_rows = record {
  queue = record (runs.queue) {
    database = with_event cancel 70 (cancelled_draft (outside 1) cancel row);
    jobs = job_after ∷ [];
  };
  formal_runs = cancelled_run (outside 1) cancel row ∷ [];
  merge_validations = skipped (outside 1) cancel row ∷ [];
}

-- The run is cancelled, before any event is on record.
abbrev idle_rows : Runs
idle_rows = record cancelled_rows { queue = record (runs.queue) { jobs = job_after ∷ [] } }

abbrev source : Run
source = cancelled_run (outside 1) cancel row

abbrev new_draft : Draft
new_draft = retried_draft (outside 1) retry 90 23 24 source row.spec

abbrev retried_rows : Runs
retried_rows = record idle_rows {
  queue = record (runs.queue) {
    database = with_event retry 71 new_draft;
    jobs = job_after ∷ retried_job (outside 1) retry 90 23 24 source job_after ∷ [];
  };
}

-- With a second command the candidate would be active twice: the index refuses it, and the
-- IntegrityError is not raised anew as a conflict.
twice_raises :
    retry_formal_run (outside 2) (command 82 (run_retry 13 2 33 34)) 91 72 13 2 33 34 retried_rows
    ≡ err integrity_error
unfolding retry_formal_run validate_workbench retry_row insert_job publish_run log_run insert_event
    insert_outbox insert_receipt insert_log
twice_raises = refl

active_once : IsActiveOnce runs
active_once candidate = ground arith

abbrev hash : LifecycleCommand → ℕ
hash c = c.command_id

abbrev uuid5 : ℕ → ℕ
uuid5 id = id + 9

lifecycle-IsActiveOnce_example :
    count_rows
      (is_active_of 15)
      (submit_lifecycle_command uuid5 hash (outside 1) cancel runs).1.queue.jobs
    ≤ 1
lifecycle-IsActiveOnce_example =
    lifecycle-IsActiveOnce uuid5 hash (outside 1) cancel runs 15 active_once

abbrev submitted_rows : Runs
submitted_rows = record cancelled_rows {
  queue = record (cancelled_rows.queue) {
    database = with_event cancel 80 (cancelled_draft (outside 1) cancel row);
  };
}

submits :
    submit_lifecycle_command uuid5 hash (outside 1) cancel runs
    ≡ (returns (response_to cancel (cancelled_draft (outside 1) cancel row)), submitted_rows)
unfolding submit_lifecycle_command answer_run cancel_formal_run validate_workbench cancel_row
    cancel_job insert_run insert_validation publish_run log_run insert_event insert_outbox
    insert_receipt insert_log
submits = refl

lifecycle_again_example : submit_lifecycle_command uuid5 hash (outside 2) cancel submitted_rows ≡ (
  returns (record {
    command_id = 80;
    disposition = replayed;
    event =
        event_of
          (outside 1).fresh_event_id
          1
          (outside 1).now
          (cancelled_draft (outside 1) cancel row);
  }),
  submitted_rows,
)
lifecycle_again_example =
    lifecycle_again uuid5 hash (outside 1) cancel runs (outside 2)
      (response_to cancel (cancelled_draft (outside 1) cancel row)) submitted_rows refl submits
