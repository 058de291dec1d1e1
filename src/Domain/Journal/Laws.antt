-- ===== src/Domain/Journal/Laws.antt =====
-- What the statements of the journal have done when they succeed.
use open_quant_studio.Base.{ℕ, ◌+◌, ◌==◌, ◌≡◌, false, Option, [], ◌∷◌, ◌++◌, arith}
use open_quant_studio.Domain.Outcome.{ok}
use open_quant_studio.Domain.Journal.{
  Journal, Event, Draft, Outside, Level, event_of, insert_event, insert_outbox, insert_receipt,
  insert_log,
}
use open_quant_studio.Domain.Table.{exists?}

module _ (o : Outside) where
  pub insert_event-ok :
      (d : Draft) (j j' : Journal) (event : Event)
      → insert_event o d j ≡ ok (event, j')
      → (event ≡ event_of o.fresh_event_id (j.last_stream_seq + 1) o.now d)
        × (exists? (λ (e : Event). e.event_id == event.event_id) j.domain_events ≡ false)
        × (j' ≡ record j {
          domain_events = j.domain_events ++ event ∷ [];
          last_stream_seq = j.last_stream_seq + 1;
        })
  unfolding insert_event
  insert_event-ok d j j' event h = ground arith

  pub insert_outbox-ok :
      (event : Event) (j j' : Journal) (u : Unit {0})
      → insert_outbox o event j ≡ ok (u, j')
      → j' ≡ record j {
        outbox =
            j.outbox
            ++ record {
              event_id = event.event_id;
              stream_seq = event.stream_seq;
              recorded_at = event.recorded_at;
            }
              ∷ [];
      }
  unfolding insert_outbox
  insert_outbox-ok event j j' u h = ground arith

  pub insert_receipt-ok :
      (command_id command_hash : ℕ) (event : Event) (j j' : Journal) (u : Unit {0})
      → insert_receipt o command_id command_hash event j ≡ ok (u, j')
      → j' ≡ record j {
        command_receipts =
            j.command_receipts
            ++ record {
              command_id = command_id;
              command_hash = command_hash;
              event = event;
              recorded_at = o.now;
            }
              ∷ [];
      }
  unfolding insert_receipt
  insert_receipt-ok command_id command_hash event j j' u h = ground arith

  pub insert_log-ok :
      (level : Level) (project_id activity_id : ℕ) (session_id job_id : Option ℕ)
      (correlation_id : ℕ) (j j' : Journal) (u : Unit {0})
      → insert_log o level project_id activity_id session_id job_id correlation_id j ≡ ok (u, j')
      → j' ≡ record j { diagnostic_logs = j'.diagnostic_logs }
  unfolding insert_log
  insert_log-ok level project_id activity_id session_id job_id correlation_id j j' u h =
      ground arith
