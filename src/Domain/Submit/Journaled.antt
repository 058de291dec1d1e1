-- ===== src/Domain/Submit/Journaled.antt =====
-- What the steps of a session command write to the journal.
use open_quant_studio.Base.{ℕ, ◌+◌, ◌≡◌, refl, Option, none, some, [], ◌∷◌, ◌++◌, arith}
use open_quant_studio.Domain.Outcome.{Action, Result, ok, err, OnOk, OnOk->>=, OnOk-of-ok}
use open_quant_studio.Domain.Journal.{
  Event, OutboxRow, Outside, Journal, Uri, insert_event, insert_outbox, insert_receipt, insert_log,
  info,
}
use open_quant_studio.Domain.Journal.Laws.{insert_outbox-ok, insert_receipt-ok, insert_log-ok}
use open_quant_studio.Domain.Database.{
  in_journal, Database, Command, Request, session_register, session_workbench_bind,
  session_message_send, session_message_reply, session_receipt, MessagePayload, ReceiptMove,
  ReceiptPayload,
}
use open_quant_studio.Domain.Sessions.{register_session, bind_workbench}
use open_quant_studio.Domain.Sessions.Active.{validate-cases}
use open_quant_studio.Domain.Attachments.{Blobs}
use open_quant_studio.Domain.Messages.{Moved, queue_message, transition_message_receipt}
use open_quant_studio.Domain.Messages.Frames.{
  validate_source_refs-cases, check_reply-cases, register_message_artifact-cases,
}
use open_quant_studio.Domain.Submit.{Response, accepted, dispatch, record_transition, perform}

-- What a handler has done to the journal by the time that it returns its event.
pub record Appends (j j' : Journal) (event : Event) : Type 0 where
  pub events : j'.domain_events ≡ j.domain_events ++ event ∷ []
  pub last : j'.last_stream_seq ≡ event.stream_seq
  pub numbered : event.stream_seq ≡ j.last_stream_seq + 1
  pub outbox : j'.outbox ≡ j.outbox
  pub receipts : j'.command_receipts ≡ j.command_receipts

module _ (o : Outside) (command : Command) where
  register-Appends :
      (pi_session_id : ℕ) (session_uri : Uri) (db : Database) (event : Event) (db' : Database)
      → register_session o command pi_session_id session_uri db ≡ ok (event, db')
      → Appends db.journal db'.journal event
  unfolding register_session insert_event
  register-Appends pi_session_id session_uri db event db' h = ground arith

  bind-Appends :
      (workbench_id : ℕ) (db : Database) (event : Event) (db' : Database)
      → bind_workbench o command workbench_id db ≡ ok (event, db')
      → Appends db.journal db'.journal event
  unfolding bind_workbench insert_event
  bind-Appends workbench_id db event db' h = ground arith

  queue-Appends :
      (blobs : Blobs) (payload : MessagePayload) (db : Database) (event : Event) (db' : Database)
      → queue_message o command blobs payload db ≡ ok (event, db')
      → Appends db.journal db'.journal event
  unfolding queue_message insert_event
  queue-Appends blobs payload db event db' h = ground (
    arith,
    validate-cases command db,
    validate_source_refs-cases blobs command payload.source_refs db,
    check_reply-cases command payload.recipient_session_id payload.reply_to db,
    register_message_artifact-cases blobs payload.artifact db.fabric,
  )

  transition-Appends :
      (move : ReceiptMove) (payload : ReceiptPayload) (db : Database) (event : Event)
      (moved : Moved) (db' : Database)
      → transition_message_receipt o command move payload db ≡ ok ((event, moved), db')
      → Appends db.journal db'.journal event
  unfolding transition_message_receipt insert_event
  transition-Appends move payload db event moved db' h = ground (arith, validate-cases command db)

  dispatch-Appends :
      (blobs : Blobs) (request : Request) (db : Database)
      → OnOk
          (λ (p : Event × Option Moved) d. Appends db.journal d.journal p.0)
          (dispatch o command blobs request db)
  unfolding dispatch
  dispatch-Appends blobs (session_register pi_session_id session_uri) db =
      OnOk->>= (λ event d. Appends db.journal d.journal event) _
        (register_session o command pi_session_id session_uri) _ db
        (OnOk-of-ok _ _ (register-Appends pi_session_id session_uri db)) (λ event d h. h)
  dispatch-Appends blobs (session_workbench_bind workbench_id) db =
      OnOk->>= (λ event d. Appends db.journal d.journal event) _
        (bind_workbench o command workbench_id) _ db (OnOk-of-ok _ _ (bind-Appends workbench_id db))
        (λ event d h. h)
  dispatch-Appends blobs (session_message_send payload) db =
      OnOk->>= (λ event d. Appends db.journal d.journal event) _
        (queue_message o command blobs payload) _ db
        (OnOk-of-ok _ _ (queue-Appends blobs payload db)) (λ event d h. h)
  dispatch-Appends blobs (session_message_reply payload) db =
      OnOk->>= (λ event d. Appends db.journal d.journal event) _
        (queue_message o command blobs payload) _ db
        (OnOk-of-ok _ _ (queue-Appends blobs payload db)) (λ event d h. h)
  dispatch-Appends blobs (session_receipt move payload) db =
      OnOk->>= (λ (p : Event × Moved) d. Appends db.journal d.journal p.0) _
        (transition_message_receipt o command move payload) _ db
        (OnOk-of-ok _ _ λ p d h. transition-Appends move payload db p.0 p.1 d h) (λ p d h. h)

abbrev pub row_of : Event → OutboxRow
row_of event = record {
  event_id = event.event_id;
  stream_seq = event.stream_seq;
  recorded_at = event.recorded_at;
}

in_journal-ok :
    {A : Type 0} (m : Action Journal A) (db : Database)
    → OnOk (λ a (d : Database). m db.journal ≡ ok (a, d.journal)) (in_journal m db)
in_journal-ok {A} m db = go (m db.journal) refl
  where
    go :
        (r : Result (A × Journal))
        → m db.journal ≡ r
        → OnOk
            (λ a (d : Database). m db.journal ≡ ok (a, d.journal))
            (elim r [ ok (a, j) ↦ ok (a, record db { journal = j }) | err e ↦ err e ])
    go (ok (a, j)) e = e
    go (err x) e = tt

-- What the whole of an accepted command has done to the journal.
pub record Accepts (o : Outside) (command : Command) (hash : ℕ) (j j' : Journal) (r : Response)
    : Type 0 where
  pub response :
      r ≡ record { command_id = command.command_id; disposition = accepted; event = r.event }
  pub numbered : r.event.stream_seq ≡ j.last_stream_seq + 1
  pub last : j'.last_stream_seq ≡ r.event.stream_seq
  pub events : j'.domain_events ≡ j.domain_events ++ r.event ∷ []
  pub outbox : j'.outbox ≡ j.outbox ++ row_of r.event ∷ []
  pub receipts :
      j'.command_receipts
      ≡ j.command_receipts
        ++ record {
          command_id = command.command_id;
          command_hash = hash;
          event = r.event;
          recorded_at = o.now;
        }
          ∷ []

-- The statements after the handler, put together.
module _ (o : Outside) (command : Command) (hash : ℕ) (event : Event)
    (j j1 j2 j3 j4 j5 : Journal) where
  chain :
      Appends j j1 event
      → j2 ≡ record j1 { outbox = j1.outbox ++ row_of event ∷ [] }
      → j3 ≡ record j2 {
        command_receipts =
            j2.command_receipts
            ++ record {
              command_id = command.command_id;
              command_hash = hash;
              event = event;
              recorded_at = o.now;
            }
              ∷ [];
      }
      → j4 ≡ j3
      → j5 ≡ record j4 { diagnostic_logs = j5.diagnostic_logs }
      → Accepts o command hash j j5
          (record { command_id = command.command_id; disposition = accepted; event = event })
  chain a e2 e3 e4 e5 = ground arith

module _ (o : Outside) (command : Command) where
  record_transition-writes :
      (event : Event) (moved : Option Moved) (db d : Database) (u : Unit {0})
      → record_transition o command event moved db ≡ ok (u, d)
      → d.journal ≡ db.journal
  unfolding record_transition
  record_transition-writes event moved db d u h = ground arith

  record_transition-journal :
      (event : Event) (moved : Option Moved) (db : Database)
      → OnOk
          (λ _ (d : Database). d.journal ≡ db.journal)
          (record_transition o command event moved db)
  record_transition-journal event moved db =
      OnOk-of-ok _ (record_transition o command event moved db)
        (λ u d h. record_transition-writes event moved db d u h)

  pub perform-Accepts :
      (blobs : Blobs) (hash : ℕ) (db : Database)
      → OnOk
          (λ r d. Accepts o command hash db.journal d.journal r)
          (perform o command blobs hash db)
  unfolding perform
  perform-Accepts blobs hash db =
      let log =
        insert_log o info command.project_id command.activity_id (some command.session_id) none
          command.correlation_id in
      OnOk->>= (λ (p : Event × Option Moved) d. Appends db.journal d.journal p.0) _
        (dispatch o command blobs command.request) _ db
        (dispatch-Appends o command blobs command.request db)
        λ p d1 h1.
          OnOk->>= _ _ (in_journal (insert_outbox o p.0)) _ d1
            (in_journal-ok (insert_outbox o p.0) d1)
            λ u2 d2 h2.
              OnOk->>= _ _ (in_journal (insert_receipt o command.command_id hash p.0)) _ d2
                (in_journal-ok (insert_receipt o command.command_id hash p.0) d2)
                λ u3 d3 h3.
                  OnOk->>= (λ _ d. d.journal ≡ d3.journal) _ (record_transition o command p.0 p.1) _
                    d3 (record_transition-journal p.0 p.1 d3)
                    λ _ d4 h4. OnOk->>= _ _ (in_journal log) _ d4 (in_journal-ok log d4) λ u5 d5 h5.
                      chain o command hash p.0 db.journal d1.journal d2.journal d3.journal
                        d4.journal d5.journal h1
                        (insert_outbox-ok o p.0 d1.journal d2.journal u2 h2)
                        (insert_receipt-ok o command.command_id hash p.0 d2.journal d3.journal u3
                          h3)
                        h4
                        (insert_log-ok o info command.project_id command.activity_id
                          (some command.session_id) none command.correlation_id d4.journal
                          d5.journal u5 h5)
