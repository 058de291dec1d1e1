-- ===== src/Domain/Submit/Lawful.antt =====
-- The law of receipts, under the commands of sessions.
use open_quant_studio.Base.{◌++◌, sym, ◌∙◌, ℕ, ◌≡◌, Option, none, some, [], ◌∷◌, arith}
use open_quant_studio.Domain.Table.{All-snoc}
use open_quant_studio.Domain.Outcome.{Action, Result, ok, err, OnOk, OnOk->>=, OnOk-of-ok}
use open_quant_studio.Domain.Journal.{
  CommandReceipt, ReceiptState, Event, Outside, Journal, info, insert_outbox, insert_receipt,
  insert_log,
}
use open_quant_studio.Domain.Database.{
  Transition, Database, Fabric, Command, Request, session_register, session_workbench_bind,
  session_message_send, session_message_reply, session_receipt, in_journal,
}
use open_quant_studio.Domain.Sessions.{register_session, bind_workbench}
use open_quant_studio.Domain.Attachments.{Blobs}
use open_quant_studio.Domain.Messages.{
  payload_state, Moved, queue_message, transition_message_receipt,
}
use open_quant_studio.Domain.Submit.{
  Response, answer, commit, dispatch, record_transition, perform, submit_session_command,
}
use open_quant_studio.Domain.Submit.ReceiptLaw.{
  IsLawful, IsPending, IsStep, same-IsPending, queue-IsPending, transition-IsPending,
  register-fabric, bind-fabric, count_rows-snoc,
}

in_journal-OnOk :
    {A : Type 0} (P : Fabric → Type 0) (m : Action Journal A) (db : Database)
    → P db.fabric
    → OnOk (λ _ (d : Database). P d.fabric) (in_journal m db)
in_journal-OnOk {A} P m db h = go (m db.journal)
  where
    go :
        (r : Result (A × Journal))
        → OnOk
            (λ _ (d : Database). P d.fabric)
            (elim r [ ok (a, j) ↦ ok (a, record db { journal = j }) | err e ↦ err e ])
    go (ok (a, j)) = h
    go (err e) = tt

module _ (o : Outside) (command : Command) where
  dispatch-IsPending :
      (blobs : Blobs) (request : Request) (db : Database)
      → IsLawful db.fabric
      → OnOk
          (λ (p : Event × Option Moved) d. IsPending p.0 p.1 d.fabric)
          (dispatch o command blobs request db)
  unfolding dispatch
  dispatch-IsPending blobs (session_register pi_session_id session_uri) db law =
      OnOk->>= (λ event d. IsPending event none d.fabric) _
        (register_session o command pi_session_id session_uri) _ db
        (OnOk-of-ok _ _ λ event d h.
          let (e, e') = register-fabric o command pi_session_id session_uri db event d h in
          same-IsPending event db.fabric d.fabric law e e')
        (λ event d h. h)
  dispatch-IsPending blobs (session_workbench_bind workbench_id) db law =
      OnOk->>= (λ event d. IsPending event none d.fabric) _ (bind_workbench o command workbench_id)
        _ db
        (OnOk-of-ok _ _ λ event d h.
          let (e, e') = bind-fabric o command workbench_id db event d h in
          same-IsPending event db.fabric d.fabric law e e')
        (λ event d h. h)
  dispatch-IsPending blobs (session_message_send payload) db law =
      OnOk->>= (λ event d. IsPending event none d.fabric) _ (queue_message o command blobs payload)
        _ db (OnOk-of-ok _ _ λ event d h. queue-IsPending o command blobs payload db event d law h)
        (λ event d h. h)
  dispatch-IsPending blobs (session_message_reply payload) db law =
      OnOk->>= (λ event d. IsPending event none d.fabric) _ (queue_message o command blobs payload)
        _ db (OnOk-of-ok _ _ λ event d h. queue-IsPending o command blobs payload db event d law h)
        (λ event d h. h)
  dispatch-IsPending blobs (session_receipt move payload) db law =
      OnOk->>= (λ (p : Event × Moved) d. IsPending p.0 (some p.1) d.fabric) _
        (transition_message_receipt o command move payload) _ db
        (OnOk-of-ok _ _ λ p d h. transition-IsPending o command move payload db p.0 p.1 d law h)
        (λ p d h. h)

  row_of : Event → ReceiptState → Moved → Transition
  row_of event s x = record {
    transition_id = o.fresh_transition_id;
    message_id = x.message_id;
    from_state = x.from_state;
    to_state = s;
    expected_version = x.expected_version;
    resulting_version = x.resulting_version;
    command_id = command.command_id;
    event_id = event.event_id;
  }

  record_transition-writes :
      (event : Event) (s : ReceiptState) (x : Moved) (db d : Database) (u : Unit {0})
      → payload_state event.payload ≡ some s
      → record_transition o command event (some x) db ≡ ok (u, d)
      → (d.fabric.message_receipts ≡ db.fabric.message_receipts)
        × (d.fabric.message_receipt_transitions
            ≡ db.fabric.message_receipt_transitions ++ row_of event s x ∷ [])
  unfolding record_transition row_of
  record_transition-writes event s x db d u e h = ground arith

  record_transition-IsLawful :
      (event : Event) (moved : Option Moved) (db : Database)
      → IsPending event moved db.fabric
      → OnOk (λ _ d. IsLawful d.fabric) (record_transition o command event moved db)
  unfolding record_transition row_of
  record_transition-IsLawful event none db h = record {
    ranked = h.ranked;
    stepped = h.stepped;
    logged = λ m. omega (arith, h.logged m);
  }
  record_transition-IsLawful event (some x) db h =
      OnOk-of-ok (λ _ d. IsLawful d.fabric) (record_transition o command event (some x) db)
        λ u d e.
          let (s, state, departs, arrives, follows) = h.owed in
          let (same, written) = record_transition-writes event s x db d u state e in
          record {
            ranked = rw same h.ranked;
            stepped = rw written (
                All-snoc IsStep db.fabric.message_receipt_transitions (row_of event s x) h.stepped
                  (record { departs = departs; arrives = arrives; follows = follows }));
            logged = λ m.
                rw (same, written)
                  (h.logged m
                    ∙ sym (
                        count_rows-snoc _ db.fabric.message_receipt_transitions
                          (row_of event s x)));
          }

  perform-IsLawful :
      (blobs : Blobs) (command_hash : ℕ) (db : Database)
      → IsLawful db.fabric
      → OnOk (λ _ d. IsLawful d.fabric) (perform o command blobs command_hash db)
  unfolding perform
  perform-IsLawful blobs command_hash db law =
      let log =
        insert_log o info command.project_id command.activity_id (some command.session_id) none
          command.correlation_id in
      OnOk->>= (λ (p : Event × Option Moved) d. IsPending p.0 p.1 d.fabric) _
        (dispatch o command blobs command.request) _ db
        (dispatch-IsPending blobs command.request db law)
        λ p d h.
          OnOk->>= (λ _ d. IsPending p.0 p.1 d.fabric) _ (in_journal (insert_outbox o p.0)) _ d
            (in_journal-OnOk (IsPending p.0 p.1) (insert_outbox o p.0) d h)
            λ _ d h.
              OnOk->>= (λ _ d. IsPending p.0 p.1 d.fabric) _
                (in_journal (insert_receipt o command.command_id command_hash p.0)) _ d
                (in_journal-OnOk (IsPending p.0 p.1)
                  (insert_receipt o command.command_id command_hash p.0) d h)
                λ _ d h.
                  OnOk->>= (λ _ d. IsLawful d.fabric) _ (record_transition o command p.0 p.1) _ d
                    (record_transition-IsLawful p.0 p.1 d h)
                    λ _ d h.
                      OnOk->>= (λ _ d. IsLawful d.fabric) _ (in_journal log) _ d
                        (in_journal-OnOk IsLawful log d h) (λ _ d h. h)

commit-IsLawful :
    (db : Database) (r : Result (Response × Database))
    → IsLawful db.fabric
    → OnOk (λ _ d. IsLawful d.fabric) r
    → IsLawful (commit db r).1.fabric
commit-IsLawful db (ok (a, d)) law h = h
commit-IsLawful db (err e) law h = law

answer-IsLawful :
    (hash : Command → ℕ) (blobs : Blobs) (o : Outside) (command : Command) (db : Database)
    (receipt : Option CommandReceipt)
    → IsLawful db.fabric
    → IsLawful (answer hash blobs o command db receipt).1.fabric
unfolding answer
answer-IsLawful hash blobs o command db (some existing) law = law
answer-IsLawful hash blobs o command db none law =
    commit-IsLawful db (perform o command blobs (hash command) db) law
      (perform-IsLawful o command blobs (hash command) db law)

-- Any session command, accepted, replayed or refused, keeps the law of receipts: each receipt's
-- version is the number of steps from `queued` to its state, the versions of a message's receipt are
-- as many as the transitions on record for the message, and every transition on record leads from a
-- state to the next one, at the versions of the two.
pub submit-IsLawful :
    (hash : Command → ℕ) (blobs : Blobs) (o : Outside) (command : Command) (db : Database)
    → IsLawful db.fabric
    → IsLawful (submit_session_command hash blobs o command db).1.fabric
unfolding submit_session_command
submit-IsLawful hash blobs o command db = answer-IsLawful hash blobs o command db _
