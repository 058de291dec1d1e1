-- ===== src/Domain/Messages/Receipts.antt =====
-- What a receipt command has done when it succeeds.
use open_quant_studio.Base.{ap, ◌∙◌, ◌+◌, ◌≡◌, refl, Bool, true, some, arith}
use open_quant_studio.Domain.Table.{find?, update, count_rows, find?-holds, find?-update}
use open_quant_studio.Domain.Outcome.{ok}
use open_quant_studio.Domain.Journal.{insert_event, Event, Outside, ReceiptState}
use open_quant_studio.Domain.Database.{
  Receipt, Message, Database, Fabric, ReceiptMove, ReceiptPayload, Command,
}
use open_quant_studio.Domain.Sessions.{session_draft}
use open_quant_studio.Domain.Sessions.Active.{validate-cases}
use open_quant_studio.Domain.Messages.{
  Moved, transition_message_receipt, is_target, advanced, payload_state, required_state, next_state,
  is_receipt, is_message, state_eq,
}

state_eq→eq : (a b : ReceiptState) → state_eq a b ≡ true → a ≡ b
state_eq→eq a b h = ground arith

module _ (o : Outside) (command : Command) (move : ReceiptMove) (payload : ReceiptPayload) where
  abbrev key : Receipt → Bool
  key = is_receipt payload.message_id command.project_id command.activity_id

  -- The tests that a successful call has passed.
  pub transition-needs :
      (db : Database) (event : Event) (moved : Moved) (db' : Database)
      → transition_message_receipt o command move payload db ≡ ok ((event, moved), db')
      → (row : Message) × (r : Receipt) × (find?
            (is_message payload.message_id command.project_id command.activity_id)
            db.fabric.session_messages
          ≡ some row)
        × (find? key db.fabric.message_receipts ≡ some r)
        × (row.recipient_session_id ≡ command.session_id)
        × (row.correlation_id ≡ command.correlation_id)
        × (payload.expected_state ≡ required_state move)
        × (r.state ≡ required_state move)
        × (r.version ≡ payload.expected_version)
  unfolding transition_message_receipt
  transition-needs db event moved db' h = ground arith

  -- The tables that it has written.
  pub transition-writes :
      (db : Database) (event : Event) (moved : Moved) (db' : Database) (r : Receipt)
      → transition_message_receipt o command move payload db ≡ ok ((event, moved), db')
      → find? key db.fabric.message_receipts ≡ some r
      → (db'.fabric ≡ record (db.fabric) {
        message_receipts =
            update
              (is_target o command move payload)
              (advanced o command move payload (r.version + 1))
              db.fabric.message_receipts;
      })
        × (count_rows (is_target o command move payload) db.fabric.message_receipts ≡ 1)
        × (moved ≡ record {
          message_id = payload.message_id;
          from_state = required_state move;
          expected_version = payload.expected_version;
          resulting_version = r.version + 1;
        })
  unfolding transition_message_receipt
  transition-writes db event moved db' r h e = ground (arith, validate-cases command db)

  pub transition-payload :
      (db : Database) (event : Event) (moved : Moved) (db' : Database)
      → transition_message_receipt o command move payload db ≡ ok ((event, moved), db')
      → payload_state event.payload ≡ some (next_state move)
  unfolding transition_message_receipt insert_event session_draft
  transition-payload db event moved db' h = ground arith

  is_target-needs :
      (r : Receipt)
      → key r ≡ true
      → r.state ≡ required_state move
      → r.version ≡ payload.expected_version
      → is_target o command move payload r ≡ true
  is_target-needs r k s v = ground arith

  -- When a receipt command succeeds, the message's receipt was at the state and the version that the
  -- command requires and expects, and it is afterwards at the next state, one version later.
  pub transition-advances :
      (db : Database) (event : Event) (moved : Moved) (db' : Database)
      → transition_message_receipt o command move payload db ≡ ok ((event, moved), db')
      → (r : Receipt) × (find? key db.fabric.message_receipts ≡ some r)
        × (r.state ≡ required_state move)
        × (r.version ≡ payload.expected_version)
        × (find? key db'.fabric.message_receipts
            ≡ some
                (record r { state = next_state move; version = r.version + 1; updated_at = o.now }))
  transition-advances db event moved db' h =
      let (row, r, found_row, found, recipient, correlation, expected, state, version) =
        transition-needs db event moved db' h in
      let (written, count, m) = transition-writes db event moved db' r h found in
      let target = is_target-needs r (find?-holds key _ r found) state version in
      (
        r,
        found,
        state,
        version,
        ap (λ (f : Fabric). find? key f.message_receipts) written
            ∙ find?-update key (is_target o command move payload)
                (advanced o command move payload (r.version + 1)) db.fabric.message_receipts r
                (λ x. refl) found target,
      )
