-- ===== src/Domain/Submit/ReceiptLaw.antt =====
-- The law of receipts: a message's receipt, its steps and its transitions on record.
use open_quant_studio.Base.{
  sym, ap, ◌∙◌, ℕ, ◌+◌, ◌==◌, ◌≡◌, refl, Bool, Option, none, some, List, [], ◌∷◌, ◌++◌, arith,
  if◌then◌else◌, All,
}
use open_quant_studio.Domain.Table.{update, count_rows, find?-All, All-update, All-snoc}
use open_quant_studio.Domain.Outcome.{ok}
use open_quant_studio.Domain.Journal.{
  Event, Outside, ReceiptState, queued, receiver_received, injected, acknowledged, Uri,
}
use open_quant_studio.Domain.Database.{
  Receipt, Transition, Database, Fabric, ReceiptMove, ReceiptPayload, MessagePayload, Command,
  message_receive, message_mark_injected, message_acknowledge,
}
use open_quant_studio.Domain.Sessions.{register_session, bind_workbench}
use open_quant_studio.Domain.Sessions.Active.{validate-cases}
use open_quant_studio.Domain.Attachments.{Blobs}
use open_quant_studio.Domain.Messages.{
  Moved, queue_message, transition_message_receipt, is_target, advanced, required_state, next_state,
  payload_state,
}
use open_quant_studio.Domain.Messages.Frames.{
  validate_source_refs-cases, check_reply-cases, register_message_artifact-cases,
}
use open_quant_studio.Domain.Messages.Receipts.{
  transition-needs, transition-writes, transition-payload,
}

-- queued → receiver_received → injected → acknowledged
abbrev pub rank : ReceiptState → ℕ
rank queued = 0
rank receiver_received = 1
rank injected = 2
rank acknowledged = 3

-- The versions of the rows of one message, added up; `message_id` is the key of the table.
abbrev pub version_of : ℕ → List Receipt → ℕ
version_of m [] = 0
version_of m (r ∷ t) = (if r.message_id == m then r.version else 0) + version_of m t

abbrev pub transitions_of : ℕ → List Transition → ℕ
transitions_of m = count_rows (λ (t : Transition). t.message_id == m)

pub record IsStep (t : Transition) : Type 0 where
  pub departs : t.expected_version ≡ rank t.from_state
  pub arrives : t.resulting_version ≡ rank t.to_state
  pub follows : t.resulting_version ≡ t.expected_version + 1

pub record IsLawful (f : Fabric) : Type 0 where
  pub ranked : All (λ (r : Receipt). r.version ≡ rank r.state) f.message_receipts
  pub stepped : All IsStep f.message_receipt_transitions
  pub logged :
      (m : ℕ) → version_of m f.message_receipts ≡ transitions_of m f.message_receipt_transitions

version_of-snoc :
    (m : ℕ) (t : List Receipt) (r : Receipt)
    → version_of m (t ++ r ∷ []) ≡ version_of m t + (if r.message_id == m then r.version else 0)
version_of-snoc m [] r = omega arith
version_of-snoc m (x ∷ t) r = omega (arith, version_of-snoc m t r)

pub count_rows-snoc {ℓ} :
    {R : Type ℓ} (p : R → Bool) (t : List R) (r : R)
    → count_rows p (t ++ r ∷ []) ≡ count_rows p t + (if p r then 1 else 0)
count_rows-snoc p [] r = omega arith
count_rows-snoc p (x ∷ t) r = omega (arith, count_rows-snoc p t r)

module _ (o : Outside) (command : Command) where
  pub register-fabric :
      (pi_session_id : ℕ) (session_uri : Uri) (db : Database) (event : Event) (db' : Database)
      → register_session o command pi_session_id session_uri db ≡ ok (event, db')
      → (db'.fabric.message_receipts ≡ db.fabric.message_receipts)
        × (db'.fabric.message_receipt_transitions ≡ db.fabric.message_receipt_transitions)
  unfolding register_session
  register-fabric pi_session_id session_uri db event db' h = ground arith

  pub bind-fabric :
      (workbench_id : ℕ) (db : Database) (event : Event) (db' : Database)
      → bind_workbench o command workbench_id db ≡ ok (event, db')
      → (db'.fabric.message_receipts ≡ db.fabric.message_receipts)
        × (db'.fabric.message_receipt_transitions ≡ db.fabric.message_receipt_transitions)
  unfolding bind_workbench
  bind-fabric workbench_id db event db' h = ground arith

  queue-fabric :
      (blobs : Blobs) (payload : MessagePayload) (db : Database) (event : Event) (db' : Database)
      → queue_message o command blobs payload db ≡ ok (event, db')
      → (db'.fabric.message_receipts
          ≡ db.fabric.message_receipts
            ++ record {
              message_id = payload.message_id;
              project_id = command.project_id;
              activity_id = command.activity_id;
              state = queued;
              version = 0;
              updated_at = o.now;
            }
              ∷ [])
        × (db'.fabric.message_receipt_transitions ≡ db.fabric.message_receipt_transitions)
  unfolding queue_message
  queue-fabric blobs payload db event db' h = ground (
    arith,
    validate-cases command db,
    validate_source_refs-cases blobs command payload.source_refs db,
    check_reply-cases command payload.recipient_session_id payload.reply_to db,
    register_message_artifact-cases blobs payload.artifact db.fabric,
  )

module _ (o : Outside) (command : Command) (move : ReceiptMove) (payload : ReceiptPayload) where
  -- The UPDATE raises the version of one row, which is the message's.
  version_of-update :
      (m v : ℕ) (t : List Receipt)
      → v ≡ payload.expected_version + 1
      → version_of m
          (update (is_target o command move payload) (advanced o command move payload v) t)
        ≡ version_of m t
          + (if payload.message_id == m then count_rows (is_target o command move payload) t else 0)
  version_of-update m v [] e = ground arith
  version_of-update m v (r ∷ t) e = ground (arith, version_of-update m v t e)

  move_ranks : (rank (next_state move) ≡ rank (required_state move) + 1)
  move_ranks = elim move as (λ move. rank (next_state move) ≡ rank (required_state move) + 1) [
    | message_receive ↦ refl
    | message_mark_injected ↦ refl
    | message_acknowledge ↦ refl
  ]

  -- What `_transition_message_receipt` leaves for `record_transition` to complete.
  transition-fabric :
      (db : Database) (event : Event) (moved : Moved) (db' : Database)
      → IsLawful db.fabric
      → transition_message_receipt o command move payload db ≡ ok ((event, moved), db')
      → All (λ (r : Receipt). r.version ≡ rank r.state) db'.fabric.message_receipts
        × (db'.fabric.message_receipt_transitions ≡ db.fabric.message_receipt_transitions)
        × ((m : ℕ)
            → version_of m db'.fabric.message_receipts
              ≡ version_of m db.fabric.message_receipts
                + (if payload.message_id == m then 1 else 0))
        × (moved.message_id ≡ payload.message_id)
        × (moved.from_state ≡ required_state move)
        × (moved.expected_version ≡ rank moved.from_state)
        × (moved.resulting_version ≡ moved.expected_version + 1)
  transition-fabric db event moved db' law h =
      let (row, r, found_row, found, recipient, correlation, expected, state, version) =
        transition-needs o command move payload db event moved db' h in
      let (written, count, shown) =
        transition-writes o command move payload db event moved db' r h found in
      let ranked : r.version ≡ rank (required_state move) =
        find?-All (λ (x : Receipt). x.version ≡ rank x.state) _ db.fabric.message_receipts r
          law.ranked found
        ∙ ap rank state in
      let target = is_target o command move payload in
      let set = advanced o command move payload (r.version + 1) in
      (
        rw written (
            All-update (λ (x : Receipt). x.version ≡ rank x.state) target set
              db.fabric.message_receipts (λ x hit old. omega (arith, ranked, move_ranks))
              law.ranked),
        ap (λ (f : Fabric). f.message_receipt_transitions) written,
        (λ m. rw written (
            version_of-update m (r.version + 1) db.fabric.message_receipts (omega arith)
            ∙ rw count refl)),
        ap (λ (x : Moved). x.message_id) shown,
        ap (λ (x : Moved). x.from_state) shown,
        rw shown (sym version ∙ ranked),
        rw shown (ap (λ k. k + 1) version),
      )

-- What an accepted transition still owes to `message_receipt_transitions`.
abbrev pub Owed : Event → Option Moved → Type 0
Owed event none = Unit
Owed event (some x) =
    (s : ReceiptState) × (payload_state event.payload ≡ some s)
    × (x.expected_version ≡ rank x.from_state)
    × (x.resulting_version ≡ rank s)
    × (x.resulting_version ≡ x.expected_version + 1)

abbrev pub owed_to : ℕ → Option Moved → ℕ
owed_to m none = 0
owed_to m (some x) = if x.message_id == m then 1 else 0

pub record IsPending (event : Event) (moved : Option Moved) (f : Fabric) : Type 0 where
  pub ranked : All (λ (r : Receipt). r.version ≡ rank r.state) f.message_receipts
  pub stepped : All IsStep f.message_receipt_transitions
  pub logged :
      (m : ℕ)
      → version_of m f.message_receipts
        ≡ transitions_of m f.message_receipt_transitions + owed_to m moved
  pub owed : Owed event moved

pub same-IsPending :
    (event : Event) (f f' : Fabric)
    → IsLawful f
    → f'.message_receipts ≡ f.message_receipts
    → f'.message_receipt_transitions ≡ f.message_receipt_transitions
    → IsPending event none f'
same-IsPending event f f' law e e' = record {
  ranked = rw e law.ranked;
  stepped = rw e' law.stepped;
  logged = λ m. rw (e, e') (omega (arith, law.logged m));
  owed = tt;
}

module _ (o : Outside) (command : Command) where
  pub queue-IsPending :
      (blobs : Blobs) (payload : MessagePayload) (db : Database) (event : Event) (db' : Database)
      → IsLawful db.fabric
      → queue_message o command blobs payload db ≡ ok (event, db')
      → IsPending event none db'.fabric
  queue-IsPending blobs payload db event db' law h =
      let (e, e') = queue-fabric o command blobs payload db event db' h in
      record {
        ranked = rw e (All-snoc _ db.fabric.message_receipts _ law.ranked refl);
        stepped = rw e' law.stepped;
        logged = λ m.
            rw (e, e')
              (version_of-snoc m db.fabric.message_receipts _ ∙ ground (arith, law.logged m));
        owed = tt;
      }

  pub transition-IsPending :
      (move : ReceiptMove) (payload : ReceiptPayload) (db : Database) (event : Event)
      (moved : Moved) (db' : Database)
      → IsLawful db.fabric
      → transition_message_receipt o command move payload db ≡ ok ((event, moved), db')
      → IsPending event (some moved) db'.fabric
  transition-IsPending move payload db event moved db' law h =
      let (ranked, e, counts, named, from, departs, follows) =
        transition-fabric o command move payload db event moved db' law h in
      record {
        ranked = ranked;
        stepped = rw e law.stepped;
        logged = λ m. counts m ∙ rw (e, named) (omega (arith, law.logged m));
        owed = (
          next_state move,
          transition-payload o command move payload db event moved db' h,
          departs,
          omega (arith, move_ranks o command move payload, ap rank from),
          follows,
        );
      }
