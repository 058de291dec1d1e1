-- ===== src/Domain/Revise.antt =====
-- domain.py: `_submit_revision_command` for the commands that create a variant and that promote a
-- revision. The two other commands call git and are not modelled.
pub mod Graph
pub mod Tests
use open_quant_studio.Base.{
  ℕ, ◌+◌, ◌==◌, ◌&&◌, ◌||◌, not, Bool, true, false, Option, none, some, List, [], ◌∷◌, ◌++◌,
  if◌then◌else◌,
}
use open_quant_studio.Domain.Table.{find?, exists?}
use open_quant_studio.Domain.Outcome.{
  Action, Result, Error, ok, err, revision_conflict, integrity_error, gets, modify, raise_if, raise,
  pure, ◌>>=◌, ◌>>◌,
}
use open_quant_studio.Domain.Journal.{
  Event, CommandReceipt, Journal, Outside, info, insert_outbox, insert_receipt, insert_log,
}
use open_quant_studio.Domain.Database.{Database, in_journal}
use open_quant_studio.Domain.Submit.{
  Response, accepted, Answer, returns, raises, replay, of_command,
}
use open_quant_studio.Domain.RevisionTables.{
  Workspace, PastHead, Promotion, PromotionValidation, RevisionCommand, RevisionRequest,
  variant_create, revision_promote, in_database,
}
use open_quant_studio.Domain.Revisions.{HeadMove, was_head, create_variant, promote_revision}

-- `uuid5` is the identifier of a promotion, made from its command's.
module _ (uuid5 : ℕ → ℕ) (o : Outside) (command : RevisionCommand) where
  -- INSERT INTO project_revision_head_history, with the keys of the table.
  unfoldable pub insert_past_head : ℕ → ℕ → Event → Action Workspace (Unit {0})
  insert_past_head head_revision_id head_version event = do
    w ← gets (λ w. w)
    raise_if
        (exists?
          (λ r.
            was_head command.project_id head_revision_id r
            || (r.project_id == command.project_id && r.head_version == head_version)
            || r.command_id == command.command_id
            || r.event_id == event.event_id)
          w.project_revision_head_history)
        integrity_error
    modify (λ w. record w {
      project_revision_head_history =
          w.project_revision_head_history
          ++ record {
            project_id = command.project_id;
            head_revision_id = head_revision_id;
            head_version = head_version;
            command_id = command.command_id;
            event_id = event.event_id;
          }
            ∷ [];
    })

  -- INSERT INTO revision_promotions, with its keys and the CHECK of its versions.
  insert_promotion : HeadMove → Event → Action Workspace (Unit {0})
  insert_promotion move event = do
    w ← gets (λ w. w)
    raise_if
        (exists?
            (λ (p : Promotion).
              p.promotion_id == uuid5 command.command_id
              || p.command_id == command.command_id
              || p.event_id == event.event_id)
            w.revision_promotions
          || not (move.resulting_head_version == move.previous_head_version + 1))
        integrity_error
    modify (λ w. record w {
      revision_promotions =
          w.revision_promotions
          ++ record {
            promotion_id = uuid5 command.command_id;
            project_id = command.project_id;
            variant_id = command.variant_id;
            previous_revision_id = move.previous_revision_id;
            promoted_revision_id = move.promoted_revision_id;
            previous_head_version = move.previous_head_version;
            resulting_head_version = move.resulting_head_version;
            command_id = command.command_id;
            event_id = event.event_id;
          }
            ∷ [];
    })

  insert_promotion_validation : ℕ → Action Workspace (Unit {0})
  insert_promotion_validation validation_id = do
    w ← gets (λ w. w)
    raise_if
        (exists?
          (λ (v : PromotionValidation).
            v.promotion_id == uuid5 command.command_id || v.validation_id == validation_id)
          w.revision_promotion_validations)
        integrity_error
    modify (λ w. record w {
      revision_promotion_validations =
          w.revision_promotion_validations
          ++ record { promotion_id = uuid5 command.command_id; validation_id = validation_id } ∷ [];
    })

  -- The outbox row and the receipt, which every command writes.
  unfoldable pub publish : ℕ → Event → Action Workspace (Unit {0})
  publish command_hash event = do
    in_database (in_journal (insert_outbox o event))
    in_database (in_journal (insert_receipt o command.command_id command_hash event))

  unfoldable pub record_log : Action Workspace (Unit {0})
  record_log = in_database (
      in_journal (
        insert_log o info command.project_id command.activity_id (some command.session_id) none
          command.correlation_id))

  -- `if head_change is not None:` and `if promotion is not None:`
  unfoldable pub record_promotion : ℕ → HeadMove → Event → Action Workspace (Unit {0})
  unfolding insert_promotion insert_promotion_validation
  record_promotion validation_id move event = do
    insert_past_head move.promoted_revision_id move.resulting_head_version event
    insert_promotion move event
    insert_promotion_validation validation_id

  -- The body of the `try`, for each of the two commands.
  unfoldable pub perform_revision : ℕ → RevisionRequest → Action Workspace Response
  perform_revision command_hash variant_create = do
    event ← create_variant o command
    publish command_hash event
    record_log
    pure (record { command_id = command.command_id; disposition = accepted; event = event })
  perform_revision command_hash (revision_promote candidate_revision_id validation_id) = do
    (event, move) ← promote_revision o command candidate_revision_id validation_id
    publish command_hash event
    record_promotion validation_id move event
    record_log
    pure (record { command_id = command.command_id; disposition = accepted; event = event })

-- An IntegrityError is raised anew as a RevisionConflict.
abbrev pub reraised_revision : Error → Error
reraised_revision integrity_error = revision_conflict
reraised_revision e = e

abbrev pub commit_revision : Workspace → Result (Response × Workspace) → Answer × Workspace
commit_revision w (ok (response, w')) = (returns response, w')
commit_revision w (err e) = (raises (reraised_revision e), w)

module _ (uuid5 : ℕ → ℕ) (hash : RevisionCommand → ℕ) (o : Outside) (command : RevisionCommand)
    (w : Workspace) where
  unfoldable pub answer_revision : Option CommandReceipt → Answer × Workspace
  answer_revision (some existing) = (replay (hash command) existing, w)
  answer_revision none =
      commit_revision w (perform_revision uuid5 o command (hash command) command.request w)

  unfoldable pub submit_revision_command : Answer × Workspace
  unfolding answer_revision
  submit_revision_command =
      answer_revision (find? (of_command command.command_id) w.database.journal.command_receipts)
