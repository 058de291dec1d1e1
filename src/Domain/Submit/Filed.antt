-- ===== src/Domain/Submit/Filed.antt =====
-- The receipt that an answered session command leaves on file.
use open_quant_studio.Base.{
  ℕ, ◌≡◌, refl, sym, ap, ◌∙◌, true, Bool, Option, none, some, List, [], ◌∷◌, ◌++◌, arith,
}
use open_quant_studio.Domain.Table.{find?, find?-snoc, find?-holds}
use open_quant_studio.Domain.Outcome.{Result, ok, err, OnOk}
use open_quant_studio.Domain.Journal.{CommandReceipt, Outside}
use open_quant_studio.Domain.Database.{Database, Command}
use open_quant_studio.Domain.Attachments.{Blobs}
use open_quant_studio.Domain.Submit.{
  returns, Response, answer, commit, perform, of_command, submit_session_command,
}
use open_quant_studio.Domain.Submit.Journaled.{Accepts, perform-Accepts}

-- A session command, with what is staged and what comes from outside when it is sent.
pub record Submission : Type 0 where
  pub blobs : Blobs
  pub outside : Outside
  pub command : Command

-- The database after session commands, one after the other.
abbrev pub submit_all : (Command → ℕ) → List Submission → Database → Database
submit_all hash [] db = db
submit_all hash (s ∷ later) db =
    submit_all hash later (submit_session_command hash s.blobs s.outside s.command db).1

module _ {ℓ} {R : Type ℓ} where
  -- What a SELECT has found, it finds after an INSERT.
  find?-stays :
      (p : R → Bool) (t : List R) (x r : R) → find? p t ≡ some r → find? p (t ++ x ∷ []) ≡ some r
  find?-stays p [] x r h = absurd (ground arith)
  find?-stays p (y ∷ t) x r h = ground (arith, find?-stays p t x r)

module _ (hash : Command → ℕ) (command_id : ℕ) (receipt : CommandReceipt) where
  unfoldable pub IsFiled : Database → Type 0
  IsFiled d = find? (of_command command_id) d.journal.command_receipts ≡ some receipt

  commit-IsFiled :
      (o : Outside) (command : Command) (db : Database) (p : Result (Response × Database))
      → OnOk (λ r d. Accepts o command (hash command) db.journal d.journal r) p
      → IsFiled db
      → IsFiled (commit db p).1
  unfolding IsFiled
  commit-IsFiled o command db (ok (r, d)) a on_file = rw a.receipts (
      find?-stays (of_command command_id) db.journal.command_receipts
        (record {
          command_id = command.command_id;
          command_hash = hash command;
          event = r.event;
          recorded_at = o.now;
        })
        receipt on_file)
  commit-IsFiled o command db (err e) a on_file = on_file

  answer-IsFiled :
      (blobs : Blobs) (o : Outside) (command : Command) (db : Database)
      (existing : Option CommandReceipt)
      → IsFiled db
      → IsFiled (answer hash blobs o command db existing).1
  unfolding answer
  answer-IsFiled blobs o command db (some existing) on_file = on_file
  answer-IsFiled blobs o command db none on_file =
      commit-IsFiled o command db (perform o command blobs (hash command) db)
        (perform-Accepts o command blobs (hash command) db) on_file

  pub submit_all-IsFiled :
      (later : List Submission) (db : Database) → IsFiled db → IsFiled (submit_all hash later db)
  unfolding submit_session_command
  submit_all-IsFiled [] db on_file = on_file
  submit_all-IsFiled (s ∷ later) db on_file =
      submit_all-IsFiled later (submit_session_command hash s.blobs s.outside s.command db).1 (
        answer-IsFiled s.blobs s.outside s.command db
          (find? (of_command s.command.command_id) db.journal.command_receipts) on_file)

module _ (hash : Command → ℕ) (blobs : Blobs) (o : Outside) (command : Command)
    (db : Database) where
  -- The receipt on file once a command has been answered.
  unfoldable pub HasReceipt : Response → Database → Type 0
  HasReceipt r d =
      (receipt : CommandReceipt) × (find? (of_command command.command_id) d.journal.command_receipts
        ≡ some receipt)
      × (receipt.command_id ≡ command.command_id)
      × (receipt.command_hash ≡ hash command)
      × (receipt.event ≡ r.event)

  filed : Response → CommandReceipt
  filed r = record {
    command_id = command.command_id;
    command_hash = hash command;
    event = r.event;
    recorded_at = o.now;
  }

  commit-HasReceipt :
      (p : Result (Response × Database)) (r : Response) (d : Database)
      → find? (of_command command.command_id) db.journal.command_receipts ≡ none
      → OnOk (λ r d. Accepts o command (hash command) db.journal d.journal r) p
      → commit db p ≡ (returns r, d)
      → HasReceipt r d
  unfolding HasReceipt filed
  commit-HasReceipt (ok (r', d')) r d absent a e =
      let same : r' ≡ r = cc in
      let same_db : d' ≡ d = cc in
      let here : of_command command.command_id (filed r') ≡ true = ground arith in
      (
        filed r',
        ap (λ (x : Database). find? (of_command command.command_id) x.journal.command_receipts)
              (sym same_db)
            ∙ ap (find? (of_command command.command_id)) a.receipts
            ∙ find?-snoc (of_command command.command_id) db.journal.command_receipts (filed r')
                absent here,
        refl,
        refl,
        ap (λ (x : Response). x.event) same,
      )
  commit-HasReceipt (err x) r d absent a e = absurd (ground arith)

  pub answer-HasReceipt :
      (receipt : Option CommandReceipt) (r : Response) (d : Database)
      → find? (of_command command.command_id) db.journal.command_receipts ≡ receipt
      → answer hash blobs o command db receipt ≡ (returns r, d)
      → HasReceipt r d
  unfolding HasReceipt answer
  answer-HasReceipt (some existing) r d found e = (
    existing,
    ground (arith, found),
    ground (arith, find?-holds (of_command command.command_id) _ existing found),
    ground arith,
    ground arith,
  )
  answer-HasReceipt none r d found e =
      commit-HasReceipt (perform o command blobs (hash command) db) r d found
        (perform-Accepts o command blobs (hash command) db) e
