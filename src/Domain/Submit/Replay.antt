-- ===== src/Domain/Submit/Replay.antt =====
-- Session commands that come again, and the law of the journal.
use open_quant_studio.Base.{
  ℕ, ◌==◌, ◌≤◌, ◌<◌, ◌≡◌, refl, sym, ap, ◌∙◌, Option, none, some, List, [], ◌∷◌, ◌++◌, map, arith,
  if◌then◌else◌,
}
use open_quant_studio.Domain.Outcome.{Result, ok, err, OnOk, command_id_conflict}
use open_quant_studio.Domain.Journal.{Event, Journal, CommandReceipt, Outside}
use open_quant_studio.Domain.Database.{Database, Command}
use open_quant_studio.Domain.Attachments.{Blobs}
use open_quant_studio.Domain.Submit.{
  returns, raises, Response, replayed, answer, commit, perform, submit_session_command,
}
use open_quant_studio.Domain.Submit.Filed.{
  Submission, submit_all, IsFiled, submit_all-IsFiled, HasReceipt, answer-HasReceipt,
}
use open_quant_studio.Domain.Submit.Journaled.{Accepts, perform-Accepts, row_of}

-- `stream_seq` ascends strictly from above `lo`, and not beyond `hi`.
abbrev pub Ascends : ℕ → List Event → ℕ → Type 0
Ascends lo [] hi = lo ≤ hi
Ascends lo (event ∷ events) hi = (lo < event.stream_seq) × Ascends event.stream_seq events hi

pub record IsJournaled (j : Journal) : Type 0 where
  pub delivered : j.outbox ≡ map row_of j.domain_events
  pub ascending : Ascends 0 j.domain_events j.last_stream_seq

Ascends-snoc :
    (lo : ℕ) (events : List Event) (hi : ℕ) (event : Event)
    → Ascends lo events hi
    → hi < event.stream_seq
    → Ascends lo (events ++ event ∷ []) event.stream_seq
Ascends-snoc lo [] hi event a h = omega arith
Ascends-snoc lo (e ∷ events) hi event a h = (a.0, Ascends-snoc e.stream_seq events hi event a.1 h)

map-snoc :
    (events : List Event) (event : Event)
    → map row_of events ++ row_of event ∷ [] ≡ map row_of (events ++ event ∷ [])
map-snoc [] event = refl
map-snoc (e ∷ events) event = ap (λ t. row_of e ∷ t) (map-snoc events event)

module _ (hash : Command → ℕ) (blobs : Blobs) (o : Outside) (command : Command)
    (db : Database) where
  Accepts-IsJournaled :
      (j' : Journal) (r : Response)
      → IsJournaled db.journal
      → Accepts o command (hash command) db.journal j' r
      → IsJournaled j'
  Accepts-IsJournaled j' r law a = record {
    delivered =
        a.outbox
        ∙ ap (λ t. t ++ row_of r.event ∷ []) law.delivered
        ∙ map-snoc db.journal.domain_events r.event
        ∙ ap (map row_of) (sym a.events);
    ascending =
        rw (a.events, a.last)
          (Ascends-snoc 0 db.journal.domain_events db.journal.last_stream_seq r.event law.ascending
            (omega (arith, a.numbered)));
  }

  commit-IsJournaled :
      (r : Result (Response × Database))
      → IsJournaled db.journal
      → OnOk (λ r d. Accepts o command (hash command) db.journal d.journal r) r
      → IsJournaled (commit db r).1.journal
  commit-IsJournaled (ok (r, d)) law a = Accepts-IsJournaled d.journal r law a
  commit-IsJournaled (err e) law a = law

  answer-IsJournaled :
      (receipt : Option CommandReceipt)
      → IsJournaled db.journal
      → IsJournaled (answer hash blobs o command db receipt).1.journal
  unfolding answer
  answer-IsJournaled (some existing) law = law
  answer-IsJournaled none law =
      commit-IsJournaled (perform o command blobs (hash command) db) law
        (perform-Accepts o command blobs (hash command) db)

  -- Any session command, accepted, replayed or refused, keeps the journal's law: the outbox holds
  -- exactly the events, in their order, and `stream_seq` ascends strictly.
  pub submit-IsJournaled :
      IsJournaled db.journal
      → IsJournaled (submit_session_command hash blobs o command db).1.journal
  unfolding submit_session_command
  submit-IsJournaled = answer-IsJournaled _

-- Once a session command has been answered, sending a command of the same identifier again,
-- whatever session commands have come in between and whatever has been staged, changes nothing: the
-- same content is answered with the event of the first answer and the disposition `replayed`, any
-- other content is refused with `command_id_conflict`.
pub submit_again :
    (hash : Command → ℕ) (blobs blobs' : Blobs) (o o' : Outside) (command command' : Command)
    (db db' : Database) (r : Response) (later : List Submission)
    → submit_session_command hash blobs o command db ≡ (returns r, db')
    → command'.command_id ≡ command.command_id
    → submit_session_command hash blobs' o' command' (submit_all hash later db') ≡ (
      if hash command' == hash command
          then returns
              (record { command_id = command.command_id; disposition = replayed; event = r.event })
          else raises command_id_conflict,
      submit_all hash later db',
    )
unfolding submit_session_command HasReceipt IsFiled
submit_again hash blobs blobs' o o' command command' db db' r later answered same =
    let (receipt, found, id, hashed, event) =
      answer-HasReceipt hash blobs o command db _ r db' refl answered in
    let stays = submit_all-IsFiled hash command.command_id receipt later db' found in
    rw (same, stays) (ground arith)
