-- ===== src/Domain/Messages/Frames.antt =====
-- What the steps of `_queue_message` leave alone.
use open_quant_studio.Base.{ap, ◌∙◌, ℕ, ◌≡◌, refl, ◌⊎◌, inl, inr, Option, List, [], ◌∷◌, arith}
use open_quant_studio.Domain.Outcome.{Error, Result, ok, err}
use open_quant_studio.Domain.Journal.{SourceRef}
use open_quant_studio.Domain.Database.{Database, Fabric, Artifact, Command}
use open_quant_studio.Domain.Attachments.{
  Blobs, register_message_artifact, check_source, validate_source_refs,
}
use open_quant_studio.Domain.Messages.{check_reply}

module _ (blobs : Blobs) where
  check_source-cases :
      (command : Command) (source : SourceRef) (db : Database)
      → (check_source blobs command source db ≡ ok (tt, db))
        ⊎ ((e : Error) × (check_source blobs command source db ≡ err e))
  unfolding check_source
  check_source-cases command source db = ground arith

  pub validate_source_refs-cases :
      (command : Command) (sources : List SourceRef) (db : Database)
      → (validate_source_refs blobs command sources db ≡ ok (tt, db))
        ⊎ ((e : Error) × (validate_source_refs blobs command sources db ≡ err e))
  unfolding validate_source_refs
  validate_source_refs-cases command [] db = inl refl
  validate_source_refs-cases command (source ∷ sources) db =
      ground
        (arith, check_source-cases command source db, validate_source_refs-cases command sources db)

  register_message_artifact-ok :
      (artifact : Artifact) (f f' : Fabric) (u : Unit {0})
      → register_message_artifact blobs artifact f ≡ ok (u, f')
      → f' ≡ record f { artifacts = f'.artifacts }
  unfolding register_message_artifact
  register_message_artifact-ok artifact f f' u h = ground arith

  pub register_message_artifact-cases :
      (artifact : Artifact) (f : Fabric)
      → ((e : Error) × (register_message_artifact blobs artifact f ≡ err e))
        ⊎ ((artifacts : List Artifact) × (register_message_artifact blobs artifact f
              ≡ ok (tt, record f { artifacts = artifacts })))
  register_message_artifact-cases artifact f = go (register_message_artifact blobs artifact f) refl
    where
      go :
          (r : Result (Unit {0} × Fabric))
          → register_message_artifact blobs artifact f ≡ r
          → ((e : Error) × (register_message_artifact blobs artifact f ≡ err e))
            ⊎ ((artifacts : List Artifact) × (register_message_artifact blobs artifact f
                  ≡ ok (tt, record f { artifacts = artifacts })))
      go (err e) h = inl (e, h)
      go (ok (u, f')) h = inr (
        f'.artifacts,
        h
            ∙ ap {B = Result (Unit {0} × Fabric)} (λ g. ok (tt, g))
                (register_message_artifact-ok artifact f f' u h),
      )

pub check_reply-cases :
    (command : Command) (recipient : ℕ) (reply_to : Option ℕ) (db : Database)
    → (check_reply command recipient reply_to db ≡ ok (tt, db))
      ⊎ ((e : Error) × (check_reply command recipient reply_to db ≡ err e))
unfolding check_reply
check_reply-cases command recipient reply_to db = ground arith
