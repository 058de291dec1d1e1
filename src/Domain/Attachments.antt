-- ===== src/Domain/Attachments.antt =====
-- domain.py: `_register_message_artifact` and `_validate_source_refs`, on the blobs that messages
-- name.
use open_quant_studio.Base.{
  ℕ, ◌==◌, ◌&&◌, ◌||◌, not, Bool, true, false, Option, none, some, List, [], ◌∷◌, ◌++◌, ltb, length,
}
use open_quant_studio.Domain.Table.{find?, exists?}
use open_quant_studio.Domain.Outcome.{
  Action, contract_violation, domain_conflict, artifact_blob_missing, artifact_integrity_mismatch,
  integrity_error, gets, modify, raise_if, raise, pure, or_raise, ◌>>=◌, ◌>>◌,
}
use open_quant_studio.Domain.Journal.{entry_uri_of, SourceRef}
use open_quant_studio.Domain.Database.{
  MediaType, text_plain, other_media, Session, Artifact, Fabric, Database, Command,
}
use open_quant_studio.Domain.Sessions.{uri_eq}

-- What a witness body decodes to.
pub data Witness : Type 0 where
  not_json : Witness
  not_object : Witness
  object : (id : Option ℕ) → Witness

-- The blobs on disk, and what Python computes of their bytes.
pub record Blobs : Type 0 where
  pub body : ℕ → Option (List ℕ)
  pub digest : List ℕ → ℕ
  pub is_utf8 : List ℕ → Bool
  pub read_json : List ℕ → Witness

abbrev pub is_text_plain : MediaType → Bool
is_text_plain text_plain = true
is_text_plain (other_media _) = false

abbrev pub opt_eq : Option ℕ → Option ℕ → Bool
opt_eq none none = true
opt_eq (some a) (some b) = a == b
opt_eq _ _ = false

abbrev pub media_eq : MediaType → MediaType → Bool
media_eq text_plain text_plain = true
media_eq (other_media a) (other_media b) = a == b
media_eq _ _ = false

-- `tuple(existing) == expected`
abbrev pub same_metadata : Artifact → Artifact → Bool
same_metadata a b =
    a.sha256 == b.sha256
    && media_eq a.media_type b.media_type
    && a.byte_size == b.byte_size
    && a.storage_uri == b.storage_uri
    && opt_eq a.producing_revision_id b.producing_revision_id
    && opt_eq a.producing_run_id b.producing_run_id
    && a.origin_kind == b.origin_kind
    && a.source_ref == b.source_ref

module _ (blobs : Blobs) where
  -- INSERT INTO artifacts: UNIQUE (sha256, storage_uri) beside the key, which the SELECT has tested.
  insert_artifact : Artifact → Action Fabric (Unit {0})
  insert_artifact artifact = do
    f ← gets (λ f. f)
    raise_if
        (exists?
          (λ (r : Artifact).
            r.artifact_id == artifact.artifact_id
            || (r.sha256 == artifact.sha256 && r.storage_uri == artifact.storage_uri))
          f.artifacts)
        integrity_error
    modify (λ f. record f { artifacts = f.artifacts ++ artifact ∷ [] })

  unfoldable pub register_message_artifact : Artifact → Action Fabric (Unit {0})
  unfolding insert_artifact
  register_message_artifact artifact = do
    raise_if (not (is_text_plain artifact.media_type)) contract_violation
    raise_if (ltb 65_536 artifact.byte_size) contract_violation
    body ← or_raise (blobs.body artifact.sha256) artifact_blob_missing
    raise_if (not (blobs.digest body == artifact.sha256) || not (length body == artifact.byte_size))
        artifact_integrity_mismatch
    raise_if (not (blobs.is_utf8 body)) artifact_integrity_mismatch
    f ← gets (λ f. f)
    elim (find? (λ (r : Artifact). r.artifact_id == artifact.artifact_id) f.artifacts) [
      | some existing ↦ raise_if (not (same_metadata existing artifact)) domain_conflict
      | none ↦ insert_artifact artifact
    ]

  -- The parts of `_validate_source_refs` for one reference: the body of its witness.
  check_witness : SourceRef → Action Database (Unit {0})
  check_witness source = do
    body ← or_raise (blobs.body source.sha256) artifact_blob_missing
    raise_if (not (blobs.digest body == source.sha256)) artifact_integrity_mismatch
    elim (blobs.read_json body) [
      | object id ↦ raise_if (not (opt_eq id (some source.entry_id))) artifact_integrity_mismatch
      | _ ↦ raise artifact_integrity_mismatch
    ]

  unfoldable pub check_source : Command → SourceRef → Action Database (Unit {0})
  unfolding check_witness
  check_source command source = do
    db ← gets (λ db. db)
    session ←
        or_raise
          (find? (λ (r : Session). r.session_id == source.session_id) db.fabric.agent_sessions)
          domain_conflict
    raise_if
        (not (session.project_id == command.project_id)
          || not (session.activity_id == command.activity_id))
        domain_conflict
    raise_if (not (uri_eq source.source_uri (entry_uri_of session.pi_session_id source.entry_id)))
        domain_conflict
    check_witness source

  unfoldable pub validate_source_refs : Command → List SourceRef → Action Database (Unit {0})
  validate_source_refs command [] = pure tt
  validate_source_refs command (source ∷ sources) =
      check_source command source >> validate_source_refs command sources
