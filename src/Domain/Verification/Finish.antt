-- ===== src/Domain/Verification/Finish.antt =====
-- What a verification has done when it finishes.
use open_quant_studio.Base.{ℕ, ◌==◌, ◌&&◌, ◌≡◌, ◌⊎◌, false, none, some, List, length}
use open_quant_studio.Domain.Journal.{Outside}
use open_quant_studio.Domain.Database.{Artifact}
use open_quant_studio.Domain.Attachments.{Blobs}
use open_quant_studio.Domain.JobTables.{Job}
use open_quant_studio.Domain.Jobs.{Claimant}
use open_quant_studio.Domain.Verification.{Verdict, verified, blob_missing, integrity_mismatch}

module _ (o : Outside) (claimant : Claimant) (claimed : Job) where
  -- The right verdict: verified with the artifact's digest and size if the stored bytes have both,
  -- refused if there are no bytes, or others.
  abbrev pub Deserves : Blobs → Artifact → Verdict → Type 0
  Deserves blobs artifact verdict =
      ((body : List ℕ) × (blobs.body artifact.sha256 ≡ some body)
        × (blobs.digest body ≡ artifact.sha256)
        × (length body ≡ artifact.byte_size)
        × (verdict ≡ verified artifact.sha256 artifact.byte_size))
      ⊎ ((blobs.body artifact.sha256 ≡ none) × (verdict ≡ blob_missing))
      ⊎ ((body : List ℕ) × (blobs.body artifact.sha256 ≡ some body)
          × ((blobs.digest body == artifact.sha256 && length body == artifact.byte_size) ≡ false)
          × (verdict ≡ integrity_mismatch))
