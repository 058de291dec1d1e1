-- ===== src/Domain/Jobs/Exclusive.antt =====
-- What a claim leaves running among the formal runs.
use open_quant_studio.Base.{
  ap, ◌∙◌, ℕ, ◌≤◌, ◌≡◌, refl, ◌⊎◌, Bool, true, false, some, List, [], ◌∷◌, arith, if◌then◌else◌,
  inl, inr,
}
use open_quant_studio.Domain.Table.{exists?, count_rows}
use open_quant_studio.Domain.Outcome.{ok}
use open_quant_studio.Domain.Journal.{Outside}
use open_quant_studio.Domain.JobTables.{Queue, Job}
use open_quant_studio.Domain.Jobs.{Claimant, is_running_formal, is_claimable, claim_next_job}
use open_quant_studio.Domain.Jobs.Claim.{count_rows-split, claim-claims, IsClaimOf}

-- At most one formal run is running.
abbrev pub IsExclusive : Queue → Type 0
IsExclusive q = count_rows is_running_formal q.jobs ≤ 1

none-count : (p : Job → Bool) (t : List Job) → exists? p t ≡ false → count_rows p t ≡ 0
none-count p [] h = refl
none-count p (x ∷ t) h = ground (arith, none-count p t)

-- The claimed row counts as before, or nothing was running.
claimed-counts :
    (o : Outside) (claimant : Claimant) (jobs : List Job) (j k : Job)
    → IsClaimOf o claimant j k
    → is_claimable claimant.selected_at jobs j ≡ true
    → (is_running_formal k ≡ is_running_formal j) ⊎ (exists? is_running_formal jobs ≡ false)
claimed-counts o claimant jobs j k c h = ground (arith, c.same_type, c.runs)

at_most : (j : Job) → (if is_running_formal j then 1 else 0) ≤ 1
at_most j = ground arith

-- A claim leaves at most one formal run running, with no use of the unique index that says so.
pub claim-IsExclusive :
    (o : Outside) (claimant : Claimant) (q q' : Queue) (job : Job)
    → claimant.selected_at ≤ claimant.updated_at
    → IsExclusive q
    → claim_next_job o claimant q ≡ ok (some job, q')
    → IsExclusive q'
claim-IsExclusive o claimant q q' job later law h =
    let (old, before, after, split, claimable, first, new, jobs, claim) =
      claim-claims o claimant q q' job later h in
    let was =
      ap (count_rows is_running_formal) split
      ∙ count_rows-split is_running_formal (λ j. j) is_running_formal before after old in
    let is =
      ap (count_rows is_running_formal) jobs
      ∙ count_rows-split is_running_formal (λ j. j) is_running_formal before after new in
    elim (claimed-counts o claimant q.jobs old new claim claimable) [
      | inl same ↦
          let one : ℕ = 1 in
          let zero_ : ℕ = 0 in omega (arith, was, is, law, ap (λ b. if b then one else zero_) same)
      | inr idle ↦ omega (arith, was, is, none-count is_running_formal q.jobs idle, at_most new)
    ]
