-- ===== src/Domain/Jobs/Claim.antt =====
-- What a claim has done when it succeeds.
use mathlib.Core.Path.{subst}
use open_quant_studio.Base.{
  sym, ap, ◌∙◌, ◌+◌, ◌&&◌, ◌≤◌, ◌≡◌, ◌≢◌, ◌⊎◌, refl, Bool, true, false, Option, none, some, List,
  [], ◌∷◌, ◌++◌, arith, if◌then◌else◌, All, Bool-cases, Option-cases, inl, inr,
}
use open_quant_studio.Domain.Table.{update, count_rows}
use open_quant_studio.Domain.Outcome.{ok}
use open_quant_studio.Domain.Journal.{Outside}
use open_quant_studio.Domain.JobTables.{running, Queue, Job}
use open_quant_studio.Domain.Jobs.{
  is_formal, Claimant, is_claimable, comes_before, sooner, earliest, is_claimed, set_claim,
  take_job, announce, claim_job, claim_next_job,
}

comes_before-irr : (x : Job) → comes_before x x ≡ false
comes_before-irr x = ground arith

sooner-head : (x k : Job) → comes_before x (sooner x (some k)) ≡ false
sooner-head x k = ground arith

sooner-tail : (x k y : Job) → comes_before y k ≡ false → comes_before y (sooner x (some k)) ≡ false
sooner-tail x k y h = ground arith

module _ (p : Job → Bool) where
  pub earliest-holds : (t : List Job) (j : Job) → earliest p t ≡ some j → p j ≡ true
  unfolding earliest
  earliest-holds [] j h = cc
  earliest-holds (x ∷ t) j h = ground (arith, earliest-holds t j)

  earliest-cases :
      (t : List Job) (x j : Job) → earliest p (x ∷ t) ≡ some j → (x ≡ j) ⊎ (earliest p t ≡ some j)
  unfolding earliest
  earliest-cases t x j h = ground arith

  pub earliest-split :
      (t : List Job) (j : Job)
      → earliest p t ≡ some j
      → (before : List Job) × (after : List Job) × (t ≡ before ++ j ∷ after)
  unfolding earliest
  earliest-split [] j h = absurd (ground arith)
  earliest-split (x ∷ t) j h = elim (earliest-cases t x j h) [
    | inl same ↦ ([], t, ap (λ y. y ∷ t) same)
    | inr later ↦
        let (before, after, e) = earliest-split t j later in (x ∷ before, after, ap (λ u. x ∷ u) e)
  ]

  earliest-none :
      (t : List Job) (j : Job)
      → earliest p t ≡ none
      → All (λ (k : Job). (p k && comes_before k j) ≡ false) t
  unfolding earliest
  earliest-none [] j h = tt
  earliest-none (x ∷ t) j h = (ground arith, earliest-none t j (ground arith))

  sooner-All :
      (x k : Job) (t : List Job)
      → All (λ (y : Job). (p y && comes_before y k) ≡ false) t
      → All (λ (y : Job). (p y && comes_before y (sooner x (some k))) ≡ false) t
  sooner-All x k [] a = tt
  sooner-All x k (y ∷ t) a = (ground (arith, a.0, sooner-tail x k y), sooner-All x k t a.1)

  -- No row that fits comes before the one found.
  pub earliest-first :
      (t : List Job) (j : Job)
      → earliest p t ≡ some j
      → All (λ (k : Job). (p k && comes_before k j) ≡ false) t
  unfolding earliest
  earliest-first [] j h = tt
  earliest-first (x ∷ t) j h = elim (Bool-cases (p x)) [
    | inr e ↦
        let rest : earliest p t ≡ some j = ground arith in (ground arith, earliest-first t j rest)
    | inl e ↦ elim (Option-cases (earliest p t)) [
      | inl e' ↦
          let same : x ≡ j = ground arith in
          (
            ap (λ y. p x && comes_before x y) (sym same) ∙ ground (arith, comes_before-irr x),
            earliest-none t j e',
          )
      | inr (k, e') ↦
          let chosen : sooner x (some k) ≡ j = ground arith in
          (
            rw (sym chosen) (ground (arith, sooner-head x k)),
            subst (λ y. All (λ (z : Job). (p z && comes_before z y) ≡ false) t) chosen
                (sooner-All x k t (earliest-first t k e')),
          )
    ]
  ]

module _ (p : Job → Bool) (f : Job → Job) where
  update-none : (t : List Job) → count_rows p t ≡ 0 → update p f t ≡ t
  update-none [] h = refl
  update-none (x ∷ t) h = ground (arith, update-none t)

  pub count_rows-split :
      (q : Job → Bool) (before after : List Job) (j : Job)
      → count_rows q (before ++ j ∷ after)
        ≡ count_rows q before + (if q j then 1 else 0) + count_rows q after
  count_rows-split q [] after j = omega arith
  count_rows-split q (x ∷ before) after j = omega (arith, count_rows-split q before after j)

  -- An UPDATE of one row, which is known.
  pub update-split :
      (before after : List Job) (j : Job)
      → p j ≡ true
      → count_rows p (before ++ j ∷ after) ≡ 1
      → update p f (before ++ j ∷ after) ≡ before ++ f j ∷ after
  update-split [] after j here one = ground (arith, update-none after)
  update-split (x ∷ before) after j here one =
      ground (arith, update-split before after j, count_rows-split p before after j)

module _ (o : Outside) (claimant : Claimant) where
  take-ok :
      (claimed : Job) (q q' : Queue) (u : Unit {0})
      → take_job o claimant claimed q ≡ ok (u, q')
      → (count_rows (is_claimed o claimant claimed) q.jobs ≡ 1)
        × (q'.jobs ≡ update (is_claimed o claimant claimed) (set_claim o claimant claimed) q.jobs)
  unfolding take_job
  take-ok claimed q q' u h = ground arith

  announce-jobs :
      (was_running : Bool) (j : Job) (q q' : Queue) (u : Unit {0})
      → announce o claimant was_running j q ≡ ok (u, q')
      → q'.jobs ≡ q.jobs
  unfolding announce
  announce-jobs was_running j q q' u h = ground arith

  claimable-is_claimed :
      (jobs : List Job) (j : Job)
      → claimant.selected_at ≤ claimant.updated_at
      → is_claimable claimant.selected_at jobs j ≡ true
      → is_claimed o claimant j j ≡ true
  claimable-is_claimed jobs j later h = ground arith

  claim_job-jobs :
      (claimed : Job) (q q' : Queue) (job : Job)
      → claim_job o claimant (some claimed) q ≡ ok (some job, q')
      → (count_rows (is_claimed o claimant claimed) q.jobs ≡ 1)
        × (q'.jobs ≡ update (is_claimed o claimant claimed) (set_claim o claimant claimed) q.jobs)
  unfolding claim_job take_job announce
  claim_job-jobs claimed q q' job h = ground arith

  pub claim_job-none : (q q' : Queue) (job : Job) → claim_job o claimant none q ≢ ok (some job, q')
  unfolding claim_job
  claim_job-none q q' job h = ground arith

  -- A claimed row: running, at the next attempt, and for a formal run at the next execution version
  -- and epoch, with the new token and a lease of 30 seconds.
  pub record IsClaimOf (old new : Job) : Type 0 where
    pub same_id : new.job_id ≡ old.job_id
    pub same_type : new.job_type ≡ old.job_type
    pub runs : new.status ≡ running
    pub attempt : new.attempts ≡ old.attempts + 1
    pub version : new.execution_version ≡ old.execution_version + (if is_formal old then 1 else 0)
    pub epoch : new.claim_epoch ≡ old.claim_epoch + (if is_formal old then 1 else 0)
    pub token :
        new.claim_token
        ≡ (if is_formal old then some claimant.fresh_claim_token else old.claim_token)
    pub lease :
        new.lease_expires_at
        ≡ (if is_formal old then some (claimant.updated_at + 30_000) else old.lease_expires_at)

  set-IsClaimOf : (old : Job) → IsClaimOf old (set_claim o claimant old old)
  set-IsClaimOf old = record {
    same_id = ground arith;
    same_type = ground arith;
    runs = ground arith;
    attempt = ground arith;
    version = ground arith;
    epoch = ground arith;
    token = ground arith;
    lease = ground arith;
  }

  -- When a job is claimed, it was claimable, no claimable job comes before it in the order of
  -- creation, and its row alone is rewritten, as claimed. SQLite's clock must not run back between
  -- the two statements.
  pub claim-claims :
      (q q' : Queue) (job : Job)
      → claimant.selected_at ≤ claimant.updated_at
      → claim_next_job o claimant q ≡ ok (some job, q')
      → (old : Job) × (before : List Job) × (after : List Job) × (q.jobs ≡ before ++ old ∷ after)
        × (is_claimable claimant.selected_at q.jobs old ≡ true)
        × All
            (λ (k : Job).
              (is_claimable claimant.selected_at q.jobs k && comes_before k old) ≡ false)
            q.jobs
        × (new : Job) × (q'.jobs ≡ before ++ new ∷ after)
        × IsClaimOf old new
  unfolding claim_next_job
  claim-claims q q' job later h = go _ refl h
    where
      go :
          (found : Option Job)
          → earliest (is_claimable claimant.selected_at q.jobs) q.jobs ≡ found
          → claim_job o claimant found q ≡ ok (some job, q')
          → (old : Job) × (before : List Job) × (after : List Job) × (q.jobs
              ≡ before ++ old ∷ after)
            × (is_claimable claimant.selected_at q.jobs old ≡ true)
            × All
                (λ (k : Job).
                  (is_claimable claimant.selected_at q.jobs k && comes_before k old) ≡ false)
                q.jobs
            × (new : Job) × (q'.jobs ≡ before ++ new ∷ after)
            × IsClaimOf old new
      go none e h = absurd (claim_job-none q q' job h)
      go (some old) e h =
          let fits = is_claimable claimant.selected_at q.jobs in
          let (before, after, split) = earliest-split fits q.jobs old e in
          let holds = earliest-holds fits q.jobs old e in
          let (one, jobs) = claim_job-jobs old q q' job h in
          (
            old,
            before,
            after,
            split,
            holds,
            earliest-first fits q.jobs old e,
            set_claim o claimant old old,
            jobs
                ∙ ap (update (is_claimed o claimant old) (set_claim o claimant old)) split
                ∙ update-split (is_claimed o claimant old) (set_claim o claimant old) before after
                    old (claimable-is_claimed q.jobs old later holds)
                    (ap (count_rows (is_claimed o claimant old)) (sym split) ∙ one),
            set-IsClaimOf old,
          )
