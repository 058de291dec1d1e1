-- ===== src/Domain/Revisions/Promote.antt =====
-- What a promotion has done when it succeeds.
use open_quant_studio.Base.{
  sym, ℕ, ◌+◌, ◌==◌, ◌&&◌, ◌≡◌, ◌⊎◌, inl, inr, refl, Bool, true, false, some, arith,
}
use open_quant_studio.Domain.Table.{find?, exists?, update, count_rows, find?-holds, find?-update}
use open_quant_studio.Domain.Outcome.{
  ok, OnOk, OnOk->>=, OnOk-of-ok, OnOk-at, raise_if, promotion_conflict,
}
use open_quant_studio.Domain.Journal.{GatePolicy, m3_v1, m5_v1, m8_v1, other_policy, Event, Outside}
use open_quant_studio.Domain.Sessions.{validate_workbench}
use open_quant_studio.Domain.Sessions.Active.{workbench-cases}
use open_quant_studio.Domain.RevisionTables.{
  Workspace, MergeCandidate, Validation, VariantHead, passed, RevisionCommand, in_database,
}
use open_quant_studio.Domain.Revisions.{
  Candidate, HeadMove, is_accepted_policy, is_head_of, is_variant_head, is_validation, was_head,
  is_old_head, moved_head, is_old_variant_head, moved_variant_head, select_candidate,
  check_candidate, promote_revision, promote_candidate,
}

-- What the SELECT of a candidate has found.
pub record Selected (validation_id candidate_revision_id : ℕ) (w : Workspace)
    (candidate : Candidate) : Type 0 where
  pub merge :
      find?
        (λ (m : MergeCandidate). m.candidate_revision_id == candidate_revision_id)
        w.workspace_merge_candidates
      ≡ some candidate.merge
  pub validation :
      find? (is_validation validation_id candidate.merge) w.merge_validations
      ≡ some candidate.validation
  pub project_head :
      find? (is_head_of candidate.merge.project_id) w.project_revision_heads
      ≡ some candidate.project_head
  pub variant_head :
      find?
        (is_variant_head candidate.merge.variant_id candidate.merge.project_id
          candidate.merge.activity_id)
        w.strategy_variant_heads
      ≡ some candidate.variant_head

pub select-ok :
    (validation_id candidate_revision_id : ℕ) (w w' : Workspace) (candidate : Candidate)
    → select_candidate validation_id candidate_revision_id w ≡ ok (candidate, w')
    → (w' ≡ w) × Selected validation_id candidate_revision_id w candidate
unfolding select_candidate
select-ok validation_id candidate_revision_id w w' candidate h = (
  ground arith,
  record {
    merge = ground arith;
    validation = ground arith;
    project_head = ground arith;
    variant_head = ground arith;
  },
)

-- The policies under which a validation may carry a promotion.
abbrev pub IsAccepted : GatePolicy → Type 0
IsAccepted p = (p ≡ m3_v1) ⊎ (p ≡ m5_v1) ⊎ (p ≡ m8_v1)

policy-IsAccepted : (p : GatePolicy) → is_accepted_policy p ≡ true → IsAccepted p
policy-IsAccepted m3_v1 h = inl refl
policy-IsAccepted m5_v1 h = inr (inl refl)
policy-IsAccepted m8_v1 h = inr (inr refl)
policy-IsAccepted (other_policy n) h = absurd (ground arith)

-- The merge and the validation are the rows of their tables that have the command's identifiers.
abbrev pub IsOnRecord : ℕ → ℕ → Workspace → Candidate → Type 0
IsOnRecord validation_id candidate_revision_id w candidate =
    (find? (λ (m : MergeCandidate). m.candidate_revision_id == candidate_revision_id)
        w.workspace_merge_candidates
      ≡ some candidate.merge)
    × (find?
          (λ (v : Validation).
            v.validation_id == validation_id
            && v.candidate_revision_id == candidate_revision_id
            && v.project_id == candidate.merge.project_id
            && v.activity_id == candidate.merge.activity_id
            && v.variant_id == candidate.merge.variant_id)
          w.merge_validations
        ≡ some candidate.validation)

candidate-IsOnRecord :
    (validation_id candidate_revision_id : ℕ) (w : Workspace) (candidate : Candidate)
    → Selected validation_id candidate_revision_id w candidate
    → IsOnRecord validation_id candidate_revision_id w candidate
candidate-IsOnRecord validation_id candidate_revision_id w candidate s =
    let same : candidate.merge.candidate_revision_id ≡ candidate_revision_id = ground (
      arith,
      find?-holds (λ (m : MergeCandidate). m.candidate_revision_id == candidate_revision_id) _ _
          s.merge,
    ) in
    (s.merge, rw (sym same) s.validation)

module _ (o : Outside) (command : RevisionCommand) where
  -- The tests that the candidate has passed.
  pub record Checked (candidate : Candidate) : Type 0 where
    pub project : candidate.merge.project_id ≡ command.project_id
    pub activity : candidate.merge.activity_id ≡ command.activity_id
    pub variant : candidate.merge.variant_id ≡ command.variant_id
    pub outcome : candidate.validation.outcome ≡ passed
    pub policy : IsAccepted candidate.validation.gate_policy_version
    pub parent : candidate.merge.project_parent_revision_id ≡ command.expected_revision_id
    pub head : candidate.project_head.head_revision_id ≡ command.expected_revision_id
    pub version : candidate.project_head.version ≡ candidate.merge.expected_project_head_version
    pub variant_head :
        candidate.variant_head.head_revision_id ≡ candidate.merge.variant_parent_revision_id
    pub variant_version :
        candidate.variant_head.version ≡ candidate.merge.expected_variant_head_version

  pub check-ok :
      (candidate : Candidate) (w w' : Workspace) (u : Unit {0})
      → check_candidate o command candidate w ≡ ok (u, w')
      → (w' ≡ w) × Checked candidate
  unfolding check_candidate
  check-ok candidate w w' u h = (
    ground arith,
    record {
      project = ground arith;
      activity = ground arith;
      variant = ground arith;
      outcome = ground arith;
      policy = policy-IsAccepted candidate.validation.gate_policy_version (ground arith);
      parent = ground arith;
      head = ground arith;
      version = ground arith;
      variant_head = ground arith;
      variant_version = ground arith;
    },
  )

  -- The tables that a promotion of the candidate writes.
  pub record Moves (candidate_revision_id : ℕ) (candidate : Candidate) (w w' : Workspace)
      (move : HeadMove) : Type 0 where
    pub fresh :
        exists? (was_head command.project_id candidate_revision_id) w.project_revision_head_history
        ≡ false
    pub one_head : count_rows (is_old_head o command candidate) w.project_revision_heads ≡ 1
    pub heads :
        w'.project_revision_heads
        ≡ update
            (is_old_head o command candidate)
            (moved_head o command candidate_revision_id)
            w.project_revision_heads
    pub variant_heads :
        w'.strategy_variant_heads
        ≡ update
            (is_old_variant_head o command candidate)
            (moved_variant_head o command candidate_revision_id)
            w.strategy_variant_heads
    pub history : w'.project_revision_head_history ≡ w.project_revision_head_history
    pub variants : w'.strategy_variants ≡ w.strategy_variants
    pub moves : move ≡ record {
      previous_revision_id = command.expected_revision_id;
      promoted_revision_id = candidate_revision_id;
      previous_head_version = candidate.project_head.version;
      resulting_head_version = candidate.project_head.version + 1;
    }

  candidate-ok :
      (candidate_revision_id validation_id : ℕ) (candidate : Candidate) (w w' : Workspace)
      (event : Event) (move : HeadMove)
      → promote_candidate o command candidate_revision_id validation_id candidate w
        ≡ ok ((event, move), w')
      → Moves candidate_revision_id candidate w w' move
  unfolding promote_candidate
  candidate-ok candidate_revision_id validation_id candidate w w' event move h = record {
    fresh = ground arith;
    one_head = ground arith;
    heads = ground arith;
    variant_heads = ground arith;
    history = ground arith;
    variants = ground arith;
    moves = ground arith;
  }

  pub record Promotes (candidate_revision_id validation_id : ℕ) (w : Workspace) (move : HeadMove)
      (w' : Workspace) : Type 0 where
    pub candidate : Candidate
    pub selected : Selected validation_id candidate_revision_id w candidate
    pub checked : Checked candidate
    pub moves : Moves candidate_revision_id candidate w w' move

  candidate-Promotes :
      (candidate_revision_id validation_id : ℕ) (w : Workspace) (candidate : Candidate)
      → Selected validation_id candidate_revision_id w candidate
      → Checked candidate
      → OnOk
          (λ (p : Event × HeadMove) w'. Promotes candidate_revision_id validation_id w p.1 w')
          (promote_candidate o command candidate_revision_id validation_id candidate w)
  candidate-Promotes cid vid w c selected checked =
      OnOk-of-ok (λ (p : Event × HeadMove) w'. Promotes cid vid w p.1 w') _
        (λ p w' h. record {
          candidate = c;
          selected = selected;
          checked = checked;
          moves = candidate-ok cid vid c w w' p.0 p.1 h;
        })

  abbrev variant_key : VariantHead → Bool
  variant_key = is_variant_head command.variant_id command.project_id command.activity_id

  old_head :
      (c : Candidate)
      → Checked c
      → is_head_of command.project_id c.project_head ≡ true
      → is_old_head o command c c.project_head ≡ true
  old_head c k h = ground (arith, k.head)

  old_variant_head :
      (c : Candidate)
      → Checked c
      → variant_key c.variant_head ≡ true
      → is_old_variant_head o command c c.variant_head ≡ true
  old_variant_head c k h = ground (arith, k.variant_head)

  pub promote-Promotes :
      (candidate_revision_id validation_id : ℕ) (w : Workspace)
      → OnOk
          (λ (p : Event × HeadMove) w'. Promotes candidate_revision_id validation_id w p.1 w')
          (promote_revision o command candidate_revision_id validation_id w)
  unfolding promote_revision
  promote-Promotes cid vid w =
      OnOk->>= (λ _ d. d ≡ w) _
        (in_database (
          validate_workbench command.project_id command.activity_id command.session_id
            command.workbench_id))
        _ w
        (OnOk-of-ok (λ (u : Unit {0}) (d : Workspace). d ≡ w) _
          (λ a d h. ground (
            arith,
            workbench-cases command.project_id command.activity_id command.session_id
                command.workbench_id w.database,
          )))
        λ _ d e.
          OnOk->>= (λ _ d. d ≡ w) _
            (raise_if (cid == command.expected_revision_id) promotion_conflict) _ d
            (OnOk-of-ok (λ (u : Unit {0}) (d : Workspace). d ≡ w) _ (λ a d' h. ground arith))
            λ _ d e.
              OnOk->>= (λ c d. (d ≡ w) × Selected vid cid w c) _ (select_candidate vid cid) _ d
                (rw e (OnOk-of-ok _ _ (λ c d' h. select-ok vid cid w d' c h)))
                λ c d s.
                  OnOk->>= (λ _ d. (d ≡ w) × Checked c) _ (check_candidate o command c) _ d
                    (rw (s.0) (OnOk-of-ok _ _ (λ a d' h. check-ok c w d' a h)))
                    λ _ d k. rw (k.0) (candidate-Promotes cid vid w c s.1 k.1)

  -- When a promotion succeeds, the tables hold a merge of its candidate and, under the validation
  -- identifier of the command, a validation of that merge which has passed under policy m3-v1,
  -- m5-v1 or m8-v1; the candidate was merged from the project's head that the command expects, in
  -- the command's project, activity and variant, and had never been a head of the project; the
  -- heads of the project and of the variant were at the versions that the merge expects, and
  -- afterwards both are the candidate, one version later.
  pub promote-advances :
      (candidate_revision_id validation_id : ℕ) (w w' : Workspace) (event : Event) (move : HeadMove)
      → promote_revision o command candidate_revision_id validation_id w ≡ ok ((event, move), w')
      → (candidate : Candidate) × Checked candidate
        × IsOnRecord validation_id candidate_revision_id w candidate
        × (find? (is_head_of command.project_id) w.project_revision_heads
            ≡ some candidate.project_head)
        × (find? variant_key w.strategy_variant_heads ≡ some candidate.variant_head)
        × (exists?
              (was_head command.project_id candidate_revision_id)
              w.project_revision_head_history
            ≡ false)
        × (find? (is_head_of command.project_id) w'.project_revision_heads
            ≡ some (record (candidate.project_head) {
              head_revision_id = candidate_revision_id;
              version = candidate.project_head.version + 1;
              updated_at = o.now;
            }))
        × (find? variant_key w'.strategy_variant_heads
            ≡ some (record (candidate.variant_head) {
              head_revision_id = candidate_revision_id;
              version = candidate.variant_head.version + 1;
              updated_at = o.now;
            }))
  promote-advances cid vid w w' event move h =
      let p = OnOk-at _ _ (event, move) w' (promote-Promotes cid vid w) h in
      let c = p.candidate in
      let head : find? (is_head_of command.project_id) w.project_revision_heads
          ≡ some c.project_head =
        rw (sym p.checked.project) p.selected.project_head in
      let variant : find? variant_key w.strategy_variant_heads ≡ some c.variant_head =
        rw (sym p.checked.project, sym p.checked.activity, sym p.checked.variant)
          p.selected.variant_head in
      (
        c,
        p.checked,
        candidate-IsOnRecord vid cid w c p.selected,
        head,
        variant,
        p.moves.fresh,
        rw p.moves.heads (
            find?-update (is_head_of command.project_id) (is_old_head o command c)
              (moved_head o command cid) w.project_revision_heads c.project_head (λ x. refl) head
              (old_head c p.checked (find?-holds (is_head_of command.project_id) _ _ head))),
        rw p.moves.variant_heads (
            find?-update variant_key (is_old_variant_head o command c)
              (moved_variant_head o command cid) w.strategy_variant_heads c.variant_head (λ x. refl)
              variant (old_variant_head c p.checked (find?-holds variant_key _ _ variant))),
      )
