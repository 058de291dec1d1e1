-- ===== src/Domain/Revise/Graph.antt =====
-- The law of the graph of revisions, under the commands that move its heads.
use open_quant_studio.Base.{
  sym, ap, ◌∙◌, ℕ, ◌+◌, ◌==◌, ◌&&◌, ◌||◌, ◌≤◌, ◌≡◌, leb, Bool, true, false, Option, none, some,
  List, [], ◌∷◌, ◌++◌, arith, if◌then◌else◌, All, Bool-cases, inl, inr,
}
use open_quant_studio.Domain.Table.{exists?, update, count_rows}
use open_quant_studio.Domain.Outcome.{Result, ok, err, OnOk, OnOk->>=, OnOk-of-ok}
use open_quant_studio.Domain.Journal.{Event, Outside, CommandReceipt}
use open_quant_studio.Domain.Sessions.Active.{workbench-cases}
use open_quant_studio.Domain.Submit.{Response}
use open_quant_studio.Domain.RevisionTables.{
  Workspace, ProjectHead, PastHead, Variant, RevisionCommand, RevisionRequest, variant_create,
  revision_promote,
}
use open_quant_studio.Domain.Revisions.{
  Candidate, HeadMove, was_head, variant_of, is_old_head, moved_head, max_project_variants,
  create_variant, promote_revision,
}
use open_quant_studio.Domain.Revisions.Promote.{promote-Promotes, Promotes}
use open_quant_studio.Domain.Revise.{
  publish, record_log, record_promotion, insert_past_head, perform_revision, commit_revision,
  answer_revision, submit_revision_command,
}

-- The row of the history that a head came with.
abbrev pub is_row_of : ProjectHead → PastHead → Bool
is_row_of h r = was_head h.project_id h.head_revision_id r && r.head_version == h.version

-- Every head of a project is on record with its version, and no project has too many variants.
pub record IsGraph (w : Workspace) : Type 0 where
  pub recorded :
      All
        (λ (h : ProjectHead). exists? (is_row_of h) w.project_revision_head_history ≡ true)
        w.project_revision_heads
  pub bounded :
      (project_id : ℕ)
      → count_rows (variant_of project_id) w.strategy_variants ≤ max_project_variants

exists?-snoc :
    (p : PastHead → Bool) (t : List PastHead) (r : PastHead)
    → exists? p (t ++ r ∷ []) ≡ (exists? p t || p r)
exists?-snoc p [] r = ground arith
exists?-snoc p (x ∷ t) r = ground (arith, exists?-snoc p t r)

count_variants-snoc :
    (project_id : ℕ) (t : List Variant) (v : Variant)
    → count_rows (variant_of project_id) (t ++ v ∷ [])
      ≡ count_rows (variant_of project_id) t + (if v.project_id == project_id then 1 else 0)
count_variants-snoc project_id [] v = omega arith
count_variants-snoc project_id (x ∷ t) v = omega (arith, count_variants-snoc project_id t v)

module _ (uuid5 : ℕ → ℕ) (o : Outside) (command : RevisionCommand) where
  variant-tables :
      (w w' : Workspace) (event : Event)
      → create_variant o command w ≡ ok (event, w')
      → (w'.project_revision_heads ≡ w.project_revision_heads)
        × (w'.project_revision_head_history ≡ w.project_revision_head_history)
        × (leb max_project_variants (count_rows (variant_of command.project_id) w.strategy_variants)
            ≡ false)
        × (w'.strategy_variants
            ≡ w.strategy_variants
              ++ record {
                variant_id = command.variant_id;
                project_id = command.project_id;
                activity_id = command.activity_id;
                base_revision_id = command.base_revision_id;
                created_by_session_id = command.session_id;
              }
                ∷ [])
  unfolding create_variant
  variant-tables w w' event h = ground (
    arith,
    workbench-cases command.project_id command.activity_id command.session_id command.workbench_id
        w.database,
  )

  publish-tables :
      (command_hash : ℕ) (event : Event) (w w' : Workspace) (u : Unit {0})
      → publish uuid5 o command command_hash event w ≡ ok (u, w')
      → w' ≡ record w { database = w'.database }
  unfolding publish
  publish-tables command_hash event w w' u h = ground arith

  log-tables :
      (w w' : Workspace) (u : Unit {0})
      → record_log uuid5 o command w ≡ ok (u, w')
      → w' ≡ record w { database = w'.database }
  unfolding record_log
  log-tables w w' u h = ground arith

  promotion-tables :
      (validation_id : ℕ) (move : HeadMove) (event : Event) (w w' : Workspace) (u : Unit {0})
      → record_promotion uuid5 o command validation_id move event w ≡ ok (u, w')
      → (w'.project_revision_heads ≡ w.project_revision_heads)
        × (w'.strategy_variants ≡ w.strategy_variants)
        × (w'.project_revision_head_history
            ≡ w.project_revision_head_history
              ++ record {
                project_id = command.project_id;
                head_revision_id = move.promoted_revision_id;
                head_version = move.resulting_head_version;
                command_id = command.command_id;
                event_id = event.event_id;
              }
                ∷ [])
  unfolding record_promotion insert_past_head
  promotion-tables validation_id move event w w' u h = ground arith

  -- The row that a promotion adds.
  abbrev new_row : HeadMove → Event → PastHead
  new_row move event = record {
    project_id = command.project_id;
    head_revision_id = move.promoted_revision_id;
    head_version = move.resulting_head_version;
    command_id = command.command_id;
    event_id = event.event_id;
  }

  -- The row that is added records the head that a promotion has moved.
  moved-is_row :
      (cid : ℕ) (c : Candidate) (h : ProjectHead) (move : HeadMove) (event : Event)
      → is_old_head o command c h ≡ true
      → move.promoted_revision_id ≡ cid
      → move.resulting_head_version ≡ c.project_head.version + 1
      → is_row_of (moved_head o command cid h) (new_row move event) ≡ true
  moved-is_row cid c h move event old promoted version = ground arith

  recorded-promotion :
      (cid : ℕ) (c : Candidate) (heads : List ProjectHead) (history : List PastHead)
      (move : HeadMove) (event : Event)
      → move.promoted_revision_id ≡ cid
      → move.resulting_head_version ≡ c.project_head.version + 1
      → All (λ (h : ProjectHead). exists? (is_row_of h) history ≡ true) heads
      → All
          (λ (h : ProjectHead). exists? (is_row_of h) (history ++ new_row move event ∷ []) ≡ true)
          (update (is_old_head o command c) (moved_head o command cid) heads)
  recorded-promotion cid c [] history move event promoted version law = tt
  recorded-promotion cid c (h ∷ heads) history move event promoted version law =
      let row = new_row move event in
      let rest = recorded-promotion cid c heads history move event promoted version law.1 in
      elim (Bool-cases (is_old_head o command c h)) [
        | inl old ↦ rw old (
          exists?-snoc (is_row_of (moved_head o command cid h)) history row
              ∙ ground (arith, moved-is_row cid c h move event old promoted version),
          rest,
        )
        | inr other ↦
            rw other (exists?-snoc (is_row_of h) history row ∙ ground (arith, law.0), rest)
      ]

  -- Between a promotion of the candidate `c` and its rows, the tables against those before it.
  record IsMoved (cid : ℕ) (c : Candidate) (w : Workspace) (move : HeadMove) (d : Workspace)
      : Type 0 where
    heads :
        d.project_revision_heads
        ≡ update (is_old_head o command c) (moved_head o command cid) w.project_revision_heads
    history : d.project_revision_head_history ≡ w.project_revision_head_history
    variants : d.strategy_variants ≡ w.strategy_variants
    promoted : move.promoted_revision_id ≡ cid
    version : move.resulting_head_version ≡ c.project_head.version + 1

  record_promotion-IsGraph :
      (cid vid : ℕ) (c : Candidate) (w d d' : Workspace) (move : HeadMove) (event : Event)
      (u : Unit {0})
      → IsGraph w
      → IsMoved cid c w move d
      → record_promotion uuid5 o command vid move event d ≡ ok (u, d')
      → IsGraph d'
  record_promotion-IsGraph cid vid c w d d' move event u law m h =
      let (heads, variants, history) = promotion-tables vid move event d d' u h in
      record {
        recorded =
            rw (heads, m.heads, history, m.history)
              (recorded-promotion cid c w.project_revision_heads w.project_revision_head_history
                move event m.promoted m.version law.recorded);
        bounded = rw (variants, m.variants) law.bounded;
      }

  promote-IsMoved :
      (cid vid : ℕ) (w d : Workspace) (move : HeadMove) (p : Promotes o command cid vid w move d)
      → IsMoved cid p.candidate w move d
  promote-IsMoved cid vid w d move p = record {
    heads = p.moves.heads;
    history = p.moves.history;
    variants = p.moves.variants;
    promoted = ap (λ (m : HeadMove). m.promoted_revision_id) p.moves.moves;
    version = ap (λ (m : HeadMove). m.resulting_head_version) p.moves.moves;
  }

  publish-IsMoved :
      (cid hash : ℕ) (c : Candidate) (w d d' : Workspace) (move : HeadMove) (event : Event)
      (u : Unit {0})
      → IsMoved cid c w move d
      → publish uuid5 o command hash event d ≡ ok (u, d')
      → IsMoved cid c w move d'
  publish-IsMoved cid hash c w d d' move event u m h =
      rw (publish-tables hash event d d' u h) (record {
        heads = m.heads;
        history = m.history;
        variants = m.variants;
        promoted = m.promoted;
        version = m.version;
      })

  same-IsGraph :
      (w w' : Workspace) → w' ≡ record w { database = w'.database } → IsGraph w → IsGraph w'
  same-IsGraph w w' e law = rw e (record { recorded = law.recorded; bounded = law.bounded })

  room_for :
      (p : ℕ) (t : List Variant)
      → leb max_project_variants (count_rows (variant_of command.project_id) t) ≡ false
      → count_rows (variant_of p) t ≤ max_project_variants
      → count_rows (variant_of p) t + (if command.project_id == p then 1 else 0)
        ≤ max_project_variants
  room_for p t room bound = elim (Bool-cases (command.project_id == p)) [
    | inl e ↦
        let same : command.project_id ≡ p = ground arith in
        let room' : leb max_project_variants (count_rows (variant_of p) t) ≡ false =
          rw (sym same) room in
        rw e (ground arith)
    | inr e ↦ rw e (omega arith)
  ]

  variant-IsGraph :
      (w w' : Workspace) (event : Event)
      → IsGraph w
      → create_variant o command w ≡ ok (event, w')
      → IsGraph w'
  variant-IsGraph w w' event law h =
      let (heads, history, room, variants) = variant-tables w w' event h in
      record {
        recorded = rw (heads, history) law.recorded;
        bounded = λ p. rw variants (
            omega (
              arith,
              count_variants-snoc p w.strategy_variants _,
              room_for p w.strategy_variants room (law.bounded p),
            ));
      }

  perform-IsGraph :
      (hash : ℕ) (request : RevisionRequest) (w : Workspace)
      → IsGraph w
      → OnOk (λ (_ : Response) d. IsGraph d) (perform_revision uuid5 o command hash request w)
  unfolding perform_revision
  perform-IsGraph hash variant_create w law =
      OnOk->>= (λ _ d. IsGraph d) _ (create_variant o command) _ w
        (OnOk-of-ok (λ (_ : Event) d. IsGraph d) _ (λ event d h. variant-IsGraph w d event law h))
        λ event d g.
          OnOk->>= (λ _ d. IsGraph d) _ (publish uuid5 o command hash event) _ d
            (OnOk-of-ok (λ (_ : Unit {0}) d. IsGraph d) _
              (λ u d' h. same-IsGraph d d' (publish-tables hash event d d' u h) g))
            λ _ d g.
              OnOk->>= (λ _ d. IsGraph d) _ (record_log uuid5 o command) _ d
                (OnOk-of-ok (λ (_ : Unit {0}) d. IsGraph d) _
                  (λ u d' h. same-IsGraph d d' (log-tables d d' u h) g))
                (λ _ d g. g)
  perform-IsGraph hash (revision_promote cid vid) w law =
      OnOk->>= (λ (p : Event × HeadMove) d. Promotes o command cid vid w p.1 d) _
        (promote_revision o command cid vid) _ w (promote-Promotes o command cid vid w)
        λ p d g.
          OnOk->>= (λ _ d. IsMoved cid g.candidate w p.1 d) _ (publish uuid5 o command hash p.0) _ d
            (OnOk-of-ok (λ (_ : Unit {0}) d'. IsMoved cid g.candidate w p.1 d') _
              (λ u d' h.
                publish-IsMoved cid hash g.candidate w d d' p.1 p.0 u
                  (promote-IsMoved cid vid w d p.1 g) h))
            λ _ d m.
              OnOk->>= (λ _ d. IsGraph d) _ (record_promotion uuid5 o command vid p.1 p.0) _ d
                (OnOk-of-ok (λ (_ : Unit {0}) d. IsGraph d) _
                  (λ u d' h. record_promotion-IsGraph cid vid g.candidate w d d' p.1 p.0 u law m h))
                λ _ d g.
                  OnOk->>= (λ _ d. IsGraph d) _ (record_log uuid5 o command) _ d
                    (OnOk-of-ok (λ (_ : Unit {0}) d. IsGraph d) _
                      (λ u d' h. same-IsGraph d d' (log-tables d d' u h) g))
                    (λ _ d g. g)

commit_revision-IsGraph :
    (w : Workspace) (r : Result (Response × Workspace))
    → IsGraph w
    → OnOk (λ (_ : Response) d. IsGraph d) r
    → IsGraph (commit_revision w r).1
commit_revision-IsGraph w (ok (a, d)) law h = h
commit_revision-IsGraph w (err e) law h = law

answer_revision-IsGraph :
    (uuid5 : ℕ → ℕ) (hash : RevisionCommand → ℕ) (o : Outside) (command : RevisionCommand)
    (w : Workspace) (receipt : Option CommandReceipt)
    → IsGraph w
    → IsGraph (answer_revision uuid5 hash o command w receipt).1
unfolding answer_revision
answer_revision-IsGraph uuid5 hash o command w (some existing) law = law
answer_revision-IsGraph uuid5 hash o command w none law =
    commit_revision-IsGraph w (perform_revision uuid5 o command (hash command) command.request w)
      law (perform-IsGraph uuid5 o command (hash command) command.request w law)

-- A command that creates a variant or promotes a revision, accepted, replayed or refused, keeps the
-- graph's law: every head of a project is on record in the history with its version, and no project
-- has more than 64 variants.
pub submit_revision-IsGraph :
    (uuid5 : ℕ → ℕ) (hash : RevisionCommand → ℕ) (o : Outside) (command : RevisionCommand)
    (w : Workspace)
    → IsGraph w
    → IsGraph (submit_revision_command uuid5 hash o command w).1
unfolding submit_revision_command
submit_revision-IsGraph uuid5 hash o command w = answer_revision-IsGraph uuid5 hash o command w _
