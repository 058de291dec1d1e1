-- ===== src/Domain/Sessions.antt =====
-- domain.py: `_register_session`, `_bind_workbench` and `_validate_active_workbench`.
pub mod Active
use open_quant_studio.Base.{
  ℕ, ◌==◌, ◌&&◌, ◌||◌, not, Bool, true, false, Option, none, some, List, [], ◌∷◌, ◌++◌,
  if◌then◌else◌,
}
use open_quant_studio.Domain.Table.{find?, exists?, update}
use open_quant_studio.Domain.Outcome.{
  Action, Result, ok, err, contract_violation, domain_conflict, session_identity_conflict,
  integrity_error, gets, modify, raise_if, raise, pure, or_raise, ◌>>=◌, ◌>>◌,
}
use open_quant_studio.Domain.Journal.{
  Uri, session_uri_of, entry_uri_of, other_text, Activity, Event, Journal, Payload, EventType,
  registered, bound, Outside, Draft, has_project, has_activity, insert_event,
}
use open_quant_studio.Domain.Database.{
  Session, Binding, Fabric, Database, Command, in_journal, in_fabric,
}

abbrev pub uri_eq : Uri → Uri → Bool
uri_eq (session_uri_of a) (session_uri_of b) = a == b
uri_eq (entry_uri_of a i) (entry_uri_of b j) = a == b && i == j
uri_eq (other_text a) (other_text b) = a == b
uri_eq _ _ = false

-- INSERT OR IGNORE INTO research_projects and activities.
insert_project_activity : ℕ → ℕ → Action Journal (Unit {0})
insert_project_activity project_id activity_id = do
  modify (λ j. record j {
    research_projects =
        if has_project project_id j
        then j.research_projects
        else j.research_projects ++ project_id ∷ [];
  })
  modify (λ j. record j {
    activities =
        if exists? (λ (a : Activity). a.activity_id == activity_id) j.activities
        then j.activities
        else j.activities ++ record { activity_id = activity_id; project_id = project_id } ∷ [];
  })

abbrev pub of_session : ℕ → ℕ → ℕ → Binding → Bool
of_session project_id activity_id session_id b =
    b.project_id == project_id && b.activity_id == activity_id && b.session_id == session_id

abbrev pub is_active_of : ℕ → ℕ → ℕ → Binding → Bool
is_active_of project_id activity_id session_id b =
    of_session project_id activity_id session_id b && b.is_active

abbrev pub of_workbench : ℕ → ℕ → ℕ → ℕ → Binding → Bool
of_workbench project_id activity_id session_id workbench_id b =
    of_session project_id activity_id session_id b && b.workbench_id == workbench_id

-- `_validate_active_workbench`, on the fields of the command that it reads.
unfoldable pub validate_workbench : ℕ → ℕ → ℕ → ℕ → Action Database (Unit {0})
validate_workbench project_id activity_id session_id workbench_id = do
  db ← gets (λ db. db)
  binding ←
      or_raise (find? (is_active_of project_id activity_id session_id) db.fabric.workbench_bindings)
        domain_conflict
  raise_if (not (binding.workbench_id == workbench_id)) domain_conflict

module _ (command : Command) where
  unfoldable pub session_draft : EventType → Payload → Draft
  session_draft event_type payload = record {
    event_type = event_type;
    project_id = command.project_id;
    activity_id = command.activity_id;
    session_id = some command.session_id;
    workbench_id = some command.workbench_id;
    correlation_id = command.correlation_id;
    causation_id = command.command_id;
    variant_id = none;
    base_revision_id = none;
    payload = payload;
  }

  unfoldable pub validate_active_workbench : Action Database (Unit {0})
  unfolding validate_workbench
  validate_active_workbench =
      validate_workbench command.project_id command.activity_id command.session_id
        command.workbench_id

module _ (o : Outside) (command : Command) where
  -- INSERT INTO agent_sessions: its key, UNIQUE (project_id, pi_session_id), and the activity.
  insert_session : ℕ → Uri → Action Database (Unit {0})
  insert_session pi_session_id session_uri = do
    db ← gets (λ db. db)
    raise_if
        (exists?
            (λ (r : Session).
              r.session_id == command.session_id
              || (r.project_id == command.project_id && r.pi_session_id == pi_session_id))
            db.fabric.agent_sessions
          || not (has_activity command.activity_id command.project_id db.journal))
        integrity_error
    in_fabric (
        modify (λ f. record f {
          agent_sessions =
              f.agent_sessions
              ++ record {
                session_id = command.session_id;
                project_id = command.project_id;
                activity_id = command.activity_id;
                pi_session_id = pi_session_id;
                session_uri = session_uri;
              }
                ∷ [];
        }))

  -- INSERT INTO workbench_bindings with is_active = 1: its key, and the index of one active binding
  -- for each session.
  insert_binding : Action Fabric (Unit {0})
  insert_binding = do
    f ← gets (λ f. f)
    raise_if
        (exists?
          (λ b.
            of_workbench command.project_id command.activity_id command.session_id
              command.workbench_id b
            || is_active_of command.project_id command.activity_id command.session_id b)
          f.workbench_bindings)
        integrity_error
    modify (λ f. record f {
      workbench_bindings =
          f.workbench_bindings
          ++ record {
            project_id = command.project_id;
            activity_id = command.activity_id;
            session_id = command.session_id;
            workbench_id = command.workbench_id;
            is_active = true;
            updated_at = o.now;
          }
            ∷ [];
    })

  unfoldable pub register_session : ℕ → Uri → Action Database Event
  unfolding insert_project_activity insert_session insert_binding session_draft
  register_session pi_session_id session_uri = do
    raise_if (not (uri_eq session_uri (session_uri_of pi_session_id))) contract_violation
    in_journal (insert_project_activity command.project_id command.activity_id)
    db ← gets (λ db. db)
    raise_if
        (exists? (λ (r : Session). r.session_id == command.session_id) db.fabric.agent_sessions)
        session_identity_conflict
    insert_session pi_session_id session_uri
    in_fabric insert_binding
    in_journal (
        insert_event o (
          session_draft command EventType.session_registered
            (registered command.session_id pi_session_id session_uri command.workbench_id)))

  -- The two UPDATE statements and the INSERT of `_bind_workbench`. The second UPDATE finds no other
  -- active binding of the session, since the first has just cleared them all.
  rebind : Action Fabric (Unit {0})
  unfolding insert_binding
  rebind = do
    let session = of_session command.project_id command.activity_id command.session_id
    let workbench =
        of_workbench command.project_id command.activity_id command.session_id command.workbench_id
    modify (λ f. record f {
      workbench_bindings =
          update (λ b. session b && b.is_active)
            (λ (b : Binding). record b { is_active = false; updated_at = o.now })
            f.workbench_bindings;
    })
    f ← gets (λ f. f)
    (if exists? workbench f.workbench_bindings
        then modify (λ f. record f {
          workbench_bindings =
              update workbench (λ (b : Binding). record b { is_active = true; updated_at = o.now })
                f.workbench_bindings;
        })
        else insert_binding)

  unfoldable pub bind_workbench : ℕ → Action Database Event
  unfolding rebind session_draft
  bind_workbench workbench_id = do
    db ← gets (λ db. db)
    session ←
        or_raise
          (find? (λ (r : Session). r.session_id == command.session_id) db.fabric.agent_sessions)
          session_identity_conflict
    raise_if
        (not (session.project_id == command.project_id)
          || not (session.activity_id == command.activity_id))
        session_identity_conflict
    raise_if (not (workbench_id == command.workbench_id)) contract_violation
    in_fabric rebind
    in_journal (
        insert_event o (
          session_draft command EventType.session_workbench_bound
            (bound command.session_id command.workbench_id)))
