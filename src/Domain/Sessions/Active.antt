-- ===== src/Domain/Sessions/Active.antt =====
-- What `_validate_active_workbench` does to the tables.
use open_quant_studio.Base.{ℕ, ◌≡◌, ◌⊎◌, arith}
use open_quant_studio.Domain.Outcome.{Error, ok, err}
use open_quant_studio.Domain.Database.{Database, Command}
use open_quant_studio.Domain.Sessions.{validate_workbench, validate_active_workbench}

pub workbench-cases :
    (project_id activity_id session_id workbench_id : ℕ) (db : Database)
    → (validate_workbench project_id activity_id session_id workbench_id db ≡ ok (tt, db))
      ⊎ ((e : Error) × (validate_workbench project_id activity_id session_id workbench_id db
            ≡ err e))
unfolding validate_workbench
workbench-cases project_id activity_id session_id workbench_id db = ground arith

pub validate-cases :
    (command : Command) (db : Database)
    → (validate_active_workbench command db ≡ ok (tt, db))
      ⊎ ((e : Error) × (validate_active_workbench command db ≡ err e))
unfolding validate_active_workbench
validate-cases command db =
    workbench-cases command.project_id command.activity_id command.session_id command.workbench_id
      db
