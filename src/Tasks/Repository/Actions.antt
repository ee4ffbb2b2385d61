-- ===== src/Tasks/Repository/Actions.antt =====
-- The writes of backend/internal/repository/task_repository.go as data: what some process does to
-- the tables between two statements of another.
use snow_panel.Prelude.{ℕ, Text, Option, List, [], ◌∷◌}
use snow_panel.Tasks.Model.{Status, Task, LogEntry}
use snow_panel.Tasks.Repository.{
  Db, create, claim_next_task, heartbeat_task, complete_task, fail_task, release_stale_tasks,
  update_status, append_log,
}

pub data Action : Type 0 where
  creates : Task → Action
  claims : Text → ℕ → Action
  heartbeats : ℕ → Text → ℕ → Action
  completes : ℕ → Text → Text → Action
  fails : ℕ → Text → Text → Option ℕ → Action
  releases : Action
  updates : ℕ → Status → ℕ → Text → Action
  logs : LogEntry → Action

unfoldable pub act : ℕ → Action → Db → Db
act now (creates t) db = (create t now db).1
act now (claims worker lease) db = (claim_next_task worker lease now db).1
act now (heartbeats id worker lease) db = heartbeat_task id worker lease now db
act now (completes id worker result) db = complete_task id worker result now db
act now (fails id worker message next) db = fail_task id worker message next now db
act now releases db = (release_stale_tasks now db).1
act now (updates id status progress message) db = update_status id status progress message now db
act now (logs entry) db = append_log entry now db

-- Some actions, each with its time.
unfoldable pub act_all : List (ℕ × Action) → Db → Db
act_all [] db = db
act_all ((now, a) ∷ rest) db = act_all rest (act now a db)
