-- ===== src/Tasks/World.antt =====
-- What a call of backend/internal/service/task_service.go runs in: the tables, which other
-- processes change between its statements, the clock, statements that fail, and the services that
-- carry out a task. A method is a function on this state; its Go error is a value of its result.
pub mod Keeps
pub mod Alone
use snow_panel.Prelude.{
  ℕ, ℤ, suc, ◌+◌, Text, text, text_eq, is_empty, Bool, true, false, Option, none, some, List, [],
  ◌∷◌, if◌then◌else◌, map,
}
use snow_panel.Errors.{GoError, plain, wrapped, non_retryable, Result, ok, err}
use snow_panel.Program.{Program}
unfoldable pub use snow_panel.Program.{◌>>=◌, ◌>>◌, return}
use snow_panel.Tasks.Model.{Status, Task, TaskLog, LogEntry, Payload, Metadata}
use snow_panel.Tasks.Repository.{
  Db, create, claim_next_task, heartbeat_task, complete_task, fail_task, release_stale_tasks,
  update_status, count_by_status, get_by_id, get_by_idempotency_key, append_log,
}
use snow_panel.Tasks.Repository.Actions.{Action, act}

-- The parts of `dto.BackupSummary` that the task service reads.
pub record BackupSummary : Type 0 where
  pub id : ℤ
  pub resource_type : Text
  pub resource_id : Text
  pub storage_type : Text
  pub file_path : Text
  pub size_bytes : ℤ
  pub checksum : Text

-- The calls of `DockerService`, `ServiceManagerService` and `BackupService`.
pub data ServiceCall : Type 0 where
  restart_container : Text → ServiceCall
  restart_service : Text → ServiceCall
  create_metadata : Text → Text → Text → Text → Option ℤ → ServiceCall
  mark_failed : ℤ → ServiceCall
  create_artifact : ℤ → ServiceCall
  verify : ℤ → ℤ → Text → Text → ServiceCall
  verify_artifact : ℤ → ServiceCall

-- What happens at the next statement: the writes of others before it, the clock, and whether the
-- statement fails, which leaves the tables alone.
pub record Turn : Type 0 where
  pub others : List Action
  pub now : ℕ
  pub fails : Bool

-- The surroundings of the service. `turn n` is for the statement number n. A service may answer by
-- all that it was asked before, the last call first. `encode` and `decode` are `json.Marshal` and
-- `json.Unmarshal` at `taskPayload`. `newest_tasks n` and `oldest_logs n` are the orders in which the
-- statement number n gives rows by `ORDER BY created_at DESC` and `ORDER BY created_at ASC`.
pub record Env : Type 0 where
  pub turn : ℕ → Turn
  pub container : List ServiceCall → Text → Result (Text × Text)
  pub service : List ServiceCall → Text → Result (Text × Text)
  pub backup : List ServiceCall → ServiceCall → Result BackupSummary
  pub encode : Payload → Text
  pub decode : Text → Result Payload
  pub newest_tasks : ℕ → List Task → List Task
  pub oldest_logs : ℕ → List TaskLog → List TaskLog
  pub has_docker : Bool
  pub has_manager : Bool
  pub has_backup : Bool
  pub has_metrics : Bool
  pub async : Bool
  pub max_attempts : ℤ
  pub hostname : Text
  pub process_id : Text

-- A call of a metric, by the names of backend/internal/metrics/metrics.go.
pub data Observation : Type 0 where
  worker_claim : Text → Observation
  task_completed : Text → Status → Observation
  queue_depth : ℕ → Observation
  tasks_running : ℕ → Observation

-- A goroutine that was started: `runTask`, or `runClaimedTask` in its wrapper.
pub data Spawned : Type 0 where
  run_task_of : ℕ → Payload → Spawned
  run_claimed_of : Task → Spawned

pub record World : Type 0 where
  pub db : Db
  pub steps : ℕ
  pub calls : List ServiceCall
  pub observed : List Observation
  pub spawned : List Spawned

abbrev pub M : Type 0 → Type 0
M A = Program World A

unfoldable pub interfere : ℕ → List Action → Db → Db
interfere now [] db = db
interfere now (a ∷ rest) db = interfere now rest (act now a db)

-- The error of a statement that fails.
abbrev pub db_error : GoError
db_error = plain (text "database error")

module _ (e : Env) where
  -- The tables and the clock as the next statement finds them.
  unfoldable pub arrive : World → Db
  unfolding interfere
  arrive w = interfere (e.turn w.steps).now (e.turn w.steps).others w.db

  unfoldable pub perform : {A : Type 0} → (ℕ → Db → Result A × Db) → M (Result A)
  unfolding arrive
  perform op w =
      let db = arrive w in
      let (r, db') = op (e.turn w.steps).now db in
      if (e.turn w.steps).fails
      then (err db_error, record w { db = db; steps = suc w.steps })
      else (r, record w { db = db'; steps = suc w.steps })

  -- `time.Now()`.
  unfoldable pub clock : M ℕ
  clock w = ((e.turn w.steps).now, w)

  -- A statement whose rows stand in the order that `order` gives for its number.
  unfoldable pub reads_in_order : {A O : Type 0} → (ℕ → O) → (O → Db → A) → M (Result A)
  unfolding perform
  reads_in_order order f w = perform (λ now db. (ok (f (order w.steps) db), db)) w

  abbrev pub writes : (ℕ → Db → Db) → M (Result (Unit {0}))
  writes f = perform (λ now db. (ok tt, f now db))

  abbrev pub reads : {A : Type 0} → (Db → A) → M (Result A)
  reads f = perform (λ now db. (ok (f db), db))

  unfoldable pub repo_create : Task → M (Result Task)
  repo_create t = perform (create t)

  unfoldable pub repo_claim : Text → ℕ → M (Result (Option Task))
  repo_claim worker lease =
      perform (λ now db. let (t, db') = claim_next_task worker lease now db in (ok t, db'))

  unfoldable pub repo_heartbeat : ℕ → Text → ℕ → M (Result (Unit {0}))
  repo_heartbeat id worker lease = writes (heartbeat_task id worker lease)

  unfoldable pub repo_complete : ℕ → Text → Text → M (Result (Unit {0}))
  repo_complete id worker result = writes (complete_task id worker result)

  unfoldable pub repo_fail : ℕ → Text → Text → Option ℕ → M (Result (Unit {0}))
  repo_fail id worker message next = writes (fail_task id worker message next)

  unfoldable pub repo_release : ℕ → M (Result ℕ)
  repo_release now = perform (λ _ db. let (n, db') = release_stale_tasks now db in (ok n, db'))

  unfoldable pub repo_update_status : ℕ → Status → ℕ → Text → M (Result (Unit {0}))
  repo_update_status id status progress message = writes (update_status id status progress message)

  unfoldable pub repo_count : Status → M (Result ℕ)
  repo_count s = reads (count_by_status s)

  unfoldable pub repo_get : ℕ → M (Result (Option Task))
  repo_get id = reads (get_by_id id)

  unfoldable pub repo_get_by_key : Text → M (Result (Option Task))
  repo_get_by_key key = reads (get_by_idempotency_key key)

  -- The service drops the error of `AppendLog` everywhere.
  unfoldable pub repo_log : ℕ → Text → Text → Metadata → M (Unit {0})
  repo_log id level message metadata = do
    writes (
        append_log (record { task_id = id; level = level; message = message; metadata = metadata }))
    return tt

  unfoldable pub ask_container : Text → M (Result (Text × Text))
  ask_container id w = (e.container w.calls id, record w { calls = restart_container id ∷ w.calls })

  unfoldable pub ask_service : Text → M (Result (Text × Text))
  ask_service name w = (e.service w.calls name, record w { calls = restart_service name ∷ w.calls })

  unfoldable pub ask_backup : ServiceCall → M (Result BackupSummary)
  ask_backup c w = (e.backup w.calls c, record w { calls = c ∷ w.calls })

-- A method of the metrics set, which does nothing on a nil set.
unfoldable pub observe : Env → Observation → M (Unit {0})
observe e o w = (tt, if e.has_metrics then record w { observed = o ∷ w.observed } else w)

unfoldable pub spawn : Spawned → M (Unit {0})
spawn g w = (tt, record w { spawned = g ∷ w.spawned })
