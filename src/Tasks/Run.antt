-- ===== src/Tasks/Run.antt =====
-- The goroutine of a task without a worker: `runTask` and `markTaskFailed` of
-- backend/internal/service/task_service.go.
use snow_panel.Prelude.{ℕ, pos, Text, text, text_eq, Bool, true, false, not, [], ◌∷◌, if◌then◌else◌}
use snow_panel.Errors.{GoError, plain, Result, ok, err, error_text}
use snow_panel.Tasks.Model.{
  success, failed, status_text, Payload, Metadata, str, num, operation_docker_restart,
  operation_service_restart, operation_backup_create, operation_backup_verify,
}
use snow_panel.Tasks.World.{
  Env, M, ◌>>=◌, ◌>>◌, return, repo_update_status, repo_log, ask_container, ask_service,
}
use snow_panel.Tasks.Execute.{
  is_canceled, set_running_progress, execute_backup_create, execute_backup_verify,
}

module _ (e : Env) where
  -- A warning about the task, with no metadata.
  abbrev pub warn : ℕ → Text → M (Unit {0})
  warn id message = repo_log e id (text "warn") message []

  unfoldable pub mark_task_failed : ℕ → GoError → Metadata → M (Unit {0})
  mark_task_failed id x metadata = do
    c ← is_canceled e id
    if c then warn id (text "task canceled while operation was running") else do
      repo_update_status e id failed 100 (error_text x)
      repo_log e id (text "error") (text "task failed")
          ((text "error", str (error_text x)) ∷ metadata)

  -- The cases of the switch of `runTask` give whether the task goes on behind the switch. The two
  -- restarts differ in the service asked and in their texts.
  unfoldable pub run_restart :
      ℕ
      → M (Result (Text × Text))
      → Text
      → Text
      → Metadata
      → Metadata
      → Text
      → Text
      → (Text × Text → Metadata)
      → M Bool
  run_restart id ask before starting meta meta_failed after done meta_done = do
    first ← set_running_progress e id 30
    if not first then (do warn id before; return false) else do
      repo_log e id (text "info") starting meta
      r ← ask
      elim r [
        | err x ↦ do mark_task_failed id x meta_failed; return false
        | ok answer ↦ do
          second ← set_running_progress e id 85
          if not second
              then (do warn id after; return false)
              else do repo_log e id (text "info") done (meta_done answer); return true
      ]

  unfoldable pub run_docker : ℕ → Payload → M Bool
  unfolding run_restart
  run_docker id p =
      run_restart id (ask_container e p.container_id) (text "task canceled before docker restart")
        (text "restarting docker container")
        ((text "container_id", str p.container_id) ∷ (text "progress", num (pos 30)) ∷ [])
        ((text "operation", str p.operation) ∷ (text "container_id", str p.container_id) ∷ [])
        (text "task canceled after docker restart") (text "docker container restarted")
        (λ a.
          (text "container_id", str a.0)
          ∷ (text "state", str a.1)
          ∷ (text "progress", num (pos 85))
          ∷ [])

  unfoldable pub run_service : ℕ → Payload → M Bool
  unfolding run_restart
  run_service id p =
      run_restart id (ask_service e p.service_name) (text "task canceled before service restart")
        (text "restarting system service")
        ((text "service_name", str p.service_name) ∷ (text "progress", num (pos 30)) ∷ [])
        ((text "operation", str p.operation) ∷ (text "service_name", str p.service_name) ∷ [])
        (text "task canceled after service restart") (text "system service restarted")
        (λ a.
          (text "service_name", str a.0)
          ∷ (text "status", str a.1)
          ∷ (text "progress", num (pos 85))
          ∷ [])

  unfoldable pub run_backup : ℕ → Payload → M (Result (Unit {0})) → M Bool
  run_backup id p body = do
    r ← body
    elim r [
      | err x ↦ do
        mark_task_failed id x
            ((text "operation", str p.operation) ∷ (text "backup_id", num p.backup_id) ∷ [])
        return false
      | ok _ ↦ return true
    ]

  unfoldable pub run_switch : ℕ → Payload → M Bool
  run_switch id p =
      if text_eq p.operation operation_docker_restart
      then run_docker id p
      else if text_eq p.operation operation_service_restart
      then run_service id p
      else if text_eq p.operation operation_backup_create
      then run_backup id p (execute_backup_create e id p [])
      else if text_eq p.operation operation_backup_verify
      then run_backup id p (execute_backup_verify e id p [])
      else do
        mark_task_failed id (plain (text "unsupported task operation"))
            ((text "operation", str p.operation) ∷ [])
        return false

  -- `runTask` behind the switch.
  unfoldable pub run_finish : ℕ → Payload → M (Unit {0})
  run_finish id p = do
    c ← is_canceled e id
    if c then warn id (text "task canceled after operation") else do
      repo_update_status e id success 100 (text "")
      repo_log e id (text "info") (text "task completed") (
          (text "operation", str p.operation)
          ∷ (text "status", str (status_text success))
          ∷ (text "progress", num (pos 100))
          ∷ [])

  -- `runTask` from the second test for cancellation on.
  unfoldable pub run_started : ℕ → Payload → M (Unit {0})
  unfolding run_switch run_finish
  run_started id p = do
    repo_log e id (text "info") (text "task execution started")
        ((text "operation", str p.operation) ∷ (text "progress", num (pos 5)) ∷ [])
    c ← is_canceled e id
    if c
        then warn id (text "task canceled before operation")
        else do goes_on ← run_switch id p; if goes_on then run_finish id p else return tt

  unfoldable pub run_task : ℕ → Payload → M (Unit {0})
  unfolding run_started
  run_task id p = do
    c ← is_canceled e id
    if c then warn id (text "task canceled before execution") else do
      started ← set_running_progress e id 5
      if started then run_started id p else return tt
