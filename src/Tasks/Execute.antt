-- ===== src/Tasks/Execute.antt =====
-- What a worker does to carry out a task: `isCanceled`, `setRunningProgress`,
-- `executeTaskOperation`, `executeBackupCreate` and `executeBackupVerify` of
-- backend/internal/service/task_service.go.
use snow_panel.Prelude.{
  ℕ, pos, Text, text, text_eq, Bool, true, false, not, none, some, [], ◌∷◌, if◌then◌else◌,
}
use snow_panel.Errors.{plain, non_retryable, Result, ok, err}
use snow_panel.Tasks.Model.{
  running, success, canceled, status_eq, status_text, Payload, Metadata, str, num,
  operation_docker_restart, operation_service_restart, operation_backup_create,
  operation_backup_verify,
}
use snow_panel.Tasks.World.{
  Env, M, ◌>>=◌, ◌>>◌, return, repo_get, repo_update_status, repo_log, ask_container, ask_service,
  ask_backup, create_artifact, verify, verify_artifact, BackupSummary,
}
use snow_panel.Tasks.Payload.{has_manual_verification}

module _ (e : Env) where
  unfoldable pub is_canceled : ℕ → M Bool
  is_canceled id = do
    r ← repo_get e id
    return (elim r [
      | err x ↦ false
      | ok found ↦ elim found [ none ↦ false | some t ↦ status_eq t.status canceled ]
    ])

  unfoldable pub set_running_progress : ℕ → ℕ → M Bool
  unfolding is_canceled
  set_running_progress id progress = do
    c ← is_canceled id
    if c then return false else do
      r ← repo_update_status e id running progress (text "")
      return (elim r [ err x ↦ false | ok _ ↦ true ])

  -- The two restarts differ in the service asked and in their texts.
  unfoldable pub execute_restart :
      ℕ
      → M (Result (Text × Text))
      → Text
      → Text
      → Metadata
      → Text
      → Text
      → (Text × Text → Metadata)
      → M (Result (Unit {0}))
  unfolding set_running_progress
  execute_restart id ask before starting meta after done meta_done = do
    first ← set_running_progress id 30
    if not first then return (err (plain before)) else do
      repo_log e id (text "info") starting meta
      r ← ask
      elim r [
        | err x ↦ return (err x)
        | ok answer ↦ do
          second ← set_running_progress id 85
          if not second
              then return (err (plain after))
              else do repo_log e id (text "info") done (meta_done answer); return (ok tt)
      ]

  unfoldable pub execute_docker_restart : ℕ → Payload → M (Result (Unit {0}))
  unfolding execute_restart
  execute_docker_restart id p =
      execute_restart id (ask_container e p.container_id)
        (text "task canceled before docker restart") (text "restarting docker container")
        ((text "container_id", str p.container_id) ∷ (text "progress", num (pos 30)) ∷ [])
        (text "task canceled after docker restart") (text "docker container restarted")
        (λ a.
          (text "container_id", str a.0)
          ∷ (text "state", str a.1)
          ∷ (text "progress", num (pos 85))
          ∷ [])

  unfoldable pub execute_service_restart : ℕ → Payload → M (Result (Unit {0}))
  unfolding execute_restart
  execute_service_restart id p =
      execute_restart id (ask_service e p.service_name)
        (text "task canceled before service restart") (text "restarting system service")
        ((text "service_name", str p.service_name) ∷ (text "progress", num (pos 30)) ∷ [])
        (text "task canceled after service restart") (text "system service restarted")
        (λ a.
          (text "service_name", str a.0)
          ∷ (text "status", str a.1)
          ∷ (text "progress", num (pos 85))
          ∷ [])

  abbrev artifact_metadata : BackupSummary → Metadata → Metadata
  artifact_metadata b rest =
      (text "backup_id", num b.id)
      ∷ (text "file_path", str b.file_path)
      ∷ (text "size_bytes", num b.size_bytes)
      ∷ (text "checksum", str b.checksum)
      ∷ rest

  unfoldable pub execute_backup_create : ℕ → Payload → Text → M (Result (Unit {0}))
  unfolding set_running_progress
  execute_backup_create id p worker =
      if not e.has_backup
      then return (err (non_retryable (plain (text "backup service is not configured"))))
      else do
        first ← set_running_progress id 30
        if not first
            then return (err (plain (text "task canceled before backup artifact creation")))
            else do
              repo_log e id (text "info") (text "creating backup artifact") (
                  (text "backup_id", num p.backup_id)
                  ∷ (text "resource_type", str p.resource_type)
                  ∷ (text "resource_id", str p.resource_id)
                  ∷ (text "progress", num (pos 30))
                  ∷ (text "worker_id", str worker)
                  ∷ [])
              r ← ask_backup e (create_artifact p.backup_id)
              elim r [
                | err x ↦ return (err x)
                | ok b ↦ do
                  second ← set_running_progress id 85
                  if not second
                      then return
                          (err (plain (text "task canceled after backup artifact creation")))
                      else do
                        repo_log e id (text "info") (text "backup artifact created") (
                            artifact_metadata b (
                              (text "status", str (status_text success))
                              ∷ (text "progress", num (pos 85))
                              ∷ (text "worker_id", str worker)
                              ∷ []))
                        return (ok tt)
              ]

  unfoldable pub execute_backup_verify : ℕ → Payload → Text → M (Result (Unit {0}))
  unfolding set_running_progress
  execute_backup_verify id p worker =
      if not e.has_backup
      then return (err (non_retryable (plain (text "backup service is not configured"))))
      else do
        first ← set_running_progress id 30
        if not first
            then return (err (plain (text "task canceled before backup verification")))
            else do
              r ← ask_backup e (
                  if has_manual_verification p.size_bytes p.checksum p.file_path
                  then verify p.backup_id p.size_bytes p.checksum p.file_path
                  else verify_artifact p.backup_id)
              elim r [
                | err x ↦ return (err x)
                | ok b ↦ do
                  second ← set_running_progress id 85
                  if not second
                      then return (err (plain (text "task canceled after backup verification")))
                      else do
                        repo_log e id (text "info") (text "backup metadata verified") (
                            artifact_metadata b (
                              (text "progress", num (pos 85))
                              ∷ (text "worker_id", str worker)
                              ∷ []))
                        return (ok tt)
              ]

  unfoldable pub execute_task_operation : ℕ → Payload → Text → M (Result (Unit {0}))
  execute_task_operation id p worker =
      if text_eq p.operation operation_docker_restart
      then execute_docker_restart id p
      else if text_eq p.operation operation_service_restart
      then execute_service_restart id p
      else if text_eq p.operation operation_backup_create
      then execute_backup_create id p worker
      else if text_eq p.operation operation_backup_verify
      then execute_backup_verify id p worker
      else return (err (non_retryable (plain (text "unsupported task operation"))))
