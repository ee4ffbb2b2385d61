-- ===== src/Tasks/Validity/Execution.antt =====
-- The operations of backend/internal/service/task_service.go that carry out a task.
use snow_panel.Prelude.{ℕ, ◌≤◌, Text, text_eq, not, arith}
use snow_panel.Errors.{Result, ok, err}
use snow_panel.Tasks.Model.{
  running, Payload, Metadata, operation_docker_restart, operation_service_restart,
  operation_backup_create, operation_backup_verify,
}
use snow_panel.Tasks.World.{Env, M}
use snow_panel.Tasks.World.Keeps.{
  IsFair, Valid, Keeps, bind-Keeps, return-Keeps, if-Keeps, get-Keeps, update-Keeps, log-Keeps,
  ask_container-Keeps, ask_service-Keeps, ask_backup-Keeps,
}
use snow_panel.Tasks.Execute.{
  is_canceled, set_running_progress, execute_restart, execute_docker_restart,
  execute_service_restart, execute_backup_create, execute_backup_verify, execute_task_operation,
}

module _ (e : Env) (fair : IsFair e) where
  pub is_canceled-Keeps : (id : ℕ) → Keeps Valid (is_canceled e id)
  unfolding is_canceled
  is_canceled-Keeps id = bind-Keeps (get-Keeps e fair id) (λ r. return-Keeps _)

  pub set_running_progress-Keeps :
      (id progress : ℕ) → progress ≤ 100 → Keeps Valid (set_running_progress e id progress)
  unfolding set_running_progress
  set_running_progress-Keeps id progress p = bind-Keeps (is_canceled-Keeps id) λ c.
      if-Keeps c (return-Keeps _)
        (bind-Keeps (update-Keeps e fair id running progress _ (λ q. cc) p) (λ r. return-Keeps _))

  execute_restart-Keeps :
      (id : ℕ) (ask : M (Result (Text × Text))) (before starting : Text) (meta : Metadata)
      (after done : Text) (meta_done : Text × Text → Metadata)
      → Keeps Valid ask
      → Keeps Valid (execute_restart e id ask before starting meta after done meta_done)
  unfolding execute_restart
  execute_restart-Keeps id ask before starting meta after done meta_done h =
      bind-Keeps (set_running_progress-Keeps id 30 (omega arith)) λ first.
        if-Keeps (not first) (return-Keeps _) (
          bind-Keeps (log-Keeps e fair id _ _ _) (λ _. bind-Keeps h (elim [
            | err x ↦ return-Keeps _
            | ok answer ↦ bind-Keeps (set_running_progress-Keeps id 85 (omega arith)) λ second.
                if-Keeps (not second) (return-Keeps _)
                  (bind-Keeps (log-Keeps e fair id _ _ _) (λ _. return-Keeps _))
          ])))

  execute_backup_create-Keeps :
      (id : ℕ) (p : Payload) (worker : Text) → Keeps Valid (execute_backup_create e id p worker)
  unfolding execute_backup_create
  execute_backup_create-Keeps id p worker = if-Keeps (not e.has_backup) (return-Keeps _) (
      bind-Keeps (set_running_progress-Keeps id 30 (omega arith)) λ first.
        if-Keeps (not first) (return-Keeps _) (
          bind-Keeps (log-Keeps e fair id _ _ _) λ _. bind-Keeps (ask_backup-Keeps e fair _) (elim [
            | err x ↦ return-Keeps _
            | ok b ↦ bind-Keeps (set_running_progress-Keeps id 85 (omega arith)) λ second.
                if-Keeps (not second) (return-Keeps _)
                  (bind-Keeps (log-Keeps e fair id _ _ _) λ _. return-Keeps _)
          ])))

  execute_backup_verify-Keeps :
      (id : ℕ) (p : Payload) (worker : Text) → Keeps Valid (execute_backup_verify e id p worker)
  unfolding execute_backup_verify
  execute_backup_verify-Keeps id p worker = if-Keeps (not e.has_backup) (return-Keeps _) (
      bind-Keeps (set_running_progress-Keeps id 30 (omega arith)) λ first.
        if-Keeps (not first) (return-Keeps _) (
          bind-Keeps (ask_backup-Keeps e fair _) (elim [
            | err x ↦ return-Keeps _
            | ok b ↦ bind-Keeps (set_running_progress-Keeps id 85 (omega arith)) λ second.
                if-Keeps (not second) (return-Keeps _)
                  (bind-Keeps (log-Keeps e fair id _ _ _) λ _. return-Keeps _)
          ])))

  pub execute_backups-Keeps :
      (id : ℕ) (p : Payload) (worker : Text)
      → Keeps Valid (execute_backup_create e id p worker)
        × Keeps Valid (execute_backup_verify e id p worker)
  execute_backups-Keeps id p worker =
      (execute_backup_create-Keeps id p worker, execute_backup_verify-Keeps id p worker)

  pub execute_task_operation-Keeps :
      (id : ℕ) (p : Payload) (worker : Text) → Keeps Valid (execute_task_operation e id p worker)
  unfolding execute_task_operation execute_docker_restart execute_service_restart
  execute_task_operation-Keeps id p worker =
      if-Keeps (text_eq p.operation operation_docker_restart)
        (execute_restart-Keeps id _ _ _ _ _ _ _ (ask_container-Keeps e fair _))
        (if-Keeps (text_eq p.operation operation_service_restart)
          (execute_restart-Keeps id _ _ _ _ _ _ _ (ask_service-Keeps e fair _))
          (if-Keeps (text_eq p.operation operation_backup_create)
            (execute_backup_create-Keeps id p worker)
            (if-Keeps (text_eq p.operation operation_backup_verify)
              (execute_backup_verify-Keeps id p worker) (return-Keeps _))))
