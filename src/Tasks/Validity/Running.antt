-- ===== src/Tasks/Validity/Running.antt =====
-- The goroutine `runTask` of backend/internal/service/task_service.go.
use snow_panel.Prelude.{ℕ, Text, text_eq, not, arith}
use snow_panel.Errors.{Result, ok, err, GoError}
use snow_panel.Tasks.Model.{
  success, failed, Payload, Metadata, operation_docker_restart, operation_service_restart,
  operation_backup_create, operation_backup_verify,
}
use snow_panel.Tasks.World.{Env, M}
use snow_panel.Tasks.World.Keeps.{
  IsFair, Valid, Keeps, bind-Keeps, return-Keeps, if-Keeps, update-Keeps, log-Keeps,
  ask_container-Keeps, ask_service-Keeps,
}
use snow_panel.Tasks.Run.{
  mark_task_failed, run_restart, run_docker, run_service, run_backup, run_switch, run_finish,
  run_started, run_task,
}
use snow_panel.Tasks.Validity.Execution.{
  is_canceled-Keeps, set_running_progress-Keeps, execute_backups-Keeps,
}

module _ (e : Env) (fair : IsFair e) where
  mark_task_failed-Keeps :
      (id : ℕ) (x : GoError) (metadata : Metadata) → Keeps Valid (mark_task_failed e id x metadata)
  unfolding mark_task_failed
  mark_task_failed-Keeps id x metadata = bind-Keeps (is_canceled-Keeps e fair id) λ c.
      if-Keeps c (log-Keeps e fair id _ _ _) (
        bind-Keeps (update-Keeps e fair id failed 100 _ (λ q. cc) (omega arith))
          λ _. log-Keeps e fair id _ _ _)

  run_restart-Keeps :
      (id : ℕ) (ask : M (Result (Text × Text))) (before starting : Text) (meta failure : Metadata)
      (after done : Text) (meta_done : Text × Text → Metadata)
      → Keeps Valid ask
      → Keeps Valid (run_restart e id ask before starting meta failure after done meta_done)
  unfolding run_restart
  run_restart-Keeps id ask before starting meta failure after done meta_done h =
      bind-Keeps (set_running_progress-Keeps e fair id 30 (omega arith)) λ first.
        if-Keeps (not first) (bind-Keeps (log-Keeps e fair id _ _ _) (λ _. return-Keeps _)) (
          bind-Keeps (log-Keeps e fair id _ _ _) λ _. bind-Keeps h (elim [
            | err x ↦ bind-Keeps (mark_task_failed-Keeps id x failure) (λ _. return-Keeps _)
            | ok answer ↦
                bind-Keeps (set_running_progress-Keeps e fair id 85 (omega arith)) λ second.
                  if-Keeps (not second)
                    (bind-Keeps (log-Keeps e fair id _ _ _) (λ _. return-Keeps _))
                    (bind-Keeps (log-Keeps e fair id _ _ _) (λ _. return-Keeps _))
          ]))

  run_backup-Keeps :
      (id : ℕ) (p : Payload) (body : M (Result (Unit {0})))
      → Keeps Valid body
      → Keeps Valid (run_backup e id p body)
  unfolding run_backup
  run_backup-Keeps id p body h = bind-Keeps h (elim [
    | err x ↦ bind-Keeps (mark_task_failed-Keeps id x _) (λ _. return-Keeps _)
    | ok _ ↦ return-Keeps _
  ])

  run_switch-Keeps : (id : ℕ) (p : Payload) → Keeps Valid (run_switch e id p)
  unfolding run_switch run_docker run_service
  run_switch-Keeps id p =
      if-Keeps (text_eq p.operation operation_docker_restart)
        (run_restart-Keeps id _ _ _ _ _ _ _ _ (ask_container-Keeps e fair _))
        (if-Keeps (text_eq p.operation operation_service_restart)
          (run_restart-Keeps id _ _ _ _ _ _ _ _ (ask_service-Keeps e fair _))
          (if-Keeps (text_eq p.operation operation_backup_create)
            (run_backup-Keeps id p _ (execute_backups-Keeps e fair id p _).0)
            (if-Keeps (text_eq p.operation operation_backup_verify)
              (run_backup-Keeps id p _ (execute_backups-Keeps e fair id p _).1)
              (bind-Keeps (mark_task_failed-Keeps id _ _) (λ _. return-Keeps _)))))

  run_finish-Keeps : (id : ℕ) (p : Payload) → Keeps Valid (run_finish e id p)
  unfolding run_finish
  run_finish-Keeps id p = bind-Keeps (is_canceled-Keeps e fair id) λ c.
      if-Keeps c (log-Keeps e fair id _ _ _) (
        bind-Keeps (update-Keeps e fair id success 100 _ (λ q. cc) (omega arith))
          λ _. log-Keeps e fair id _ _ _)

  run_started-Keeps : (id : ℕ) (p : Payload) → Keeps Valid (run_started e id p)
  unfolding run_started
  run_started-Keeps id p = bind-Keeps (log-Keeps e fair id _ _ _) λ _.
      bind-Keeps (is_canceled-Keeps e fair id) λ c. if-Keeps c (log-Keeps e fair id _ _ _) (
        bind-Keeps (run_switch-Keeps id p)
          λ goes_on. if-Keeps goes_on (run_finish-Keeps id p) (return-Keeps tt))

  pub run_task-Keeps : (id : ℕ) (p : Payload) → Keeps Valid (run_task e id p)
  unfolding run_task
  run_task-Keeps id p = bind-Keeps (is_canceled-Keeps e fair id) λ c.
      if-Keeps c (log-Keeps e fair id _ _ _) (
        bind-Keeps (set_running_progress-Keeps e fair id 5 (omega arith))
          λ started. if-Keeps started (run_started-Keeps id p) (return-Keeps tt))
