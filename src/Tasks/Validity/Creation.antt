-- ===== src/Tasks/Validity/Creation.antt =====
-- The methods of backend/internal/service/task_service.go that create, cancel and retry tasks.
use snow_panel.Prelude.{
  ℕ, ℤ, Text, is_empty, trim_space, is_nonpos, not, ◌||◌, Option, none, some, arith,
}
use snow_panel.Errors.{Result, ok, err}
use snow_panel.Tasks.Model.{canceled, failed, status_eq, Payload, Task}
use snow_panel.Tasks.Repository.Rows.{IsRow}
use snow_panel.Tasks.World.{Env, M}
use snow_panel.Tasks.World.Keeps.{
  IsFair, Valid, Keeps, bind-Keeps, return-Keeps, if-Keeps, result-Keeps, create-Keeps, get-Keeps,
  bind-get-Keeps, get_by_key-Keeps, update-Keeps, log-Keeps, ask_backup-Keeps, spawn-Keeps,
}
use snow_panel.Tasks.Payload.{unmarshal_task_payload, normalize_task_idempotency_key}
use snow_panel.Tasks.Create.{
  new_task, after_create, create_new, create_and_run_task, with_key, is_incomplete,
  create_docker_restart_task, create_service_restart_task, create_backup_task,
  create_backup_verify_task,
}
use snow_panel.Tasks.Control.{is_terminal, retry_found, retry_task, cancel_found, cancel_task}

module _ (e : Env) (fair : IsFair e) where
  after_create-Keeps :
      (type : Text) (p : Payload) (username : Text) (key : Option Text) (r : Result Task)
      → Keeps Valid (after_create e type p username key r)
  unfolding after_create
  after_create-Keeps type p username none (err x) = return-Keeps _
  after_create-Keeps type p username (some key) (err x) =
      bind-Keeps (get_by_key-Keeps e fair key) (λ _. return-Keeps _)
  after_create-Keeps type p username key (ok t) =
      bind-Keeps (log-Keeps e fair t.id _ _ _)
        λ _. bind-Keeps (if-Keeps e.async (spawn-Keeps _) (return-Keeps tt)) λ _. return-Keeps _

  create_new-Keeps :
      (type : Text) (p : Payload) (by : Option ℤ) (username : Text) (key : Option Text)
      → Keeps Valid (create_new e type p by username key)
  unfolding create_new
  create_new-Keeps type p by username key =
      bind-Keeps (create-Keeps e fair _ (unfold new_task in ground arith))
        (after_create-Keeps type p username key)

  pub create_and_run_task-Keeps :
      (type : Text) (p : Payload) (by : Option ℤ) (username : Text) (key : Option Text)
      → Keeps Valid (create_and_run_task e type p by username key)
  unfolding create_and_run_task
  create_and_run_task-Keeps type p by username none = create_new-Keeps type p by username none
  create_and_run_task-Keeps type p by username (some key) =
      bind-Keeps (get_by_key-Keeps e fair key) (elim [
        | err x ↦ return-Keeps _
        | ok none ↦ create_new-Keeps type p by username (some key)
        | ok (some t) ↦ return-Keeps _
      ])

  with_key-Keeps :
      {A : Type 0} (raw : Text) (f : Option Text → M (Result A))
      → ((key : Option Text) → Keeps Valid (f key))
      → Keeps Valid (with_key e raw f)
  unfolding with_key
  with_key-Keeps raw f h = result-Keeps (normalize_task_idempotency_key raw) (λ x. return-Keeps _) h

  pub create_docker-Keeps :
      (container key : Text) (by : Option ℤ) (username : Text)
      → Keeps Valid (create_docker_restart_task e container key by username)
  unfolding create_docker_restart_task
  create_docker-Keeps container key by username =
      if-Keeps (is_empty (trim_space container)) (return-Keeps _) (
        if-Keeps (not e.has_docker) (return-Keeps _)
          (with_key-Keeps key _ (λ k. create_and_run_task-Keeps _ _ by username k)))

  pub create_service-Keeps :
      (name key : Text) (by : Option ℤ) (username : Text)
      → Keeps Valid (create_service_restart_task e name key by username)
  unfolding create_service_restart_task
  create_service-Keeps name key by username =
      if-Keeps (is_empty (trim_space name)) (return-Keeps _) (
        if-Keeps (not e.has_manager) (return-Keeps _)
          (with_key-Keeps key _ (λ k. create_and_run_task-Keeps _ _ by username k)))

  pub create_backup-Keeps :
      (type id storage path key : Text) (by : Option ℤ) (username : Text)
      → Keeps Valid (create_backup_task e type id storage path key by username)
  unfolding create_backup_task
  create_backup-Keeps type id storage path key by username =
      if-Keeps (not e.has_backup) (return-Keeps _) (
        with_key-Keeps key _ λ k. bind-Keeps (ask_backup-Keeps e fair _) (elim [
          | err x ↦ return-Keeps _
          | ok b ↦ bind-Keeps (create_and_run_task-Keeps _ _ by username k) (elim [
            | err x ↦ bind-Keeps (ask_backup-Keeps e fair _) (λ _. return-Keeps _)
            | ok t ↦ return-Keeps _
          ])
        ]))

  pub create_verify-Keeps :
      (id size : ℤ) (checksum path key : Text) (by : Option ℤ) (username : Text)
      → Keeps Valid (create_backup_verify_task e id size checksum path key by username)
  unfolding create_backup_verify_task
  create_verify-Keeps id size checksum path key by username =
      if-Keeps (is_nonpos id) (return-Keeps _) (
        if-Keeps (not e.has_backup) (return-Keeps _) (
          with_key-Keeps key _ λ k.
            if-Keeps (is_incomplete size checksum path) (return-Keeps _)
              (create_and_run_task-Keeps _ _ by username k)))

  retry_found-Keeps :
      (by : Option ℤ) (username : Text) (t : Task) → Keeps Valid (retry_found e by username t)
  unfolding retry_found
  retry_found-Keeps by username t =
      if-Keeps (not (status_eq t.status failed || status_eq t.status canceled)) (return-Keeps _) (
        result-Keeps (unmarshal_task_payload e.decode t.payload) (λ x. return-Keeps _)
          λ p. bind-Keeps (create_and_run_task-Keeps t.type p by username none) (elim [
            | err x ↦ return-Keeps _
            | ok made ↦ bind-Keeps (log-Keeps e fair t.id _ _ _) (λ _. return-Keeps _)
          ]))

  pub retry_task-Keeps :
      (id : ℕ) (by : Option ℤ) (username : Text) → Keeps Valid (retry_task e id by username)
  unfolding retry_task
  retry_task-Keeps id by username = bind-Keeps (get-Keeps e fair id) (elim [
    | err x ↦ return-Keeps _
    | ok none ↦ return-Keeps _
    | ok (some t) ↦ retry_found-Keeps by username t
  ])

  cancel_found-Keeps :
      (id : ℕ) (username : Text) (t : Task) → IsRow t → Keeps Valid (cancel_found e id username t)
  unfolding cancel_found
  cancel_found-Keeps id username t v = if-Keeps (is_terminal t.status) (return-Keeps _) (
      bind-Keeps (update-Keeps e fair id canceled t.progress _ (λ q. cc) v.progress_capped) (elim [
        | err x ↦ return-Keeps _
        | ok _ ↦ bind-Keeps (log-Keeps e fair id _ _ _) (λ _. return-Keeps _)
      ]))

  pub cancel_task-Keeps : (id : ℕ) (username : Text) → Keeps Valid (cancel_task e id username)
  unfolding cancel_task
  cancel_task-Keeps id username = bind-get-Keeps e fair id (elim [
    | err x ↦ λ _. return-Keeps _
    | ok none ↦ λ _. return-Keeps _
    | ok (some t) ↦ λ v. cancel_found-Keeps id username t v
  ])
