-- ===== src/Tasks/Create.antt =====
-- How tasks come into being: `createAndRunTask` and the `Create…Task` methods of
-- backend/internal/service/task_service.go.
pub mod Idempotency
use snow_panel.Prelude.{
  ℕ, ℤ, pos, Text, text, trim_space, is_empty, is_nonpos, Bool, true, false, not, ◌&&◌, ◌||◌,
  Option, none, some, [], ◌∷◌, if◌then◌else◌,
}
use snow_panel.Errors.{GoError, plain, app_wrap, wrap, Result, ok, err, bad_request, internal}
use snow_panel.Tasks.Model.{
  Status, pending, Task, Payload, empty_payload, MetaValue, str, num, payload_value, status_text,
  type_docker_restart, type_service_restart, type_backup_create, type_backup_verify,
  operation_docker_restart, operation_service_restart, operation_backup_create,
  operation_backup_verify,
}
use snow_panel.Tasks.World.{
  Env, World, M, ◌>>=◌, ◌>>◌, return, repo_create, repo_get_by_key, repo_log, ask_backup, spawn,
  run_task_of, create_metadata, mark_failed, BackupSummary,
}
use snow_panel.Tasks.Payload.{is_blank, has_manual_verification, normalize_task_idempotency_key}

-- `dto.CreateTaskResult`.
pub record CreateTaskResult : Type 0 where
  pub id : ℕ
  pub type : Text
  pub status : Status

abbrev pub created : Task → CreateTaskResult
created t = record { id = t.id; type = t.type; status = t.status }

-- The row that `createAndRunTask` gives to `Create`, which sets its id and times.
unfoldable pub new_task : Text → Text → Option ℤ → Option Text → ℤ → Task
new_task type payload triggered_by key max_attempts = record {
  id = 0;
  type = type;
  status = pending;
  progress = 0;
  payload = payload;
  result = text "{}";
  error_msg = text "";
  triggered_by = triggered_by;
  host_id = none;
  locked_by = none;
  locked_until = none;
  attempt = 0;
  max_attempts = max_attempts;
  idempotency_key = key;
  next_run_at = none;
  started_at = none;
  finished_at = none;
  created_at = 0;
  updated_at = 0;
}

-- `MaxAttempts` as `NewTaskServiceWithOptions` leaves it.
unfoldable pub service_attempts : ℤ → ℤ
service_attempts m = if is_nonpos m then pos 1 else m

-- The payloads of the `Create…Task` methods.
abbrev pub docker_payload : Text → Payload
docker_payload container = record empty_payload {
  operation = operation_docker_restart;
  container_id = container;
}

abbrev pub service_payload : Text → Payload
service_payload service = record empty_payload {
  operation = operation_service_restart;
  service_name = service;
}

abbrev pub backup_payload : BackupSummary → Payload
backup_payload b = record empty_payload {
  operation = operation_backup_create;
  backup_id = b.id;
  resource_type = b.resource_type;
  resource_id = b.resource_id;
  storage_type = b.storage_type;
  file_path = b.file_path;
}

abbrev pub verify_payload : ℤ → ℤ → Text → Text → Payload
verify_payload backup_id size_bytes checksum file_path = record empty_payload {
  operation = operation_backup_verify;
  backup_id = backup_id;
  size_bytes = size_bytes;
  checksum = checksum;
  file_path = file_path;
}

-- The request for an own verification that `CreateBackupVerifyTask` refuses.
abbrev pub is_incomplete : ℤ → Text → Text → Bool
is_incomplete size_bytes checksum file_path =
    has_manual_verification size_bytes checksum file_path
    && (is_nonpos size_bytes || is_blank checksum)

module _ (e : Env) where
  -- From `s.repo.Create` on, for a task with no earlier one of its key.
  unfoldable pub after_create :
      Text → Payload → Text → Option Text → Result Task → M (Result CreateTaskResult)
  after_create type payload username none (err x) = return (err (wrap internal x))
  after_create type payload username (some key) (err x) = do
    found ← repo_get_by_key e key
    return (elim found [
      | ok existing ↦ elim existing [ some t ↦ ok (created t) | none ↦ err (wrap internal x) ]
      | err y ↦ err (wrap internal x)
    ])
  after_create type payload username key (ok t) = do
    repo_log e t.id (text "info") (text "task queued") (
        (text "actor", str username)
        ∷ (text "type", str type)
        ∷ (text "payload", payload_value payload)
        ∷ (text "status", str (status_text pending))
        ∷ (text "progress", num (pos 0))
        ∷ [])
    if e.async then spawn (run_task_of t.id payload) else return tt
    return (ok (created t))

  unfoldable pub create_new :
      Text → Payload → Option ℤ → Text → Option Text → M (Result CreateTaskResult)
  unfolding after_create new_task service_attempts
  create_new type payload triggered_by username key = do
    r ←
        repo_create e
          (new_task type (e.encode payload) triggered_by key (service_attempts e.max_attempts))
    after_create type payload username key r

  unfoldable pub create_and_run_task :
      Text → Payload → Option ℤ → Text → Option Text → M (Result CreateTaskResult)
  unfolding create_new
  create_and_run_task type payload triggered_by username none =
      create_new type payload triggered_by username none
  create_and_run_task type payload triggered_by username (some key) = do
    found ← repo_get_by_key e key
    elim found [
      | err x ↦ return (err (wrap internal x))
      | ok existing ↦ elim existing [
        | some t ↦ return (ok (created t))
        | none ↦ create_new type payload triggered_by username (some key)
      ]
    ]

  -- The common end of the `Create…Task` methods, once the request has been checked.
  unfoldable pub with_key : {A : Type 0} → Text → (Option Text → M (Result A)) → M (Result A)
  with_key raw f = elim (normalize_task_idempotency_key raw) [
    | err x ↦ return (err (wrap bad_request x))
    | ok key ↦ f key
  ]

  unfoldable pub create_docker_restart_task :
      Text → Text → Option ℤ → Text → M (Result CreateTaskResult)
  unfolding with_key
  create_docker_restart_task container_id raw_key triggered_by username =
      let container = trim_space container_id in
      if is_empty container
      then return (err (wrap bad_request (plain (text "container_id is required"))))
      else if not e.has_docker
      then return (err (wrap internal (plain (text "docker service is not configured"))))
      else with_key raw_key λ key.
        create_and_run_task type_docker_restart (docker_payload container) triggered_by username key

  unfoldable pub create_service_restart_task :
      Text → Text → Option ℤ → Text → M (Result CreateTaskResult)
  unfolding with_key
  create_service_restart_task service_name raw_key triggered_by username =
      let service = trim_space service_name in
      if is_empty service
      then return (err (wrap bad_request (plain (text "service_name is required"))))
      else if not e.has_manager
      then return (err (wrap internal (plain (text "service manager is not configured"))))
      else with_key raw_key λ key.
        create_and_run_task type_service_restart (service_payload service) triggered_by username key

  -- The request is its resource type and id, storage type and file path.
  unfoldable pub create_backup_task :
      Text
      → Text
      → Text
      → Text
      → Text
      → Option ℤ
      → Text
      → M (Result (BackupSummary × CreateTaskResult))
  unfolding with_key
  create_backup_task resource_type resource_id storage_type file_path raw_key triggered_by
        username =
      if not e.has_backup
      then return (err (wrap internal (plain (text "backup service is not configured"))))
      else with_key raw_key λ key. do
        made ←
            ask_backup e
              (create_metadata resource_type resource_id storage_type file_path triggered_by)
        elim made [
          | err x ↦ return (err x)
          | ok b ↦ do
            r ← create_and_run_task type_backup_create (backup_payload b) triggered_by username key
            elim r [
              | err x ↦ do ask_backup e (mark_failed b.id); return (err x)
              | ok t ↦ return (ok (b, t))
            ]
        ]

  unfoldable pub create_backup_verify_task :
      ℤ → ℤ → Text → Text → Text → Option ℤ → Text → M (Result CreateTaskResult)
  unfolding with_key
  create_backup_verify_task backup_id size_bytes checksum file_path raw_key triggered_by username =
      if is_nonpos backup_id
      then return (err (wrap bad_request (plain (text "backup id must be positive"))))
      else if not e.has_backup
      then return (err (wrap internal (plain (text "backup service is not configured"))))
      else with_key raw_key λ key.
        if is_incomplete size_bytes checksum file_path
        then return (
            err (
              wrap bad_request (
                plain (
                  text
                    "size_bytes and checksum are required when overriding artifact verification"))))
        else create_and_run_task type_backup_verify
            (verify_payload backup_id size_bytes checksum file_path) triggered_by username key
