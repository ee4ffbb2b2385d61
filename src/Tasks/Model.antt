-- ===== src/Tasks/Model.antt =====
-- The row types `Task` and `TaskLog` of backend/internal/model/schema.go, the task constants and
-- `taskPayload` of backend/internal/service/task_service.go, and the values of a log's metadata.
-- Times are nanoseconds since Go's zero time.
use snow_panel.Prelude.{ℕ, ℤ, Text, text, Bool, true, false, Option, List}

-- The constants `TaskStatus…`.
pub data Status : Type 0 where
  pending running success failed canceled : Status

abbrev pub status_eq : Status → Status → Bool
status_eq pending pending = true
status_eq running running = true
status_eq success success = true
status_eq failed failed = true
status_eq canceled canceled = true
status_eq _ _ = false

-- The text of a status.
unfoldable pub status_text : Status → Text
status_text pending = text "pending"
status_text running = text "running"
status_text success = text "success"
status_text failed = text "failed"
status_text canceled = text "canceled"

pub record Task : Type 0 where
  pub id : ℕ
  pub type : Text
  pub status : Status
  pub progress : ℕ
  pub payload : Text
  pub result : Text
  pub error_msg : Text
  pub triggered_by : Option ℤ
  pub host_id : Option ℤ
  pub locked_by : Option Text
  pub locked_until : Option ℕ
  pub attempt : ℕ
  pub max_attempts : ℤ
  pub idempotency_key : Option Text
  pub next_run_at : Option ℕ
  pub started_at : Option ℕ
  pub finished_at : Option ℕ
  pub created_at : ℕ
  pub updated_at : ℕ

pub record Payload : Type 0 where
  pub operation : Text
  pub container_id : Text
  pub service_name : Text
  pub backup_id : ℤ
  pub resource_type : Text
  pub resource_id : Text
  pub storage_type : Text
  pub file_path : Text
  pub size_bytes : ℤ
  pub checksum : Text

-- Go's zero value of `taskPayload`.
abbrev pub empty_payload : Payload
empty_payload = record {
  operation = text "";
  container_id = text "";
  service_name = text "";
  backup_id = ℤ.pos 0;
  resource_type = text "";
  resource_id = text "";
  storage_type = text "";
  file_path = text "";
  size_bytes = ℤ.pos 0;
  checksum = text "";
}

-- A value of the map that `marshalTaskMetadata` is given.
pub data MetaValue : Type 0 where
  str : Text → MetaValue
  num : ℤ → MetaValue
  flag : Bool → MetaValue
  time : ℕ → MetaValue
  payload_value : Payload → MetaValue

-- The metadata is kept as the map, before `json.Marshal` and the redaction of its text.
abbrev pub Metadata : Type 0
Metadata = List (Text × MetaValue)

-- A log row without the columns that the database fills.
pub record LogEntry : Type 0 where
  pub task_id : ℕ
  pub level : Text
  pub message : Text
  pub metadata : Metadata

pub record TaskLog : Type 0 where
  pub id : ℕ
  pub entry : LogEntry
  pub created_at : ℕ

abbrev pub type_docker_restart : Text
type_docker_restart = text "docker_restart"

abbrev pub type_service_restart : Text
type_service_restart = text "service_restart"

abbrev pub type_backup_create : Text
type_backup_create = text "backup_create"

abbrev pub type_backup_verify : Text
type_backup_verify = text "backup_verify"

abbrev pub operation_docker_restart : Text
operation_docker_restart = text "docker.restart"

abbrev pub operation_service_restart : Text
operation_service_restart = text "service.restart"

abbrev pub operation_backup_create : Text
operation_backup_create = text "backup.create"

abbrev pub operation_backup_verify : Text
operation_backup_verify = text "backup.verify"
