-- ===== src/Tests/Data.antt =====
-- Rows, tables and surroundings for the tests of the task service.
use snow_panel.Prelude.{
  ℕ, pos, ◌+◌, ◌≡◌, refl, Text, text, true, false, Option, none, some, [], ◌∷◌, arith,
}
use snow_panel.Errors.{Result, ok, err, plain, app_wrap, internal, GoError}
use snow_panel.Tasks.Model.{
  Status, pending, running, failed, canceled, Task, Payload, empty_payload, type_docker_restart,
  operation_docker_restart,
}
use snow_panel.Tasks.Repository.{Db}
use snow_panel.Tasks.Repository.Rows.{IsRow}
use snow_panel.Tasks.Repository.Invariant.{IsValid}
use snow_panel.Tasks.Pages.Order.{newest_first}
use snow_panel.Tasks.World.{Env, World, BackupSummary}
use snow_panel.Tasks.World.Keeps.{IsFair}
use snow_panel.Tasks.World.Alone.{IsAlone}

abbrev pub worker_a : Text
worker_a = text "worker-a"

abbrev pub worker_b : Text
worker_b = text "worker-b"

abbrev pub the_key : Text
the_key = text "once"

-- Task 1 with its status, holder and end of its lease, and its attempts of two.
abbrev pub row : Status → Option Text → Option ℕ → ℕ → Task
row status holder until attempt = record {
  id = 1;
  type = type_docker_restart;
  status = status;
  progress = 30;
  payload = text "{}";
  result = text "{}";
  error_msg = text "";
  triggered_by = none;
  host_id = none;
  locked_by = holder;
  locked_until = until;
  attempt = attempt;
  max_attempts = pos 2;
  idempotency_key = some the_key;
  next_run_at = none;
  started_at = some 5;
  finished_at = none;
  created_at = 5;
  updated_at = 5;
}

abbrev pub pending_row : Task
pending_row = row pending none none 1

abbrev pub held_row : Task
held_row = row running (some worker_a) (some 900) 1

abbrev pub last_row : Task
last_row = row running (some worker_a) (some 900) 2

abbrev pub canceled_row : Task
canceled_row = row canceled (some worker_a) (some 900) 1

abbrev pub failed_row : Task
failed_row = row failed none none 2

abbrev pub table : Task → Db
table t = record { tasks = t ∷ []; next_id = 2; logs = []; next_log_id = 1 }

pub table-IsValid : (t : Task) → IsRow t → t.id ≡ 1 → IsValid (table t)
table-IsValid t r i = record { rows = (r, tt); below = (omega (arith, i), tt); distinct = (tt, tt) }

pub pending_row-IsRow : IsRow pending_row
pending_row-IsRow = ground arith

pub held_row-IsRow : IsRow held_row
held_row-IsRow = ground arith

pub last_row-IsRow : IsRow last_row
last_row-IsRow = ground arith

pub canceled_row-IsRow : IsRow canceled_row
canceled_row-IsRow = ground arith

abbrev pub docker_job : Payload
docker_job = record empty_payload {
  operation = operation_docker_restart;
  container_id = text "web";
}

abbrev pub a_backup : BackupSummary
a_backup = record {
  id = pos 7;
  resource_type = text "database";
  resource_id = text "main";
  storage_type = text "local";
  file_path = text "main.dump";
  size_bytes = pos 0;
  checksum = text "";
}

abbrev pub broken : GoError
broken = app_wrap internal (plain (text "docker is down"))

-- A process alone, whose containers answer by `answer`.
abbrev pub env : Result (Text × Text) → Env
env answer = record {
  turn = λ n. record { others = []; now = 1000 + n; fails = false };
  container = λ calls id. answer;
  service = λ calls name. answer;
  backup = λ calls c. ok a_backup;
  encode = λ p. text "{}";
  decode = λ raw. ok docker_job;
  newest_tasks = λ n. newest_first;
  oldest_logs = λ n logs. logs;
  has_docker = true;
  has_manager = true;
  has_backup = true;
  has_metrics = true;
  async = false;
  max_attempts = pos 2;
  hostname = text "host";
  process_id = text "1";
}

abbrev pub good : Env
good = env (ok (text "web", text "running"))

abbrev pub bad : Env
bad = env (err broken)

pub good-IsFair : IsFair good
good-IsFair n = tt

pub good-IsAlone : IsAlone good
good-IsAlone = record { up = λ n. refl; alone = λ n. refl }

pub bad-IsAlone : IsAlone bad
bad-IsAlone = record { up = λ n. refl; alone = λ n. refl }

abbrev pub world : Db → World
world db = record { db = db; steps = 0; calls = []; observed = []; spawned = [] }
