-- ===== src/Tasks/Repository.antt =====
-- backend/internal/repository/task_repository.go: every statement as a function on the tables. A
-- statement is atomic. `now` is the clock that the method reads; `Updates` also sets `updated_at`
-- to it. The tables are those of backend/migrations/0001_init_schema.up.sql and
-- 0002_durable_tasks.up.sql, whose unique index on `idempotency_key` `create` obeys.
pub mod Actions
pub mod Rows
pub mod Updates
pub mod Claim
pub mod Lookup
pub mod Change
pub mod Lifecycle
pub mod Alive
pub mod Stuck
pub mod Due
pub mod Leases
pub mod Invariant
use snow_panel.Prelude.{
  ℕ, ℤ, zero, suc, ◌+◌, ◌-◌, ◌*◌, Text, text, text_eq, trim_space, is_empty, Bool, true, false,
  ◌&&◌, ◌||◌, Option, none, some, is_some, List, [], ◌∷◌, ◌++◌, take, drop, keep_if, any_of,
  first_of_list, length, ltb, leb, ltbℤ, lebℤ, is_nonpos, ◌==◌, if◌then◌else◌,
}
use snow_panel.Errors.{GoError, plain, Result, ok, err}
use snow_panel.Tasks.Model.{
  Status, pending, running, success, failed, canceled, status_eq, status_text, Task, TaskLog,
  LogEntry,
}

-- The tables `tasks` and `task_logs`, in the order of insertion, with their sequences.
pub record Db : Type 0 where
  pub tasks : List Task
  pub next_id : ℕ
  pub logs : List TaskLog
  pub next_log_id : ℕ

-- `UPDATE tasks SET ... WHERE ...`.
unfoldable pub update_where : (Task → Bool) → (Task → Task) → List Task → List Task
update_where c f [] = []
update_where c f (t ∷ ts) = (if c t then f t else t) ∷ update_where c f ts

abbrev pub update_tasks : (Task → Bool) → (Task → Task) → Db → Db
update_tasks c f db = record db { tasks = update_where c f db.tasks }

-- `column = ?` and `column IS NULL OR column <= ?` on a column that may be NULL.
abbrev pub holds_text : Option Text → Text → Bool
holds_text none s = false
holds_text (some t) s = text_eq t s

abbrev pub is_due : Option ℕ → ℕ → Bool
is_due none now = true
is_due (some at) now = leb at now

abbrev pub is_before : Option ℕ → ℕ → Bool
is_before none now = false
is_before (some at) now = ltb at now

-- The row that `Create` inserts.
unfoldable pub inserted : ℕ → ℕ → Task → Task
inserted id now t = record t {
  id = id;
  max_attempts = (if is_nonpos t.max_attempts then ℤ.pos 1 else t.max_attempts);
  created_at = now;
  updated_at = now;
}

abbrev pub has_key : Option Text → Task → Bool
has_key none t = false
has_key (some k) t = holds_text t.idempotency_key k

-- `Create`: the new row, or the violation of the unique index.
unfoldable pub create : Task → ℕ → Db → Result Task × Db
unfolding inserted
create t now db =
    if any_of (has_key t.idempotency_key) db.tasks
    then (err (plain (text "duplicate key value violates unique constraint")), db)
    else (
      ok (inserted db.next_id now t),
      record db { tasks = db.tasks ++ inserted db.next_id now t ∷ []; next_id = suc db.next_id },
    )

-- The condition of the inner `SELECT` of `ClaimNextTask`.
unfoldable pub claimable : ℕ → Task → Bool
claimable now t =
    status_eq t.status pending && is_due t.next_run_at now && ltbℤ (ℤ.pos t.attempt) t.max_attempts

-- `ORDER BY created_at ASC LIMIT 1`.
unfoldable pub earlier : Task → Option Task → Task
earlier t none = t
earlier t (some s) = if ltb s.created_at t.created_at then s else t

unfoldable pub oldest : (Task → Bool) → List Task → Option Task
unfolding earlier
oldest c [] = none
oldest c (t ∷ ts) = let rest = oldest c ts in if c t then some (earlier t rest) else rest

abbrev pub or_else : Option ℕ → ℕ → Option ℕ
or_else none v = some v
or_else (some u) v = some u

-- The `SET` clause of `ClaimNextTask`.
unfoldable pub claim_row : Text → ℕ → ℕ → Task → Task
claim_row worker lease now t = record t {
  status = running;
  locked_by = some worker;
  locked_until = some (now + lease);
  attempt = t.attempt + 1;
  started_at = or_else t.started_at now;
  updated_at = now;
}

abbrev pub has_id : ℕ → Task → Bool
has_id id t = t.id == id

-- `ClaimNextTask`.
unfoldable pub claim_next_task : Text → ℕ → ℕ → Db → Option Task × Db
unfolding claim_row claimable oldest
claim_next_task worker lease now db = elim (oldest (claimable now) db.tasks) [
  | none ↦ (none, db)
  | some t ↦ (
    some (claim_row worker lease now t),
    update_tasks (has_id t.id) (claim_row worker lease now) db,
  )
]

-- `WHERE id = ? AND locked_by = ? AND status = 'running'`.
unfoldable pub holds_lease : ℕ → Text → Task → Bool
holds_lease id worker t = t.id == id && holds_text t.locked_by worker && status_eq t.status running

unfoldable pub heartbeat_row : ℕ → ℕ → Task → Task
heartbeat_row lease now t = record t { locked_until = some (now + lease); updated_at = now }

-- `HeartbeatTask`.
unfoldable pub heartbeat_task : ℕ → Text → ℕ → ℕ → Db → Db
unfolding holds_lease heartbeat_row
heartbeat_task id worker lease now = update_tasks (holds_lease id worker) (heartbeat_row lease now)

unfoldable pub complete_row : Text → ℕ → Task → Task
complete_row result now t = record t {
  status = success;
  progress = 100;
  result = result;
  error_msg = text "";
  locked_by = none;
  locked_until = none;
  finished_at = some now;
  updated_at = now;
}

-- `CompleteTask`.
unfoldable pub complete_task : ℕ → Text → Text → ℕ → Db → Db
unfolding holds_lease complete_row
complete_task id worker result now = update_tasks (holds_lease id worker) (complete_row result now)

-- The fields that `FailTask` sets, with `nextRunAt` nil or not.
unfoldable pub fail_row : Text → Option ℕ → ℕ → Task → Task
fail_row message none now t = record t {
  status = failed;
  progress = 100;
  error_msg = message;
  locked_by = none;
  locked_until = none;
  next_run_at = none;
  finished_at = some now;
  updated_at = now;
}
fail_row message (some at) now t = record t {
  status = pending;
  error_msg = message;
  locked_by = none;
  locked_until = none;
  next_run_at = some at;
  updated_at = now;
}

-- `FailTask`.
unfoldable pub fail_task : ℕ → Text → Text → Option ℕ → ℕ → Db → Db
unfolding holds_lease fail_row
fail_task id worker message next now =
    update_tasks (holds_lease id worker) (fail_row message next now)

-- The condition of `ReleaseStaleTasks`.
unfoldable pub is_stale : ℕ → Task → Bool
is_stale now t = status_eq t.status running && is_before t.locked_until now

unfoldable pub release_row : ℕ → Task → Task
release_row now t = record t {
  status = pending;
  locked_by = none;
  locked_until = none;
  next_run_at = some now;
  updated_at = now;
}

-- `ReleaseStaleTasks`, with the number of rows affected.
unfoldable pub release_stale_tasks : ℕ → Db → ℕ × Db
unfolding is_stale release_row
release_stale_tasks now db =
    (length (keep_if (is_stale now) db.tasks), update_tasks (is_stale now) (release_row now) db)

unfoldable pub status_row : Status → ℕ → Text → ℕ → Task → Task
status_row status progress message now t = record t {
  status = status;
  progress = progress;
  error_msg = message;
  updated_at = now;
}

-- `UpdateStatus`.
unfoldable pub update_status : ℕ → Status → ℕ → Text → ℕ → Db → Db
unfolding status_row
update_status id status progress message now =
    update_tasks (has_id id) (status_row status progress message now)

-- `CountByStatus`.
unfoldable pub count_by_status : Status → Db → ℕ
count_by_status s db = length (keep_if (λ t. status_eq t.status s) db.tasks)

-- `GetByID` and `GetByIdempotencyKey`: the row, or nil.
unfoldable pub get_by_id : ℕ → Db → Option Task
get_by_id id db = first_of_list (has_id id) db.tasks

unfoldable pub get_by_idempotency_key : Text → Db → Option Task
get_by_idempotency_key key db = first_of_list (has_key (some key)) db.tasks

-- `AppendLog`.
unfoldable pub append_log : LogEntry → ℕ → Db → Db
append_log entry now db = record db {
  logs = db.logs ++ record { id = db.next_log_id; entry = entry; created_at = now } ∷ [];
  next_log_id = suc db.next_log_id;
}
