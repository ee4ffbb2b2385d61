-- ===== src/Tasks/Worker.antt =====
-- The task workers of backend/internal/service/task_service.go: `runClaimedTask`,
-- `failClaimedTask`, `claimAvailableTasks`, a round of `RunWorker`, `refreshTaskGauges` and
-- `normalizeTaskWorkerOptions`. The heartbeats of `startTaskHeartbeat` are among the writes of
-- others, at the interval of `Retry.task_heartbeat_interval`.
pub mod Claims
use snow_panel.Prelude.{
  ◌+◌, ℕ, ℤ, zero, suc, pos, pos_part, ◌*◌, Text, text, trim_space, is_empty, is_nonpos, Bool, true,
  false, not, ◌&&◌, Option, none, some, List, [], ◌∷◌, ◌++◌, if◌then◌else◌,
}
use snow_panel.Errors.{GoError, non_retryable, Result, ok, err, error_text, is_non_retryable}
use snow_panel.Tasks.Model.{
  Status, pending, running, success, failed, status_text, Task, Payload, Metadata, MetaValue, str,
  num, flag, time,
}
use snow_panel.Tasks.World.{
  Env, World, M, ◌>>=◌, ◌>>◌, return, clock, repo_claim, repo_complete, repo_fail, repo_release,
  repo_count, repo_log, observe, spawn, worker_claim, task_completed, queue_depth, tasks_running,
  run_claimed_of,
}
use snow_panel.Tasks.Retry.{second, next_task_retry_at, is_retryable_task_error}
use snow_panel.Tasks.Payload.{unmarshal_task_payload}
use snow_panel.Tasks.Execute.{is_canceled, set_running_progress, execute_task_operation}
use snow_panel.Tasks.Run.{warn}

-- `retryable` in `failClaimedTask`.
unfoldable pub is_retryable : GoError → Bool
is_retryable x = not (is_non_retryable x) && is_retryable_task_error x

abbrev pub next_run_field : Option ℕ → Metadata
next_run_field none = []
next_run_field (some at) = (text "next_run_at", time at) ∷ []

abbrev pub failure_message : Option ℕ → Text
failure_message none = text "task failed"
failure_message (some at) = text "task failed; retry scheduled"

-- `TaskWorkerOptions`, with durations in nanoseconds, and as `normalizeTaskWorkerOptions` leaves it.
pub record WorkerOptions : Type 0 where
  pub worker_id : Text
  pub concurrency : ℤ
  pub lease_duration : ℤ
  pub poll_interval : ℤ

pub record Worker : Type 0 where
  pub worker_id : Text
  pub concurrency : ℕ
  pub lease_duration : ℕ
  pub poll_interval : ℕ

abbrev pub or_default : ℤ → ℕ → ℕ
or_default v d = if is_nonpos v then d else pos_part v

-- The host's name and the process id are read from the system.
unfoldable pub normalize_task_worker_options : Text → Text → WorkerOptions → Worker
normalize_task_worker_options hostname process_id o =
    let id = trim_space o.worker_id in
    let host = trim_space hostname in
    let name = if is_empty host then text "snowpanel-backend" else host in
    record {
      worker_id = (if is_empty id then name ++ (text "-" ++ process_id) else id);
      concurrency = or_default o.concurrency 1;
      lease_duration = or_default o.lease_duration (30 * second);
      poll_interval = or_default o.poll_interval (2 * second);
    }

module _ (e : Env) where
  unfoldable pub fail_claimed_task : Task → Text → GoError → Metadata → M (Unit {0})
  unfolding is_retryable
  fail_claimed_task t worker x metadata = do
    c ← is_canceled e t.id
    if c
        then repo_log e t.id (text "warn") (text "task canceled while operation was running")
            ((text "worker_id", str worker) ∷ [])
        else do
          now ← clock e
          let next = next_task_retry_at now (pos t.attempt) t.max_attempts (is_retryable x)
          repo_fail e t.id worker (error_text x) next
          elim next [ none ↦ observe e (task_completed t.type failed) | some at ↦ return tt ]
          repo_log e t.id (text "error") (failure_message next) (
              (text "attempt", num (pos t.attempt))
              ∷ (text "error", str (error_text x))
              ∷ (text "max_attempts", num t.max_attempts)
              ∷ (text "retryable", flag (is_retryable x))
              ∷ (text "worker_id", str worker)
              ∷ (next_run_field next ++ metadata))

  -- `runClaimedTask` behind a successful operation.
  unfoldable pub finish_claimed : Task → Text → Payload → M (Unit {0})
  finish_claimed t worker p = do
    c ← is_canceled e t.id
    if c then warn e t.id (text "task canceled after operation") else do
      repo_complete e t.id worker (text "{}")
      observe e (task_completed t.type success)
      repo_log e t.id (text "info") (text "task completed") (
          (text "operation", str p.operation)
          ∷ (text "status", str (status_text success))
          ∷ (text "progress", num (pos 100))
          ∷ (text "worker_id", str worker)
          ∷ [])

  -- `runClaimedTask` from the log of the started execution on.
  unfoldable pub start_claimed : Task → Text → Payload → M (Unit {0})
  unfolding finish_claimed fail_claimed_task
  start_claimed t worker p = do
    repo_log e t.id (text "info") (text "task execution started") (
        (text "operation", str p.operation)
        ∷ (text "progress", num (pos 5))
        ∷ (text "worker_id", str worker)
        ∷ [])
    r ← execute_task_operation e t.id p worker
    elim r [
      | err x ↦ fail_claimed_task t worker x ((text "operation", str p.operation) ∷ [])
      | ok _ ↦ finish_claimed t worker p
    ]

  -- `runClaimedTask` with a payload that can be read.
  unfoldable pub run_payload : Task → Text → Payload → M (Unit {0})
  unfolding start_claimed
  run_payload t worker p = do
    repo_log e t.id (text "info") (text "task claimed by worker")
        ((text "worker_id", str worker) ∷ (text "attempt", num (pos t.attempt)) ∷ [])
    c ← is_canceled e t.id
    if c then warn e t.id (text "task canceled before worker execution") else do
      started ← set_running_progress e t.id 5
      if started then start_claimed t worker p else return tt

  unfoldable pub run_claimed_task : Text → Task → M (Unit {0})
  unfolding run_payload
  run_claimed_task worker t = elim (unmarshal_task_payload e.decode t.payload) [
    | err x ↦ fail_claimed_task t worker (non_retryable x) ((text "payload", str t.payload) ∷ [])
    | ok p ↦ run_payload t worker p
  ]

  -- The body of the loop of `claimAvailableTasks` once it has taken a place of the channel `workers`;
  -- `rest` is the loop from then on.
  unfoldable pub claim_task : Worker → M (Unit {0}) → M (Unit {0})
  claim_task o rest = do
    r ← repo_claim e o.worker_id o.lease_duration
    elim r [
      | err x ↦ observe e (worker_claim (text "error"))
      | ok found ↦ elim found [
        | none ↦ observe e (worker_claim (text "empty"))
        | some t ↦ do observe e (worker_claim (text "success")); spawn (run_claimed_of t); rest
      ]
    ]

  -- `free` is the number of free places of the channel `workers`. Goroutines that end while the loop
  -- runs give places back, which the loop takes again: `given_back` has the number of these before
  -- each further turn of the loop, and none are given back in the turns that it does not name. So
  -- every run of the loop that ends is that of some list.
  unfoldable pub claim_available_tasks : Worker → List ℕ → ℕ → M (Unit {0})
  unfolding claim_task
  claim_available_tasks o given_back zero = return tt
  claim_available_tasks o [] (suc free) = claim_task o (claim_available_tasks o [] free)
  claim_available_tasks o (n ∷ given_back) (suc free) =
      claim_task o (claim_available_tasks o given_back (free + n))

  unfoldable pub refresh_task_gauges : M (Unit {0})
  refresh_task_gauges = if not e.has_metrics then return tt else do
    a ← repo_count e pending
    elim a [ ok n ↦ observe e (queue_depth n) | err x ↦ return tt ]
    b ← repo_count e running
    elim b [ ok n ↦ observe e (tasks_running n) | err x ↦ return tt ]

  -- One round of the loop of `RunWorker`, whose context is not done.
  unfoldable pub worker_round : Worker → List ℕ → ℕ → M (Unit {0})
  unfolding claim_available_tasks refresh_task_gauges
  worker_round o given_back free = do
    now ← clock e
    repo_release e now
    refresh_task_gauges
    claim_available_tasks o given_back free
