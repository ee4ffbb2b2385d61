-- ===== src/Tasks/Retry.antt =====
-- The retry rules of backend/internal/service/task_service.go: `taskHeartbeatInterval`,
-- `nextTaskRetryAt`, `isRetryableTaskError`, `taskRetryBackoff`. Durations are in nanoseconds.
pub mod Backoff
pub mod Classify
use snow_panel.Prelude.{
  ℕ, ℤ, ◌+◌, ◌-◌, ◌*◌, ◌/◌, ◌^◌, pos_part, is_nonpos, lebℤ, ltbℤ, ltb, ◌==◌, Bool, true, false, not,
  ◌||◌, Option, none, some, if◌then◌else◌,
}
use snow_panel.Errors.{GoError, AppError, as_app}

abbrev pub second : ℕ
second = 1000000000

abbrev pub millisecond : ℕ
millisecond = 1000000

-- `leaseDuration / 3` is positive if it is not 0, as the lease is.
unfoldable pub task_heartbeat_interval : ℤ → ℕ
task_heartbeat_interval lease =
    if is_nonpos lease
    then 10 * second
    else if pos_part lease / 3 == 0
    then pos_part lease
    else if ltb (pos_part lease / 3) (50 * millisecond)
    then 50 * millisecond
    else pos_part lease / 3

-- `attempt` cut to the range from 1 to 6.
abbrev pub clamped_attempt : ℤ → ℕ
clamped_attempt attempt =
    let a = if is_nonpos attempt then 1 else pos_part attempt in if ltb 6 a then 6 else a

unfoldable pub task_retry_backoff : ℤ → ℕ
task_retry_backoff attempt =
    let delay = second * 2 ^ (clamped_attempt attempt - 1) in
    if ltb (30 * second) delay then 30 * second else delay

-- The status codes that the switch of `isRetryableTaskError` names.
abbrev pub is_permanent : ℕ → Bool
is_permanent s = s == 400 || s == 401 || s == 403 || s == 404 || s == 413

unfoldable pub is_retryable_task_error : GoError → Bool
is_retryable_task_error x = elim (as_app x) [ none ↦ true | some a ↦ not (is_permanent a.status) ]

unfoldable pub next_task_retry_at : ℕ → ℤ → ℤ → Bool → Option ℕ
next_task_retry_at now attempt max_attempts retryable =
    if not retryable || is_nonpos max_attempts || lebℤ max_attempts attempt
    then none
    else some (now + task_retry_backoff attempt)
