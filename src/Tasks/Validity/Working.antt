-- ===== src/Tasks/Validity/Working.antt =====
-- The workers of backend/internal/service/task_service.go.
use snow_panel.Prelude.{List, [], ◌∷◌, ◌+◌, ℕ, zero, suc, pos, Text, not, none, some, arith}
use snow_panel.Errors.{Result, ok, err, GoError}
use snow_panel.Tasks.Model.{pending, running, Task, Payload, Metadata}
use snow_panel.Tasks.World.{M, Env, return, observe, Observation, queue_depth, tasks_running}
use snow_panel.Tasks.World.Keeps.{
  IsFair, Valid, Keeps, bind-Keeps, return-Keeps, if-Keeps, option-Keeps, result-Keeps, clock-Keeps,
  claim-Keeps, complete-Keeps, fail-Keeps, release-Keeps, count-Keeps, log-Keeps, observe-Keeps,
  spawn-Keeps,
}
use snow_panel.Tasks.Retry.{next_task_retry_at}
use snow_panel.Tasks.Payload.{unmarshal_task_payload}
use snow_panel.Tasks.Worker.{
  Worker, is_retryable, fail_claimed_task, finish_claimed, start_claimed, run_payload,
  run_claimed_task, claim_available_tasks, claim_task, refresh_task_gauges, worker_round,
}
use snow_panel.Tasks.Validity.Execution.{
  is_canceled-Keeps, set_running_progress-Keeps, execute_task_operation-Keeps,
}

module _ (e : Env) (fair : IsFair e) where
  fail_claimed_task-Keeps :
      (t : Task) (worker : Text) (x : GoError) (metadata : Metadata)
      → Keeps Valid (fail_claimed_task e t worker x metadata)
  unfolding fail_claimed_task
  fail_claimed_task-Keeps t worker x metadata = bind-Keeps (is_canceled-Keeps e fair t.id) λ c.
      if-Keeps c (log-Keeps e fair t.id _ _ _) (
        bind-Keeps (clock-Keeps e fair) λ now. bind-Keeps (fail-Keeps e fair t.id worker _ _) λ _.
          bind-Keeps
            (option-Keeps (next_task_retry_at now (pos t.attempt) t.max_attempts (is_retryable x))
              (observe-Keeps e fair _) (λ _. return-Keeps tt))
            λ _. log-Keeps e fair t.id _ _ _)

  finish_claimed-Keeps :
      (t : Task) (worker : Text) (p : Payload) → Keeps Valid (finish_claimed e t worker p)
  unfolding finish_claimed
  finish_claimed-Keeps t worker p = bind-Keeps (is_canceled-Keeps e fair t.id) λ c.
      if-Keeps c (log-Keeps e fair t.id _ _ _) (
        bind-Keeps (complete-Keeps e fair t.id worker _)
          λ _. bind-Keeps (observe-Keeps e fair _) λ _. log-Keeps e fair t.id _ _ _)

  start_claimed-Keeps :
      (t : Task) (worker : Text) (p : Payload) → Keeps Valid (start_claimed e t worker p)
  unfolding start_claimed
  start_claimed-Keeps t worker p = bind-Keeps (log-Keeps e fair t.id _ _ _) λ _.
      bind-Keeps (execute_task_operation-Keeps e fair t.id p worker) (elim [
        | err x ↦ fail_claimed_task-Keeps t worker x _
        | ok _ ↦ finish_claimed-Keeps t worker p
      ])

  run_payload-Keeps :
      (t : Task) (worker : Text) (p : Payload) → Keeps Valid (run_payload e t worker p)
  unfolding run_payload
  run_payload-Keeps t worker p = bind-Keeps (log-Keeps e fair t.id _ _ _) λ _.
      bind-Keeps (is_canceled-Keeps e fair t.id) λ c. if-Keeps c (log-Keeps e fair t.id _ _ _) (
        bind-Keeps (set_running_progress-Keeps e fair t.id 5 (omega arith))
          λ started. if-Keeps started (start_claimed-Keeps t worker p) (return-Keeps tt))

  pub run_claimed_task-Keeps :
      (worker : Text) (t : Task) → Keeps Valid (run_claimed_task e worker t)
  unfolding run_claimed_task
  run_claimed_task-Keeps worker t =
      result-Keeps (unmarshal_task_payload e.decode t.payload)
        (λ x. fail_claimed_task-Keeps t worker _ _) (λ p. run_payload-Keeps t worker p)

  claim_task-Keeps :
      (o : Worker) {rest : M (Unit {0})} → Keeps Valid rest → Keeps Valid (claim_task e o rest)
  unfolding claim_task
  claim_task-Keeps o h = bind-Keeps (claim-Keeps e fair o.worker_id o.lease_duration) (elim [
    | err x ↦ observe-Keeps e fair _
    | ok none ↦ observe-Keeps e fair _
    | ok (some t) ↦ bind-Keeps (observe-Keeps e fair _) λ _. bind-Keeps (spawn-Keeps _) λ _. h
  ])

  claim_available_tasks-Keeps :
      (o : Worker) (given_back : List ℕ) (free : ℕ)
      → Keeps Valid (claim_available_tasks e o given_back free)
  unfolding claim_available_tasks
  claim_available_tasks-Keeps o given_back zero = return-Keeps tt
  claim_available_tasks-Keeps o [] (suc free) =
      claim_task-Keeps o (claim_available_tasks-Keeps o [] free)
  claim_available_tasks-Keeps o (n ∷ given_back) (suc free) =
      claim_task-Keeps o (claim_available_tasks-Keeps o given_back (free + n))

  gauge-Keeps :
      (r : Result ℕ) (o : ℕ → Observation)
      → Keeps Valid (elim r [ ok n ↦ observe e (o n) | err x ↦ return tt ])
  gauge-Keeps (ok n) o = observe-Keeps e fair (o n)
  gauge-Keeps (err x) o = return-Keeps tt

  refresh_task_gauges-Keeps : Keeps Valid (refresh_task_gauges e)
  unfolding refresh_task_gauges
  refresh_task_gauges-Keeps = if-Keeps (not e.has_metrics) (return-Keeps tt) (
      bind-Keeps (count-Keeps e fair pending) λ a.
        bind-Keeps (gauge-Keeps a queue_depth)
          λ _. bind-Keeps (count-Keeps e fair running) λ b. gauge-Keeps b tasks_running)

  pub worker_round-Keeps :
      (o : Worker) (given_back : List ℕ) (free : ℕ) → Keeps Valid (worker_round e o given_back free)
  unfolding worker_round
  worker_round-Keeps o given_back free = bind-Keeps (clock-Keeps e fair) λ now.
      bind-Keeps (release-Keeps e fair now)
        λ _. bind-Keeps refresh_task_gauges-Keeps λ _. claim_available_tasks-Keeps o given_back free
