-- ===== src/Tests/Service.antt =====
-- The theorems on the task service at concrete requests.
use snow_panel.Prelude.{
  ◌+◌, ℕ, zero, suc, pos, trim_space, is_space, byte_len, is_control, text_eq, ◌≡◌, refl, text,
  true, false, none, some, [], ◌∷◌, inl,
}
use snow_panel.Errors.{Result, ok, error_text}
use snow_panel.Tasks.Model.{pending, running, canceled, Task, type_docker_restart}
use snow_panel.Tasks.Repository.{Db, get_by_idempotency_key, get_by_id, create, inserted}
use snow_panel.Tasks.Repository.Actions.{updates}
use snow_panel.Tasks.Repository.Invariant.{IsValid}
use snow_panel.Tasks.Repository.Lookup.{find}
use snow_panel.Tasks.World.{
  Env, Turn, restart_container, create_metadata, arrive, repo_get, repo_create, repo_log, perform,
  interfere, ◌>>=◌, return,
}
use snow_panel.Tasks.Payload.{unmarshal_task_payload, normalize_task_idempotency_key}
use snow_panel.Tasks.Create.{
  CreateTaskResult, created, create_and_run_task, create_backup_task, create_new, after_create,
  new_task,
}
use snow_panel.Tasks.Create.Idempotency.{create_and_run_task_twice, create_backup_task_again}
use snow_panel.Tasks.Control.{cancel_task, retry_task, retry_found}
use snow_panel.Tasks.Control.Laws.{
  CancelSpec, cancel_task-CancelSpec, IsRetriable, retry_task-IsRetriable,
}
use snow_panel.Tasks.Execute.{set_running_progress}
use snow_panel.Tasks.Run.{run_task}
use snow_panel.Tasks.Retry.{next_task_retry_at}
use snow_panel.Tasks.Worker.{Worker, is_retryable, run_claimed_task, claim_available_tasks}
use snow_panel.Tasks.Worker.Claims.{Started, total, claim_available_tasks-Started}
use snow_panel.Tasks.Service.{serve_all, cancel, goroutine, round}
use snow_panel.Tasks.Validity.{serve_all-IsValid}
use snow_panel.Tasks.Canceled.{IsCalm, canceled_not_run, set_running_progress_loses_cancel}
use snow_panel.Tasks.Outcome.Held.{Holds}
use snow_panel.Tasks.Outcome.Ended.{IsAlone-IsUndisturbed, IsSuccess, IsFailure}
use snow_panel.Tasks.Outcome.Restart.{claimed_restart_succeeds, claimed_restart_fails}
use snow_panel.Tests.Data.{
  worker_a, the_key, pending_row, held_row, canceled_row, failed_row, table, table-IsValid,
  pending_row-IsRow, held_row-IsRow, canceled_row-IsRow, docker_job, a_backup, broken, good, bad,
  good-IsFair, good-IsAlone, bad-IsAlone, world,
}

abbrev a_worker : Worker
a_worker = record { worker_id = worker_a; concurrency = 2; lease_duration = 30; poll_interval = 2 }

serve_all-IsValid_example :
    IsValid
      (serve_all good
        (round a_worker (1 ∷ []) 1 ∷ goroutine 1 docker_job ∷ cancel 1 (text "admin") ∷ [])
        (world (table pending_row))).1.db
serve_all-IsValid_example =
    serve_all-IsValid good
      (round a_worker (1 ∷ []) 1 ∷ goroutine 1 docker_job ∷ cancel 1 (text "admin") ∷ [])
      (world (table pending_row)) good-IsFair (table-IsValid pending_row pending_row-IsRow refl)

held_now : Holds 1 worker_a 1 (pos 2) (table held_row)
held_now = record {
  valid = table-IsValid held_row held_row-IsRow refl;
  row = held_row;
  found = refl;
  held = record { runs = refl; held_by = refl; attempt_is = refl; max_is = refl };
}

job_read : unmarshal_task_payload good.decode held_row.payload ≡ ok docker_job
unfolding unmarshal_task_payload text text_eq trim_space
job_read = refl

claimed_restart_succeeds_example :
    ((run_claimed_task good worker_a held_row (world (table held_row))).1.calls
      ≡ restart_container (text "web") ∷ [])
    × ((u : Task) × (find 1
            (run_claimed_task good worker_a held_row (world (table held_row))).1.db.tasks
          ≡ some u)
        × IsSuccess 1 u)
claimed_restart_succeeds_example =
    claimed_restart_succeeds good held_row worker_a docker_job (restart_container (text "web"))
      (text "web", text "running") (world (table held_row))
      (IsAlone-IsUndisturbed good good-IsAlone) job_read (inl (refl, refl, refl)) held_now

claimed_restart_fails_example :
    ((run_claimed_task bad worker_a held_row (world (table held_row))).1.calls
      ≡ restart_container (text "web") ∷ [])
    × ((u : Task) × (k : ℕ) × ((run_claimed_task bad worker_a held_row
            (world (table held_row))).1.steps
          ≡ k + 2)
        × (find 1 (run_claimed_task bad worker_a held_row (world (table held_row))).1.db.tasks
            ≡ some u)
        × IsFailure 1
            (error_text broken)
            (next_task_retry_at (bad.turn k).now (pos 1) (pos 2) (is_retryable broken))
            u)
claimed_restart_fails_example =
    claimed_restart_fails bad held_row worker_a docker_job (restart_container (text "web")) broken
      (world (table held_row)) bad-IsAlone job_read (inl (refl, refl, refl)) held_now

good-IsCalm : IsCalm good 1
good-IsCalm = record { up = λ n. refl; others_off = λ n. tt }

canceled_not_run_example :
    let w' = (run_claimed_task good worker_a held_row (world (table canceled_row))).1 in
    let w'' = (run_task good 1 docker_job (world (table canceled_row))).1 in
    (w'.calls ≡ [])
    × (find 1 w'.db.tasks ≡ some canceled_row)
    × (w''.calls ≡ [])
    × (find 1 w''.db.tasks ≡ some canceled_row)
canceled_not_run_example =
    canceled_not_run good 1 canceled_row held_row worker_a docker_job (world (table canceled_row))
      good-IsCalm refl refl (table-IsValid canceled_row canceled_row-IsRow refl) refl

-- An operator cancels the task before the second statement.
abbrev late_cancel : ℕ → Turn
late_cancel zero = record { others = []; now = 1000; fails = false }
late_cancel (suc n) = record {
  others = updates 1 canceled 30 (text "canceled by operator") ∷ [];
  now = 1001;
  fails = false;
}

abbrev racing : Env
racing = record good { turn = late_cancel }

set_running_progress_loses_cancel_example :
    ((set_running_progress racing 1 30 (world (table held_row))).0 ≡ true)
    × ((u : Task) × (find 1 (set_running_progress racing 1 30 (world (table held_row))).1.db.tasks
          ≡ some u)
        × (u.status ≡ running))
set_running_progress_loses_cancel_example =
    set_running_progress_loses_cancel racing 1 30 30 (text "canceled by operator")
      (world (table held_row)) held_row refl (λ e. cc) refl refl refl refl

abbrev empty : Db
empty = record { tasks = []; next_id = 1; logs = []; next_log_id = 1 }

create_and_run_task_twice_example :
    let first =
      create_and_run_task good type_docker_restart docker_job none
        (text "admin")
        (some the_key)
        (world empty) in
    let again =
      create_and_run_task good type_docker_restart docker_job none
        (text "admin")
        (some the_key)
        first.1 in
    (again.0 ≡ first.0) × (again.1.db.tasks ≡ first.1.db.tasks)
create_and_run_task_twice_example =
    create_and_run_task_twice good type_docker_restart docker_job none (text "admin") the_key
      (world empty) good-IsAlone

key_accepted : normalize_task_idempotency_key (text " once ") ≡ ok (some the_key)
unfolding normalize_task_idempotency_key text trim_space is_space byte_len is_control
key_accepted = refl

key_known : get_by_idempotency_key the_key (table held_row) ≡ some held_row
unfolding get_by_idempotency_key text text_eq
key_known = refl

create_backup_task_again_example :
    let again =
      create_backup_task good
        (text "database")
        (text "main")
        (text "local")
        (text "main.dump")
        (text " once ")
        none
        (text "admin")
        (world (table held_row)) in
    (again.0 ≡ ok (a_backup, created held_row))
    × (again.1.db.tasks ≡ held_row ∷ [])
    × (again.1.calls
        ≡ create_metadata (text "database") (text "main") (text "local") (text "main.dump") none
          ∷ [])
create_backup_task_again_example =
    create_backup_task_again good (text "database") (text "main") (text "local") (text "main.dump")
      (text " once ") the_key none (text "admin") a_backup (world (table held_row)) held_row
      good-IsAlone refl key_accepted key_known refl

cancel_task-CancelSpec_example :
    CancelSpec good.turn 1
      (world (table pending_row))
      (cancel_task good 1 (text "admin") (world (table pending_row))).0
      (cancel_task good 1 (text "admin") (world (table pending_row))).1
cancel_task-CancelSpec_example =
    cancel_task-CancelSpec good 1 (text "admin") (world (table pending_row)) good-IsAlone

abbrev retried : Result CreateTaskResult
retried = ok (record { id = 2; type = type_docker_restart; status = pending })

retry_accepted : (retry_task good 1 none (text "admin") (world (table failed_row))).0 ≡ retried
unfolding retry_task retry_found create_and_run_task create_new after_create repo_get repo_create
    repo_log perform arrive interfere ◌>>=◌ return get_by_id unmarshal_task_payload text text_eq
    trim_space create inserted new_task
retry_accepted = refl

retry_task-IsRetriable_example :
    (t : Task) × (find 1 (arrive good (world (table failed_row))).tasks ≡ some t)
    × IsRetriable good.decode t
retry_task-IsRetriable_example =
    retry_task-IsRetriable good 1 none (text "admin")
      (record { id = 2; type = type_docker_restart; status = pending }) (world (table failed_row))
      retry_accepted

claim_available_tasks-Started_example :
    Started worker_a []
      (1 + total (1 ∷ []))
      (claim_available_tasks good a_worker (1 ∷ []) 1 (world (table pending_row))).1.spawned
claim_available_tasks-Started_example =
    claim_available_tasks-Started good a_worker (1 ∷ []) 1 (world (table pending_row))
