-- ===== src/Tasks/Validity.antt =====
-- Every method of the task service keeps the tables well formed.
pub mod Execution
pub mod Creation
pub mod Running
pub mod Working
pub mod Reading
use snow_panel.Prelude.{Text, List, [], ◌∷◌, All, ◌≡◌, refl, ℕ}
use snow_panel.Tasks.Repository.{Db}
use snow_panel.Tasks.Repository.Invariant.{IsValid}
use snow_panel.Tasks.World.{Env, World, ◌>>◌, ◌>>=◌}
use snow_panel.Tasks.World.Keeps.{IsFair, Valid, Keeps, bind-Keeps, return-Keeps}
use snow_panel.Tasks.Service.{
  Request, docker_restart, service_restart, backup_create, backup_verify, cancel, list, detail,
  retry, goroutine, claimed_goroutine, round, serve, serve_all,
}
use Creation.{
  create_docker-Keeps, create_service-Keeps, create_backup-Keeps, create_verify-Keeps,
  cancel_task-Keeps, retry_task-Keeps,
}
use Running.{run_task-Keeps}
use Reading.{list_tasks-Keeps, get_task_detail-Keeps}
use Working.{run_claimed_task-Keeps, worker_round-Keeps}

module _ (e : Env) (fair : IsFair e) where
  serve-Keeps : (r : Request) → Keeps Valid (serve e r)
  unfolding serve
  serve-Keeps (docker_restart container key by username) =
      bind-Keeps (create_docker-Keeps e fair container key by username) (λ _. return-Keeps tt)
  serve-Keeps (service_restart name key by username) =
      bind-Keeps (create_service-Keeps e fair name key by username) (λ _. return-Keeps tt)
  serve-Keeps (backup_create type id storage path key by username) =
      bind-Keeps (create_backup-Keeps e fair type id storage path key by username)
        (λ _. return-Keeps tt)
  serve-Keeps (backup_verify id size checksum path key by username) =
      bind-Keeps (create_verify-Keeps e fair id size checksum path key by username)
        (λ _. return-Keeps tt)
  serve-Keeps (cancel id username) =
      bind-Keeps (cancel_task-Keeps e fair id username) (λ _. return-Keeps tt)
  serve-Keeps (list query) = bind-Keeps (list_tasks-Keeps e fair query) (λ _. return-Keeps tt)
  serve-Keeps (detail id) = bind-Keeps (get_task_detail-Keeps e fair id) (λ _. return-Keeps tt)
  serve-Keeps (retry id by username) =
      bind-Keeps (retry_task-Keeps e fair id by username) (λ _. return-Keeps tt)
  serve-Keeps (goroutine id p) = run_task-Keeps e fair id p
  serve-Keeps (claimed_goroutine worker t) = run_claimed_task-Keeps e fair worker t
  serve-Keeps (round o given_back free) = worker_round-Keeps e fair o given_back free

serve_all-Keeps :
    (e : Env) → IsFair e → (requests : List Request) → Keeps Valid (serve_all e requests)
unfolding serve_all
serve_all-Keeps e fair [] = return-Keeps tt
serve_all-Keeps e fair (r ∷ rest) =
    bind-Keeps (serve-Keeps e fair r) (λ _. serve_all-Keeps e fair rest)

-- Any calls of the task service, its workers and its goroutines, with any statements failing and
-- any writes of other such processes in between, keep the tables well formed: ids and idempotency
-- keys stay unique, no pending task has a lease, and no task has more attempts than it may.
pub serve_all-IsValid :
    (e : Env) (requests : List Request) (w : World)
    → IsFair e
    → IsValid w.db
    → IsValid (serve_all e requests w).1.db
serve_all-IsValid e requests w fair v = (serve_all-Keeps e fair requests).at w v
