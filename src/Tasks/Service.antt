-- ===== src/Tasks/Service.antt =====
-- The interface `TaskService` of backend/internal/service/task_service.go, with the goroutines that
-- its methods start: a call as data.
use snow_panel.Prelude.{ℕ, ℤ, Text, Option, List, [], ◌∷◌}
use snow_panel.Tasks.Model.{Task, Payload}
use snow_panel.Tasks.World.{Env, M, ◌>>◌, return}
use snow_panel.Tasks.Create.{
  create_docker_restart_task, create_service_restart_task, create_backup_task,
  create_backup_verify_task,
}
use snow_panel.Tasks.Pages.{TaskListFilter, list_tasks, get_task_detail}
use snow_panel.Tasks.Control.{cancel_task, retry_task}
use snow_panel.Tasks.Run.{run_task}
use snow_panel.Tasks.Worker.{Worker, run_claimed_task, worker_round}

pub data Request : Type 0 where
  docker_restart : Text → Text → Option ℤ → Text → Request
  service_restart : Text → Text → Option ℤ → Text → Request
  backup_create : Text → Text → Text → Text → Text → Option ℤ → Text → Request
  backup_verify : ℤ → ℤ → Text → Text → Text → Option ℤ → Text → Request
  cancel : ℕ → Text → Request
  list : TaskListFilter → Request
  detail : ℕ → Request
  retry : ℕ → Option ℤ → Text → Request
  goroutine : ℕ → Payload → Request
  claimed_goroutine : Text → Task → Request
  round : Worker → List ℕ → ℕ → Request

unfoldable pub serve : Env → Request → M (Unit {0})
serve e (docker_restart container key by username) =
    create_docker_restart_task e container key by username >> return tt
serve e (service_restart name key by username) =
    create_service_restart_task e name key by username >> return tt
serve e (backup_create type id storage path key by username) =
    create_backup_task e type id storage path key by username >> return tt
serve e (backup_verify id size checksum path key by username) =
    create_backup_verify_task e id size checksum path key by username >> return tt
serve e (cancel id username) = cancel_task e id username >> return tt
serve e (list query) = list_tasks e query >> return tt
serve e (detail id) = get_task_detail e id >> return tt
serve e (retry id by username) = retry_task e id by username >> return tt
serve e (goroutine id p) = run_task e id p
serve e (claimed_goroutine worker t) = run_claimed_task e worker t
serve e (round o given_back free) = worker_round e o given_back free

unfoldable pub serve_all : Env → List Request → M (Unit {0})
serve_all e [] = return tt
serve_all e (r ∷ rest) = serve e r >> serve_all e rest
