-- ===== src/Tasks/Validity/Reading.antt =====
-- `ListTasks` and `GetTaskDetail` of backend/internal/service/task_service.go keep the tables well
-- formed, whatever other processes write between their statements.
use snow_panel.Prelude.{ℕ, none, some}
use snow_panel.Errors.{ok, err}
use snow_panel.Tasks.Repository.{Db}
use snow_panel.Tasks.World.{Env, reads_in_order}
use snow_panel.Tasks.World.Keeps.{
  IsFair, Valid, Keeps, bind-Keeps, return-Keeps, perform-Keeps, get-Keeps,
}
use snow_panel.Tasks.Pages.{TaskListFilter, repo_list, list_tasks, get_task_detail}

module _ (e : Env) (fair : IsFair e) where
  in_order-Keeps :
      {A O : Type 0} (order : ℕ → O) (f : O → Db → A) → Keeps Valid (reads_in_order e order f)
  unfolding reads_in_order
  in_order-Keeps order f = record {
    at = λ w v.
        (perform-Keeps e fair (λ now db. (ok (f (order w.steps) db), db)) (λ now db d. d)).at w v;
  }

  repo_list-Keeps : (f : TaskListFilter) → Keeps Valid (repo_list e f)
  unfolding repo_list
  repo_list-Keeps f = bind-Keeps (perform-Keeps e fair _ (λ now db v. v)) (elim [
    | err x ↦ return-Keeps (err x)
    | ok total ↦
        bind-Keeps (in_order-Keeps _ _)
          (elim [ err x ↦ return-Keeps (err x) | ok items ↦ return-Keeps _ ])
  ])

  pub list_tasks-Keeps : (f : TaskListFilter) → Keeps Valid (list_tasks e f)
  unfolding list_tasks
  list_tasks-Keeps f =
      bind-Keeps (repo_list-Keeps _) (elim [ err x ↦ return-Keeps _ | ok found ↦ return-Keeps _ ])

  pub get_task_detail-Keeps : (id : ℕ) → Keeps Valid (get_task_detail e id)
  unfolding get_task_detail
  get_task_detail-Keeps id = bind-Keeps (get-Keeps e fair id) (elim [
    | err x ↦ return-Keeps _
    | ok none ↦ return-Keeps _
    | ok (some t) ↦
        bind-Keeps (in_order-Keeps _ _) (elim [ err x ↦ return-Keeps _ | ok logs ↦ return-Keeps _ ])
  ])
