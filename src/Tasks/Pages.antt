-- ===== src/Tasks/Pages.antt =====
-- The pages of tasks and logs: `List` and `ListLogs` of
-- backend/internal/repository/task_repository.go, `ListTasks` and `GetTaskDetail` of
-- backend/internal/service/task_service.go. The order in which a statement gives the rows is the
-- database's, which may give rows of the same time in any order. The offset of a page is taken not to overflow an `int`.
pub mod Order
pub mod Walk
pub mod Unique
use snow_panel.Prelude.{
  ℕ, ℤ, pos, pos_part, ◌-◌, ◌*◌, Text, text_eq, trim_space, is_empty, is_nonpos, Bool, true, false,
  ◌&&◌, ◌||◌, Option, none, some, List, [], ◌∷◌, map, take, drop, keep_if, length, leb, ltb, ◌==◌,
  if◌then◌else◌,
}
use snow_panel.Errors.{GoError, app, wrap, Result, ok, err, internal, task_not_found}
use snow_panel.Tasks.Model.{Status, Task, status_text, TaskLog}
use snow_panel.Tasks.Repository.{Db}
use snow_panel.Tasks.World.{Env, World, M, ◌>>=◌, return, repo_get, reads, reads_in_order}

-- `TaskListFilter`, and `dto.ListTasksQuery`.
pub record TaskListFilter : Type 0 where
  pub page : ℤ
  pub size : ℤ
  pub status : Text
  pub type : Text

abbrev pub page_or_first : ℤ → ℕ
page_or_first p = if is_nonpos p then 1 else pos_part p

abbrev pub size_or_default : ℤ → ℕ
size_or_default s = if is_nonpos s then 20 else pos_part s

-- The size of a page as `List` takes it.
abbrev pub capped_size : ℤ → ℕ
capped_size s = let size = size_or_default s in if ltb 100 size then 100 else size

abbrev pub passes : Text → Text → Bool
passes wanted value = let w = trim_space wanted in is_empty w || text_eq value w

-- The conditions of `List`.
unfoldable pub matches : TaskListFilter → Task → Bool
matches f t = passes f.status (status_text t.status) && passes f.type t.type

-- The two statements of `List`: `Count`, and `Find` of a page.
unfoldable pub count_matching : TaskListFilter → Db → ℕ
count_matching f db = length (keep_if (matches f) db.tasks)

-- `newest` is the order that `ORDER BY created_at DESC` gives the rows.
unfoldable pub find_page : (List Task → List Task) → TaskListFilter → Db → List Task
find_page newest f db =
    let size = capped_size f.size in
    take size (drop ((page_or_first f.page - 1) * size) (newest (keep_if (matches f) db.tasks)))

abbrev pub log_limit : ℤ → ℕ
log_limit n = if is_nonpos n || ltb 500 (pos_part n) then 200 else pos_part n

-- `ListLogs`; `oldest` is the order that `ORDER BY created_at ASC` gives the logs.
unfoldable pub list_logs : (List TaskLog → List TaskLog) → ℕ → ℤ → Db → List TaskLog
list_logs oldest task_id limit db =
    take (log_limit limit) (oldest (keep_if (λ l. l.entry.task_id == task_id) db.logs))

-- `dto.TaskSummary`, with times before they are formatted.
pub record TaskSummary : Type 0 where
  pub id : ℕ
  pub type : Text
  pub status : Status
  pub progress : ℕ
  pub error_msg : Text
  pub triggered_by : Option ℤ
  pub created_at : ℕ
  pub updated_at : ℕ

-- `mapTaskSummary`.
unfoldable pub map_task_summary : Task → TaskSummary
map_task_summary t = record {
  id = t.id;
  type = t.type;
  status = t.status;
  progress = t.progress;
  error_msg = t.error_msg;
  triggered_by = t.triggered_by;
  created_at = t.created_at;
  updated_at = t.updated_at;
}

pub record ListTasksResult : Type 0 where
  pub page : ℕ
  pub size : ℕ
  pub total : ℕ
  pub items : List TaskSummary

pub record TaskDetail : Type 0 where
  pub summary : TaskSummary
  pub logs : List TaskLog

module _ (e : Env) where
  -- `List`: two statements, of which the second may find other rows.
  unfoldable pub repo_list : TaskListFilter → M (Result (List Task × ℕ))
  unfolding count_matching find_page
  repo_list f = do
    counted ← reads e (count_matching f)
    elim counted [
      | err x ↦ return (err x)
      | ok total ↦ do
        found ← reads_in_order e e.newest_tasks (λ newest. find_page newest f)
        elim found [ err x ↦ return (err x) | ok items ↦ return (ok (items, total)) ]
    ]

  unfoldable pub list_tasks : TaskListFilter → M (Result ListTasksResult)
  unfolding repo_list
  list_tasks q = do
    r ←
        repo_list
          (record q { page = pos (page_or_first q.page); size = pos (size_or_default q.size) })
    elim r [
      | err x ↦ return (err (wrap internal x))
      | ok found ↦
          let (items, total) = found in
          return (
            ok (record {
              page = page_or_first q.page;
              size = size_or_default q.size;
              total = total;
              items = map map_task_summary items;
            }))
    ]

  unfoldable pub get_task_detail : ℕ → M (Result TaskDetail)
  unfolding list_logs
  get_task_detail id = do
    r ← repo_get e id
    elim r [
      | err x ↦ return (err (wrap internal x))
      | ok found ↦ elim found [
        | none ↦ return (err (app task_not_found))
        | some t ↦ do
          l ← reads_in_order e e.oldest_logs (λ oldest. list_logs oldest id (pos 200))
          elim l [
            | err x ↦ return (err (wrap internal x))
            | ok logs ↦ return (ok (record { summary = map_task_summary t; logs = logs }))
          ]
      ]
    ]
