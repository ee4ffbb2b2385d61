-- ===== src/Tasks/Control.antt =====
-- `CancelTask` and `RetryTask` of backend/internal/service/task_service.go.
pub mod Laws
pub mod Canceled
use snow_panel.Prelude.{
  ℕ, ℤ, pos, Text, text, Bool, true, false, ◌||◌, not, Option, none, some, [], ◌∷◌, ◌++◌,
  if◌then◌else◌,
}
use snow_panel.Errors.{
  GoError, plain, app, wrap, Result, ok, err, bad_request, internal, task_not_found,
}
use snow_panel.Tasks.Model.{
  Status, pending, running, success, failed, canceled, status_eq, status_text, Task, MetaValue, str,
  num,
}
use snow_panel.Tasks.World.{
  Env, World, M, ◌>>=◌, ◌>>◌, return, repo_get, repo_update_status, repo_log,
}
use snow_panel.Tasks.Payload.{unmarshal_task_payload}
use snow_panel.Tasks.Create.{CreateTaskResult, create_and_run_task}

abbrev pub is_terminal : Status → Bool
is_terminal s = status_eq s success || status_eq s failed || status_eq s canceled

module _ (e : Env) where
  -- From the switch of `CancelTask` on.
  unfoldable pub cancel_found : ℕ → Text → Task → M (Result (Unit {0}))
  cancel_found id username t =
      if is_terminal t.status
      then return (
          err (
            wrap bad_request (
              plain (
                text "task is already terminal with status '"
                ++ (status_text t.status ++ text "'")))))
      else do
        r ← repo_update_status e id canceled t.progress (text "canceled by operator")
        elim r [
          | err x ↦ return (err (wrap internal x))
          | ok _ ↦ do
            repo_log e id (text "warn") (text "task canceled") ((text "actor", str username) ∷ [])
            return (ok tt)
        ]

  unfoldable pub cancel_task : ℕ → Text → M (Result (Unit {0}))
  unfolding cancel_found
  cancel_task id username = do
    r ← repo_get e id
    elim r [
      | err x ↦ return (err (wrap internal x))
      | ok found ↦ elim found [
        | none ↦ return (err (app task_not_found))
        | some t ↦ cancel_found id username t
      ]
    ]

  -- From the test of the status in `RetryTask` on.
  unfoldable pub retry_found : Option ℤ → Text → Task → M (Result CreateTaskResult)
  retry_found triggered_by username t =
      if not (status_eq t.status failed || status_eq t.status canceled)
      then return
          (err (wrap bad_request (plain (text "only failed or canceled tasks can be retried"))))
      else elim (unmarshal_task_payload e.decode t.payload) [
        | err x ↦ return (err (wrap bad_request x))
        | ok payload ↦ do
          r ← create_and_run_task e t.type payload triggered_by username none
          elim r [
            | err x ↦ return (err x)
            | ok made ↦ do
              repo_log e t.id (text "info") (text "task retried")
                  ((text "actor", str username) ∷ (text "retry_task_id", num (pos made.id)) ∷ [])
              return (ok made)
          ]
      ]

  unfoldable pub retry_task : ℕ → Option ℤ → Text → M (Result CreateTaskResult)
  unfolding retry_found
  retry_task id triggered_by username = do
    r ← repo_get e id
    elim r [
      | err x ↦ return (err (wrap internal x))
      | ok found ↦ elim found [
        | none ↦ return (err (app task_not_found))
        | some t ↦ retry_found triggered_by username t
      ]
    ]
