-- ===== src/Auth/Sessions/Change.antt =====
-- `ChangePassword` of backend/internal/service/auth_service.go.
use snow_panel.Prelude.{ℕ, Text, text, text_eq, trim_space, false, not, none, some, if◌then◌else◌}
use snow_panel.Errors.{
  GoError, plain, app, app_wrap, wrap, new, Result, ok, err, internal, user_not_found,
}
use snow_panel.Auth.Users.{User}
use snow_panel.Auth.Env.{
  AuthEnv, A, ◌>>=◌, return, hash_password, repo_get_user, repo_update_password_hash,
}
use snow_panel.Auth.Password.{is_strong_password}
use snow_panel.Auth.Sessions.{LoginResponse, resolve_user_rbac, respond, renew_session}

-- The errors of `ChangePassword` at a bad request.
abbrev pub refused : Text → Text → GoError
refused message cause = app_wrap (new 2000 400 message) (plain cause)

module _ (e : AuthEnv) where
  -- The end of `ChangePassword`, for the changed row.
  unfoldable pub answer_changed : User → ℕ → A (Result LoginResponse)
  unfolding resolve_user_rbac respond
  answer_changed u session = do
    r ← resolve_user_rbac e u
    elim r [
      | err x ↦ return (err (wrap internal x))
      | ok rbac ↦ respond e u rbac.0 rbac.1 false session
    ]

  -- `ChangePassword` once the new password is accepted.
  unfoldable pub store_password : User → Text → A (Result LoginResponse)
  unfolding renew_session answer_changed
  store_password u password = do
    h ← hash_password e password
    elim h [
      | err x ↦ return (err (wrap internal x))
      | ok hash ↦ do
        s ← repo_update_password_hash e u.id hash
        elim s [
          | err x ↦ return (err (wrap internal x))
          | ok _ ↦ renew_session e u λ session.
              answer_changed (record u { password_hash = hash; last_login_at = some session })
                session
        ]
    ]

  -- `ChangePassword` for the row that was found.
  unfoldable pub change_found : User → Text → Text → A (Result LoginResponse)
  unfolding store_password
  change_found u current next =
      let password = trim_space next in
      if not (e.matches u.password_hash current)
      then return
          (err (refused (text "current password is incorrect") (text "current password mismatch")))
      else if not (is_strong_password password)
      then return (
          err (
            refused (text "new password is too weak")
              (text "new password must be at least 14 chars and include upper/lower/digit/symbol")))
      else if text_eq current password
      then return (
          err (
            refused (text "new password must be different from current password")
              (text "new password equals current password")))
      else store_password u password

  -- `ChangePassword`.
  unfoldable pub change_password : ℕ → Text → Text → A (Result LoginResponse)
  unfolding change_found
  change_password id current next = do
    r ← repo_get_user e id
    elim r [
      | err x ↦ return (err (wrap internal x))
      | ok found ↦ elim found [
        | none ↦ return (err (app user_not_found))
        | some u ↦ change_found u current next
      ]
    ]
