-- ===== src/Auth/Sessions/Refresh.antt =====
-- `Refresh` of backend/internal/service/auth_service.go.
use snow_panel.Prelude.{ℕ, Text, false, not, none, some, ◌==◌, if◌then◌else◌}
use snow_panel.Errors.{app, wrap, Result, ok, err, internal, session_expired, password_change_need}
use snow_panel.Auth.Users.{User}
use snow_panel.Auth.Env.{AuthEnv, A, ◌>>=◌, return, repo_get_user}
use snow_panel.Auth.Tokens.{token_use_refresh, parse_token_with_use}
use snow_panel.Auth.Sessions.{
  LoginResponse, resolve_user_rbac, respond, renew_session, validate_session,
}

module _ (e : AuthEnv) where
  -- `Refresh` for the row that was found.
  unfoldable pub refresh_found : User → A (Result LoginResponse)
  unfolding resolve_user_rbac renew_session respond
  refresh_found u = if not (u.status == 1) then return (err (app session_expired)) else do
    r ← resolve_user_rbac e u
    elim r [
      | err x ↦ return (err (wrap internal x))
      | ok rbac ↦ renew_session e u λ session.
          respond e (record u { last_login_at = some session }) rbac.0 rbac.1 false session
    ]

  -- `Refresh` behind a session that is valid.
  unfoldable pub refresh_user : ℕ → A (Result LoginResponse)
  unfolding refresh_found
  refresh_user id = do
    r ← repo_get_user e id
    elim r [
      | err x ↦ return (err (wrap internal x))
      | ok found ↦ elim found [
        | none ↦ return (err (app session_expired))
        | some u ↦ refresh_found u
      ]
    ]

  -- `Refresh`.
  unfoldable pub refresh : Text → A (Result LoginResponse)
  unfolding validate_session refresh_user
  refresh token = do
    r ← parse_token_with_use e token token_use_refresh
    elim r [
      | err x ↦ return (err x)
      | ok c ↦ if c.must_change_password then return (err (app password_change_need)) else do
        v ← validate_session e c
        elim v [ err x ↦ return (err x) | ok _ ↦ refresh_user c.user_id ]
    ]
