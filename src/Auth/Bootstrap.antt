-- ===== src/Auth/Bootstrap.antt =====
-- The first administrator: `EnsureDefaultAdmin` and `resolveBootstrapPassword` of
-- backend/internal/service/auth_service.go. What is written to the process log is left out.
pub mod Weak
use snow_panel.Prelude.{
  Text, text, trim_space, is_empty, not, ◌&&◌, Option, none, some, ◌==◌, if◌then◌else◌,
}
use snow_panel.Errors.{GoError, plain, wrapped, wrap, Result, ok, err, bootstrap_admin_fail}
use snow_panel.Auth.Users.{User}
use snow_panel.Auth.Roles.{role_super_admin}
use snow_panel.Auth.Env.{
  AuthEnv, A, ◌>>=◌, return, draw_random, hash_password, repo_count, repo_create_user,
  repo_get_by_username, repo_ensure_rbac_defaults, repo_ensure_user_role_by_slug,
}
use snow_panel.Auth.Password.{is_strong_password, is_production_env}

abbrev fail : {R : Type 0} → GoError → Result R
fail x = err (wrap bootstrap_admin_fail x)

-- The row that `EnsureDefaultAdmin` gives to `Create`, which sets its id and times.
abbrev pub admin_row : Text → Text → Text → User
admin_row username email hash = record {
  id = 0;
  username = username;
  email = email;
  password_hash = hash;
  status = 1;
  last_login_at = none;
  created_at = 0;
  updated_at = 0;
  deleted_at = none;
}

module _ (e : AuthEnv) where
  -- `resolveBootstrapPassword`.
  unfoldable pub resolve_bootstrap_password : A (Result Text)
  resolve_bootstrap_password =
      let password = trim_space e.cfg.default_admin_password in
      let production = is_production_env e.equal_fold e.cfg.app_env in
      if is_empty (trim_space e.cfg.default_admin_username)
      then return (err (plain (text "DEFAULT_ADMIN_USERNAME cannot be empty")))
      else if is_empty (trim_space e.cfg.default_admin_email)
      then return (err (plain (text "DEFAULT_ADMIN_EMAIL cannot be empty")))
      else if is_empty password
      then (if production
          then return (err (plain (text "DEFAULT_ADMIN_PASSWORD must be set in production")))
          else do
            r ← draw_random e 24
            return (elim r [
              | err x ↦ err (wrapped (text "generate bootstrap password: ") x)
              | ok p ↦ ok p
            ]))
      else if production && not (is_strong_password password)
      then return (err (plain (text "DEFAULT_ADMIN_PASSWORD is weak for production environment")))
      else return (ok password)

  -- The creation of the administrator in `EnsureDefaultAdmin`.
  unfoldable pub create_admin : A (Result User)
  unfolding resolve_bootstrap_password
  create_admin = do
    p ← resolve_bootstrap_password
    elim p [
      | err x ↦ return (fail x)
      | ok password ↦ do
        h ← hash_password e password
        elim h [
          | err x ↦ return (fail x)
          | ok hash ↦ do
            r ←
                repo_create_user e
                  (admin_row e.cfg.default_admin_username e.cfg.default_admin_email hash)
            return (elim r [ err x ↦ fail x | ok u ↦ ok u ])
        ]
    ]

  -- The role of the administrator, if there is one.
  unfoldable pub promote_admin : Option User → A (Result (Unit {0}))
  promote_admin none = return (ok tt)
  promote_admin (some u) = do
    r ← repo_ensure_user_role_by_slug e u.id role_super_admin
    return (elim r [ err x ↦ fail x | ok _ ↦ ok tt ])

  -- `EnsureDefaultAdmin` from the count of the users on.
  unfoldable pub ensure_admin : A (Result (Unit {0}))
  unfolding create_admin promote_admin
  ensure_admin = do
    c ← repo_count e
    elim c [
      | err x ↦ return (fail x)
      | ok count ↦
          if count == 0
          then (do
            r ← create_admin
            elim r [ err x ↦ return (err x) | ok u ↦ promote_admin (some u) ])
          else do
            r ← repo_get_by_username e e.cfg.default_admin_username
            elim r [ err x ↦ return (fail x) | ok existing ↦ promote_admin existing ]
    ]

  -- `EnsureDefaultAdmin`.
  unfoldable pub ensure_default_admin : A (Result (Unit {0}))
  unfolding ensure_admin
  ensure_default_admin = do
    r ← repo_ensure_rbac_defaults e
    elim r [
      | err x ↦ return (fail x)
      | ok _ ↦ if not e.cfg.bootstrap_admin then return (ok tt) else ensure_admin
    ]
