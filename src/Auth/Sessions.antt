-- ===== src/Auth/Sessions.antt =====
-- Sessions in backend/internal/service/auth_service.go: `Login`, `RevokeSession`, `Me`
-- and `ValidateSession`. A session is the time of its start, which the user's
-- row and the tokens keep.
pub mod Refresh
pub mod Change
pub mod Past
pub mod Accepted
pub mod Answers
pub mod Kept
use snow_panel.Prelude.{
  ℕ, ℤ, pos, suc, ◌+◌, Text, text, text_eq, trim_space, is_empty, is_nonpos, ltbℤ, Bool, true,
  false, not, ◌&&◌, ◌||◌, Option, none, some, is_some, List, [], ◌∷◌, ltb, ◌==◌, if◌then◌else◌,
}
use snow_panel.Errors.{
  GoError, AppError, plain, app, app_wrap, wrap, new, Result, ok, err, internal, invalid_credential,
  user_disabled, token_generate, token_parse, session_expired, user_not_found, password_change_need,
  bad_request,
}
use snow_panel.Auth.Users.{User}
use snow_panel.Auth.Roles.{role_operator}
use snow_panel.Auth.Env.{
  AuthEnv, AuthWorld, A, ◌>>=◌, return, clock, hash_password, repo_get_by_username, repo_get_user,
  repo_update_last_login_at, repo_update_password_hash, repo_ensure_user_role_by_slug,
  repo_get_roles_and_permissions,
}
use snow_panel.Auth.Password.{is_strong_password}
use snow_panel.Auth.Tokens.{
  TokenClaims, token_use_refresh, compute_rbac_checksum, generate_token_pair, parse_token_with_use,
}

-- `dto.UserProfile`.
pub record UserProfile : Type 0 where
  pub id : ℕ
  pub username : Text
  pub email : Text
  pub status : ℕ
  pub roles : List Text
  pub permissions : List Text
  pub must_change_password : Bool

-- `dto.LoginResponse`; its token type is always "Bearer".
pub record LoginResponse : Type 0 where
  pub access_token : Text
  pub refresh_token : Text
  pub expires_in : ℕ
  pub refresh_expires_in : ℕ
  pub user : UserProfile

-- `nextSessionTime`.
unfoldable pub next_session_time : ℕ → Option ℕ → ℕ
next_session_time now none = now
next_session_time now (some previous) = if ltb previous now then now else previous + 1

-- `toProfile`.
abbrev pub to_profile : User → List Text → List Text → Bool → UserProfile
to_profile u roles permissions must = record {
  id = u.id;
  username = u.username;
  email = u.email;
  status = u.status;
  roles = roles;
  permissions = permissions;
  must_change_password = must;
}

abbrev pub is_before_login : ℤ → Option ℕ → Bool
is_before_login session none = false
is_before_login session (some at) = ltbℤ session (pos at)

abbrev pub claim_checksum : (Text → Text) → TokenClaims → Text
claim_checksum digest c =
    let given = trim_space c.rbac_checksum in
    if is_empty given then compute_rbac_checksum digest c.roles c.permissions else given

module _ (e : AuthEnv) where
  -- `mustChangePassword`.
  unfoldable pub must_change_password : User → Bool
  must_change_password u =
      e.equal_fold (trim_space u.username) (trim_space e.cfg.default_admin_username)
      && not (is_some u.last_login_at)

  -- `resolveUserRBAC`.
  unfoldable pub resolve_user_rbac : User → A (Result (List Text × List Text))
  resolve_user_rbac u = do
    r ← repo_get_roles_and_permissions e u.id
    elim r [
      | err x ↦ return (err x)
      | ok found ↦ elim found.0 [
        | _ ∷ _ ↦ return (ok found)
        | [] ↦ do
          s ← repo_ensure_user_role_by_slug e u.id role_operator
          elim s [ err x ↦ return (err x) | ok _ ↦ repo_get_roles_and_permissions e u.id ]
      ]
    ]

  -- The common end of `Login`, `Refresh` and `ChangePassword`: the tokens and the answer.
  unfoldable pub respond : User → List Text → List Text → Bool → ℕ → A (Result LoginResponse)
  respond u roles permissions must session = do
    r ← generate_token_pair e u roles permissions must (pos session)
    return (elim r [
      | err x ↦ err (wrap token_generate x)
      | ok pair ↦ ok (record {
        access_token = pair.0.0;
        refresh_token = pair.1.0;
        expires_in = pair.0.1;
        refresh_expires_in = pair.1.1;
        user = to_profile u roles permissions must;
      })
    ])

  -- `Login` from the lookup of the roles on, for a user who may log in.
  unfoldable pub open_session : User → A (Result LoginResponse)
  unfolding resolve_user_rbac respond must_change_password
  open_session u = do
    r ← resolve_user_rbac u
    elim r [
      | err x ↦ return (err (wrap internal x))
      | ok rbac ↦ do
        now ← clock e
        let session = next_session_time now u.last_login_at
        if must_change_password u then respond u rbac.0 rbac.1 true session else do
          s ← repo_update_last_login_at e u.id session
          elim s [
            | err x ↦ return (err (wrap internal x))
            | ok _ ↦ respond (record u { last_login_at = some session }) rbac.0 rbac.1 false session
          ]
    ]

  -- `Login` from the check of the password on.
  unfoldable pub login_found : User → Text → A (Result LoginResponse)
  unfolding open_session
  login_found u password =
      if not (e.matches u.password_hash password)
      then return (err (app invalid_credential))
      else if not (u.status == 1)
      then return (err (app user_disabled))
      else open_session u

  -- `Login`.
  unfoldable pub login : Text → Text → A (Result LoginResponse)
  unfolding login_found
  login username password = do
    r ← repo_get_by_username e username
    elim r [
      | err x ↦ return (err (wrap internal x))
      | ok found ↦ elim found [
        | none ↦ return (err (app invalid_credential))
        | some u ↦ login_found u password
      ]
    ]

  -- `ValidateSession` for the row that was found.
  unfoldable pub validate_found : TokenClaims → User → A (Result (Unit {0}))
  unfolding resolve_user_rbac
  validate_found c u =
      if not (u.status == 1)
      then return (err (app session_expired))
      else if is_nonpos c.session_issued_at
      then return (err (app token_parse))
      else if is_before_login c.session_issued_at u.last_login_at
      then return (err (app session_expired))
      else do
        r ← resolve_user_rbac u
        elim r [
          | err x ↦ return (err (wrap internal x))
          | ok rbac ↦
              if not
                (text_eq (claim_checksum e.digest c) (compute_rbac_checksum e.digest rbac.0 rbac.1))
              then return (err (app session_expired))
              else return (ok tt)
        ]

  -- `ValidateSession`.
  unfoldable pub validate_session : TokenClaims → A (Result (Unit {0}))
  unfolding validate_found
  validate_session c = do
    r ← repo_get_user e c.user_id
    elim r [
      | err x ↦ return (err (wrap internal x))
      | ok found ↦ elim found [
        | none ↦ return (err (app session_expired))
        | some u ↦ validate_found c u
      ]
    ]

  -- The end of `Refresh` and `ChangePassword`: a new session, then `rest`.
  unfoldable pub renew_session : User → (ℕ → A (Result LoginResponse)) → A (Result LoginResponse)
  renew_session u rest = do
    now ← clock e
    let session = next_session_time now u.last_login_at
    s ← repo_update_last_login_at e u.id session
    elim s [ err x ↦ return (err (wrap internal x)) | ok _ ↦ rest session ]

  -- `RevokeSession`.
  unfoldable pub revoke_session : ℕ → A (Result (Unit {0}))
  unfolding must_change_password
  revoke_session id = do
    r ← repo_get_user e id
    elim r [
      | err x ↦ return (err (wrap internal x))
      | ok found ↦ elim found [
        | none ↦ return (err (app user_not_found))
        | some u ↦ if must_change_password u then return (ok tt) else do
          now ← clock e
          s ← repo_update_last_login_at e u.id (next_session_time now u.last_login_at)
          return (elim s [ err x ↦ err (wrap internal x) | ok _ ↦ ok tt ])
      ]
    ]

  -- `Me`.
  unfoldable pub me : ℕ → A (Result UserProfile)
  unfolding resolve_user_rbac must_change_password
  me id = do
    r ← repo_get_user e id
    elim r [
      | err x ↦ return (err (wrap internal x))
      | ok found ↦ elim found [
        | none ↦ return (err (app user_not_found))
        | some u ↦ do
          s ← resolve_user_rbac u
          return (elim s [
            | err x ↦ err (wrap internal x)
            | ok rbac ↦ ok (to_profile u rbac.0 rbac.1 (must_change_password u))
          ])
      ]
    ]
