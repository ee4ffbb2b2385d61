-- ===== src/Auth/Gate.antt =====
-- Which requests reach a handler: `JWTAuth` of backend/internal/middleware/jwt_auth.go and
-- `RequirePermission` of backend/internal/middleware/permission.go. A request that is let through
-- carries the values that `JWTAuth` sets in its context.
pub mod Vouched
use snow_panel.Prelude.{
  ℕ, Text, text, text_eq, trim_space, is_empty, Bool, not, ◌&&◌, ◌||◌, Option, none, some, List, [],
  ◌∷◌, any_of, ◌==◌, if◌then◌else◌,
}
use snow_panel.Errors.{
  AppError, ok, err, as_app, unauthorized, token_parse, password_change_need, permission_denied,
}
use snow_panel.Auth.Env.{AuthEnv, A, ◌>>=◌, return}
use snow_panel.Auth.Tokens.{TokenClaims, parse_token}
use snow_panel.Auth.Sessions.{validate_session}

-- The values that the middleware leaves in the context of the request.
pub record Identity : Type 0 where
  pub user_id : ℕ
  pub username : Text
  pub roles : List Text
  pub permissions : List Text
  pub must_change_password : Bool

-- A request that is aborted with a status, a code and a message, or one that goes on.
pub data Passage (R : Type 0) : Type 0 where
  aborted : AppError → Passage R
  passed : R → Passage R

abbrev pub bearer : Text
bearer = text "Bearer "

-- `strings.TrimPrefix` at a string with the prefix, else nothing.
unfoldable pub strip_prefix : Text → Text → Option Text
strip_prefix [] s = some s
strip_prefix (a ∷ p) [] = none
strip_prefix (a ∷ p) (b ∷ s) = let rest = strip_prefix p s in if a == b then rest else none

-- `isPasswordChangeAllowedPath`.
unfoldable pub is_password_change_allowed_path : Text → Bool
is_password_change_allowed_path path =
    text_eq path (text "/api/v1/auth/me")
    || text_eq path (text "/api/v1/auth/change-password")
    || text_eq path (text "/api/v1/auth/logout")

abbrev pub identity_of : TokenClaims → Identity
identity_of c = record {
  user_id = c.user_id;
  username = c.username;
  roles = c.roles;
  permissions = c.permissions;
  must_change_password = c.must_change_password;
}

abbrev pub or_token_parse : Option AppError → AppError
or_token_parse none = token_parse
or_token_parse (some a) = a

module _ (e : AuthEnv) where
  -- `JWTAuth` once the token is cut out of the header.
  unfoldable pub check_token : Text → Text → A (Passage Identity)
  check_token path token = do
    r ← parse_token e token
    elim r [
      | err x ↦ return (aborted token_parse)
      | ok c ↦ do
        v ← validate_session e c
        return (elim v [
          | err x ↦ aborted (or_token_parse (as_app x))
          | ok _ ↦
              if c.must_change_password && not (is_password_change_allowed_path path)
              then aborted password_change_need
              else passed (identity_of c)
        ])
    ]

  -- `JWTAuth`, for the path of a request and its header `Authorization`.
  unfoldable pub jwt_auth : Text → Text → A (Passage Identity)
  unfolding check_token
  jwt_auth path header =
      if is_empty header then return (aborted unauthorized) else elim (strip_prefix bearer header) [
        | none ↦ return (aborted unauthorized)
        | some rest ↦ check_token path (trim_space rest)
      ]

-- `RequirePermission` behind `JWTAuth`.
unfoldable pub require_permission : Text → Identity → Passage Identity
require_permission permission i =
    if not (any_of (λ p. text_eq p permission) i.permissions)
    then aborted permission_denied
    else passed i

-- A route that both middlewares guard.
unfoldable pub guarded : AuthEnv → Text → Text → Text → A (Passage Identity)
unfolding jwt_auth require_permission
guarded e permission path header = do
  p ← jwt_auth e path header
  return (elim p [ aborted a ↦ aborted a | passed i ↦ require_permission permission i ])
