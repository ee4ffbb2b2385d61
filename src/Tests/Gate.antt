-- ===== src/Tests/Gate.antt =====
-- The theorems on requests of logins and on guarded routes at concrete requests.
use snow_panel.Prelude.{
  inr, All, length, ◌<◌, ◌+◌, pos, ◌≤◌, ◌≡◌, refl, Text, text, text_eq, trim_space, false, none,
  some, [], ◌∷◌, arith,
}
use snow_panel.Login.{new_login_attempt_limiter}
use snow_panel.Auth.Desk.{Desk, failed}
use snow_panel.Auth.Handler.{handle_login}
use snow_panel.Auth.Handler.Guessing.{IsWrong, guess_all, guesses_lock}
use snow_panel.Auth.Gate.{
  strip_prefix, is_password_change_allowed_path, require_permission, Identity, passed, guarded,
}
use snow_panel.Auth.Gate.Vouched.{IsVouched, guarded-IsVouched}
use snow_panel.Errors.{as_app, login_rate_limited}
use snow_panel.Auth.Users.{get_by_username, get_user}
use snow_panel.Program.{◌>>=◌, return}
use snow_panel.Auth.Roles.{roles_of, permissions_of, role_by_slug}
use snow_panel.Auth.Tokens.{compute_rbac_checksum, parse_token_with_use}
use snow_panel.Auth.Env.{
  JwtClaims, AuthEnv, perform, clock, repo_get_user, repo_ensure_user_role_by_slug,
  repo_get_roles_and_permissions,
}
use snow_panel.Auth.Sessions.{validate_session}
use snow_panel.Tests.Auth.{env, ann, tables, start, single}

abbrev desk : Desk
desk = record {
  auth = start;
  limiter = new_login_attempt_limiter (pos 2) (pos 100) (pos 50);
  audits = [];
}

guesses-IsWrong : All (IsWrong env (text "ann") tables) (text "first" ∷ text "second" ∷ [])
unfolding get_by_username text text_eq
guesses-IsWrong = (inr (ann, refl, refl), (inr (ann, refl, refl), tt))

no_failures : (key : Text) → desk.limiter.states key ≡ none
unfolding new_login_attempt_limiter
no_failures key = refl

two_allowed : length (text "first" ∷ text "second" ∷ []) ≡ desk.limiter.max_failures
unfolding new_login_attempt_limiter
two_allowed = refl

at_once : (10000 ≤ 10000) × (10000 < 10000 + desk.limiter.failure_window)
unfolding new_login_attempt_limiter
at_once = (omega arith, omega arith)

still_locked : 10000 < 10000 + desk.limiter.lock_duration
unfolding new_login_attempt_limiter
still_locked = omega arith

-- Even the right password is refused now.
guesses_lock_example :
    let guesses =
      guess_all env (λ n. []) (text "1.2.3.4") (text "ann") (text "first" ∷ text "second" ∷ []) in
    let answer =
      handle_login env
        (λ n. [])
        (text "1.2.3.4")
        (some (record { username = text "ann"; password = text "old" }))
        (record (guesses desk).1 { auth = start }) in
    (answer.0 ≡ failed login_rate_limited) × (answer.1.auth ≡ start)
guesses_lock_example =
    guesses_lock env (λ n. []) (text "1.2.3.4") (text "ann") (text "first") (text "second" ∷ [])
      desk (text "old") start single (λ n. refl) guesses-IsWrong (no_failures _) two_allowed
      (λ n a b. at_once) still_locked

abbrev panel_claims : JwtClaims
panel_claims = record {
  user_id = 1;
  username = text "ann";
  roles = [];
  permissions = text "tasks.read" ∷ [];
  must_change_password = false;
  session_issued_at = pos 4000;
  token_use = text "access";
  rbac_checksum = text "|";
  expires_at = 100000;
  issued_at = 4000;
  issuer = text "panel";
  subject = text "ann";
  token_id = text "id";
}

-- Every token holds these claims.
abbrev token_env : AuthEnv
token_env = record env { parse = λ secret now raw. some panel_claims }

abbrev tasks_path : Text
tasks_path = text "/api/v1/tasks"

abbrev ann_identity : Identity
ann_identity = record {
  user_id = 1;
  username = text "ann";
  roles = [];
  permissions = text "tasks.read" ∷ [];
  must_change_password = false;
}

let_through :
    (guarded token_env (text "tasks.read") tasks_path (text "Bearer x") start).0
    ≡ passed ann_identity
unfolding guarded ◌>>=◌ return text strip_prefix parse_token_with_use text_eq trim_space
    validate_session repo_get_user perform get_user clock repo_get_roles_and_permissions roles_of
    permissions_of repo_ensure_user_role_by_slug role_by_slug compute_rbac_checksum
    is_password_change_allowed_path require_permission as_app
let_through = refl

guarded-IsVouched_example :
    IsVouched token_env (text "tasks.read") tasks_path (text "Bearer x") start ann_identity
guarded-IsVouched_example =
    guarded-IsVouched token_env (text "tasks.read") tasks_path (text "Bearer x") start ann_identity
      let_through
