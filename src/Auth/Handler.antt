-- ===== src/Auth/Handler.antt =====
-- The handlers of backend/internal/api/handler/auth_handler.go, with the answers of
-- backend/internal/api/response and the limiter of logins in memory. A handler is given the body that
-- `ShouldBindJSON` reads, or nothing where that fails; the fields of an audit record that are read
-- from the request are left out.
pub mod Requests
pub mod Guessing
use snow_panel.Prelude.{
  ℕ, ◌+◌, ◌*◌, Text, text, Bool, true, false, ◌||◌, Option, none, some, [], ◌==◌, if◌then◌else◌,
}
use snow_panel.Errors.{
  GoError, ok, err, error_text, as_app, invalid_credential, user_disabled, unauthorized,
}
use snow_panel.Program.{◌>>=◌, ◌>>◌, return}
use snow_panel.Login.{second, allow, record_failure, record_success, build_login_attempt_key}
use snow_panel.Auth.Env.{AuthEnv, clock}
use snow_panel.Auth.Sessions.{LoginResponse, UserProfile, login, revoke_session, me}
use snow_panel.Auth.Sessions.Refresh.{refresh}
use snow_panel.Auth.Sessions.Change.{change_password}
use snow_panel.Auth.Gate.{Identity}
use snow_panel.Auth.Desk.{
  LoginRequest, RefreshTokenRequest, ChangePasswordRequest, Response, from_error, H, serve, limit,
  record_audit, login_audit, user_audit, bad_payload, failed, replied,
}

-- Go's zero time lies this long before the Unix epoch.
abbrev pub epoch : ℕ
epoch = 62135596800 * second

-- The failures of a login that count as attempts.
unfoldable pub counts_as_attempt : GoError → Bool
counts_as_attempt x = elim (as_app x) [
  | none ↦ false
  | some a ↦ a.code == invalid_credential.code || a.code == user_disabled.code
]

abbrev refresh_summary : Text
refresh_summary = text "{\"endpoint\":\"/api/v1/auth/refresh\"}"

abbrev logout_summary : Text
logout_summary = text "{\"endpoint\":\"/api/v1/auth/logout\"}"

abbrev change_summary : Text
change_summary = text "{\"endpoint\":\"/api/v1/auth/change-password\"}"

module _ (e : AuthEnv) (show : ℕ → Text) where
  -- `Login` for a key that may try; `show` is the text of a duration.
  unfoldable pub try_login : Text → Text → Text → H (Response LoginResponse)
  unfolding serve limit record_audit
  try_login key username password = do
    r ← serve (login e username password)
    elim r [
      | err x ↦ do
        now ← serve (clock e)
        limit (λ l. (tt, if counts_as_attempt x then record_failure key (now + epoch) l else l))
        record_audit (login_audit username false (text "login_failed") (error_text x))
        return (from_error x)
      | ok answer ↦ do
        limit (λ l. (tt, record_success key l))
        record_audit (login_audit username true (text "ok") (text "login success"))
        return (replied answer)
    ]

  -- `Login`, for a client at the address `ip`.
  unfoldable pub handle_login : Text → Option LoginRequest → H (Response LoginResponse)
  unfolding try_login
  handle_login ip none = return (bad_payload (text "invalid login payload"))
  handle_login ip (some r) = do
    let key = build_login_attempt_key e.lower r.username ip
    now ← serve (clock e)
    a ← limit (allow show key (now + epoch))
    elim a [
      | err x ↦ do
        record_audit (login_audit r.username false (text "rate_limited") (error_text x))
        return (from_error x)
      | ok _ ↦ try_login key r.username r.password
    ]

  -- `Refresh`.
  unfoldable pub handle_refresh : Option RefreshTokenRequest → H (Response LoginResponse)
  unfolding serve record_audit
  handle_refresh none = return (bad_payload (text "invalid refresh payload"))
  handle_refresh (some q) = do
    r ← serve (refresh e q.refresh_token)
    elim r [
      | err x ↦ do
        record_audit (record {
          user_id = none;
          username = [];
          area = text "auth";
          action = text "refresh";
          target_type = text "token";
          target_id = text "refresh";
          request_summary = refresh_summary;
          success = false;
          result_code = text "refresh_failed";
          result_message = error_text x;
        })
        return (from_error x)
      | ok answer ↦ do
        record_audit (
            user_audit (text "refresh") refresh_summary (some answer.user.id) answer.user.username
              true (text "ok") (text "token refreshed"))
        return (replied answer)
    ]

  -- `Me`, behind `JWTAuth`, which left the identity if it let the request through.
  unfoldable pub handle_me : Option Identity → H (Response UserProfile)
  unfolding serve
  handle_me none = return (failed unauthorized)
  handle_me (some i) = do
    r ← serve (me e i.user_id)
    return (elim r [ err x ↦ from_error x | ok profile ↦ replied profile ])

  -- `Logout`.
  unfoldable pub handle_logout : Option Identity → H (Response (Unit {0}))
  unfolding serve record_audit
  handle_logout none = return (failed unauthorized)
  handle_logout (some i) = do
    r ← serve (revoke_session e i.user_id)
    elim r [
      | err x ↦ do
        record_audit (
            user_audit (text "logout") logout_summary (some i.user_id) i.username false
              (text "logout_failed") (error_text x))
        return (from_error x)
      | ok _ ↦ do
        record_audit (
            user_audit (text "logout") logout_summary (some i.user_id) i.username true (text "ok")
              (text "session revoked"))
        return (replied tt)
    ]

  -- `ChangePassword`.
  unfoldable pub handle_change_password :
      Option Identity → Option ChangePasswordRequest → H (Response LoginResponse)
  unfolding serve record_audit
  handle_change_password none body = return (failed unauthorized)
  handle_change_password (some i) none =
      return (bad_payload (text "invalid change password payload"))
  handle_change_password (some i) (some q) = do
    r ← serve (change_password e i.user_id q.current_password q.new_password)
    elim r [
      | err x ↦ do
        record_audit (
            user_audit (text "change_password") change_summary (some i.user_id) i.username false
              (text "password_change_failed") (error_text x))
        return (from_error x)
      | ok answer ↦ do
        record_audit (
            user_audit (text "change_password") change_summary (some i.user_id) i.username true
              (text "ok") (text "password changed"))
        return (replied answer)
    ]
