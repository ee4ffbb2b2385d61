-- ===== src/Errors.antt =====
-- backend/internal/apperror/error.go: the application errors, and the Go error values of the other
-- packages that they are mixed with (plain errors, `fmt.Errorf`, `*grpcclient.AgentError`,
-- `nonRetryableTaskError`). A call that returns `(T, error)` returns a `Result T`.
pub mod Agent
use snow_panel.Prelude.{
  ℕ, ℤ, ◌≡◌, ◌⊎◌, inl, inr, refl, Text, text, trim_space, is_empty, if◌then◌else◌, Option, none,
  some, ◌++◌, Bool, true, false,
}

-- The fields `Code`, `HTTPStatus` and `Message` of `*apperror.Error`.
pub record AppError : Type 0 where
  pub code : ℕ
  pub status : ℕ
  pub message : Text

-- The fields of `*grpcclient.AgentError` but `Cause`.
pub record AgentError : Type 0 where
  pub code : ℤ
  pub message : Text
  pub detail : Text
  pub grpc_code : ℕ

-- `app` has no `Err` and `agent` no `Cause`; `app_wrap` and `agent_cause` have one.
pub data GoError : Type 0 where
  plain : Text → GoError
  wrapped : Text → GoError → GoError
  app : AppError → GoError
  app_wrap : AppError → GoError → GoError
  agent : AgentError → GoError
  agent_cause : AgentError → GoError → GoError
  non_retryable : GoError → GoError

pub data Result {ℓ} (A : Type ℓ) : Type ℓ where
  ok : A → Result A
  err : GoError → Result A

pub Result-cases {ℓ} :
    {A : Type ℓ} (r : Result A) → ((x : GoError) × (r ≡ err x)) ⊎ ((a : A) × (r ≡ ok a))
Result-cases (ok a) = inr (a, refl)
Result-cases (err x) = inl (x, refl)

-- `New` and `Wrap`.
abbrev pub new : ℕ → ℕ → Text → AppError
new code status message = record { code = code; status = status; message = message }

abbrev pub wrap : AppError → GoError → GoError
wrap e cause = app_wrap e cause

-- `As`: the first `*apperror.Error` of the chain. `*apperror.Error` has no `Unwrap`, and the others
-- that wrap an error do.
unfoldable pub as_app : GoError → Option AppError
as_app (plain t) = none
as_app (wrapped t e) = as_app e
as_app (app a) = some a
as_app (app_wrap a e) = some a
as_app (agent a) = none
as_app (agent_cause a e) = as_app e
as_app (non_retryable e) = as_app e

-- `errors.As` at a `*grpcclient.AgentError`, with whether it has a cause.
unfoldable pub as_agent : GoError → Option (AgentError × Bool)
as_agent (plain t) = none
as_agent (wrapped t e) = as_agent e
as_agent (app a) = none
as_agent (app_wrap a e) = none
as_agent (agent a) = some (a, false)
as_agent (agent_cause a e) = some (a, true)
as_agent (non_retryable e) = as_agent e

-- `errors.As` at a `nonRetryableTaskError`.
unfoldable pub is_non_retryable : GoError → Bool
is_non_retryable (plain t) = false
is_non_retryable (wrapped t e) = is_non_retryable e
is_non_retryable (app a) = false
is_non_retryable (app_wrap a e) = false
is_non_retryable (agent a) = false
is_non_retryable (agent_cause a e) = is_non_retryable e
is_non_retryable (non_retryable e) = true

-- `(*AgentError).Error`, given the text of the cause.
unfoldable pub agent_message : AgentError → Option Text → Text
agent_message a cause =
    let detail = trim_space a.detail in
    let trimmed = trim_space a.message in
    let message = if is_empty trimmed then text "core agent request failed" else trimmed in
    if is_empty detail
    then (elim cause [ some c ↦ message ++ (text ": " ++ c) | none ↦ message ])
    else message ++ (text ": " ++ detail)

-- `Error()`.
unfoldable pub error_text : GoError → Text
unfolding agent_message
error_text (plain t) = t
error_text (wrapped t e) = t ++ error_text e
error_text (app a) = a.message
error_text (app_wrap a e) = a.message ++ (text ": " ++ error_text e)
error_text (agent a) = agent_message a none
error_text (agent_cause a e) = agent_message a (some (error_text e))
error_text (non_retryable e) = error_text e

-- The package's error values.
abbrev pub bad_request : AppError
bad_request = new 2000 400 (text "bad request")

abbrev pub internal : AppError
internal = new 1000 500 (text "internal server error")

abbrev pub task_not_found : AppError
task_not_found = new 2008 404 (text "task not found")

abbrev pub login_rate_limited : AppError
login_rate_limited = new 2012 429 (text "too many login attempts, try later")

abbrev pub agent_unavailable : AppError
agent_unavailable = new 3001 503 (text "core agent unavailable")

abbrev pub invalid_credential : AppError
invalid_credential = new 2001 401 (text "invalid username or password")

abbrev pub unauthorized : AppError
unauthorized = new 2002 401 (text "unauthorized")

abbrev pub user_not_found : AppError
user_not_found = new 2003 404 (text "user not found")

abbrev pub token_generate : AppError
token_generate = new 2004 500 (text "failed to generate token")

abbrev pub token_parse : AppError
token_parse = new 2005 401 (text "invalid token")

abbrev pub bootstrap_admin_fail : AppError
bootstrap_admin_fail = new 2006 500 (text "failed to bootstrap default admin")

abbrev pub permission_denied : AppError
permission_denied = new 2007 403 (text "permission denied")

abbrev pub password_change_need : AppError
password_change_need = new 2009 403 (text "password change required")

abbrev pub session_expired : AppError
session_expired = new 2010 401 (text "session expired")

abbrev pub user_disabled : AppError
user_disabled = new 2011 403 (text "user is disabled")
