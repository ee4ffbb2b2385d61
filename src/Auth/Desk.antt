-- ===== src/Auth/Desk.antt =====
-- What the handlers of backend/internal/api/handler/auth_handler.go are given, answer and change: the
-- bodies of backend/internal/dto/auth.go, the answers of backend/internal/api/response, and the state.
use snow_panel.Prelude.{ℕ, Text, text, Bool, Option, none, some, List, ◌∷◌}
use snow_panel.Errors.{AppError, new, GoError, as_app, internal}
use snow_panel.Program.{Program}
use snow_panel.Login.{Limiter}
use snow_panel.Auth.Env.{AuthWorld, A}

-- `dto.LoginRequest`, `dto.RefreshTokenRequest` and `dto.ChangePasswordRequest`.
pub record LoginRequest : Type 0 where
  pub username : Text
  pub password : Text

pub record RefreshTokenRequest : Type 0 where
  pub refresh_token : Text

pub record ChangePasswordRequest : Type 0 where
  pub current_password : Text
  pub new_password : Text

-- `dto.RecordAuditInput`, where a handler of authentication sets it; `area` is its field `Module`.
pub record AuditInput : Type 0 where
  pub user_id : Option ℕ
  pub username : Text
  pub area : Text
  pub action : Text
  pub target_type : Text
  pub target_id : Text
  pub request_summary : Text
  pub success : Bool
  pub result_code : Text
  pub result_message : Text

-- `response.Fail` and `response.OK`.
pub data Response (R : Type 0) : Type 0 where
  failed : AppError → Response R
  replied : R → Response R

-- `response.FromError`.
unfoldable pub from_error : {R : Type 0} → GoError → Response R
from_error x = elim (as_app x) [ none ↦ failed internal | some a ↦ failed a ]

-- What the handlers change; the last audit record is the first of the list.
pub record Desk : Type 0 where
  pub auth : AuthWorld
  pub limiter : Limiter
  pub audits : List AuditInput

abbrev pub H : Type 0 → Type 0
H R = Program Desk R

-- A call of the service, of the limiter and of the audit service.
unfoldable pub serve : {R : Type 0} → A R → H R
serve m d = let (r, w) = m d.auth in (r, record d { auth = w })

unfoldable pub limit : {R : Type 0} → (Limiter → R × Limiter) → H R
limit f d = let (r, l) = f d.limiter in (r, record d { limiter = l })

unfoldable pub record_audit : AuditInput → H (Unit {0})
record_audit i d = (tt, record d { audits = i ∷ d.audits })

abbrev pub login_audit : Text → Bool → Text → Text → AuditInput
login_audit username success code message = record {
  user_id = none;
  username = username;
  area = text "auth";
  action = text "login";
  target_type = text "user";
  target_id = username;
  request_summary = text "{\"endpoint\":\"/api/v1/auth/login\"}";
  success = success;
  result_code = code;
  result_message = message;
}

abbrev pub user_audit : Text → Text → Option ℕ → Text → Bool → Text → Text → AuditInput
user_audit action summary id username success code message = record {
  user_id = id;
  username = username;
  area = text "auth";
  action = action;
  target_type = text "user";
  target_id = username;
  request_summary = summary;
  success = success;
  result_code = code;
  result_message = message;
}

-- The answer to a body that cannot be bound.
abbrev pub bad_payload : {R : Type 0} → Text → Response R
bad_payload message = failed (new 2000 400 message)
