-- ===== src/Auth/Calls.antt =====
-- The interface `AuthService` of backend/internal/service/auth_service.go: a call as data.
pub mod Kept
use snow_panel.Prelude.{ℕ, Text, List, [], ◌∷◌}
use snow_panel.Auth.Env.{AuthEnv, A, ◌>>=◌, ◌>>◌, return}
use snow_panel.Auth.Tokens.{TokenClaims}
use snow_panel.Auth.Sessions.{login, revoke_session, me, validate_session}
use snow_panel.Auth.Sessions.Refresh.{refresh}
use snow_panel.Auth.Sessions.Change.{change_password}
use snow_panel.Auth.Bootstrap.{ensure_default_admin}

pub data AuthCall : Type 0 where
  bootstraps : AuthCall
  logs_in : Text → Text → AuthCall
  refreshes : Text → AuthCall
  revokes : ℕ → AuthCall
  changes : ℕ → Text → Text → AuthCall
  asks_profile : ℕ → AuthCall
  validates : TokenClaims → AuthCall

unfoldable pub call : AuthEnv → AuthCall → A (Unit {0})
call e bootstraps = ensure_default_admin e >> return tt
call e (logs_in username password) = login e username password >> return tt
call e (refreshes token) = refresh e token >> return tt
call e (revokes id) = revoke_session e id >> return tt
call e (changes id current next) = change_password e id current next >> return tt
call e (asks_profile id) = me e id >> return tt
call e (validates c) = validate_session e c >> return tt

unfoldable pub call_all : AuthEnv → List AuthCall → A (Unit {0})
unfolding call
call_all e [] = return tt
call_all e (c ∷ rest) = call e c >> call_all e rest
