-- ===== src/Auth/Handler/Requests.antt =====
-- A request for `Login` of backend/internal/api/handler/auth_handler.go that the limiter refuses, and
-- one with a wrong password.
use snow_panel.Prelude.{
  ℕ, suc, ◌+◌, ◌≡◌, refl, ap, Text, text, trim_space, false, Option, some, [], ◌∷◌, ◌++◌,
}
use snow_panel.Errors.{
  as_app, GoError, Result, ok, err, app, app_wrap, error_text, invalid_credential,
  login_rate_limited,
}
use snow_panel.Program.Hoare.{gives, given, bind_gives}
use snow_panel.Program.{◌>>=◌, return}
use snow_panel.Login.{allow, record_failure, build_login_attempt_key, or_unknown}
use snow_panel.Auth.Env.{AuthEnv, AuthWorld, clock}
use snow_panel.Auth.Sessions.{LoginResponse, login}
use snow_panel.Auth.Credentials.{read_once}
use snow_panel.Auth.Desk.{
  LoginRequest, failed, Desk, AuditInput, serve, limit, record_audit, login_audit, from_error,
}
use snow_panel.Auth.Handler.{epoch, counts_as_attempt, try_login, handle_login}

pub key_is_cons :
    (lower : Text → Text) (username ip : Text)
    → (c : ℕ) × (k : Text) × (build_login_attempt_key lower username ip ≡ c ∷ k)
unfolding build_login_attempt_key
key_is_cons lower username ip = cons (lower (trim_space username))
  where
    cons :
        (s : Text)
        → (c : ℕ) × (k : Text) × (or_unknown s ++ (text "|" ++ or_unknown (trim_space ip)) ≡ c ∷ k)
    cons [] = (117, text "nknown" ++ (text "|" ++ or_unknown (trim_space ip)), unfold text in refl)
    cons (c ∷ s) = (c, s ++ (text "|" ++ or_unknown (trim_space ip)), refl)

abbrev pub key : AuthEnv → Text → Text → Text
key e ip username = build_login_attempt_key e.lower username ip

-- What the clock shows at a statement, since Go's zero time.
abbrev pub at : AuthEnv → ℕ → ℕ
at e n = (e.turn n).now + epoch

abbrev pub asks : Text → Text → Option LoginRequest
asks username password = some (record { username = username; password = password })

abbrev pub unknown_audit : Text → AuditInput
unknown_audit username =
    login_audit username false (text "login_failed") (error_text (app invalid_credential))

module _ (e : AuthEnv) (show : ℕ → Text) (ip username : Text) where
  -- A wrong guess at a desk where the limiter lets it through.
  pub wrong_guess :
      (password : Text) (d : Desk)
      → login e username password d.auth ≡ (err (app invalid_credential), read_once e d.auth)
      → (allow show (key e ip username) (at e d.auth.steps) d.limiter).0 ≡ ok tt
      → handle_login e show ip (asks username password) d ≡ (
        failed invalid_credential,
        record {
          auth = read_once e d.auth;
          limiter =
              record_failure
                (key e ip username)
                (at e (suc d.auth.steps))
                (allow show (key e ip username) (at e d.auth.steps) d.limiter).1;
          audits = unknown_audit username ∷ d.audits;
        },
      )
  unfolding handle_login try_login serve limit record_failure
  wrong_guess password d answered free =
      let l = (allow show (key e ip username) (at e d.auth.steps) d.limiter).1 in
      given (
        bind_gives _ _ (e.turn d.auth.steps).now clock_is (
          bind_gives _ _ (ok tt) (λ i. (free i, record d { limiter = l }))
            (bind_gives _ _ (err (app invalid_credential))
              (ap
                (λ (p : Result LoginResponse × AuthWorld).
                  (p.0, record d { limiter = l; auth = p.1 }))
                answered)
              (gives (
                unfold ◌>>=◌ return clock record_audit from_error counts_as_attempt as_app in
                refl)))))
    where
      clock_is : serve (clock e) d ≡ ((e.turn d.auth.steps).now, d)
      clock_is = unfold clock in refl

  -- A request that the limiter refuses.
  pub refused_login :
      (password : Text) (d : Desk) (x : GoError)
      → (allow show (key e ip username) (at e d.auth.steps) d.limiter).0
        ≡ err (app_wrap login_rate_limited x)
      → handle_login e show ip (asks username password) d ≡ (
        failed login_rate_limited,
        record d {
          limiter = (allow show (key e ip username) (at e d.auth.steps) d.limiter).1;
          audits =
              login_audit username false
                (text "rate_limited")
                (error_text (app_wrap login_rate_limited x))
              ∷ d.audits;
        },
      )
  unfolding handle_login serve limit
  refused_login password d x blocked =
      let l = (allow show (key e ip username) (at e d.auth.steps) d.limiter).1 in
      given (
        bind_gives _ _ (e.turn d.auth.steps).now clock_is (
          bind_gives _ _ (err (app_wrap login_rate_limited x))
            (λ i. (blocked i, record d { limiter = l }))
            (gives (unfold ◌>>=◌ return record_audit from_error as_app in refl))))
    where
      clock_is : serve (clock e) d ≡ ((e.turn d.auth.steps).now, d)
      clock_is = unfold clock in refl
