-- ===== src/Auth/Credentials.antt =====
-- What `Login` of backend/internal/service/auth_service.go tells of a user, and which password logs
-- in after `ChangePassword`.
use snow_panel.Prelude.{suc, ◌≡◌, ◌⊎◌, refl, inl, inr, Text, false, none, some}
use snow_panel.Errors.{Result, ok, err, app, invalid_credential}
use snow_panel.Program.Hoare.{Gives, given, bind_gives, return-Gives}
use snow_panel.Auth.Users.{User, UserDb, get_by_username}
use snow_panel.Auth.Env.{AuthEnv, AuthWorld, A, return, reads, perform, repo_get_by_username}
use snow_panel.Auth.Env.Steps.{IsSingle}
use snow_panel.Auth.Sessions.{LoginResponse, login, login_found}

-- The tables, as the statement that reads a user leaves them.
abbrev pub read_once : AuthEnv → AuthWorld → AuthWorld
read_once e w = record w { steps = suc w.steps }

pub reads_gives :
    {R : Type 0} (e : AuthEnv) (f : UserDb → R) (w : AuthWorld)
    → IsSingle e
    → (e.turn w.steps).fails ≡ false
    → reads e f w ≡ (ok (f w.db), read_once e w)
unfolding perform
reads_gives e f w single up = rw (up, single w.steps w.db) refl

-- A user name that nobody has and a wrong password give the same error, after the same one statement,
-- and change no table. This holds when that statement does not fail and no other process writes.
pub login_failures_alike :
    (e : AuthEnv) (username password : Text) (w : AuthWorld)
    → IsSingle e
    → (e.turn w.steps).fails ≡ false
    → (get_by_username username w.db ≡ none)
      ⊎ ((u : User) × (get_by_username username w.db ≡ some u)
          × (e.matches u.password_hash password ≡ false))
    → login e username password w ≡ (err (app invalid_credential), read_once e w)
unfolding login login_found repo_get_by_username
login_failures_alike e username password w single up unknown = given (
    bind_gives _ _ (ok (get_by_username username w.db)) (reads_gives e _ w single up)
      (refused unknown))
  where
    refused :
        (get_by_username username w.db ≡ none)
          ⊎ ((u : User) × (get_by_username username w.db ≡ some u)
              × (e.matches u.password_hash password ≡ false))
        → Gives
            (read_once e w)
            (elim (get_by_username username w.db) as (λ _. A (Result LoginResponse)) [
              | none ↦ return (err (app invalid_credential))
              | some u ↦ login_found e u password
            ])
            (err (app invalid_credential))
            (read_once e w)
    refused (inl none_there) = rw none_there (return-Gives _)
    refused (inr (u, found, wrong)) = rw (found, wrong) (return-Gives _)
