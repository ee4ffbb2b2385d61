-- ===== src/Auth/Env.antt =====
-- What a method of backend/internal/service/auth_service.go runs in: the tables, which others may
-- change between its statements, the clock, statements that fail, and the libraries that it calls.
pub mod Steps
use snow_panel.Prelude.{
  ℕ, ℤ, suc, Text, text, Bool, true, false, Option, none, some, List, if◌then◌else◌,
}
use snow_panel.Errors.{GoError, plain, Result, ok, err}
use snow_panel.Program.{Program}
unfoldable pub use snow_panel.Program.{◌>>=◌, ◌>>◌, return}
use snow_panel.Auth.Users.{
  User, Role, UserDb, count_users, create_user, get_by_username, get_user, update_last_login_at,
  update_password_hash,
}
use snow_panel.Auth.Roles.{
  ensure_rbac_defaults, role_by_slug, add_user_role, roles_of, permissions_of,
}

-- `config.AuthConfig`, with durations in nanoseconds, the two of tokens as `NewAuthService` leaves
-- them.
pub record AuthConfig : Type 0 where
  pub app_env : Text
  pub jwt_secret : Text
  pub jwt_issuer : Text
  pub jwt_expire : ℕ
  pub jwt_refresh_expire : ℕ
  pub bootstrap_admin : Bool
  pub default_admin_username : Text
  pub default_admin_email : Text
  pub default_admin_password : Text

-- `jwtClaims`, with the registered claims that the service sets.
pub record JwtClaims : Type 0 where
  pub user_id : ℕ
  pub username : Text
  pub roles : List Text
  pub permissions : List Text
  pub must_change_password : Bool
  pub session_issued_at : ℤ
  pub token_use : Text
  pub rbac_checksum : Text
  pub expires_at : ℕ
  pub issued_at : ℕ
  pub issuer : Text
  pub subject : Text
  pub token_id : Text

-- What happens at the next statement: the writes of others before it, the clock, and whether the
-- statement fails, which leaves the tables alone.
pub record Turn : Type 0 where
  pub others : UserDb → UserDb
  pub now : ℕ
  pub fails : Bool

-- The surroundings. `hash n` is `bcrypt.GenerateFromPassword` with the salt that the n-th reading of
-- random bytes gives, `random n k` the encoding of `k` random bytes; both may fail. `matches` is
-- `bcrypt.CompareHashAndPassword` without an error, `sign` and `parse` are those of the JWT library
-- with the secret, `parse` also with the clock, `digest` is SHA-256 in hexadecimal, `lower` and
-- `equal_fold` are those of `strings`, and `collate` is the order of texts in the database.
pub record AuthEnv : Type 0 where
  pub turn : ℕ → Turn
  pub cfg : AuthConfig
  pub hash : ℕ → Text → Result Text
  pub random : ℕ → ℕ → Result Text
  pub matches : Text → Text → Bool
  pub sign : Text → JwtClaims → Result Text
  pub parse : Text → ℕ → Text → Option JwtClaims
  pub digest : Text → Text
  pub lower : Text → Text
  pub equal_fold : Text → Text → Bool
  pub collate : Text → Text → Bool

-- The tables, and how many statements and readings of random bytes there were.
pub record AuthWorld : Type 0 where
  pub db : UserDb
  pub steps : ℕ
  pub draws : ℕ

abbrev pub A : Type 0 → Type 0
A R = Program AuthWorld R

module _ (e : AuthEnv) where
  abbrev pub arrive : AuthWorld → UserDb
  arrive w = (e.turn w.steps).others w.db

  unfoldable pub perform : {R : Type 0} → (ℕ → UserDb → Result R × UserDb) → A (Result R)
  perform op w =
      let db = arrive w in
      let (r, db') = op (e.turn w.steps).now db in
      if (e.turn w.steps).fails
      then (err (plain (text "database error")), record w { db = db; steps = suc w.steps })
      else (r, record w { db = db'; steps = suc w.steps })

  -- `time.Now().UTC()`.
  unfoldable pub clock : A ℕ
  clock w = ((e.turn w.steps).now, w)

  unfoldable pub draw_random : ℕ → A (Result Text)
  draw_random bytes w = (e.random w.draws bytes, record w { draws = suc w.draws })

  unfoldable pub hash_password : Text → A (Result Text)
  hash_password password w = (e.hash w.draws password, record w { draws = suc w.draws })

  abbrev pub reads : {R : Type 0} → (UserDb → R) → A (Result R)
  reads f = perform (λ now db. (ok (f db), db))

  abbrev pub writes : (ℕ → UserDb → UserDb) → A (Result (Unit {0}))
  writes f = perform (λ now db. (ok tt, f now db))

  unfoldable pub repo_count : A (Result ℕ)
  repo_count = reads count_users

  unfoldable pub repo_create_user : User → A (Result User)
  repo_create_user u = perform (create_user u)

  unfoldable pub repo_get_by_username : Text → A (Result (Option User))
  repo_get_by_username name = reads (get_by_username name)

  unfoldable pub repo_get_user : ℕ → A (Result (Option User))
  repo_get_user id = reads (get_user id)

  unfoldable pub repo_update_last_login_at : ℕ → ℕ → A (Result (Unit {0}))
  repo_update_last_login_at id at = writes (update_last_login_at id at)

  unfoldable pub repo_update_password_hash : ℕ → Text → A (Result (Unit {0}))
  repo_update_password_hash id hash = writes (update_password_hash id hash)

  unfoldable pub repo_ensure_rbac_defaults : A (Result (Unit {0}))
  repo_ensure_rbac_defaults = perform ensure_rbac_defaults

  -- `EnsureUserRoleBySlug`.
  unfoldable pub repo_ensure_user_role_by_slug : ℕ → Text → A (Result (Unit {0}))
  repo_ensure_user_role_by_slug user slug = do
    found ← reads (role_by_slug slug)
    elim found [
      | err x ↦ return (err x)
      | ok o ↦ elim o [ none ↦ return (ok tt) | some r ↦ perform (add_user_role user r.id) ]
    ]

  -- `GetRolesAndPermissions`.
  unfoldable pub repo_get_roles_and_permissions : ℕ → A (Result (List Text × List Text))
  repo_get_roles_and_permissions user = do
    a ← reads (roles_of e.collate user)
    elim a [
      | err x ↦ return (err x)
      | ok roles ↦ do
        b ← reads (permissions_of e.collate user)
        elim b [ err x ↦ return (err x) | ok permissions ↦ return (ok (roles, permissions)) ]
    ]
