-- ===== src/Tests/Auth.antt =====
-- The theorems on sessions and passwords at concrete users.
use snow_panel.Prelude.{
  inr, pos, ◌≤◌, ◌≡◌, ◌≢◌, refl, inl, Text, text, text_eq, byte_len, trim_space, true, false, none,
  some, List, [], ◌∷◌, ◌&&◌, leb, any_of, arith,
}
use snow_panel.Auth.Bootstrap.{ensure_default_admin}
use snow_panel.Auth.Bootstrap.Weak.{IsWeak, weak_password_makes_no_user}
use snow_panel.Errors.{Result, ok, err, app, invalid_credential}
use snow_panel.Auth.Users.{
  User, UserDb, to_micros, get_by_username, get_user, update_last_login_at, update_password_hash,
}
use snow_panel.Auth.Users.Table.{IsTable, find_user}
use snow_panel.Program.{◌>>=◌, return}
use snow_panel.Auth.Roles.{roles_of, permissions_of, role_by_slug}
use snow_panel.Auth.Tokens.{generate_token_pair}
use snow_panel.Auth.Env.{
  AuthConfig, AuthEnv, AuthWorld, perform, clock, draw_random, hash_password, repo_get_user,
  repo_update_last_login_at, repo_update_password_hash, repo_ensure_user_role_by_slug,
  repo_get_roles_and_permissions,
}
use snow_panel.Auth.Env.Steps.{IsSingle}
use snow_panel.Auth.Password.{is_strong_password, is_upper, is_lower, is_digit, is_symbol}
use snow_panel.Auth.Password.Strength.{is_strong_password_lem}
use snow_panel.Auth.Tokens.{TokenClaims}
use snow_panel.Auth.Sessions.{LoginResponse, login, revoke_session, validate_session}
use snow_panel.Auth.Sessions.Change.{change_password}
use snow_panel.Auth.Calls.{AuthCall, logs_in, bootstraps, revokes, call_all}
use snow_panel.Auth.Revoked.{revoked_for_good}
use snow_panel.Auth.Ended.{by_logout, after, earlier_sessions_end}
use snow_panel.Auth.Lost.{revoke_session_ends_nothing}
use snow_panel.Auth.Credentials.{read_once, login_failures_alike}
use snow_panel.Auth.Stored.{IsBcrypt, change_password_stores}

abbrev config : AuthConfig
config = record {
  app_env = text "test";
  jwt_secret = text "secret";
  jwt_issuer = text "panel";
  jwt_expire = 900;
  jwt_refresh_expire = 9000;
  bootstrap_admin = true;
  default_admin_username = text "root";
  default_admin_email = text "root@panel";
  default_admin_password = text "Root-Root-1234";
}

-- The clock shows 10000, nobody else writes and no statement fails. A hash is the password itself, and
-- a token always the same.
abbrev pub env : AuthEnv
env = record {
  turn = λ n. record { others = λ db. db; now = 10000; fails = false };
  cfg = config;
  hash = λ n password. ok password;
  random = λ n k. ok (text "random");
  matches = λ hash password. text_eq password hash;
  sign = λ secret c. ok (text "token");
  parse = λ secret now raw. none;
  digest = λ t. t;
  lower = λ t. t;
  equal_fold = text_eq;
  collate = λ s t. true;
}

abbrev pub ann : User
ann = record {
  id = 1;
  username = text "ann";
  email = text "ann@panel";
  password_hash = text "old";
  status = 1;
  last_login_at = some 4000;
  created_at = 10;
  updated_at = 4000;
  deleted_at = none;
}

abbrev pub tables : UserDb
tables = record {
  users = ann ∷ [];
  next_user_id = 2;
  rbac = record {
    roles = [];
    next_role_id = 1;
    permissions = [];
    next_permission_id = 1;
    role_permissions = [];
    user_roles = [];
  };
}

abbrev pub start : AuthWorld
start = record { db = tables; steps = 0; draws = 0 }

pub single : IsSingle env
single n db = refl

ok_hash : {a b : Text} → ◌≡◌ {A = Result Text} (ok a) (ok b) → b ≡ a
ok_hash q = cc

bcrypt : IsBcrypt env
bcrypt n password hash other made short = rw (ok_hash (made)) refl

is_table : IsTable tables.users tables.next_user_id
unfolding to_micros
is_table = record { distinct = (tt, tt); below = (omega arith, tt); stored = (refl, tt) }

abbrev strong : Text
strong = text " Correct-Horse-42 "

is_strong_password_lem_example : is_strong_password strong ≡ (
    leb 14 (byte_len (trim_space strong))
    && any_of is_upper (trim_space strong)
    && any_of is_lower (trim_space strong)
    && any_of is_digit (trim_space strong)
    && any_of is_symbol (trim_space strong))
is_strong_password_lem_example = is_strong_password_lem strong

abbrev old_token : TokenClaims
old_token = record {
  user_id = 1;
  username = text "ann";
  roles = [];
  permissions = [];
  must_change_password = false;
  session_issued_at = pos 3000;
  token_use = text "access";
  rbac_checksum = text "|";
}

-- The token of the last login, which was 20 nanoseconds after what the table keeps.
abbrev last_token : TokenClaims
last_token = record old_token { session_issued_at = pos 4020 }

later_calls : List AuthCall
later_calls = logs_in (text "ann") (text "old") ∷ revokes 1 ∷ bootstraps ∷ []

revoked_for_good_example :
    (validate_session env old_token (call_all env later_calls start).1).0 ≢ ok tt
revoked_for_good_example =
    revoked_for_good env old_token ann 4000 later_calls start single is_table refl refl refl

logged_out : (revoke_session env 1 start).0 ≡ ok tt
unfolding revoke_session perform get_user ◌>>=◌ repo_get_user text_eq trim_space text return
    repo_update_last_login_at
logged_out = refl

earlier_sessions_end_example :
    (validate_session env last_token (call_all env later_calls (after env (by_logout 1) start)).1).0
    ≢ ok tt
earlier_sessions_end_example =
    earlier_sessions_end env (by_logout 1) ann 4000 last_token later_calls start single is_table
      refl refl (λ n. omega arith) logged_out refl refl

-- The user has just logged in.
abbrev recent : User
recent = record ann { last_login_at = some 10000 }

abbrev recently : AuthWorld
recently = record start { db = record tables { users = recent ∷ [] } }

recent_found : get_user 1 recently.db ≡ some recent
unfolding get_user
recent_found = refl

recent_stored : to_micros 10000 ≡ 10000
unfolding to_micros
recent_stored = refl

revoke_session_ends_nothing_example :
    ((revoke_session env 1 recently).0 ≡ ok tt)
    × (find_user 1 (revoke_session env 1 recently).1.db.users
        ≡ some (record recent { updated_at = 10000 }))
revoke_session_ends_nothing_example =
    revoke_session_ends_nothing env recent 10000 recently single refl refl recent_found refl
      recent_stored (omega arith)

nobody : get_by_username (text "nobody") tables ≡ none
unfolding get_by_username text_eq text
nobody = refl

login_failures_alike_example :
    login env (text "nobody") (text "x") start ≡ (err (app invalid_credential), read_once env start)
login_failures_alike_example =
    login_failures_alike env (text "nobody") (text "x") start single refl (inl nobody)

abbrev answer : LoginResponse
answer = record {
  access_token = text "token";
  refresh_token = text "token";
  expires_in = 0;
  refresh_expires_in = 0;
  user = record {
    id = 1;
    username = text "ann";
    email = text "ann@panel";
    status = 1;
    roles = [];
    permissions = [];
    must_change_password = false;
  };
}

changed : (change_password env 1 (text "old") strong start).0 ≡ ok answer
unfolding change_password perform get_user text text_eq trim_space byte_len is_strong_password ◌>>=◌
    repo_get_user hash_password repo_update_password_hash repo_update_last_login_at
    repo_get_roles_and_permissions return roles_of update_last_login_at clock update_password_hash
    repo_ensure_user_role_by_slug role_by_slug generate_token_pair draw_random permissions_of
changed = refl

short : byte_len (text "Correct-Horse-42") ≤ 72
unfolding byte_len text
short = omega arith

change_password_stores_example :
    (x : User) × (find_user 1 (change_password env 1 (text "old") strong start).1.db.users ≡ some x)
    × (x.username ≡ text "ann")
    × (env.matches x.password_hash (text "Correct-Horse-42")
        ≡ text_eq (text "Correct-Horse-42") (trim_space strong))
change_password_stores_example =
    change_password_stores env ann (text "old") strong (text "Correct-Horse-42") answer start single
      bcrypt refl changed short

-- In production, with a short password and no user yet.
abbrev production_env : AuthEnv
production_env = record env {
  cfg = record config { app_env = text "production"; default_admin_password = text "admin" };
}

abbrev nobody_yet : AuthWorld
nobody_yet = record start { db = record tables { users = [] } }

config-IsWeak : IsWeak production_env
unfolding text text_eq trim_space byte_len is_strong_password
config-IsWeak = (refl, inr (refl, refl))

weak_password_makes_no_user_example :
    (ensure_default_admin production_env nobody_yet).1.db.users ≡ []
weak_password_makes_no_user_example =
    weak_password_makes_no_user production_env nobody_yet single config-IsWeak
