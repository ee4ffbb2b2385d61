-- ===== src/Auth/Calls/Kept.antt =====
-- No sequence of calls of backend/internal/service/auth_service.go sets the session of a user back.
use snow_panel.Prelude.{
  Text, trim_space, is_empty, text_eq, any_of, ◌&&◌, ◌||◌, Bool-cases, inl, inr, ℕ, List, [], ◌∷◌,
  Option, none, some, Bool, not, ◌==◌,
}
use mathlib.Core.Option.{map}
use snow_panel.Errors.{ok, err}
use snow_panel.Program.Keeps.{Keeps, return-Keeps, bind-Keeps, if-Keeps}
use snow_panel.Auth.Users.{UserDb, User, to_micros, create_user, has_username}
use snow_panel.Auth.Users.Table.{find-append, append-IsTable, IsStored, to_micros-again}
use snow_panel.Auth.Env.{AuthEnv, repo_count, repo_create_user, repo_get_by_username}
use snow_panel.Auth.Env.Steps.{
  Does-Keeps, IsSingle, OnUsers, perform-Keeps, random-Keeps, hash-Keeps, role-Keeps,
  defaults-Keeps,
}
use snow_panel.Auth.Sessions.Past.{Past}
use snow_panel.Auth.Sessions.Kept.{
  login-Does, refresh-Does, revoke-Does, change-Does, me-Does, validate-Does,
}
use snow_panel.Auth.Password.{is_strong_password, is_production_env}
use snow_panel.Auth.Calls.{
  AuthCall, bootstraps, logs_in, refreshes, revokes, changes, asks_profile, validates, call,
  call_all,
}
use snow_panel.Auth.Bootstrap.{
  resolve_bootstrap_password, create_admin, promote_admin, ensure_admin, ensure_default_admin,
}

module _ (e : AuthEnv) (single : IsSingle e) (id s : ℕ) where
  P : UserDb → Type 0
  P = OnUsers (Past id s)

  created-IsStored : (o : Option ℕ) → IsStored (map to_micros o)
  created-IsStored none = tt
  created-IsStored (some at) = to_micros-again at

  create-Past : (u : User) (now : ℕ) (db : UserDb) → P db → P (create_user u now db).1
  unfolding create_user P
  create-Past u now db h = elim (Bool-cases (any_of taken db.users)) [
    | inl b ↦ rw b h
    | inr b ↦ rw b (record {
      table =
          append-IsTable db.users
            (record u {
              id = db.next_user_id;
              last_login_at = map to_micros u.last_login_at;
              created_at = now;
              updated_at = now;
            })
            (created-IsStored u.last_login_at) h.table;
      row = h.row;
      found = find-append id db.users h.row _ h.found;
      last = h.last;
      last_is = h.last_is;
      later = h.later;
    })
  ]
    where
      taken : User → Bool
      taken v = has_username u.username v || text_eq v.email u.email

  password-Keeps : Keeps (λ w. P w.db) (resolve_bootstrap_password e)
  unfolding resolve_bootstrap_password
  password-Keeps = if-Keeps (is_empty (trim_space e.cfg.default_admin_username)) (return-Keeps _) (
      if-Keeps (is_empty (trim_space e.cfg.default_admin_email)) (return-Keeps _) (
        if-Keeps (is_empty password)
          (if-Keeps production (return-Keeps _)
            (bind-Keeps (random-Keeps e single P 24) λ r. return-Keeps _))
          (if-Keeps (production && not (is_strong_password password)) (return-Keeps _)
            (return-Keeps _))))
    where
      password : Text
      password = trim_space e.cfg.default_admin_password

      production : Bool
      production = is_production_env e.equal_fold e.cfg.app_env

  create_admin-Keeps : Keeps (λ w. P w.db) (create_admin e)
  unfolding create_admin repo_create_user
  create_admin-Keeps = bind-Keeps password-Keeps (elim [
    | err x ↦ return-Keeps _
    | ok password ↦ bind-Keeps (hash-Keeps e single P password) (elim [
      | err x ↦ return-Keeps _
      | ok hash ↦ bind-Keeps (perform-Keeps e single P _ (create-Past _)) λ r. return-Keeps _
    ])
  ])

  promote-Keeps : (o : Option User) → Keeps (λ w. P w.db) (promote_admin e o)
  unfolding promote_admin P
  promote-Keeps none = return-Keeps _
  promote-Keeps (some u) = bind-Keeps (role-Keeps e single (Past id s) u.id _) λ r. return-Keeps _

  bootstrap-Keeps : Keeps (λ w. P w.db) (ensure_default_admin e)
  unfolding ensure_default_admin ensure_admin repo_count repo_get_by_username P
  bootstrap-Keeps = bind-Keeps (defaults-Keeps e single (Past id s)) (elim [
    | err x ↦ return-Keeps _
    | ok _ ↦ if-Keeps (not e.cfg.bootstrap_admin) (return-Keeps _) (
        bind-Keeps (perform-Keeps e single P _ (λ now db h. h)) (elim [
          | err x ↦ return-Keeps _
          | ok count ↦
              if-Keeps (count == 0)
                (bind-Keeps create_admin-Keeps
                  (elim [ err x ↦ return-Keeps _ | ok u ↦ promote-Keeps (some u) ]))
                (bind-Keeps (perform-Keeps e single P _ (λ now db h. h))
                  (elim [ err x ↦ return-Keeps _ | ok existing ↦ promote-Keeps existing ]))
        ]))
  ])

  call-Past : (c : AuthCall) → Keeps (λ w. OnUsers (Past id s) w.db) (call e c)
  unfolding call P
  call-Past bootstraps = bind-Keeps bootstrap-Keeps λ r. return-Keeps _
  call-Past (logs_in username password) =
      bind-Keeps (Does-Keeps (login-Does e single id s username password)) λ r. return-Keeps _
  call-Past (refreshes token) =
      bind-Keeps (Does-Keeps (refresh-Does e single id s token)) λ r. return-Keeps _
  call-Past (revokes k) = bind-Keeps (Does-Keeps (revoke-Does e single id s k)) λ r. return-Keeps _
  call-Past (changes k current next) =
      bind-Keeps (Does-Keeps (change-Does e single id s k current next)) λ r. return-Keeps _
  call-Past (asks_profile k) = bind-Keeps (Does-Keeps (me-Does e single id s k)) λ r. return-Keeps _
  call-Past (validates c) =
      bind-Keeps (Does-Keeps (validate-Does e single id s c)) λ r. return-Keeps _

  pub call_all-Past : (cs : List AuthCall) → Keeps (λ w. OnUsers (Past id s) w.db) (call_all e cs)
  unfolding call_all
  call_all-Past [] = return-Keeps _
  call_all-Past (c ∷ rest) = bind-Keeps (call-Past c) λ r. call_all-Past rest
