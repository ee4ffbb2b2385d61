-- ===== src/Auth/Stored.antt =====
-- Which password `ChangePassword` of backend/internal/service/auth_service.go leaves in the table.
use snow_panel.Prelude.{
  ℕ, ◌≤◌, ◌≡◌, refl, sym, subst, Text, text_eq, byte_len, trim_space, not, some, List,
}
use snow_panel.Errors.{GoError, Result, ok, err}
use snow_panel.Program.Hoare.{Does, bind-Does, return-Does, if-Does}
use snow_panel.Auth.Users.{
  User, UserDb, get_user, has_user_id, password_row, login_row, update_password_hash,
  update_last_login_at,
}
use snow_panel.Auth.Users.Table.{find_user, find-update_users}
use snow_panel.Auth.Env.{
  AuthEnv, AuthWorld, return, hash_password, repo_get_user, repo_update_last_login_at,
  repo_update_password_hash,
}
use snow_panel.Auth.Env.Steps.{
  IsSingle, IfOk, Finds, lookup-Does, OnUsers, writes-Does, Keeps-Does, Keeps-IfOk, clock-Keeps,
}
use snow_panel.Auth.Password.{is_strong_password}
use snow_panel.Auth.Sessions.{LoginResponse, renew_session}
use snow_panel.Auth.Sessions.Change.{answer_changed, store_password, change_found, change_password}
use snow_panel.Auth.Sessions.Answers.{answer-Keeps}

-- What bcrypt documents: a hash matches the password that it was made of and no other, where it
-- reads no more than 72 bytes of a password.
abbrev pub IsBcrypt : AuthEnv → Type 0
IsBcrypt e =
    (n : ℕ) (password hash other : Text)
    → e.hash n password ≡ ok hash
    → byte_len other ≤ 72
    → e.matches hash other ≡ text_eq other password

module _ (e : AuthEnv) (single : IsSingle e) (u : User) (password : Text) where
  abbrev pub Unchanged : List User → ℕ → Type 0
  Unchanged us next = find_user u.id us ≡ some u

  -- The row of the user has a hash of the password, and the name and status as before.
  abbrev pub HasPassword : List User → ℕ → Type 0
  HasPassword us next =
      (n : ℕ) × (x : User) × (find_user u.id us ≡ some x)
      × (e.hash n password ≡ ok x.password_hash)
      × (x.username ≡ u.username)
      × (x.status ≡ u.status)

  abbrev Set : UserDb → Type 0
  Set db = OnUsers HasPassword db

  fails_ok :
      {P : AuthWorld → Type 0} (x : GoError)
      → Does P (return (err x)) (λ (r : Result LoginResponse) w. IfOk Set r w.db)
  fails_ok x = return-Does (err x) (λ w h. tt)

  login-Set : (at clk : ℕ) (db : UserDb) → Set db → Set (update_last_login_at u.id at clk db)
  unfolding update_last_login_at
  login-Set at clk db (n, x, found, hash, name, status) = (
    n,
    login_row at clk x,
    find-update_users (login_row at clk) (λ v. refl) u.id db.users x found,
    hash,
    name,
    status,
  )

  password-Set :
      (n clk : ℕ) (hash : Text) (db : UserDb)
      → e.hash n password ≡ ok hash
      → OnUsers Unchanged db
      → Set (update_password_hash u.id hash clk db)
  unfolding update_password_hash
  password-Set n clk hash db h found = (
    n,
    password_row hash clk u,
    find-update_users (password_row hash clk) (λ v. refl) u.id db.users u found,
    h,
    refl,
    refl,
  )

  hash-Does :
      Does
        (λ w. OnUsers Unchanged w.db)
        (hash_password e password)
        (λ r w. ((n : ℕ) × (r ≡ e.hash n password)) × OnUsers Unchanged w.db)
  unfolding hash_password
  hash-Does = record { at = λ w h. ((w.draws, refl), h) }

  renew-Set :
      (session_of : ℕ → User)
      → Does
          (λ w. Set w.db)
          (renew_session e u (λ session. answer_changed e (session_of session) session))
          (λ r w. IfOk Set r w.db)
  unfolding renew_session repo_update_last_login_at
  renew-Set session_of = bind-Does (Keeps-Does (clock-Keeps e single Set)) λ now.
      bind-Does (writes-Does e single Set Set _ (λ clk db h. login-Set _ clk db h)) (elim [
        | err x ↦ fails_ok _
        | ok _ ↦ Keeps-IfOk (answer-Keeps e single HasPassword (session_of _) _)
      ])

  store-Set :
      Does (λ w. OnUsers Unchanged w.db) (store_password e u password) (λ r w. IfOk Set r w.db)
  unfolding store_password repo_update_password_hash
  store-Set = bind-Does hash-Does (elim [
    | err x ↦ fails_ok _
    | ok hash ↦ record {
      at = λ w ((n, made), h).
          (bind-Does
              (writes-Does e single (OnUsers Unchanged) Set _
                (λ clk db found. password-Set n clk hash db (sym made) found))
              (elim [
                | err x ↦ fails_ok _
                | ok _ ↦
                    renew-Set
                      (λ session. record u { password_hash = hash; last_login_at = some session })
              ])).at
            w h;
    }
  ])

module _ (e : AuthEnv) (single : IsSingle e) (u : User) (current next : Text) where
  change_found-Set :
      Does
        (λ w. OnUsers (Unchanged e single u (trim_space next)) w.db)
        (change_found e u current next)
        (λ r w. IfOk (OnUsers (HasPassword e single u (trim_space next))) r w.db)
  unfolding change_found
  change_found-Set =
      if-Does (not (e.matches u.password_hash current)) (fails_ok e single u (trim_space next) _) (
        if-Does (not (is_strong_password (trim_space next)))
          (fails_ok e single u (trim_space next) _)
          (if-Does (text_eq current (trim_space next)) (fails_ok e single u (trim_space next) _)
            (store-Set e single u (trim_space next))))

  change-Set :
      Does
        (λ w. OnUsers (Finds (Unchanged e single u (trim_space next)) (has_user_id u.id) u) w.db)
        (change_password e u.id current next)
        (λ r w. IfOk (OnUsers (HasPassword e single u (trim_space next))) r w.db)
  unfolding change_password repo_get_user get_user
  change-Set =
      lookup-Does e single (Unchanged e single u (trim_space next)) _ (has_user_id u.id) u _
        (λ x. fails_ok e single u (trim_space next) _) change_found-Set

-- After a successful change of password, exactly the new password without the spaces around it
-- matches the row of the user: a password that was typed with a space at an end does not match as it
-- was typed. This holds of passwords up to the 72 bytes that bcrypt reads, whichever other statements
-- fail, as long as no other process writes.
pub change_password_stores :
    (e : AuthEnv) (u : User) (current next password : Text) (answer : LoginResponse) (w : AuthWorld)
    → IsSingle e
    → IsBcrypt e
    → find_user u.id w.db.users ≡ some u
    → (change_password e u.id current next w).0 ≡ ok answer
    → byte_len password ≤ 72
    → (x : User) × (find_user u.id (change_password e u.id current next w).1.db.users ≡ some x)
      × (x.username ≡ u.username)
      × (e.matches x.password_hash password ≡ text_eq password (trim_space next))
change_password_stores e u current next password answer w single bcrypt found done short =
    let (n, x, there, hash, name, status) =
      subst
        (λ r.
          IfOk (OnUsers (HasPassword e single u (trim_space next))) r
            (change_password e u.id current next w).1.db)
        done ((change-Set e single u current next).at w (found, found)) in
    (x, there, name, bcrypt n (trim_space next) x.password_hash password hash short)
