-- ===== src/Auth/Sessions/Kept.antt =====
-- What the methods of backend/internal/service/auth_service.go keep of the session of a user,
-- whichever statements fail.
use snow_panel.Prelude.{
  is_nonpos, text_eq, trim_space, not, sym, ℕ, refl, Text, Bool, true, false, Option, none, some,
  List, first_of_list, ◌==◌,
}
use snow_panel.Errors.{GoError, Result, ok, err}
use snow_panel.Program.Hoare.{Does, bind-Does, return-Does, if-Does}
use snow_panel.Auth.Users.{User, UserDb, get_user, get_by_username}
use snow_panel.Auth.Users.Table.{found-by_id}
use snow_panel.Auth.Env.{
  AuthEnv, AuthWorld, A, ◌>>=◌, return, reads, repo_get_user, repo_get_by_username,
  repo_update_last_login_at, repo_update_password_hash,
}
use snow_panel.Auth.Env.Steps.{
  IsSingle, IsRead, OnUsers, Keeps-Does, perform-Does, reads-Does, clock-Keeps, hash-Keeps,
}
use snow_panel.Auth.Tokens.{TokenClaims, compute_rbac_checksum, parse_token_with_use}
use snow_panel.Auth.Password.{is_strong_password}
use snow_panel.Auth.Sessions.{
  LoginResponse, claim_checksum, is_before_login, next_session_time, renew_session, open_session,
  login_found, login, validate_found, validate_session, revoke_session, me, must_change_password,
}
use snow_panel.Auth.Sessions.Refresh.{refresh_found, refresh_user, refresh}
use snow_panel.Auth.Sessions.Change.{store_password, change_found, change_password}
use snow_panel.Auth.Sessions.Past.{Past, Current, update-Past, password-Past, password-Current}
use snow_panel.Auth.Sessions.Answers.{resolve-Keeps, respond-Keeps, answer-Keeps}

-- A row that was read is current.
abbrev pub IsFresh : Result (Option User) → UserDb → Type 0
IsFresh (ok (some u)) db = OnUsers (Current u) db
IsFresh (ok none) db = Unit
IsFresh (err x) db = Unit

module _ (e : AuthEnv) (single : IsSingle e) where
  module _ (id s : ℕ) where
    abbrev pub Since : AuthWorld → Type 0
    Since w = OnUsers (Past id s) w.db

    -- The same, where the row of `u` is current too.
    abbrev pub Both : User → List User → ℕ → Type 0
    Both u us next = Past id s us next × Current u us next

    abbrev pub Held : User → AuthWorld → Type 0
    Held u w = OnUsers (Both u) w.db

    pub read-Does :
        (p : User → Bool)
        → Does Since (reads e (λ db. first_of_list p db.users)) (λ r w. Since w × IsFresh r w.db)
    read-Does p = record {
      at = λ w h.
          let (h', r) =
            (reads-Does e single (OnUsers (Past id s)) (λ db. first_of_list p db.users)).at w h in
          (h', fresh _ _ h' r);
    }
      where
        fresh :
            (r : Result (Option User)) (db : UserDb)
            → OnUsers (Past id s) db
            → IsRead (λ (db : UserDb). first_of_list p db.users) r db
            → IsFresh r db
        fresh (ok (some u)) db h r =
            (h.table, (u, found-by_id p db.users u h.table.distinct (sym r), refl))
        fresh (ok none) db h r = tt
        fresh (err x) db h r = tt

    -- From a lookup of a user to what is done with the row.
    pub found-Does :
        {R : Type 0} (p : User → Bool) (f : Result (Option User) → A R)
        → ((x : GoError) → Does Since (f (err x)) (λ _. Since))
        → Does Since (f (ok none)) (λ _. Since)
        → ((u : User) → Does (Held u) (f (ok (some u))) (λ _. Since))
        → Does Since (reads e (λ db. first_of_list p db.users) >>= f) (λ _. Since)
    found-Does p f bad missing good = bind-Does (read-Does p) (elim [
      | err x ↦ record { at = λ w h. (bad x).at w h.0 }
      | ok none ↦ record { at = λ w h. missing.at w h.0 }
      | ok (some u) ↦ record { at = λ w h. (good u).at w (h.0, h.1) }
    ])

    pub update-Does :
        (u : User) (now : ℕ)
        → Does
            (Held u)
            (repo_update_last_login_at e u.id (next_session_time now u.last_login_at))
            (λ _. Since)
    unfolding repo_update_last_login_at
    update-Does u now =
        perform-Does e single (OnUsers (Both u)) (OnUsers (Past id s)) _ (λ db h. h.0)
          (λ clk db h. update-Past id s now clk u db h.0 h.1)

    pub done : {R : Type 0} (u : User) (r : R) → Does (Held u) (return r) (λ _. Since)
    done u r = return-Does r (λ w h. h.0)

    renew-Does :
        (u : User) (rest : ℕ → A (Result LoginResponse))
        → ((session : ℕ) → Does Since (rest session) (λ _. Since))
        → Does (Held u) (renew_session e u rest) (λ _. Since)
    unfolding renew_session
    renew-Does u rest go = bind-Does (Keeps-Does (clock-Keeps e single (OnUsers (Both u)))) λ now.
        bind-Does (update-Does u now) (elim [ err x ↦ return-Does _ (λ w h. h) | ok _ ↦ go _ ])

    open-Does : (u : User) → Does (Held u) (open_session e u) (λ _. Since)
    unfolding open_session
    open-Does u = bind-Does (Keeps-Does (resolve-Keeps e single (Both u) u)) (elim [
      | err x ↦ done u _
      | ok rbac ↦ bind-Does (Keeps-Does (clock-Keeps e single (OnUsers (Both u)))) λ now.
          if-Does (must_change_password e u)
            (record {
              at = λ w h.
                  (respond-Keeps e single (OnUsers (Past id s)) u rbac.0 rbac.1 true _).at w h.0;
            })
            (bind-Does (update-Does u now) (elim [
              | err x ↦ return-Does _ (λ w h. h)
              | ok _ ↦
                  Keeps-Does (respond-Keeps e single (OnUsers (Past id s)) _ rbac.0 rbac.1 false _)
            ]))
    ])

    pub login-Does :
        (username password : Text) → Does Since (login e username password) (λ _. Since)
    unfolding login login_found repo_get_by_username get_by_username
    login-Does username password =
        found-Does _ _ (λ x. return-Does _ (λ w h. h)) (return-Does _ (λ w h. h))
          λ u.
            if-Does (not (e.matches u.password_hash password)) (done u _)
              (if-Does (not (u.status == 1)) (done u _) (open-Does u))

    pub validate-Does : (c : TokenClaims) → Does Since (validate_session e c) (λ _. Since)
    unfolding validate_session validate_found repo_get_user get_user
    validate-Does c =
        found-Does _ _ (λ x. return-Does _ (λ w h. h)) (return-Does _ (λ w h. h))
          λ u. if-Does (not (u.status == 1)) (done u _) (
            if-Does (is_nonpos c.session_issued_at) (done u _) (
              if-Does (is_before_login c.session_issued_at u.last_login_at) (done u _) (
                bind-Does (Keeps-Does (resolve-Keeps e single (Both u) u)) (elim [
                  | err x ↦ done u _
                  | ok rbac ↦
                      if-Does
                        (not (
                          text_eq (claim_checksum e.digest c)
                            (compute_rbac_checksum e.digest rbac.0 rbac.1)))
                        (done u _) (done u _)
                ]))))

    refresh_user-Does : (k : ℕ) → Does Since (refresh_user e k) (λ _. Since)
    unfolding refresh_user refresh_found repo_get_user get_user
    refresh_user-Does k =
        found-Does _ _ (λ x. return-Does _ (λ w h. h)) (return-Does _ (λ w h. h))
          λ u. if-Does (not (u.status == 1)) (done u _) (
            bind-Does (Keeps-Does (resolve-Keeps e single (Both u) u)) (elim [
              | err x ↦ done u _
              | ok rbac ↦ renew-Does u _ λ session. Keeps-Does (
                  respond-Keeps e single (OnUsers (Past id s))
                    (record u { last_login_at = some session }) rbac.0 rbac.1 false session)
            ]))

    parse-Does :
        (raw expected : Text) → Does Since (parse_token_with_use e raw expected) (λ _. Since)
    unfolding parse_token_with_use
    parse-Does raw expected =
        bind-Does (Keeps-Does (clock-Keeps e single (OnUsers (Past id s))))
          λ now. return-Does _ (λ w h. h)

    pub refresh-Does : (token : Text) → Does Since (refresh e token) (λ _. Since)
    unfolding refresh
    refresh-Does token = bind-Does (parse-Does token _) (elim [
      | err x ↦ return-Does _ (λ w h. h)
      | ok c ↦ if-Does c.must_change_password (return-Does _ (λ w h. h)) (
          bind-Does (validate-Does c)
            (elim [ err x ↦ return-Does _ (λ w h. h) | ok _ ↦ refresh_user-Does c.user_id ]))
    ])

    pub revoke-Does : (k : ℕ) → Does Since (revoke_session e k) (λ _. Since)
    unfolding revoke_session repo_get_user get_user
    revoke-Does k =
        found-Does _ _ (λ x. return-Does _ (λ w h. h)) (return-Does _ (λ w h. h))
          λ u. if-Does (must_change_password e u) (done u _) (
            bind-Does (Keeps-Does (clock-Keeps e single (OnUsers (Both u))))
              λ now. bind-Does (update-Does u now) λ r. return-Does _ (λ w h. h))

    store-Does :
        (u : User) (password : Text) → Does (Held u) (store_password e u password) (λ _. Since)
    unfolding store_password repo_update_password_hash
    store-Does u password =
        bind-Does (Keeps-Does (hash-Keeps e single (OnUsers (Both u)) password)) (elim [
          | err x ↦ done u _
          | ok hash ↦
              bind-Does
                (perform-Does e single (OnUsers (Both u)) (OnUsers (Both u)) _ (λ db h. h)
                  (λ clk db h.
                    (password-Past id s clk u.id hash db h.0, password-Current clk hash u db h.1)))
                (elim [
                  | err x ↦ done u _
                  | ok _ ↦ renew-Does u _ λ session. Keeps-Does (
                      answer-Keeps e single (Past id s)
                        (record u { password_hash = hash; last_login_at = some session }) session)
                ])
        ])

    pub change-Does :
        (k : ℕ) (current next : Text) → Does Since (change_password e k current next) (λ _. Since)
    unfolding change_password change_found repo_get_user get_user
    change-Does k current next =
        found-Does _ _ (λ x. return-Does _ (λ w h. h)) (return-Does _ (λ w h. h))
          λ u. if-Does (not (e.matches u.password_hash current)) (done u _) (
            if-Does (not (is_strong_password (trim_space next))) (done u _) (
              if-Does (text_eq current (trim_space next)) (done u _)
                (store-Does u (trim_space next))))

    pub me-Does : (k : ℕ) → Does Since (me e k) (λ _. Since)
    unfolding me repo_get_user get_user
    me-Does k =
        found-Does _ _ (λ x. return-Does _ (λ w h. h)) (return-Does _ (λ w h. h))
          λ u. bind-Does (Keeps-Does (resolve-Keeps e single (Both u) u)) λ r. done u _
