-- ===== src/Auth/Ended.antt =====
-- Which calls of backend/internal/service/auth_service.go end the sessions of a user that were open
-- before.
use snow_panel.Prelude.{
  ◌+◌, ◌≤◌, ℕ, pos, ◌≡◌, ◌≢◌, refl, sym, subst, Text, Bool, true, false, not, some, ltbℤ, List,
  ◌==◌, arith, first_of_list, trim_space, text_eq,
}
use snow_panel.Errors.{GoError, Result, ok, err}
use snow_panel.Program.Keeps.{Keeps}
use snow_panel.Program.Hoare.{with_fact, Does, bind-Does, return-Does, if-Does}
use snow_panel.Auth.Users.{User, UserDb, get_user, get_by_username, has_username, has_user_id}
use snow_panel.Auth.Users.Table.{IsTable, found-by_id}
use snow_panel.Auth.Env.{
  AuthEnv, AuthWorld, A, return, clock, repo_get_user, repo_get_by_username,
  repo_update_last_login_at, repo_update_password_hash,
}
use snow_panel.Auth.Env.Steps.{
  IsSingle, IfOk, Finds, lookup-Does, OnUsers, writes-Does, Keeps-Does, Keeps-IfOk, hash-Keeps,
  perform-Does,
}
use snow_panel.Auth.Tokens.{TokenClaims}
use snow_panel.Auth.Password.{is_strong_password}
use snow_panel.Auth.Sessions.{
  LoginResponse, login, login_found, open_session, renew_session, revoke_session, validate_session,
  must_change_password, next_session_time,
}
use snow_panel.Auth.Sessions.Change.{store_password, change_found, change_password}
use snow_panel.Auth.Sessions.Past.{Past, Current, update-Renewed, password-Current}
use snow_panel.Auth.Sessions.Answers.{resolve-Keeps, respond-Keeps, answer-Keeps}
use snow_panel.Auth.Calls.{AuthCall, call_all}
use snow_panel.Auth.Calls.Kept.{call_all-Past}
use snow_panel.Auth.Revoked.{refused-Does}

-- The clock is a microsecond or more past `p`.
abbrev pub IsAfter : AuthEnv → ℕ → Type 0
IsAfter e p = (n : ℕ) → p + 1000 ≤ (e.turn n).now

module _ (e : AuthEnv) (single : IsSingle e) (u : User) (p : ℕ) (last : u.last_login_at ≡ some p)
    (late : IsAfter e p) where
  -- All sessions of `u` up to the microsecond of `p` have ended.
  abbrev Over : UserDb → Type 0
  Over db = OnUsers (Past u.id (p + 1000)) db

  abbrev At : AuthWorld → Type 0
  At w = OnUsers (Current u) w.db

  renewal-Does :
      (now : ℕ)
      → p + 1000 ≤ now
      → Does At
          (repo_update_last_login_at e u.id (next_session_time now u.last_login_at))
          (λ r w. IfOk Over r w.db)
  unfolding repo_update_last_login_at
  renewal-Does now after =
      writes-Does e single (OnUsers (Current u)) Over _
        (λ clk db h. update-Renewed u p now clk db last after h)

  clock-Does : Does At (clock e) (λ now w. (p + 1000 ≤ now) × At w)
  unfolding clock
  clock-Does = record { at = λ w h. (late w.steps, h) }

  no :
      {R : Type 0} (x : GoError) {P : AuthWorld → Type 0}
      → Does P (return (err x)) (λ (r : Result R) w. IfOk Over r w.db)
  no x = return-Does (err x) (λ w h. tt)

  not_first : must_change_password e u ≡ false
  unfolding must_change_password
  not_first = rw last (ground arith)

  open-Over : Does At (open_session e u) (λ r w. IfOk Over r w.db)
  unfolding open_session
  open-Over = bind-Does (Keeps-Does (resolve-Keeps e single (Current u) u)) (elim [
    | err x ↦ no _
    | ok rbac ↦ bind-Does clock-Does λ now. with_fact λ after. rw not_first (
        bind-Does (renewal-Does now after) (elim [
          | err x ↦ no _
          | ok _ ↦ Keeps-IfOk (respond-Keeps e single Over _ rbac.0 rbac.1 false _)
        ]))
  ])

  login-Over : (password : Text) → Does At (login_found e u password) (λ r w. IfOk Over r w.db)
  unfolding login_found
  login-Over password =
      if-Does (not (e.matches u.password_hash password)) (no _)
        (if-Does (not (u.status == 1)) (no _) open-Over)

  renew-Over :
      (rest : ℕ → A (Result LoginResponse))
      → ((session : ℕ) → Keeps (λ w. Over w.db) (rest session))
      → Does At (renew_session e u rest) (λ r w. IfOk Over r w.db)
  unfolding renew_session
  renew-Over rest go = bind-Does clock-Does λ now.
      with_fact λ after.
        bind-Does (renewal-Does now after) (elim [ err x ↦ no _ | ok _ ↦ Keeps-IfOk (go _) ])

  store-Over : (password : Text) → Does At (store_password e u password) (λ r w. IfOk Over r w.db)
  unfolding store_password repo_update_password_hash
  store-Over password =
      bind-Does (Keeps-Does (hash-Keeps e single (OnUsers (Current u)) password)) (elim [
        | err x ↦ no _
        | ok hash ↦
            bind-Does
              (perform-Does e single (OnUsers (Current u)) (OnUsers (Current u)) _ (λ db h. h)
                (λ clk db h. password-Current clk hash u db h))
              (elim [
                | err x ↦ no _
                | ok _ ↦ renew-Over _ λ session.
                    answer-Keeps e single (Past u.id (p + 1000))
                      (record u { password_hash = hash; last_login_at = some session }) session
              ])
      ])

  change-Over :
      (current next : Text) → Does At (change_found e u current next) (λ r w. IfOk Over r w.db)
  unfolding change_found
  change-Over current next = if-Does (not (e.matches u.password_hash current)) (no _) (
      if-Does (not (is_strong_password (trim_space next))) (no _)
        (if-Does (text_eq current (trim_space next)) (no _) (store-Over (trim_space next))))

  -- A lookup finds the row of `u`.
  abbrev Found : (User → Bool) → List User → ℕ → Type 0
  Found test = Finds (Current u) test u

  login-Ends :
      (username password : Text)
      → Does
          (λ w. OnUsers (Found (has_username username)) w.db)
          (login e username password)
          (λ r w. IfOk Over r w.db)
  unfolding login repo_get_by_username get_by_username
  login-Ends username password =
      lookup-Does e single (Current u) Over (has_username username) u _ (λ x. no _)
        (login-Over password)

  change-Ends :
      (id : ℕ) (current next : Text)
      → Does
          (λ w. OnUsers (Found (has_user_id id)) w.db)
          (change_password e id current next)
          (λ r w. IfOk Over r w.db)
  unfolding change_password repo_get_user get_user
  change-Ends id current next =
      lookup-Does e single (Current u) Over (has_user_id id) u _ (λ x. no _)
        (change-Over current next)

  revoke-Ends :
      (id : ℕ)
      → Does
          (λ w. OnUsers (Found (has_user_id id)) w.db)
          (revoke_session e id)
          (λ r w. IfOk Over r w.db)
  unfolding revoke_session repo_get_user get_user
  revoke-Ends id =
      lookup-Does e single (Current u) Over (has_user_id id) u _ (λ x. no _)
        (rw not_first (
          bind-Does clock-Does λ now. with_fact λ after.
            bind-Does (renewal-Does now after)
              (elim [ err x ↦ no _ | ok _ ↦ return-Does (ok tt) (λ w h. h) ])))

-- Login, logout and change of password.
pub data Ending : Type 0 where
  by_login : Text → Text → Ending
  by_logout : ℕ → Ending
  by_change : ℕ → Text → Text → Ending

-- How the call finds its user, what state it leaves, and whether it succeeds.
abbrev pub finds : Ending → User → Bool
finds (by_login username password) = has_username username
finds (by_logout id) = has_user_id id
finds (by_change id current next) = has_user_id id

abbrev pub after : AuthEnv → Ending → AuthWorld → AuthWorld
after e (by_login username password) w = (login e username password w).1
after e (by_logout id) w = (revoke_session e id w).1
after e (by_change id current next) w = (change_password e id current next w).1

abbrev pub Succeeds : AuthEnv → Ending → AuthWorld → Type 0
Succeeds e (by_login username password) w =
    (a : LoginResponse) × ((login e username password w).0 ≡ ok a)
Succeeds e (by_logout id) w = (revoke_session e id w).0 ≡ ok tt
Succeeds e (by_change id current next) w =
    (a : LoginResponse) × ((change_password e id current next w).0 ≡ ok a)

ends :
    (e : AuthEnv) (single : IsSingle e) (u : User) (p : ℕ) (last : u.last_login_at ≡ some p)
    (late : IsAfter e p) (k : Ending) (w : AuthWorld)
    → OnUsers (Found e single u p last late (finds k)) w.db
    → Succeeds e k w
    → OnUsers (Past u.id (p + 1000)) (after e k w).db
ends e single u p last late (by_login username password) w f (a, h) =
    subst (λ r. IfOk (OnUsers (Past u.id (p + 1000))) r (login e username password w).1.db) h
      ((login-Ends e single u p last late username password).at w f)
ends e single u p last late (by_logout id) w f h =
    subst (λ r. IfOk (OnUsers (Past u.id (p + 1000))) r (revoke_session e id w).1.db) h
      ((revoke-Ends e single u p last late id).at w f)
ends e single u p last late (by_change id current next) w f (a, h) =
    subst (λ r. IfOk (OnUsers (Past u.id (p + 1000))) r (change_password e id current next w).1.db)
      h ((change-Ends e single u p last late id current next).at w f)

-- A successful login, logout or change of password ends all sessions that the user had, if the clock
-- is a microsecond or more past the time of the last login that the table has: a token of the user
-- whose session started in the microsecond of that time or before is refused then and after any
-- further calls, whichever statements fail, as long as the table of users is well formed and no other
-- process writes.
pub earlier_sessions_end :
    (e : AuthEnv) (k : Ending) (u : User) (p : ℕ) (c : TokenClaims) (calls : List AuthCall)
    (w : AuthWorld)
    → IsSingle e
    → IsTable w.db.users w.db.next_user_id
    → first_of_list (finds k) w.db.users ≡ some u
    → u.last_login_at ≡ some p
    → IsAfter e p
    → Succeeds e k w
    → c.user_id ≡ u.id
    → ltbℤ c.session_issued_at (pos (p + 1000)) ≡ true
    → (validate_session e c (call_all e calls (after e k w)).1).0 ≢ ok tt
earlier_sessions_end e k u p c calls w single t found last after_p good same late =
    (refused-Does e single c (p + 1000) late).at (call_all e calls (after e k w)).1 (
      (call_all-Past e single c.user_id (p + 1000) calls).at (after e k w) (
        subst (λ i. OnUsers (Past i (p + 1000)) (after e k w).db) (sym same)
          (ends e single u p last after_p k w
            ((t, (u, found-by_id (finds k) w.db.users u t.distinct found, refl)), found) good)))
