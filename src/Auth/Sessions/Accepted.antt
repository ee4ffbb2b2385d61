-- ===== src/Auth/Sessions/Accepted.antt =====
-- What `ValidateSession` of backend/internal/service/auth_service.go has checked of a token that it
-- accepts.
use snow_panel.Prelude.{
  ◌≡◌, ◌≢◌, inl, inr, Text, text_eq, text_eq_sound, is_nonpos, false, not, Option, none, some, List,
  ◌==◌, arith, Bool-cases,
}
use snow_panel.Program.Results.{Tells, if-Tells, bind-Tells, return-Tells}
use snow_panel.Errors.{GoError, Result, ok, err}
use snow_panel.Auth.Users.{User, get_user}
use snow_panel.Auth.Env.{AuthEnv, AuthWorld, arrive, perform, return, repo_get_user}
use snow_panel.Auth.Tokens.{TokenClaims, compute_rbac_checksum}
use snow_panel.Auth.Sessions.{
  validate_session, validate_found, resolve_user_rbac, is_before_login, claim_checksum,
}

bad : (x : GoError) {T : Type 0} → ◌≡◌ {A = Result (Unit {0})} (err x) (ok tt) → T
bad x q = absurd (cc)

-- A token that is valid for a row: the user may log in, the session is not before the last one, and
-- the roles and permissions of the token have the checksum of those that the database gives then.
pub record IsChecked (e : AuthEnv) (c : TokenClaims) (u : User) (w : AuthWorld) : Type 0 where
  pub roles : List Text
  pub permissions : List Text
  pub enabled : u.status ≡ 1
  pub positive : is_nonpos c.session_issued_at ≡ false
  pub latest : is_before_login c.session_issued_at u.last_login_at ≡ false
  pub resolved : (resolve_user_rbac e u w).0 ≡ ok (roles, permissions)
  pub checksum : claim_checksum e.digest c ≡ compute_rbac_checksum e.digest roles permissions

not_read : {x : GoError} {u : User} → ◌≢◌ {A = Result (Option User)} (err x) (ok (some u))
not_read q = cc

ok-injective : {a b : Option User} → ◌≡◌ {A = Result (Option User)} (ok a) (ok b) → a ≡ b
ok-injective q = cc

no :
    {w : AuthWorld} {T : Type 0} (x : GoError)
    → Tells {A = Result (Unit {0})} w (ok tt) T (return (err x))
no x = return-Tells (err x) (bad x)

module _ (e : AuthEnv) (c : TokenClaims) where
  found-Tells :
      (u : User) (w : AuthWorld) → Tells w (ok tt) (IsChecked e c u w) (validate_found e c u)
  unfolding validate_found
  found-Tells u w =
      if-Tells (not (u.status == 1)) (λ a. no _)
        λ a.
          if-Tells (is_nonpos c.session_issued_at) (λ b. no _)
            λ b.
              if-Tells (is_before_login c.session_issued_at u.last_login_at) (λ d. no _)
                λ d. bind-Tells _ _ (elim [
                  | err x ↦ λ q. no _
                  | ok (roles, permissions) ↦ λ q.
                      if-Tells
                        (not (
                          text_eq (claim_checksum e.digest c)
                            (compute_rbac_checksum e.digest roles permissions)))
                        (λ f. no _)
                        (λ f. return-Tells _ λ done. record {
                          roles = roles;
                          permissions = permissions;
                          enabled = ground (arith, a);
                          positive = b;
                          latest = d;
                          resolved = q;
                          checksum = text_eq_sound _ _ (ground (arith, f));
                        })
                ])

  -- The row that `ValidateSession` reads, if it accepts the token.
  abbrev pub Accepts : AuthWorld → Type 0
  Accepts w =
      (u : User) × (get_user c.user_id (arrive e w) ≡ some u)
      × IsChecked e c u (repo_get_user e c.user_id w).1

  -- A statement that gives a row has read it.
  read_is :
      (u : User) (w : AuthWorld)
      → (repo_get_user e c.user_id w).0 ≡ ok (some u)
      → get_user c.user_id (arrive e w) ≡ some u
  unfolding repo_get_user perform
  read_is u w h = elim (Bool-cases (e.turn w.steps).fails) [
    | inl down ↦ absurd (not_read (rw down at h))
    | inr up ↦ ok-injective (rw up at h)
  ]

  pub session-Tells : (w : AuthWorld) → Tells w (ok tt) (Accepts w) (validate_session e c)
  unfolding validate_session
  session-Tells w = bind-Tells _ _ (elim [
    | err x ↦ λ q. no _
    | ok none ↦ λ q. no _
    | ok (some u) ↦ λ q. record { tells = λ h. (u, read_is u w q, (found-Tells u _).tells h) }
  ])
