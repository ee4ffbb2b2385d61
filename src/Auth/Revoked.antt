-- ===== src/Auth/Revoked.antt =====
-- A session that has ended stays ended: what `ValidateSession` of
-- backend/internal/service/auth_service.go answers to tokens from before.
use snow_panel.Prelude.{
  ℕ, ℤ, pos, ◌≤◌, ◌≡◌, ◌≢◌, ap, inl, inr, true, not, none, some, is_nonpos, ltbℤ, List, ◌==◌, arith,
  Bool-cases, ◌∙◌,
}
use mathlib.Core.Option.{some-injective}
use snow_panel.Errors.{GoError, Result, ok, err}
use snow_panel.Program.Hoare.{Does, bind-Does}
use snow_panel.Auth.Users.{User, get_user}
use snow_panel.Auth.Users.Table.{find_user, IsTable}
use snow_panel.Auth.Env.{AuthEnv, AuthWorld, return, repo_get_user}
use snow_panel.Auth.Env.Steps.{IsSingle, OnUsers, reads-Does}
use snow_panel.Auth.Tokens.{TokenClaims}
use snow_panel.Auth.Sessions.{validate_session, validate_found, is_before_login}
use snow_panel.Auth.Sessions.Past.{Past}
use snow_panel.Auth.Sessions.Kept.{Since}
use snow_panel.Auth.Calls.{AuthCall, call_all}
use snow_panel.Auth.Calls.Kept.{call_all-Past}

not_ok : (x : GoError) → ◌≢◌ {A = Result (Unit {0})} (err x) (ok tt)
not_ok x q = cc

still_late :
    (session : ℤ) (s last : ℕ)
    → ltbℤ session (pos s) ≡ true
    → s ≤ last
    → ltbℤ session (pos last) ≡ true
still_late session s last h k = ground arith

module _ (e : AuthEnv) (single : IsSingle e) (c : TokenClaims) where
  validate_late :
      (u : User) (w : AuthWorld)
      → is_before_login c.session_issued_at u.last_login_at ≡ true
      → (validate_found e c u w).0 ≢ ok tt
  unfolding validate_found return
  validate_late u w late = elim (Bool-cases (not (u.status == 1))) [
    | inl a ↦ rw a (not_ok _)
    | inr a ↦ rw a (elim (Bool-cases (is_nonpos c.session_issued_at)) [
      | inl b ↦ rw b (not_ok _)
      | inr b ↦ rw (b, late) (not_ok _)
    ])
  ]

  pub refused-Does :
      (s : ℕ)
      → ltbℤ c.session_issued_at (pos s) ≡ true
      → Does (Since e single c.user_id s) (validate_session e c) (λ r _. r ≢ ok tt)
  unfolding validate_session repo_get_user get_user return
  refused-Does s late =
      bind-Does
        (reads-Does e single (OnUsers (Past c.user_id s)) (λ db. find_user c.user_id db.users))
        (elim [
          | err x ↦ record { at = λ w h. not_ok _ }
          | ok none ↦ record { at = λ w h. not_ok _ }
          | ok (some u) ↦ record {
            at = λ w (h, r).
                let row_is : u ≡ h.row = some-injective u h.row (r ∙ h.found) in
                validate_late u w (
                  ap (λ (v : User). is_before_login c.session_issued_at v.last_login_at) row_is
                  ∙ ap (is_before_login c.session_issued_at) h.last_is
                  ∙ still_late c.session_issued_at s h.last late h.later);
          }
        ])

-- Once a token is older than the session of its user, `ValidateSession` accepts it never again,
-- whatever further calls are made and whichever statements fail, as long as no other process writes.
pub revoked_for_good :
    (e : AuthEnv) (c : TokenClaims) (u : User) (s : ℕ) (calls : List AuthCall) (w : AuthWorld)
    → IsSingle e
    → IsTable w.db.users w.db.next_user_id
    → find_user c.user_id w.db.users ≡ some u
    → u.last_login_at ≡ some s
    → ltbℤ c.session_issued_at (pos s) ≡ true
    → (validate_session e c (call_all e calls w).1).0 ≢ ok tt
revoked_for_good e c u s calls w single t found last late =
    (refused-Does e single c s late).at (call_all e calls w).1 (
      (call_all-Past e single c.user_id s calls).at w (record {
        table = t;
        row = u;
        found = found;
        last = s;
        last_is = last;
        later = omega arith;
      }))
