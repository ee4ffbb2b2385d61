-- ===== src/Auth/Lost.antt =====
-- A logout within the microsecond of the last login: `RevokeSession` of
-- backend/internal/service/auth_service.go.
use snow_panel.Prelude.{ℕ, suc, ◌+◌, ◌<◌, ◌≡◌, refl, ap, sym, ◌∙◌, false, some, arith}
use snow_panel.Errors.{ok}
use snow_panel.Program.Hoare.{given, bind_gives, return-Gives}
use snow_panel.Auth.Users.{User, UserDb, get_user, to_micros, login_row, update_last_login_at}
use snow_panel.Auth.Users.Table.{find_user, find-update_users}
use snow_panel.Auth.Env.{
  AuthEnv, AuthWorld, perform, clock, writes, repo_get_user, repo_update_last_login_at,
}
use snow_panel.Auth.Env.Steps.{IsSingle}
use snow_panel.Auth.Sessions.{must_change_password, next_session_time, revoke_session}
use snow_panel.Auth.Credentials.{read_once, reads_gives}

-- What is stored of a new session in the microsecond of the last one, or before it.
stored_again :
    (now p : ℕ) → to_micros p ≡ p → now < p + 1000 → to_micros (next_session_time now (some p)) ≡ p
unfolding to_micros next_session_time
stored_again now p whole h = ground (arith, whole, h)

writes_gives :
    (e : AuthEnv) (f : ℕ → UserDb → UserDb) (w : AuthWorld)
    → IsSingle e
    → (e.turn w.steps).fails ≡ false
    → writes e f w ≡ (ok tt, record w { db = f (e.turn w.steps).now w.db; steps = suc w.steps })
unfolding perform
writes_gives e f w single up = rw (up, single w.steps w.db) refl

not_first :
    (e : AuthEnv) (u : User) (p : ℕ) → u.last_login_at ≡ some p → must_change_password e u ≡ false
unfolding must_change_password
not_first e u p last = rw last (ground arith)

revoked_state : AuthEnv → User → AuthWorld → AuthWorld
unfolding update_last_login_at
revoked_state e u w =
    let now = (e.turn (suc w.steps)).now in
    record w {
      db = update_last_login_at u.id (next_session_time now u.last_login_at) now w.db;
      steps = suc (suc w.steps);
    }

revoke_gives :
    (e : AuthEnv) (u : User) (p : ℕ) (w : AuthWorld)
    → IsSingle e
    → (e.turn w.steps).fails ≡ false
    → (e.turn (suc w.steps)).fails ≡ false
    → get_user u.id w.db ≡ some u
    → u.last_login_at ≡ some p
    → revoke_session e u.id w ≡ (ok tt, revoked_state e u w)
unfolding revoke_session repo_get_user repo_update_last_login_at revoked_state clock
revoke_gives e u p w single first second found last = given (
    bind_gives _ _ (ok (some u))
      (reads_gives e _ w single first ∙ ap (λ o. (ok o, read_once e w)) found)
      (rw (not_first e u p last) (
        bind_gives (clock e) _ (e.turn (suc w.steps)).now refl (
          bind_gives _ _ (ok tt) (writes_gives e _ (read_once e w) single second)
            (return-Gives _)))))

-- A logout succeeds but ends no session, when the clock is still in the microsecond of the last login
-- or before it: the row of the user is as it was, with the same time of the last login, but for the
-- time of its change. The row has that time in whole microseconds, as its column keeps it. This holds
-- when neither statement of the logout fails and no other process writes.
pub revoke_session_ends_nothing :
    (e : AuthEnv) (u : User) (p : ℕ) (w : AuthWorld)
    → IsSingle e
    → (e.turn w.steps).fails ≡ false
    → (e.turn (suc w.steps)).fails ≡ false
    → get_user u.id w.db ≡ some u
    → u.last_login_at ≡ some p
    → to_micros p ≡ p
    → (e.turn (suc w.steps)).now < p + 1000
    → let (r, w') = revoke_session e u.id w in
      (r ≡ ok tt)
      × (find_user u.id w'.db.users ≡ some (record u { updated_at = (e.turn (suc w.steps)).now }))
unfolding get_user revoked_state update_last_login_at
revoke_session_ends_nothing e u p w single first second found last whole early =
    let now = (e.turn (suc w.steps)).now in
    let at = next_session_time now u.last_login_at in
    let same : some (to_micros at) ≡ u.last_login_at =
      ap (λ o. some (to_micros (next_session_time now o))) last
      ∙ ap some (stored_again now p whole early)
      ∙ sym last in
    rw (revoke_gives e u p w single first second found last) (
      refl,
      find-update_users (login_row at now) (λ v. refl) u.id w.db.users u found
          ∙ ap (λ o. some (record u { last_login_at = o; updated_at = now })) same,
    )
