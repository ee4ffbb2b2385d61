-- ===== src/Auth/Handler/Guessing.antt =====
-- Guessing a password through `Login` of backend/internal/api/handler/auth_handler.go.
use snow_panel.Prelude.{
  ℕ, suc, ◌+◌, ◌≤◌, ◌<◌, ◌≡◌, ◌⊎◌, refl, sym, ap, subst, ◌∙◌, inl, inr, Text, false, none, some,
  List, [], ◌∷◌, ◌++◌, length, arith, All, All-append, length-append,
}
use snow_panel.Errors.{ok, err, app_wrap, invalid_credential, login_rate_limited}
use snow_panel.Program.{◌>>=◌, ◌>>◌, return}
use snow_panel.Login.{Limiter, allow, record_failure}
use snow_panel.Login.Filling.{IsNear, locked_answer}
use snow_panel.Auth.Users.{User, UserDb, get_by_username}
use snow_panel.Auth.Env.{AuthEnv, AuthWorld}
use snow_panel.Auth.Env.Steps.{IsSingle}
use snow_panel.Auth.Sessions.{LoginResponse}
use snow_panel.Auth.Credentials.{read_once, login_failures_alike}
use snow_panel.Auth.Desk.{Response, failed, Desk, H}
use snow_panel.Auth.Handler.{handle_login}
use snow_panel.Login.Unlocked.{IsOpen, allowed, record_failure-IsOpen, record_full, fresh-IsOpen}
use snow_panel.Auth.Handler.Requests.{
  key_is_cons, key, at, asks, unknown_audit, wrong_guess, refused_login,
}

module _ (e : AuthEnv) (show : ℕ → Text) (ip username : Text) where
  -- The guesses of a list, one request after another.
  unfoldable pub guess_all : List Text → H (Unit {0})
  guess_all [] = return tt
  guess_all (p ∷ ps) = handle_login e show ip (asks username p) >> guess_all ps

-- A password that logs nobody of this name in.
abbrev pub IsWrong : AuthEnv → Text → UserDb → Text → Type 0
IsWrong e username db password =
    (get_by_username username db ≡ none)
    ⊎ ((u : User) × (get_by_username username db ≡ some u)
        × (e.matches u.password_hash password ≡ false))

module _ (e : AuthEnv) (show : ℕ → Text) (ip username : Text) (single : IsSingle e)
    (up : (n : ℕ) → (e.turn n).fails ≡ false) (m w d : ℕ) (c : ℕ) (k : Text)
    (key_is : key e ip username ≡ c ∷ k) (from till : ℕ)
    (near : (n : ℕ) → from ≤ n → n ≤ till → IsNear w (at e till) (at e n)) where
  abbrev OpenKey : List ℕ → Limiter → Type 0
  OpenKey = IsOpen m w d (c ∷ k)

  abbrev next : Desk → Desk
  next x = record {
    auth = read_once e x.auth;
    limiter =
        record_failure (c ∷ k) (at e (suc x.auth.steps))
          (allow show (c ∷ k) (at e x.auth.steps) x.limiter).1;
    audits = unknown_audit username ∷ x.audits;
  }

  guessed :
      (p : Text) (x : Desk)
      → IsWrong e username x.auth.db p
      → (allow show (c ∷ k) (at e x.auth.steps) x.limiter).0 ≡ ok tt
      → handle_login e show ip (asks username p) x ≡ (failed invalid_credential, next x)
  guessed p x wrong free =
      subst
        (λ y.
          (allow show y (at e x.auth.steps) x.limiter).0 ≡ ok tt
          → handle_login e show ip (asks username p) x ≡ (
            failed invalid_credential,
            record {
              auth = read_once e x.auth;
              limiter =
                  record_failure y (at e (suc x.auth.steps))
                    (allow show y (at e x.auth.steps) x.limiter).1;
              audits = unknown_audit username ∷ x.audits;
            },
          ))
        key_is
        (wrong_guess e show ip username p x
          (login_failures_alike e username p x.auth single (up x.auth.steps) wrong))
        free

  guesses_fill :
      (p : Text) (ps : List Text) (ts : List ℕ) (x : Desk)
      → All (IsWrong e username x.auth.db) (p ∷ ps)
      → OpenKey ts x.limiter
      → All (IsNear w (at e till)) ts
      → from ≤ x.auth.steps
      → x.auth.steps + length (p ∷ ps) ≡ till
      → length ts + length (p ∷ ps) ≡ m
      → (guess_all e show ip username (p ∷ ps) x).1.limiter.states (c ∷ k)
        ≡ some (record { failures = []; locked_until = at e till + d })
  unfolding guess_all ◌>>=◌ return
  guesses_fill p [] ts x wrong h near_ts after fits full =
      let (free, h') =
        allowed m w d c k show ts (at e x.auth.steps) (at e till) x.limiter h
          (near x.auth.steps after (omega (arith, fits))).0 near_ts in
      let done : suc x.auth.steps ≡ till = omega (arith, fits) in
      ap (λ (r : Response LoginResponse × Desk). r.1.limiter.states (c ∷ k))
        (guessed p x wrong.0 free)
      ∙ record_full m w d c k show ts (at e (suc x.auth.steps)) (at e till) _ h'
          (near (suc x.auth.steps) (omega (arith, after)) (omega (arith, done))).0 near_ts full
      ∙ ap (λ n. some (record { failures = []; locked_until = at e n + d })) done
  guesses_fill p (q ∷ ps) ts x wrong h near_ts after fits full =
      let (free, h') =
        allowed m w d c k show ts (at e x.auth.steps) (at e till) x.limiter h
          (near x.auth.steps after (omega (arith, fits))).0 near_ts in
      let here = near (suc x.auth.steps) (omega (arith, after)) (omega (arith, fits)) in
      ap
        (λ (r : Response LoginResponse × Desk).
          (guess_all e show ip username (q ∷ ps) r.1).1.limiter.states (c ∷ k))
        (guessed p x wrong.0 free)
      ∙ guesses_fill q ps (ts ++ at e (suc x.auth.steps) ∷ []) (next x) wrong.1
          (record_failure-IsOpen m w d c k show ts (at e (suc x.auth.steps)) (at e till) _ h' here.0
            near_ts (omega (arith, full)))
          (All-append (IsNear w (at e till)) ts (at e (suc x.auth.steps) ∷ []) near_ts (here, tt))
          (omega (arith, after)) (omega (arith, fits))
          (omega (arith, full, length-append ts (at e (suc x.auth.steps) ∷ [])))

-- A client that has made as many wrong guesses at the password of a user name as the limiter allows,
-- within one window, is then refused: until the lock duration after the last guess has passed, each
-- login of that name from that address, also with the right password, is answered by 429 without
-- being looked at. This holds when the client had no failures before, the statements of the guesses
-- do not fail, and no other process writes.
pub guesses_lock :
    (e : AuthEnv) (show : ℕ → Text) (ip username p : Text) (ps : List Text) (d : Desk)
    (password : Text) (w : AuthWorld)
    → let last = d.auth.steps + length (p ∷ ps) in
      IsSingle e
      → ((n : ℕ) → (e.turn n).fails ≡ false)
      → All (IsWrong e username d.auth.db) (p ∷ ps)
      → d.limiter.states (key e ip username) ≡ none
      → length (p ∷ ps) ≡ d.limiter.max_failures
      → ((n : ℕ)
          → d.auth.steps ≤ n
          → n ≤ last
          → IsNear d.limiter.failure_window (e.turn last).now (e.turn n).now)
      → (e.turn w.steps).now < (e.turn last).now + d.limiter.lock_duration
      → let after = record (guess_all e show ip username (p ∷ ps) d).1 { auth = w } in
        let answer = handle_login e show ip (asks username password) after in
        (answer.0 ≡ failed login_rate_limited) × (answer.1.auth ≡ w)
guesses_lock e show ip username p ps d password w single up wrong fresh full near soon =
    let last = d.auth.steps + length (p ∷ ps) in
    let (c, k, key_is) = key_is_cons e.lower username ip in
    let after = (guess_all e show ip username (p ∷ ps) d).1 in
    let locked =
      guesses_fill e show ip username single up d.limiter.max_failures d.limiter.failure_window
        d.limiter.lock_duration c k key_is d.auth.steps last
        (λ n a b. (omega (arith, (near n a b).0), omega (arith, (near n a b).1))) p ps [] d wrong
        (subst
          (λ y.
            IsOpen d.limiter.max_failures d.limiter.failure_window d.limiter.lock_duration y []
              d.limiter)
          key_is (fresh-IsOpen (key e ip username) d.limiter fresh))
        tt (omega arith) refl (omega (arith, full)) in
    elim (locked_answer show c k (at e w.steps) (at e last + d.limiter.lock_duration) after.limiter
      locked) [
        | inl (_, (x, blocked)) ↦
            let answered =
              refused_login e show ip username password (record after { auth = w }) x
                (subst
                  (λ y.
                    (allow show y (at e w.steps) after.limiter).0
                    ≡ err (app_wrap login_rate_limited x))
                  (sym key_is) blocked) in
            (
              ap (λ (r : Response LoginResponse × Desk). r.0) answered,
              ap (λ (r : Response LoginResponse × Desk). r.1.auth) answered,
            )
        | inr (late, _) ↦ absurd (omega (arith, late, soon))
      ]
