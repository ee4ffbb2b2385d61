-- ===== src/Login/Lock.antt =====
-- When the limiter of backend/internal/security/login_attempt_limiter.go blocks a key.
use snow_panel.Prelude.{
  ℕ, ℤ, ◌+◌, ◌≤◌, ◌<◌, ◌≡◌, inl, inr, refl, Text, false, List, [], ◌∷◌, ◌++◌, keep_if, length,
  is_empty, arith, Option-cases,
}
use snow_panel.Errors.{GoError, err}
use snow_panel.Login.{
  State, Limiter, new_login_attempt_limiter, in_window, prune_failures, or_new, allow, allow_state,
}
use snow_panel.Login.Attempts.{Attempt, attempts, failures_since}
use snow_panel.Login.Track.{attempts-Tracks, fresh-Tracks}

allow_state-limited :
    (show : ℕ → Text) (key : Text) (now : ℕ) (l : Limiter) (s : State) (x : GoError)
    → (allow_state show key now l s).0 ≡ err x
    → now < s.locked_until
unfolding allow_state
allow_state-limited show key now l s x h = ground arith

-- A blocked key is not empty, and has a lock that has not run out.
blocked-locked :
    (show : ℕ → Text) (key : Text) (now : ℕ) (l : Limiter) (x : GoError)
    → (allow show key now l).0 ≡ err x
    → (is_empty key ≡ false) × (now < (or_new (l.states key)).locked_until)
unfolding allow prune_failures
blocked-locked show [] now l x h = cc
blocked-locked show (c ∷ key) now l x h = elim (Option-cases (l.states (c ∷ key))) [
  | inl e ↦ cc (e, h)
  | inr (s, e) ↦ (refl, rw e (allow_state-limited show (c ∷ key) now l _ x (rw (e, allow) at h)))
]

window_positive : (m w d : ℤ) → 0 < (new_login_attempt_limiter m w d).failure_window
unfolding new_login_attempt_limiter
window_positive m w d = ground arith

-- Whatever calls a new limiter has had, it blocks a key only after a failure at that key, less than
-- the lock duration before now, which with the failures before it since the last success makes up
-- the allowed number within the window.
pub blocked_after_failures :
    (show : ℕ → Text) (m w d : ℤ) (es : List Attempt) (key : Text) (now : ℕ) (x : GoError)
    → (allow show key now (attempts show es (new_login_attempt_limiter m w d))).0 ≡ err x
    → let l = new_login_attempt_limiter m w d in
      (before : List ℕ) × (t : ℕ) × (after : List ℕ) × (failures_since key [] es
        ≡ before ++ t ∷ after)
      × (now < t + l.lock_duration)
      × (l.max_failures ≤ length (keep_if (in_window l.failure_window t) (before ++ t ∷ [])))
blocked_after_failures show m w d es key now x h =
    let l = new_login_attempt_limiter m w d in
    let (e, locked) = blocked-locked show key now (attempts show es l) x h in
    let t =
      attempts-Tracks l.max_failures l.failure_window l.lock_duration key show
        (window_positive m w d) e es [] l (fresh-Tracks m w d key) in
    elim t.accounted.reason [
      | inl z ↦ absurd (omega (arith, z, locked))
      | inr (before, t, after, split, until, enough) ↦
          (before, t, after, split, omega (arith, until, locked), enough)
    ]
