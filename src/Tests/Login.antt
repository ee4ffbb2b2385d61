-- ===== src/Tests/Login.antt =====
-- The theorems on the limiter of logins at concrete attempts.
use snow_panel.Prelude.{
  ℕ, pos, ◌+◌, ◌≤◌, ◌<◌, ◌≡◌, ◌⊎◌, Text, text_eq, refl, List, [], ◌∷◌, ◌++◌, keep_if, length, arith,
  none,
}
use snow_panel.Errors.{GoError, ok, err, app_wrap, login_rate_limited}
use snow_panel.Login.{
  Limiter, new_login_attempt_limiter, in_window, limited, allow, allow_state, record_failure,
  add_failure, prune_failures, put,
}
use snow_panel.Login.Attempts.{Attempt, asked, failed, attempt, attempts, failures_since}
use snow_panel.Login.Lock.{blocked_after_failures}
use snow_panel.Login.Filling.{record_failures, failures_lock}

abbrev the_user : Text
the_user = 97 ∷ []

abbrev another : Text
another = 98 ∷ []

abbrev show : ℕ → Text
show n = n ∷ []

-- Two failures are allowed in a window of 100, and a lock lasts for 50.
abbrev limiter : Limiter
limiter = new_login_attempt_limiter (pos 2) (pos 100) (pos 50)

abbrev two_failures : List Attempt
two_failures = failed the_user 1000 ∷ asked the_user 1005 ∷ failed the_user 1010 ∷ []

blocked :
    (allow show the_user 1020 (attempts show two_failures limiter)).0 ≡ err (limited show 1060 1020)
unfolding allow allow_state attempts attempt record_failure add_failure prune_failures put
    new_login_attempt_limiter text_eq
blocked = refl

blocked_after_failures_example :
    (before : List ℕ) × (t : ℕ) × (after : List ℕ) × (failures_since the_user [] two_failures
      ≡ before ++ t ∷ after)
    × (1020 < t + limiter.lock_duration)
    × (limiter.max_failures
        ≤ length (keep_if (in_window limiter.failure_window t) (before ++ t ∷ [])))
blocked_after_failures_example =
    blocked_after_failures show (pos 2) (pos 100) (pos 50) two_failures the_user 1020
      (limited show 1060 1020) blocked

none_yet : limiter.states the_user ≡ none
unfolding new_login_attempt_limiter
none_yet = refl

two_allowed : length {A = ℕ} (1000 ∷ []) + 1 ≡ limiter.max_failures
unfolding new_login_attempt_limiter
two_allowed = refl

window_left : (1000 ≤ 1010) × (1010 < 1000 + limiter.failure_window)
unfolding new_login_attempt_limiter
window_left = (omega arith, omega arith)

failures_lock_example :
    let l' = record_failures the_user (1000 ∷ 1010 ∷ []) limiter in
    ((1020 < 1010 + limiter.lock_duration)
      × ((x : GoError) × ((allow show the_user 1020 l').0 ≡ err (app_wrap login_rate_limited x))))
    ⊎ ((1010 + limiter.lock_duration ≤ 1020) × ((allow show the_user 1020 l').0 ≡ ok tt))
failures_lock_example =
    failures_lock show the_user limiter (1000 ∷ []) 1010 1020 refl none_yet two_allowed
      (window_left, tt)
