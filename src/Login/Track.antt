-- ===== src/Login/Track.antt =====
-- Every call of the limiter of backend/internal/security/login_attempt_limiter.go keeps the account
-- of a key.
use snow_panel.Prelude.{
  ℕ, ℤ, ◌<◌, ◌≡◌, ◌≢◌, inl, inr, refl, ◌∙◌, ap, subst, Text, text_eq, text_eq_sound, text_eq_refl,
  false, List, [], ◌∷◌, ◌++◌, ltb, is_empty, if◌then◌else◌, Bool-cases, Option-cases,
}
use snow_panel.Login.{
  State, Limiter, new_login_attempt_limiter, prune_failures, or_new, put, remove, is_nil, allow,
  allow_state, record_failure, record_success,
}
use snow_panel.Login.Store.{text_eq_other}
use snow_panel.Login.Account.{Accounted, new-Accounted, prune-Accounted, fail-Accounted}
use snow_panel.Login.Attempts.{Attempt, asked, failed, succeeded, attempt, attempts, failures_since}

-- The limiter has the settings `m`, `w` and `d`, and its state at `key` is accounted for by `h`.
pub record Tracks (m w d : ℕ) (key : Text) (h : List ℕ) (l : Limiter) : Type 0 where
  pub max_is : l.max_failures ≡ m
  pub window_is : l.failure_window ≡ w
  pub lock_is : l.lock_duration ≡ d
  pub accounted : Accounted m w d h (or_new (l.states key))

module _ (m w d : ℕ) (key : Text) where
  put-Tracks :
      (k : Text) (h h' : List ℕ) (l : Limiter) (s : State)
      → Tracks m w d key h l
      → (key ≡ k → Accounted m w d h' s)
      → (key ≢ k → h' ≡ h)
      → Tracks m w d key h' (put k s l)
  unfolding put
  put-Tracks k h h' l s t same other = record {
    max_is = t.max_is;
    window_is = t.window_is;
    lock_is = t.lock_is;
    accounted = elim (Bool-cases (text_eq key k)) [
      | inl e ↦ rw e (same (text_eq_sound key k e))
      | inr n ↦ rw n (rw (other (λ q. cc (q, n, text_eq_refl k))) t.accounted)
    ];
  }

  remove-Tracks :
      (k : Text) (h h' : List ℕ) (l : Limiter)
      → Tracks m w d key h l
      → (key ≢ k → h' ≡ h)
      → Tracks m w d key h' (remove k l)
  unfolding remove
  remove-Tracks k h h' l t other = record {
    max_is = t.max_is;
    window_is = t.window_is;
    lock_is = t.lock_is;
    accounted = elim (Bool-cases (text_eq key k)) [
      | inl e ↦ rw e (new-Accounted m w d h')
      | inr n ↦ rw n (rw (other (λ q. cc (q, n, text_eq_refl k))) t.accounted)
    ];
  }

  -- The history after one call.
  abbrev after : List ℕ → Attempt → List ℕ
  after h (asked k now) = h
  after h (failed k now) = if text_eq key k then h ++ now ∷ [] else h
  after h (succeeded k) = if text_eq key k then [] else h

  allow_state-Tracks :
      (show : ℕ → Text) (k : Text) (now : ℕ) (h : List ℕ) (l : Limiter) (s : State)
      → Tracks m w d key h l
      → (key ≡ k → Accounted m w d h s)
      → Tracks m w d key h (allow_state show k now l s).1
  unfolding allow_state
  allow_state-Tracks show k now h l s t a = elim (Bool-cases (ltb now s.locked_until)) [
    | inl e ↦ rw e (put-Tracks k h h l s t a (λ n. refl))
    | inr e ↦ rw e (elim (Bool-cases (is_nil s.failures)) [
      | inl n ↦ rw n (remove-Tracks k h h l t (λ q. refl))
      | inr n ↦ rw n (put-Tracks k h h l s t a (λ q. refl))
    ])
  ]

  allow-Tracks :
      (show : ℕ → Text) (k : Text) (now : ℕ) (h : List ℕ) (l : Limiter)
      → Tracks m w d key h l
      → Tracks m w d key h (allow show k now l).1
  unfolding allow
  allow-Tracks show [] now h l t = t
  allow-Tracks show (c ∷ k) now h l t = elim (Option-cases (l.states (c ∷ k))) [
    | inl e ↦ rw (e, allow) t
    | inr (s, e) ↦
        rw (e, allow)
          (allow_state-Tracks show (c ∷ k) now h l (prune_failures l.failure_window now s) t (λ q.
            rw t.window_is (
              prune-Accounted m w d h now s
                (subst (λ o. Accounted m w d h (or_new o)) (ap l.states q ∙ e) t.accounted))))
  ]

  not_nil : (k : Text) → is_empty k ≡ false → text_eq k [] ≡ false
  unfolding text_eq
  not_nil [] e = cc
  not_nil (c ∷ k) e = refl

  failed-Tracks :
      0 < w
      → is_empty key ≡ false
      → (k : Text) (now : ℕ) (h : List ℕ) (l : Limiter) → Tracks m w d key h l
      → Tracks m w d key (after h (failed k now)) (record_failure k now l)
  unfolding record_failure
  failed-Tracks pw e [] now h l t = rw (not_nil key e) t
  failed-Tracks pw e (c ∷ k) now h l t =
      put-Tracks (c ∷ k) h _ l _ t
        (λ q.
          rw (← q, text_eq_refl key, t.max_is, t.window_is, t.lock_is)
            (fail-Accounted m w d pw h now _ t.accounted))
        (λ n. rw (text_eq_other key (c ∷ k) n) refl)

  attempt-Tracks :
      (show : ℕ → Text)
      → 0 < w
      → is_empty key ≡ false
      → (a : Attempt) (h : List ℕ) (l : Limiter) → Tracks m w d key h l
      → Tracks m w d key (after h a) (attempt show a l)
  unfolding attempt record_success
  attempt-Tracks show pw e (asked k now) h l t = allow-Tracks show k now h l t
  attempt-Tracks show pw e (failed k now) h l t = failed-Tracks pw e k now h l t
  attempt-Tracks show pw e (succeeded []) h l t = rw (not_nil key e) t
  attempt-Tracks show pw e (succeeded (c ∷ k)) h l t =
      remove-Tracks (c ∷ k) h _ l t (λ n. rw (text_eq_other key (c ∷ k) n) refl)

  pub attempts-Tracks :
      (show : ℕ → Text)
      → 0 < w
      → is_empty key ≡ false
      → (es : List Attempt) (h : List ℕ) (l : Limiter) → Tracks m w d key h l
      → Tracks m w d key (failures_since key h es) (attempts show es l)
  unfolding attempts
  attempts-Tracks show pw e [] h l t = t
  attempts-Tracks show pw e (a ∷ es) h l t =
      let next =
        attempts-Tracks show pw e es (after h a) (attempt show a l)
          (attempt-Tracks show pw e a h l t) in
      subst (λ x. Tracks m w d key x (attempts show es (attempt show a l))) (step a) next
    where
      step : (a : Attempt) → failures_since key (after h a) es ≡ failures_since key h (a ∷ es)
      step (asked k now) = refl
      step (failed k now) = refl
      step (succeeded k) = refl

pub fresh-Tracks :
    (m w d : ℤ) (key : Text)
    → let l = new_login_attempt_limiter m w d in
      Tracks l.max_failures l.failure_window l.lock_duration key [] l
unfolding new_login_attempt_limiter
fresh-Tracks m w d key = record {
  max_is = refl;
  window_is = refl;
  lock_is = refl;
  accounted = new-Accounted _ _ _ [];
}
