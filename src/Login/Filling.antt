-- ===== src/Login/Filling.antt =====
-- How the failures of one key fill the window of the limiter of
-- backend/internal/security/login_attempt_limiter.go until it locks the key.
use snow_panel.Prelude.{
  ℕ, ◌+◌, ◌-◌, ◌≤◌, ◌<◌, ◌≡◌, ◌⊎◌, inl, inr, refl, ◌∙◌, Text, text, true, false, none, some, List,
  [], ◌∷◌, ◌++◌, length, ltb, leb, is_empty, arith, Bool-cases, length-append, All, All-append,
}
use snow_panel.Errors.{GoError, plain, ok, err, app_wrap, login_rate_limited}
use snow_panel.Login.{
  Limiter, in_window, prune_failures, add_failure, or_new, put, remaining_wait, allow, allow_state,
  record_failure,
}
use snow_panel.Login.Store.{put-same, keep_if-All}

-- Failures at a key at the times of a list, in its order.
unfoldable pub record_failures : Text → List ℕ → Limiter → Limiter
record_failures key [] l = l
record_failures key (t ∷ ts) l = record_failures key ts (record_failure key t l)

-- The limiter has the settings `m`, `w` and `d`, and the failures `ts` at `key`.
pub record Collected (m w d : ℕ) (key : Text) (ts : List ℕ) (l : Limiter) : Type 0 where
  pub max_is : l.max_failures ≡ m
  pub window_is : l.failure_window ≡ w
  pub lock_is : l.lock_duration ≡ d
  pub failures_are : (or_new (l.states key)).failures ≡ ts

-- The time `t` is not after `last`, and in its window.
abbrev pub IsNear : ℕ → ℕ → ℕ → Type 0
IsNear w last t = (t ≤ last) × (last < t + w)

pub near_kept :
    (w last now : ℕ) (ts : List ℕ)
    → now ≤ last
    → All (IsNear w last) ts
    → All (λ t. in_window w now t ≡ true) ts
near_kept w last now [] e h = tt
near_kept w last now (t ∷ ts) e ((a, b), h) = (ground arith, near_kept w last now ts e h)

module _ (m w d : ℕ) (c : ℕ) (k : Text) where
  abbrev pub full_key : Text
  full_key = c ∷ k

  pub recorded :
      (ts : List ℕ) (now last : ℕ) (l : Limiter)
      → Collected m w d full_key ts l
      → now ≤ last
      → All (IsNear w last) ts
      → (record_failure full_key now l).states full_key
        ≡ some (
            add_failure m d now
              (record { failures = ts; locked_until = (or_new (l.states full_key)).locked_until }))
  unfolding record_failure prune_failures
  recorded ts now last l h e near =
      put-same full_key _ l
      ∙ rw
          (
            h.max_is,
            h.window_is,
            h.lock_is,
            h.failures_are,
            keep_if-All _ ts (near_kept w last now ts e near),
          )
          refl

  pub collect_one :
      (ts : List ℕ) (now last : ℕ) (l : Limiter)
      → Collected m w d full_key ts l
      → now ≤ last
      → All (IsNear w last) ts
      → length ts + 1 < m
      → Collected m w d full_key (ts ++ now ∷ []) (record_failure full_key now l)
  collect_one ts now last l h e near small = record {
    max_is = unfold record_failure put in h.max_is;
    window_is = unfold record_failure put in h.window_is;
    lock_is = unfold record_failure put in h.lock_is;
    failures_are = rw (recorded ts now last l h e near) (unfold add_failure in rw free refl);
  }
    where
      free : leb m (length (ts ++ now ∷ [])) ≡ false
      free = ground (arith, length-append ts (now ∷ []), small)

  fill :
      (todo done : List ℕ) (last : ℕ) (l : Limiter)
      → Collected m w d full_key done l
      → All (IsNear w last) done
      → All (IsNear w last) todo
      → length done + length todo + 1 ≡ m
      → (record_failures full_key (todo ++ last ∷ []) l).states full_key
        ≡ some (record { failures = []; locked_until = last + d })
  unfolding record_failures
  fill [] done last l h near _ full =
      recorded done last last l h (omega arith) near ∙ (unfold add_failure in rw enough refl)
    where
      enough : leb m (length (done ++ last ∷ [])) ≡ true
      enough = ground (arith, length-append done (last ∷ []), full)
  fill (t ∷ todo) done last l h near (here, later) full =
      fill todo (done ++ t ∷ []) last (record_failure full_key t l)
        (collect_one done t last l h here.0 near (omega (arith, full)))
        (All-append (IsNear w last) done (t ∷ []) near (here, tt)) later
        (omega (arith, full, length-append done (t ∷ [])))

-- What `Allow` answers on a key with no failures that is locked until some time.
pub locked_answer :
    (show : ℕ → Text) (c : ℕ) (k : Text) (now until : ℕ) (l : Limiter)
    → l.states (c ∷ k) ≡ some (record { failures = []; locked_until = until })
    → ((now < until)
        × ((x : GoError) × ((allow show (c ∷ k) now l).0 ≡ err (app_wrap login_rate_limited x))))
      ⊎ ((until ≤ now) × ((allow show (c ∷ k) now l).0 ≡ ok tt))
unfolding allow allow_state prune_failures
locked_answer show c k now until l e = elim (Bool-cases (ltb now until)) [
  | inl h ↦ inl (
    ground (arith, h),
    (plain (text "retry after " ++ show (remaining_wait (until - now))), rw (e, allow, h) refl),
  )
  | inr h ↦ inr (ground (arith, h), rw (e, allow, h) refl)
]

-- As many failures at a key as the limiter allows, each at most a window before the last one, lock
-- the key: from then on for the lock duration `Allow` refuses it, and after that it lets it through.
pub failures_lock :
    (show : ℕ → Text) (key : Text) (l : Limiter) (ts : List ℕ) (last now : ℕ)
    → is_empty key ≡ false
    → l.states key ≡ none
    → length ts + 1 ≡ l.max_failures
    → All (IsNear l.failure_window last) ts
    → let l' = record_failures key (ts ++ last ∷ []) l in
      ((now < last + l.lock_duration)
        × ((x : GoError) × ((allow show key now l').0 ≡ err (app_wrap login_rate_limited x))))
      ⊎ ((last + l.lock_duration ≤ now) × ((allow show key now l').0 ≡ ok tt))
failures_lock show [] l ts last now e f full near = cc
failures_lock show (c ∷ k) l ts last now e f full near =
    locked_answer show c k now (last + l.lock_duration)
      (record_failures (c ∷ k) (ts ++ last ∷ []) l)
      (fill l.max_failures l.failure_window l.lock_duration c k ts [] last l
        (record { max_is = refl; window_is = refl; lock_is = refl; failures_are = rw f refl }) tt
        near (omega (arith, full)))
