-- ===== src/Login/Unlocked.antt =====
-- A key of the limiter of backend/internal/security/login_attempt_limiter.go that fills up without
-- being locked.
use snow_panel.Prelude.{
  ℕ, ◌+◌, ◌≤◌, ◌<◌, ◌≡◌, refl, sym, ap, subst, ◌∙◌, Text, true, false, Option, none, some, List, [],
  ◌∷◌, ◌++◌, length, ltb, leb, if◌then◌else◌, arith, All, length-append, keep_if,
}
use snow_panel.Errors.{Result, ok}
use snow_panel.Login.{
  Limiter, State, put, remove, prune_failures, add_failure, or_new, is_nil, in_window, allow,
  allow_state, record_failure,
}
use snow_panel.Login.Store.{put-same, keep_if-All, remove-same}
use snow_panel.Login.Filling.{Collected, IsNear, near_kept, recorded, collect_one}

-- The failures at `key` are those at the times of a list, and it is not locked.
pub record IsOpen (m w d : ℕ) (key : Text) (ts : List ℕ) (l : Limiter) : Type 0 where
  pub collected : Collected m w d key ts l
  pub unlocked : (or_new (l.states key)).locked_until ≡ 0

module _ (m w d : ℕ) (c : ℕ) (k : Text) (show : ℕ → Text) where
  put-IsOpen :
      (ts : List ℕ) (l : Limiter)
      → Collected m w d (c ∷ k) ts l
      → IsOpen m w d (c ∷ k) ts (put (c ∷ k) (record { failures = ts; locked_until = 0 }) l)
  put-IsOpen ts l h =
      let there = put-same (c ∷ k) (record { failures = ts; locked_until = 0 }) l in
      record {
        collected = record {
          max_is = unfold put in h.max_is;
          window_is = unfold put in h.window_is;
          lock_is = unfold put in h.lock_is;
          failures_are = rw there refl;
        };
        unlocked = rw there refl;
      }

  abbrev cleaned : List ℕ → Limiter → Result (Unit {0}) × Limiter
  cleaned ts l =
      if is_nil ts
      then (ok tt, remove (c ∷ k) l)
      else (ok tt, put (c ∷ k) (record { failures = ts; locked_until = 0 }) l)

  let_through :
      (ts : List ℕ) (l : Limiter) (now : ℕ)
      → Collected m w d (c ∷ k) ts l
      → let a = allow_state show (c ∷ k) now l (record { failures = ts; locked_until = 0 }) in
        (a.0 ≡ ok tt) × IsOpen m w d (c ∷ k) ts a.1
  unfolding allow_state
  let_through ts l now h = rw (never) (go ts h)
    where
      never : ltb now 0 ≡ false
      never = ground arith

      go :
          (us : List ℕ)
          → Collected m w d (c ∷ k) us l
          → ((cleaned us l).0 ≡ ok tt) × IsOpen m w d (c ∷ k) us (cleaned us l).1
      go [] g =
          let gone = remove-same (c ∷ k) l in
          (
            refl,
            record {
              collected = record {
                max_is = unfold remove in g.max_is;
                window_is = unfold remove in g.window_is;
                lock_is = unfold remove in g.lock_is;
                failures_are = rw gone refl;
              };
              unlocked = rw gone refl;
            },
          )
      go (u ∷ us) g = (refl, put-IsOpen (u ∷ us) l g)

  -- `Allow` on such a key lets it through and forgets nothing.
  pub allowed :
      (ts : List ℕ) (now last : ℕ) (l : Limiter)
      → IsOpen m w d (c ∷ k) ts l
      → now ≤ last
      → All (IsNear w last) ts
      → ((allow show (c ∷ k) now l).0 ≡ ok tt)
        × IsOpen m w d (c ∷ k) ts (allow show (c ∷ k) now l).1
  unfolding allow prune_failures
  allowed ts now last l h before near = go (l.states (c ∷ k)) refl
    where
      pruned :
          (s : State)
          → l.states (c ∷ k) ≡ some s
          → prune_failures l.failure_window now s ≡ record { failures = ts; locked_until = 0 }
      pruned s q =
          let failures_are : s.failures ≡ ts =
            ap (λ (o : Option State). (or_new o).failures) (sym q) ∙ h.collected.failures_are in
          let unlocked : s.locked_until ≡ 0 =
            ap (λ (o : Option State). (or_new o).locked_until) (sym q) ∙ h.unlocked in
          let kept : keep_if (in_window l.failure_window now) s.failures ≡ ts =
            rw (failures_are, h.collected.window_is)
              (keep_if-All _ ts (near_kept w last now ts before near)) in
          λ i. record { failures = kept i; locked_until = unlocked i }

      go :
          (o : Option State)
          → l.states (c ∷ k) ≡ o
          → let a = elim o as (λ _. Result (Unit {0}) × Limiter) [
            | none ↦ (ok tt, l)
            | some s ↦ allow_state show (c ∷ k) now l (prune_failures l.failure_window now s)
          ] in
            (a.0 ≡ ok tt) × IsOpen m w d (c ∷ k) ts a.1
      go none q = (refl, h)
      go (some s) q =
          subst
            (λ x.
              ((allow_state show (c ∷ k) now l x).0 ≡ ok tt)
              × IsOpen m w d (c ∷ k) ts (allow_state show (c ∷ k) now l x).1)
            (sym (pruned s q)) (let_through ts l now h.collected)

  -- A failure that does not fill the window, and one that does.
  pub record_failure-IsOpen :
      (ts : List ℕ) (now last : ℕ) (l : Limiter)
      → IsOpen m w d (c ∷ k) ts l
      → now ≤ last
      → All (IsNear w last) ts
      → length ts + 1 < m
      → IsOpen m w d (c ∷ k) (ts ++ now ∷ []) (record_failure (c ∷ k) now l)
  record_failure-IsOpen ts now last l h before near small = record {
    collected = collect_one m w d c k ts now last l h.collected before near small;
    unlocked =
        rw (recorded m w d c k ts now last l h.collected before near)
          (unfold add_failure in rw free h.unlocked);
  }
    where
      free : leb m (length (ts ++ now ∷ [])) ≡ false
      free = ground (arith, length-append ts (now ∷ []), small)

  pub record_full :
      (ts : List ℕ) (now last : ℕ) (l : Limiter)
      → IsOpen m w d (c ∷ k) ts l
      → now ≤ last
      → All (IsNear w last) ts
      → length ts + 1 ≡ m
      → (record_failure (c ∷ k) now l).states (c ∷ k)
        ≡ some (record { failures = []; locked_until = now + d })
  record_full ts now last l h before near full =
      recorded m w d c k ts now last l h.collected before near
      ∙ (unfold add_failure in rw enough refl)
    where
      enough : leb m (length (ts ++ now ∷ [])) ≡ true
      enough = ground (arith, length-append ts (now ∷ []), full)

pub fresh-IsOpen :
    (key : Text) (l : Limiter)
    → l.states key ≡ none
    → IsOpen l.max_failures l.failure_window l.lock_duration key [] l
fresh-IsOpen key l none_yet = record {
  collected = record {
    max_is = refl;
    window_is = refl;
    lock_is = refl;
    failures_are = rw none_yet refl;
  };
  unlocked = rw none_yet refl;
}
