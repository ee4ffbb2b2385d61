-- ===== src/Login/Account.antt =====
-- Why the limiter of backend/internal/security/login_attempt_limiter.go blocks a key: its state is
-- accounted for by the failures recorded since the last success.
use snow_panel.Prelude.{
  ℕ, ◌+◌, ◌≤◌, ◌<◌, ◌≡◌, ◌⊎◌, inl, inr, refl, ◌∙◌, ap, Bool, true, none, List, [], ◌∷◌, ◌++◌,
  keep_if, length, leb, arith, Bool-cases, length-append,
}
use snow_panel.Login.{State, in_window, prune_failures, add_failure, or_new}
use snow_panel.Login.Store.{keep_if-keep_if-le, length-keep_if-snoc}

-- The lock `until` was set by a failure at a time `t` of `h` that was, with those before it, one of
-- at least `m` within the window.
abbrev pub IsLock : ℕ → ℕ → ℕ → List ℕ → ℕ → Type 0
IsLock m w d h until =
    (before : List ℕ) × (t : ℕ) × (after : List ℕ) × (h ≡ before ++ t ∷ after)
    × (until ≡ t + d)
    × (m ≤ length (keep_if (in_window w t) (before ++ t ∷ [])))

-- The state `s` keeps no more failures than `h` has, in any selection, and its lock has a reason.
pub record Accounted (m w d : ℕ) (h : List ℕ) (s : State) : Type 0 where
  pub few : (p : ℕ → Bool) → length (keep_if p s.failures) ≤ length (keep_if p h)
  pub reason : (s.locked_until ≡ 0) ⊎ IsLock m w d h s.locked_until

append_snoc :
    (a : List ℕ) (t : ℕ) (b : List ℕ) (x : ℕ) → (a ++ t ∷ b) ++ x ∷ [] ≡ a ++ t ∷ (b ++ x ∷ [])
append_snoc [] t b x = refl
append_snoc (y ∷ a) t b x = ap (λ l. y ∷ l) (append_snoc a t b x)

module _ (m w d : ℕ) where
  pub new-Accounted : (h : List ℕ) → Accounted m w d h (or_new none)
  new-Accounted h = record { few = λ p. omega arith; reason = inl refl }

  pub prune-Accounted :
      (h : List ℕ) (now : ℕ) (s : State)
      → Accounted m w d h s
      → Accounted m w d h (prune_failures w now s)
  unfolding prune_failures
  prune-Accounted h now s a = record {
    few = λ p. omega (arith, keep_if-keep_if-le p (in_window w now) s.failures, a.few p);
    reason = a.reason;
  }

  IsLock-snoc : (h : List ℕ) (x until : ℕ) → IsLock m w d h until → IsLock m w d (h ++ x ∷ []) until
  IsLock-snoc h x until (before, t, after, e, u, c) =
      (before, t, after ++ x ∷ [], ap (λ l. l ++ x ∷ []) e ∙ append_snoc before t after x, u, c)

  pub fail-Accounted :
      0 < w
      → (h : List ℕ) (now : ℕ) (s : State) → Accounted m w d h s
      → Accounted m w d (h ++ now ∷ []) (add_failure m d now (prune_failures w now s))
  unfolding prune_failures add_failure
  fail-Accounted pw h now s a =
      elim (Bool-cases (leb m (length (keep_if (in_window w now) s.failures ++ now ∷ [])))) [
        | inl full ↦
            rw full (record {
              few = λ p. omega arith;
              reason = inr (h, now, [], refl, refl, enough full);
            })
        | inr free ↦ rw free (record {
          few = λ p. omega (
            arith,
            length-keep_if-snoc p (keep_if (in_window w now) s.failures) now,
            length-keep_if-snoc p h now,
            keep_if-keep_if-le p (in_window w now) s.failures,
            a.few p,
          );
          reason = elim a.reason [ inl z ↦ inl z | inr l ↦ inr (IsLock-snoc h now _ l) ];
        })
      ]
    where
      here : in_window w now now ≡ true
      here = ground arith

      enough :
          leb m (length (keep_if (in_window w now) s.failures ++ now ∷ [])) ≡ true
          → m ≤ length (keep_if (in_window w now) (h ++ now ∷ []))
      enough full = ground (
        arith,
        full,
        here,
        length-append (keep_if (in_window w now) s.failures) (now ∷ []),
        length-keep_if-snoc (in_window w now) h now,
        a.few (in_window w now),
      )
