-- ===== src/Login/Keys.antt =====
-- What the calls of the limiter of backend/internal/security/login_attempt_limiter.go leave alone.
use snow_panel.Prelude.{
  ℕ, ◌≤◌, ◌≡◌, ◌≢◌, inl, inr, refl, sym, ◌∙◌, ap, Text, text_eq, text_eq_sound, text_eq_refl,
  Option, none, some, [], ◌∷◌, ltb, if◌then◌else◌, arith, Bool-cases, Option-cases,
}
use snow_panel.Errors.{Result, ok, err}
use snow_panel.Login.{
  State, Limiter, prune_failures, is_nil, limited, allow, allow_state, record_failure,
  record_success,
}
use snow_panel.Login.Store.{put-same, put-other, remove-same, remove-other}
use snow_panel.Login.Attempts.{Attempt, asked, failed, succeeded, attempt}

-- The key that a call is about.
abbrev pub key_of : Attempt → Text
key_of (asked k now) = k
key_of (failed k now) = k
key_of (succeeded k) = k

allow_state-other :
    (show : ℕ → Text) (k key : Text) (now : ℕ) (l : Limiter) (s : State)
    → key ≢ k
    → (allow_state show k now l s).1.states key ≡ l.states key
unfolding allow_state
allow_state-other show k key now l s n = elim (Bool-cases (ltb now s.locked_until)) [
  | inl e ↦ rw e (put-other k key s l n)
  | inr e ↦ rw e (elim (Bool-cases (is_nil s.failures)) [
    | inl f ↦ rw f (remove-other k key l n)
    | inr f ↦ rw f (put-other k key s l n)
  ])
]

attempt-other :
    (show : ℕ → Text) (a : Attempt) (key : Text) (l : Limiter)
    → key ≢ key_of a
    → (attempt show a l).states key ≡ l.states key
unfolding attempt allow record_failure record_success
attempt-other show (asked [] now) key l n = refl
attempt-other show (asked (c ∷ k) now) key l n = elim (Option-cases (l.states (c ∷ k))) [
  | inl e ↦ rw (e, attempt, allow) refl
  | inr (s, e) ↦ rw (e, attempt, allow) (allow_state-other show (c ∷ k) key now l _ n)
]
attempt-other show (failed [] now) key l n = refl
attempt-other show (failed (c ∷ k) now) key l n = put-other (c ∷ k) key _ l n
attempt-other show (succeeded []) key l n = refl
attempt-other show (succeeded (c ∷ k)) key l n = remove-other (c ∷ k) key l n

-- The answer of `Allow` by the state of the key.
abbrev answer : (ℕ → Text) → ℕ → Option State → Result (Unit {0})
answer show now none = ok tt
answer show now (some s) =
    if ltb now s.locked_until then err (limited show s.locked_until now) else ok tt

allow-answer :
    (show : ℕ → Text) (c : ℕ) (k : Text) (now : ℕ) (l : Limiter)
    → (allow show (c ∷ k) now l).0 ≡ answer show now (l.states (c ∷ k))
unfolding allow allow_state prune_failures
allow-answer show c k now l = elim (Option-cases (l.states (c ∷ k))) [
  | inl e ↦ rw (e, allow) refl
  | inr (s, e) ↦ rw (e, allow) (ground arith)
]

-- A call for one key does not change what `Allow` answers for another key.
pub attempt-other_key :
    (show : ℕ → Text) (a : Attempt) (key : Text) (now : ℕ) (l : Limiter)
    → key ≢ key_of a
    → (allow show key now (attempt show a l)).0 ≡ (allow show key now l).0
unfolding allow
attempt-other_key show a [] now l n = refl
attempt-other_key show a (c ∷ k) now l n =
    allow-answer show c k now (attempt show a l)
    ∙ ap (answer show now) (attempt-other show a (c ∷ k) l n)
    ∙ sym (allow-answer show c k now l)

answer_kept :
    (show : ℕ → Text) (key : Text) (now later : ℕ) (l : Limiter) (s : State)
    → now ≤ later
    → answer show later ((allow_state show key now l s).1.states key) ≡ answer show later (some s)
unfolding allow_state
answer_kept show key now later l s h = elim (Bool-cases (ltb now s.locked_until)) [
  | inl e ↦ rw (e, put-same key s l) refl
  | inr e ↦ rw e (elim (Bool-cases (is_nil s.failures)) [
    | inl f ↦ rw (f, remove-same key l) (ground (arith, e, h))
    | inr f ↦ rw (f, put-same key s l) refl
  ])
]

same_key :
    (show : ℕ → Text) (c : ℕ) (k : Text) (now later : ℕ) (l : Limiter)
    → now ≤ later
    → answer show later ((allow show (c ∷ k) now l).1.states (c ∷ k))
      ≡ answer show later (l.states (c ∷ k))
unfolding prune_failures allow
same_key show c k now later l h = elim (Option-cases (l.states (c ∷ k))) [
  | inl e ↦ rw (e, allow, e) refl
  | inr (s, e) ↦ rw (e, allow) (answer_kept show (c ∷ k) now later l _ h)
]

-- Asking `Allow`, for any key, does not change what it answers at the same time or later, for any
-- key, though it prunes the failures and forgets keys that have none.
pub allow_again :
    (show : ℕ → Text) (asked_key key : Text) (now later : ℕ) (l : Limiter)
    → now ≤ later
    → (allow show key later (allow show asked_key now l).1).0 ≡ (allow show key later l).0
unfolding attempt allow
allow_again show asked_key [] now later l h = refl
allow_again show asked_key (c ∷ k) now later l h = elim (Bool-cases (text_eq asked_key (c ∷ k))) [
  | inl e ↦ rw (text_eq_sound asked_key (c ∷ k) e) (
      allow-answer show c k later (allow show (c ∷ k) now l).1
      ∙ same_key show c k now later l h
      ∙ sym (allow-answer show c k later l))
  | inr n ↦
      attempt-other_key show (asked asked_key now) (c ∷ k) later l
        (λ q. cc (q, n, text_eq_refl asked_key))
]
