-- ===== src/Login/Store.antt =====
-- The map of states of backend/internal/security/login_attempt_limiter.go: what a lookup finds after
-- a write.
use snow_panel.Prelude.{
  ◌≡◌, ◌≢◌, inl, inr, refl, ap, Text, text_eq, text_eq_sound, text_eq_refl, Bool, true, false, none,
  some, if◌then◌else◌, Bool-cases, List, [], ◌∷◌, ◌++◌, ◌+◌, ℕ, keep_if, length, ◌≤◌, arith, All,
}
use snow_panel.Login.{State, Limiter, put, remove}

pub text_eq_other : (a b : Text) → a ≢ b → text_eq a b ≡ false
text_eq_other a b n = elim (Bool-cases (text_eq a b)) [
  | inl e ↦ absurd (n (text_eq_sound a b e))
  | inr e ↦ e
]

pub put-same : (key : Text) (s : State) (l : Limiter) → (put key s l).states key ≡ some s
unfolding put
put-same key s l = ap (λ b. if b then some s else l.states key) (text_eq_refl key)

pub put-other :
    (key k : Text) (s : State) (l : Limiter) → k ≢ key → (put key s l).states k ≡ l.states k
unfolding put
put-other key k s l n = ap (λ b. if b then some s else l.states k) (text_eq_other k key n)

pub remove-same : (key : Text) (l : Limiter) → (remove key l).states key ≡ none
unfolding remove
remove-same key l = ap (λ b. if b then none else l.states key) (text_eq_refl key)

pub remove-other : (key k : Text) (l : Limiter) → k ≢ key → (remove key l).states k ≡ l.states k
unfolding remove
remove-other key k l n = ap (λ b. if b then none else l.states k) (text_eq_other k key n)

-- What pruning does to a list.
pub keep_if-All : (p : ℕ → Bool) (xs : List ℕ) → All (λ x. p x ≡ true) xs → keep_if p xs ≡ xs
keep_if-All p [] h = refl
keep_if-All p (x ∷ xs) h = rw (h.0, keep_if-All p xs h.1) refl

pub keep_if-keep_if-le :
    (p q : ℕ → Bool) (xs : List ℕ) → length (keep_if p (keep_if q xs)) ≤ length (keep_if p xs)
keep_if-keep_if-le p q [] = omega arith
keep_if-keep_if-le p q (x ∷ xs) = ground (arith, keep_if-keep_if-le p q xs)

pub length-keep_if-snoc :
    (p : ℕ → Bool) (xs : List ℕ) (x : ℕ)
    → length (keep_if p (xs ++ x ∷ [])) ≡ length (keep_if p xs) + (if p x then 1 else 0)
length-keep_if-snoc p [] x = ground arith
length-keep_if-snoc p (y ∷ xs) x = ground (arith, length-keep_if-snoc p xs x)
