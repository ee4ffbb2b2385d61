-- ===== src/Login/Attempts.antt =====
-- The calls of the limiter of backend/internal/security/login_attempt_limiter.go in a sequence.
use snow_panel.Prelude.{ℕ, Text, text_eq, List, [], ◌∷◌, ◌++◌, if◌then◌else◌}
use snow_panel.Login.{Limiter, allow, record_failure, record_success}

-- A call of `Allow`, `RecordFailure` or `RecordSuccess`, with the time that it reads.
pub data Attempt : Type 0 where
  asked : Text → ℕ → Attempt
  failed : Text → ℕ → Attempt
  succeeded : Text → Attempt

unfoldable pub attempt : (ℕ → Text) → Attempt → Limiter → Limiter
attempt show (asked key now) l = (allow show key now l).1
attempt show (failed key now) l = record_failure key now l
attempt show (succeeded key) l = record_success key l

unfoldable pub attempts : (ℕ → Text) → List Attempt → Limiter → Limiter
unfolding attempt
attempts show [] l = l
attempts show (a ∷ rest) l = attempts show rest (attempt show a l)

-- The times of the failures at a key since its last success, after those of `h`.
abbrev pub failures_since : Text → List ℕ → List Attempt → List ℕ
failures_since key h [] = h
failures_since key h (asked k now ∷ rest) = failures_since key h rest
failures_since key h (failed k now ∷ rest) =
    failures_since key (if text_eq key k then h ++ now ∷ [] else h) rest
failures_since key h (succeeded k ∷ rest) =
    failures_since key (if text_eq key k then [] else h) rest
