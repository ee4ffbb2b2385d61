-- ===== src/Login.antt =====
-- backend/internal/security/login_attempt_limiter.go: the limiter of failed logins that is kept in
-- memory. The mutex makes each call atomic, so that a call is a function on the limiter; `now` is
-- the clock that it reads. Times are nanoseconds since Go's zero time, durations nanoseconds.
pub mod Store
pub mod Attempts
pub mod Account
pub mod Track
pub mod Filling
pub mod Unlocked
pub mod Lock
pub mod Keys
use snow_panel.Prelude.{
  ℕ, ℤ, pos_part, ◌+◌, ◌-◌, ◌*◌, ◌%◌, Text, text, text_eq, trim_space, is_empty, is_nonpos, Bool,
  true, false, Option, none, some, List, [], ◌∷◌, ◌++◌, keep_if, length, ltb, leb, if◌then◌else◌,
}
use snow_panel.Errors.{Result, ok, err, GoError, plain, wrap, login_rate_limited}

abbrev pub second : ℕ
second = 1000000000

abbrev pub minute : ℕ
minute = 60 * second

-- `loginAttemptState`. The zero time stands for no lock.
pub record State : Type 0 where
  pub failures : List ℕ
  pub locked_until : ℕ

-- `LoginAttemptLimiter`, with `states` as a function from the keys.
pub record Limiter : Type 0 where
  pub max_failures : ℕ
  pub failure_window : ℕ
  pub lock_duration : ℕ
  pub states : Text → Option State

abbrev pub or_default : ℤ → ℕ → ℕ
or_default v d = if is_nonpos v then d else pos_part v

-- `NewLoginAttemptLimiter`.
unfoldable pub new_login_attempt_limiter : ℤ → ℤ → ℤ → Limiter
new_login_attempt_limiter max_failures failure_window lock_duration = record {
  max_failures = or_default max_failures 5;
  failure_window = or_default failure_window (15 * minute);
  lock_duration = or_default lock_duration (15 * minute);
  states = λ k. none;
}

abbrev pub or_unknown : Text → Text
or_unknown s = if is_empty s then text "unknown" else s

-- `BuildLoginAttemptKey`, where `to_lower` is `strings.ToLower`.
unfoldable pub build_login_attempt_key : (Text → Text) → Text → Text → Text
build_login_attempt_key to_lower username ip =
    or_unknown (to_lower (trim_space username)) ++ (text "|" ++ or_unknown (trim_space ip))

-- `states[key] = state` and `delete(states, key)`.
unfoldable pub put : Text → State → Limiter → Limiter
put key s l = record l { states = λ k. if text_eq k key then some s else l.states k }

unfoldable pub remove : Text → Limiter → Limiter
remove key l = record l { states = λ k. if text_eq k key then none else l.states k }

-- `item.After(now.Add(-failureWindow))`.
abbrev pub in_window : ℕ → ℕ → ℕ → Bool
in_window window now item = ltb now (item + window)

-- `pruneFailures`.
unfoldable pub prune_failures : ℕ → ℕ → State → State
prune_failures window now s = record s { failures = keep_if (in_window window now) s.failures }

-- `Round(time.Second)` of a duration that is not negative.
abbrev pub round_second : ℕ → ℕ
round_second d = let r = d % second in if ltb (r + r) second then d - r else d + second - r

-- The wait that `Allow` names.
abbrev pub remaining_wait : ℕ → ℕ
remaining_wait left =
    let rounded = round_second left in if ltb rounded second then second else rounded

abbrev pub is_nil : List ℕ → Bool
is_nil [] = true
is_nil (t ∷ ts) = false

-- The error of `Allow`, where `show` is the `String` of a `time.Duration`.
abbrev pub limited : (ℕ → Text) → ℕ → ℕ → GoError
limited show until now =
    wrap login_rate_limited (plain (text "retry after " ++ show (remaining_wait (until - now))))

-- `Allow` at a key with a state, from the pruning on.
unfoldable pub allow_state : (ℕ → Text) → Text → ℕ → Limiter → State → Result (Unit {0}) × Limiter
allow_state show key now l s =
    if ltb now s.locked_until
    then (err (limited show s.locked_until now), put key s l)
    else if is_nil s.failures
    then (ok tt, remove key l)
    else (ok tt, put key s l)

-- `Allow`.
unfoldable pub allow : (ℕ → Text) → Text → ℕ → Limiter → Result (Unit {0}) × Limiter
unfolding allow_state prune_failures
allow show [] now l = (ok tt, l)
allow show (c ∷ key) now l = elim (l.states (c ∷ key)) [
  | none ↦ (ok tt, l)
  | some s ↦ allow_state show (c ∷ key) now l (prune_failures l.failure_window now s)
]

abbrev pub or_new : Option State → State
or_new none = record { failures = []; locked_until = 0 }
or_new (some s) = s

-- `RecordFailure` from the pruned state on.
unfoldable pub add_failure : ℕ → ℕ → ℕ → State → State
add_failure max_failures lock now s =
    let failures = s.failures ++ now ∷ [] in
    if leb max_failures (length failures)
    then record { failures = []; locked_until = now + lock }
    else record { failures = failures; locked_until = s.locked_until }

-- `RecordFailure`.
unfoldable pub record_failure : Text → ℕ → Limiter → Limiter
unfolding add_failure prune_failures
record_failure [] now l = l
record_failure (c ∷ key) now l =
    put (c ∷ key)
      (add_failure l.max_failures l.lock_duration now
        (prune_failures l.failure_window now (or_new (l.states (c ∷ key)))))
      l

-- `RecordSuccess`.
unfoldable pub record_success : Text → Limiter → Limiter
record_success [] l = l
record_success (c ∷ key) l = remove (c ∷ key) l
