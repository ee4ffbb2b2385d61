-- ===== src/Tasks/Retry/Backoff.antt =====
-- When a failed task runs again.
use snow_panel.Prelude.{
  ℕ, ℤ, zero, suc, pos, ◌+◌, ◌*◌, ◌^◌, ◌≤◌, ◌<◌, ◌≡◌, refl, min, Bool, true, false, none, some,
  arith, ◌⊎◌, inl, inr, negsuc, ltb, Bool-cases,
}
use native.Mathlib.Nat.{pow-suc}
use snow_panel.Tasks.Retry.{
  second, millisecond, task_retry_backoff, next_task_retry_at, task_heartbeat_interval,
}

pow_pos : (k : ℕ) → 1 ≤ 2 ^ k
pow_pos zero = omega arith
pow_pos (suc k) = omega (arith, pow-suc 2 k, pow_pos k)

large_pow : (k : ℕ) → 32 ≤ 2 ^ suc (suc (suc (suc (suc k))))
large_pow k = omega (
  arith,
  pow-suc 2 (suc (suc (suc (suc k)))),
  pow-suc 2 (suc (suc (suc k))),
  pow-suc 2 (suc (suc k)),
  pow-suc 2 (suc k),
  pow-suc 2 k,
  pow_pos k,
)

-- The delay after attempt n + 1 is 2^n seconds, and 30 seconds at most, for every n.
pub task_retry_backoff-min :
    (n : ℕ) → task_retry_backoff (pos (suc n)) ≡ min (30 * second) (second * 2 ^ n)
unfolding task_retry_backoff
task_retry_backoff-min zero = refl
task_retry_backoff-min (suc zero) = refl
task_retry_backoff-min (suc (suc zero)) = refl
task_retry_backoff-min (suc (suc (suc zero))) = refl
task_retry_backoff-min (suc (suc (suc (suc zero)))) = refl
task_retry_backoff-min (suc (suc (suc (suc (suc k))))) = ground (arith, large_pow k)

backoff_bounds : (a : ℤ) → (second ≤ task_retry_backoff a) × (task_retry_backoff a ≤ 30 * second)
backoff_bounds (pos zero) = unfold task_retry_backoff in omega arith
backoff_bounds (pos (suc n)) = ground (arith, task_retry_backoff-min n, pow_pos n)
backoff_bounds (negsuc n) = unfold task_retry_backoff in omega arith

-- Another run is scheduled exactly if the error is retryable and attempts are left, and then from
-- one to thirty seconds ahead.
pub next_task_retry_at-schedule :
    (now attempt max_attempts : ℕ) (retryable : Bool)
    → ((retryable ≡ true)
        × (attempt < max_attempts)
        × ((at : ℕ) × (next_task_retry_at now (pos attempt) (pos max_attempts) retryable ≡ some at)
            × (now + second ≤ at)
            × (at ≤ now + 30 * second)))
      ⊎ (((retryable ≡ false) ⊎ (max_attempts ≤ attempt))
          × (next_task_retry_at now (pos attempt) (pos max_attempts) retryable ≡ none))
unfolding next_task_retry_at
next_task_retry_at-schedule now attempt max_attempts true =
    elim (Bool-cases (ltb attempt max_attempts)) [
      | inl left ↦ inl (
        refl,
        ground arith,
        (
          now + task_retry_backoff (pos attempt),
          ground arith,
          omega (arith, (backoff_bounds (pos attempt)).0),
          omega (arith, (backoff_bounds (pos attempt)).1),
        ),
      )
      | inr over ↦ inr (inr (ground arith), ground arith)
    ]
next_task_retry_at-schedule now attempt max_attempts false = inr (inl refl, refl)

-- A lease is renewed before it runs out: the interval of the heartbeats is at most a third of the
-- lease, if that is at least 150 milliseconds.
pub task_heartbeat_interval-third :
    (lease : ℕ)
    → 150 * millisecond ≤ lease
    → (0 < task_heartbeat_interval (pos lease)) × (3 * task_heartbeat_interval (pos lease) ≤ lease)
unfolding task_heartbeat_interval
task_heartbeat_interval-third lease h = ground arith
