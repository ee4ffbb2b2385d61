-- ===== src/Tasks/Repository/Due.antt =====
-- Which tasks `ClaimNextTask` of backend/internal/repository/task_repository.go may take.
use snow_panel.Prelude.{
  ℕ, ◌≤◌, ◌<◌, ◌≡◌, refl, inl, inr, ◌⊎◌, true, false, Option, none, some, List, [], ◌∷◌, All,
  pos_part, arith,
}
use snow_panel.Tasks.Model.{pending, Task}
use snow_panel.Tasks.Repository.{claimable, is_due}

-- The task is pending, due and has an attempt left.
pub record MayStart (now : ℕ) (t : Task) : Type 0 where
  pub waits : t.status ≡ pending
  pub due : (t.next_run_at ≡ none) ⊎ ((at : ℕ) × (t.next_run_at ≡ some at) × (at ≤ now))
  pub attempt_left : t.attempt < pos_part t.max_attempts

time_come :
    (now : ℕ) (o : Option ℕ)
    → is_due o now ≡ true
    → (o ≡ none) ⊎ ((at : ℕ) × (o ≡ some at) × (at ≤ now))
time_come now none h = inl refl
time_come now (some at) h = inr (at, refl, ground (arith, h))

pub claimable-MayStart : (now : ℕ) (t : Task) → claimable now t ≡ true → MayStart now t
unfolding claimable
claimable-MayStart now t h = record {
  waits = ground (arith, h);
  due = time_come now t.next_run_at (ground (arith, h));
  attempt_left = ground (arith, h);
}

come_due :
    (now : ℕ) (t : Task)
    → (t.next_run_at ≡ none) ⊎ ((at : ℕ) × (t.next_run_at ≡ some at) × (at ≤ now))
    → is_due t.next_run_at now ≡ true
come_due now t (inl q) = rw q refl
come_due now t (inr (at, q, le)) = rw q (ground (arith, le))

pub MayStart-claimable : (now : ℕ) (t : Task) → MayStart now t → claimable now t ≡ true
unfolding claimable
MayStart-claimable now t h =
    let d = come_due now t h.due in
    let p = h.waits in let a = h.attempt_left in rw (p, d) (ground (arith, a))

pub none_starts :
    (now : ℕ) (ts : List Task)
    → All (λ t. claimable now t ≡ false) ts
    → All (λ t. MayStart now t → ⊥) ts
none_starts now [] h = tt
none_starts now (t ∷ ts) (a, h) =
    ((λ m. ground (arith, a, MayStart-claimable now t m)), none_starts now ts h)

pub oldest_starts :
    (now bound : ℕ) (ts : List Task)
    → All (λ t. claimable now t ≡ true → bound ≤ t.created_at) ts
    → All (λ t. MayStart now t → bound ≤ t.created_at) ts
oldest_starts now bound [] h = tt
oldest_starts now bound (t ∷ ts) (a, h) =
    ((λ m. a (MayStart-claimable now t m)), oldest_starts now bound ts h)
