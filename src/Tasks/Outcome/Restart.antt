-- ===== src/Tasks/Outcome/Restart.antt =====
-- A claimed restart task from the claim to its end, in backend/internal/service/task_service.go.
use snow_panel.Prelude.{
  ap, ◌∙◌, sym, subst, ◌+◌, Bool-cases, inl, inr, ℕ, pos, ◌≡◌, refl, Text, true, false, Option,
  none, some, List, ◌∷◌, arith,
}
use snow_panel.Errors.{GoError, ok, err, error_text}
use snow_panel.Tasks.Model.{Task, Payload, Metadata, success, failed}
use snow_panel.Tasks.Repository.Stuck.{IsInert, terminal-IsInert}
use snow_panel.Tasks.Repository.Lookup.{find}
use snow_panel.Tasks.World.{
  Env, World, ServiceCall, clock, return, observe, task_completed, repo_fail, repo_log, perform,
  Observation,
}
use snow_panel.Tasks.World.Alone
use snow_panel.Program.Hoare.{Does, return-Does, bind-Does, bind_known}
use snow_panel.Tasks.Payload.{unmarshal_task_payload}
use snow_panel.Tasks.Retry.{next_task_retry_at}
use snow_panel.Tasks.Worker.{
  is_retryable, fail_claimed_task, finish_claimed, start_claimed, run_payload, run_claimed_task,
}
use snow_panel.Tasks.Outcome.Held.{
  IsUndisturbed, Holds, Working, log-Working, is_canceled-Working, progress-Working,
}
use snow_panel.Tasks.World.Alone.{IsAlone}
use snow_panel.Tasks.Outcome.Ended.{
  IsAlone-IsUndisturbed, Ended, IsSuccess, IsFailure, complete-Ended, fail-Ended, log_inert,
  log_alone, observe-Ended,
}
use snow_panel.Tasks.Outcome.Operation.{IsRestart, operation_works}

success-IsInert : (n : ℕ) (t : Task) → IsSuccess n t → IsInert t
success-IsInert n t s = terminal-IsInert success t s.succeeded tt

module _ (e : Env) (t : Task) (worker : Text) (calls : List ServiceCall) where
  abbrev HeldAfter : List ServiceCall → World → Type 0
  HeldAfter = Working t.id worker t.attempt t.max_attempts

  finish_succeeds :
      (p : Payload)
      → IsUndisturbed e
      → Does
          (HeldAfter calls)
          (finish_claimed e t worker p)
          (λ _. Ended t.id calls (IsSuccess t.attempt))
  unfolding finish_claimed
  finish_succeeds p calm = bind_known _ false (is_canceled-Working e calm t.id worker _ _ calls) (
      bind-Does (complete-Ended e calm t.id worker _ _ calls) λ _.
        bind-Does (observe-Ended e t.id calls _ _)
          λ _. log_inert e t.id calls _ _ _ _ calm (success-IsInert t.attempt))

  -- The task has been failed at the time `now`.
  abbrev FailedAt : GoError → ℕ → World → Type 0
  FailedAt x now = Ended t.id calls (
      IsFailure t.attempt (error_text x)
        (next_task_retry_at now (pos t.attempt) t.max_attempts (is_retryable x)))

  -- It has been failed at the clock of the statement number `k`, and `n` statements were executed
  -- since that one was due.
  abbrev Since : GoError → ℕ → ℕ → World → Type 0
  Since x n now w = (k : ℕ) × (w.steps ≡ k + n) × ((e.turn k).now ≡ now) × FailedAt x now w

  -- It has been failed at the clock of the statement before the last one.
  abbrev pub Failed : GoError → World → Type 0
  Failed x w = (k : ℕ) × (w.steps ≡ k + 2) × FailedAt x (e.turn k).now w

  fail_steps :
      (message : Text) (next : Option ℕ) (w : World)
      → IsAlone e
      → (repo_fail e t.id worker message next w).1.steps ≡ w.steps + 1
  unfolding repo_fail perform
  fail_steps message next w a = rw (a.up w.steps) (omega arith)

  log_steps :
      (id : ℕ) (level message : Text) (metadata : Metadata) (w : World)
      → IsAlone e
      → (repo_log e id level message metadata w).1.steps ≡ w.steps + 1
  log_steps id level message metadata w a =
      ap (λ r. r.1.steps) (Alone.log_alone e a w id level message metadata) ∙ omega arith

  observe_steps : (o : Observation) (w : World) → (observe e o w).1.steps ≡ w.steps
  unfolding observe
  observe_steps o w = elim (Bool-cases e.has_metrics) [ inl y ↦ rw y refl | inr n ↦ rw n refl ]

  gauge :
      (x : GoError) (now : ℕ) (o : Option ℕ)
      → Does
          (Since x 1 now)
          (elim o [ none ↦ observe e (task_completed t.type failed) | some at ↦ return tt ])
          (λ _. Since x 1 now)
  gauge x now none = record {
    at = λ w (k, s, c, h). (k, observe_steps _ w ∙ s, c, (observe-Ended e t.id calls _ _).at w h);
  }
  gauge x now (some at) = return-Does tt (λ w h. h)

  at_clock :
      (x : GoError) {now then : ℕ} {w : World} → then ≡ now → FailedAt x now w → FailedAt x then w
  at_clock x {w = w} c h = subst (λ n. FailedAt x n w) (sym c) h

  fail_fails :
      (x : GoError) (metadata : Metadata)
      → IsAlone e
      → Does (HeldAfter calls) (fail_claimed_task e t worker x metadata) (λ _. Failed x)
  unfolding fail_claimed_task
  fail_fails x metadata a =
      let calm = IsAlone-IsUndisturbed e a in
      bind_known _ false (is_canceled-Working e calm t.id worker _ _ calls) (
        bind-Does {Q = λ now w. ((e.turn w.steps).now ≡ now) × HeldAfter calls w}
          (unfold clock in record { at = λ w h. (refl, h) })
          λ now.
            bind-Does {Q = λ _. Since x 1 now}
              (record {
                at = λ w (c, h). (
                  w.steps,
                  fail_steps _ _ w a,
                  c,
                  (fail-Ended e calm t.id worker _ _ calls _ _).at w h,
                );
              })
              λ _. bind-Does (gauge x now _) λ _. record {
                at = λ w (k, s, c, h). (
                  k,
                  log_steps _ _ _ _ w a ∙ ap (λ n. n + 1) s ∙ omega arith,
                  at_clock x c ((log_alone e t.id calls _ _ _ _ a).at w h),
                );
              })

  -- `runClaimedTask` up to its operation, which goes on with `R` afterwards.
  payload_starts :
      (p : Payload) (R : World → Type 0)
      → IsUndisturbed e
      → Does (HeldAfter calls) (start_claimed e t worker p) (λ _. R)
      → Does (HeldAfter calls) (run_payload e t worker p) (λ _. R)
  unfolding run_payload
  payload_starts p R calm h = bind-Does (log-Working e calm t.id worker _ _ calls _ _ _) λ _.
      bind_known _ false (is_canceled-Working e calm t.id worker _ _ calls)
        (bind_known _ true (progress-Working e calm t.id worker _ _ calls 5 (omega arith)) h)

module _ (e : Env) (t : Task) (worker : Text) (calls : List ServiceCall) (p : Payload)
    (call : ServiceCall) where
  start_succeeds :
      (a : Text × Text)
      → IsUndisturbed e
      → IsRestart e calls p call (ok a)
      → Does
          (HeldAfter e t worker calls calls)
          (start_claimed e t worker p)
          (λ _. Ended t.id (call ∷ calls) (IsSuccess t.attempt))
  unfolding start_claimed
  start_succeeds a calm r = bind-Does (log-Working e calm t.id worker _ _ calls _ _ _) λ _.
      bind_known _ (ok tt) (operation_works e calm t.id worker _ _ calls p call (ok a) r)
        (finish_succeeds e t worker (call ∷ calls) p calm)

  start_fails :
      (x : GoError)
      → IsAlone e
      → IsRestart e calls p call (err x)
      → Does
          (HeldAfter e t worker calls calls)
          (start_claimed e t worker p)
          (λ _. Failed e t worker (call ∷ calls) x)
  unfolding start_claimed
  start_fails x a r =
      let calm = IsAlone-IsUndisturbed e a in
      bind-Does (log-Working e calm t.id worker _ _ calls _ _ _) λ _.
        bind_known _ (err x) (operation_works e calm t.id worker _ _ calls p call (err x) r)
          (fail_fails e t worker (call ∷ calls) x _ a)

-- A claimed restart task whose service call succeeds makes that one call and ends as succeeded, at
-- progress 100 and without a lease, its attempts unchanged. This holds as long as the worker has
-- the lease, no statement fails, and other processes only create and claim tasks, renew leases and
-- write logs.
pub claimed_restart_succeeds :
    (e : Env) (t : Task) (worker : Text) (p : Payload) (call : ServiceCall) (a : Text × Text)
    (w : World)
    → IsUndisturbed e
    → unmarshal_task_payload e.decode t.payload ≡ ok p
    → IsRestart e w.calls p call (ok a)
    → Holds t.id worker t.attempt t.max_attempts w.db
    → let w' = (run_claimed_task e worker t w).1 in
      (w'.calls ≡ call ∷ w.calls)
      × ((u : Task) × (find t.id w'.db.tasks ≡ some u) × IsSuccess t.attempt u)
unfolding run_claimed_task
claimed_restart_succeeds e t worker p call a w calm d r h =
    rw (d, run_claimed_task)
      (let out =
          (payload_starts e t worker w.calls p _ calm
              (start_succeeds e t worker w.calls p call a calm r)).at
            w (record { holds = h; asked = refl }) in
        (out.asked, (out.row, out.found, out.as_said)))

-- A claimed restart task whose service call fails makes that one call and records the error. If
-- `nextTaskRetryAt` gives a time, by the clock at the statement that records the failure (the last
-- but one of the run), the attempts of the task and the kind of the error, the task is pending again
-- from that time on, and otherwise it has failed; either way its lease is gone. This holds as long as
-- the worker has the lease, no statement fails and no other process writes.
pub claimed_restart_fails :
    (e : Env) (t : Task) (worker : Text) (p : Payload) (call : ServiceCall) (x : GoError)
    (w : World)
    → IsAlone e
    → unmarshal_task_payload e.decode t.payload ≡ ok p
    → IsRestart e w.calls p call (err x)
    → Holds t.id worker t.attempt t.max_attempts w.db
    → let w' = (run_claimed_task e worker t w).1 in
      (w'.calls ≡ call ∷ w.calls)
      × ((u : Task) × (k : ℕ) × (w'.steps ≡ k + 2)
          × (find t.id w'.db.tasks ≡ some u)
          × IsFailure t.attempt
              (error_text x)
              (next_task_retry_at (e.turn k).now (pos t.attempt) t.max_attempts (is_retryable x))
              u)
unfolding run_claimed_task
claimed_restart_fails e t worker p call x w alone d r h =
    rw (d, run_claimed_task)
      (let (k, last, out) =
          (payload_starts e t worker w.calls p _ (IsAlone-IsUndisturbed e alone)
              (start_fails e t worker w.calls p call x alone r)).at
            w (record { holds = h; asked = refl }) in
        (out.asked, (out.row, k, last, out.found, out.as_said)))
