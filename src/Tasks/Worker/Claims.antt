-- ===== src/Tasks/Worker/Claims.antt =====
-- What a round of claims starts: `claimAvailableTasks` of backend/internal/service/task_service.go.
use snow_panel.Prelude.{
  ◌+◌, ℕ, zero, suc, ◌≤◌, ◌≡◌, refl, Text, Option, none, some, List, [], ◌∷◌, ◌++◌, All, All-append,
  length, length-append, ap, arith, Bool-cases, inl, inr,
}
use mathlib.Core.List.{append_assoc}
use snow_panel.Errors.{Result, ok, err}
use snow_panel.Tasks.Model.{Task, running}
use snow_panel.Tasks.Repository.{Db, claim_next_task, claimable, claim_row}
use snow_panel.Tasks.Repository.Claim.{oldest_found}
use snow_panel.Tasks.World.{
  M, Env, World, Spawned, run_claimed_of, run_task_of, Observation, repo_claim, perform, observe,
  spawn,
}
use snow_panel.Program.Hoare.{Does, return-Does, bind-Does, with_fact}
use snow_panel.Tasks.Worker.{Worker, claim_available_tasks, claim_task}

-- A goroutine that runs a task which was claimed for the worker.
abbrev pub IsClaimedBy : Text → Spawned → Type 0
IsClaimedBy worker (run_claimed_of t) = (t.status ≡ running) × (t.locked_by ≡ some worker)
IsClaimedBy worker (run_task_of id p) = ⊥

abbrev pub total : List ℕ → ℕ
total [] = 0
total (n ∷ ns) = n + total ns

-- At most `bound` goroutines were started since `before`, each for a task claimed for the worker.
pub record Started (worker : Text) (before : List Spawned) (bound : ℕ) (now : List Spawned)
    : Type 0 where
  pub fresh : List Spawned
  pub all_spawned : now ≡ fresh ++ before
  pub within : length fresh ≤ bound
  pub claimed : All (IsClaimedBy worker) fresh

abbrev Claimed : Text → Result (Option Task) → Type 0
Claimed worker (ok (some t)) = (t.status ≡ running) × (t.locked_by ≡ some worker)
Claimed worker (ok none) = Unit
Claimed worker (err x) = Unit

claim-Claimed :
    (worker : Text) (lease now : ℕ) (db : Db)
    → Claimed worker (ok (claim_next_task worker lease now db).0)
unfolding claim_next_task
claim-Claimed worker lease now db = elim (oldest_found (claimable now) db.tasks) [
  | inl (n, _) ↦ rw (n, claim_next_task) tt
  | inr (t, n, _, _, _) ↦ rw (n, claim_next_task) (unfold claim_row in (refl, refl))
]

module _ (e : Env) (o : Worker) where
  repo_claim-Claimed :
      (before : List Spawned)
      → Does
          (λ w. w.spawned ≡ before)
          (repo_claim e o.worker_id o.lease_duration)
          (λ r w. Claimed o.worker_id r × (w.spawned ≡ before))
  unfolding repo_claim perform
  repo_claim-Claimed before = record {
    at = λ w s. elim (Bool-cases (e.turn w.steps).fails) [
      | inl down ↦ rw down (tt, s)
      | inr up ↦ rw up (claim-Claimed o.worker_id o.lease_duration _ _, s)
    ];
  }

  observe_started :
      (before : List Spawned) (x : Observation)
      → Does (λ w. w.spawned ≡ before) (observe e x) (λ _ w. w.spawned ≡ before)
  unfolding observe
  observe_started before x = record { at = λ w s. ground arith }

  spawn_started :
      (before : List Spawned) (g : Spawned)
      → Does (λ w. w.spawned ≡ before) (spawn g) (λ _ w. w.spawned ≡ g ∷ before)
  unfolding spawn
  spawn_started before g = record { at = λ w s. ap (λ l. g ∷ l) s }

  nothing-Started :
      (before : List Spawned) (n : ℕ) (x : Observation)
      → Does (λ w. w.spawned ≡ before) (observe e x) (λ _ w. Started o.worker_id before n w.spawned)
  nothing-Started before n x = record {
    at = λ w s. record {
      fresh = [];
      all_spawned = (observe_started before x).at w s;
      within = omega arith;
      claimed = tt;
    };
  }

  claim_task_starts :
      {rest : M (Unit {0})} (before : List Spawned) (n : ℕ)
      → ((t : Task)
          → Does
              (λ w. w.spawned ≡ run_claimed_of t ∷ before)
              rest
              (λ _ w. Started o.worker_id (run_claimed_of t ∷ before) n w.spawned))
      → Does
          (λ w. w.spawned ≡ before)
          (claim_task e o rest)
          (λ _ w. Started o.worker_id before (suc n) w.spawned)
  unfolding claim_task
  claim_task_starts before n h = bind-Does (repo_claim-Claimed before) (elim [
    | err x ↦ record { at = λ w s. (nothing-Started before (suc n) _).at w s.1 }
    | ok none ↦ record { at = λ w s. (nothing-Started before (suc n) _).at w s.1 }
    | ok (some t) ↦ with_fact λ c. bind-Does (observe_started before _) λ _.
        bind-Does (spawn_started before (run_claimed_of t))
          λ _. record { at = λ x q. one_more c ((h t).at x q) }
  ])
    where
      one_more :
          {t : Task} {now : List Spawned}
          → (t.status ≡ running) × (t.locked_by ≡ some o.worker_id)
          → Started o.worker_id (run_claimed_of t ∷ before) n now
          → Started o.worker_id before (suc n) now
      one_more {t} c r = record {
        fresh = r.fresh ++ run_claimed_of t ∷ [];
        all_spawned = rw (append_assoc r.fresh (run_claimed_of t ∷ []) before) r.all_spawned;
        within = omega (arith, length-append r.fresh (run_claimed_of t ∷ []), r.within);
        claimed = All-append _ r.fresh _ r.claimed (c, tt);
      }

  Started-≤ :
      {m n : ℕ} {before now : List Spawned}
      → m ≤ n
      → Started o.worker_id before m now
      → Started o.worker_id before n now
  Started-≤ h r = record {
    fresh = r.fresh;
    all_spawned = r.all_spawned;
    within = omega (arith, h, r.within);
    claimed = r.claimed;
  }

  claims_start :
      (given_back : List ℕ) (free : ℕ) (before : List Spawned)
      → Does
          (λ w. w.spawned ≡ before)
          (claim_available_tasks e o given_back free)
          (λ _ w. Started o.worker_id before (free + total given_back) w.spawned)
  unfolding claim_available_tasks
  claims_start given_back zero before =
      return-Does tt
        λ w s. record { fresh = []; all_spawned = s; within = omega arith; claimed = tt }
  claims_start [] (suc free) before = record {
    at = λ w s. Started-≤ (omega arith) (
        (claim_task_starts before (free + 0)
            λ t. claims_start [] free (run_claimed_of t ∷ before)).at
          w s);
  }
  claims_start (n ∷ given_back) (suc free) before = record {
    at = λ w s. Started-≤ (omega arith) (
        (claim_task_starts before (free + n + total given_back)
            λ t. claims_start given_back (free + n) (run_claimed_of t ∷ before)).at
          w s);
  }

-- A round of claims starts at most as many goroutines as there are places that are free at its start
-- or given back while it runs, each for a task that was set to running under the lease of this
-- worker, and takes back none that were started before; whatever other processes write and whichever
-- statements fail.
pub claim_available_tasks-Started :
    (e : Env) (o : Worker) (given_back : List ℕ) (free : ℕ) (w : World)
    → Started o.worker_id w.spawned
        (free + total given_back)
        (claim_available_tasks e o given_back free w).1.spawned
claim_available_tasks-Started e o given_back free w =
    (claims_start e o given_back free w.spawned).at w refl
