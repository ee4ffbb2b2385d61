-- ===== src/Tasks/Outcome/Ended.antt =====
-- The last statements of a worker on its task.
use snow_panel.Prelude.{
  ℕ, ℤ, ◌≡◌, refl, subst, Text, text, Bool, true, false, Option, none, some, List, [], ◌∷◌, All,
  if◌then◌else◌,
}
use snow_panel.Tasks.Model.{pending, success, failed, Task, Metadata}
use snow_panel.Tasks.Repository.{
  Db, append_log, complete_task, complete_row, fail_task, fail_row, holds_lease, update_where,
}
use snow_panel.Tasks.Repository.Actions.{
  Action, creates, claims, heartbeats, completes, fails, releases, updates, logs, act,
}
use snow_panel.Tasks.Repository.Lifecycle.{IsUpdate}
use snow_panel.Tasks.Repository.Invariant.{IsValid, IsIssued, act-IsValid, fail_row_identity}
use snow_panel.Tasks.Repository.Lookup.{find, find_sound, find-update_where}
use snow_panel.Tasks.Repository.Stuck.{IsInert, act-IsInert}
use snow_panel.Tasks.World.{
  Env, World, ServiceCall, Observation, interfere, arrive, perform, repo_log, repo_complete,
  repo_fail, observe,
}
use snow_panel.Program.Hoare.{Does, return-Does, bind-Does}
use snow_panel.Tasks.World.Alone.{IsAlone}
use snow_panel.Tasks.Outcome.Held.{IsBenign, IsUndisturbed, Working, arrive-Holds, holds_lease-true}

pub IsAlone-IsUndisturbed : (e : Env) → IsAlone e → IsUndisturbed e
IsAlone-IsUndisturbed e a = record { up = a.up; benign = λ n. rw (a.alone n) tt }

-- The task after its worker is done with it, and the services asked.
pub record Ended (id : ℕ) (calls : List ServiceCall) (P : Task → Type 0) (w : World) : Type 0 where
  pub valid : IsValid w.db
  pub row : Task
  pub found : find id w.db.tasks ≡ some row
  pub as_said : P row
  pub asked : w.calls ≡ calls

benign_other : (id : ℕ) (a : Action) → IsBenign a → IsUpdate id a → ⊥
benign_other id (updates i s p m) b u = b
benign_other id (creates t) b u = u
benign_other id (claims w l) b u = u
benign_other id (heartbeats i w l) b u = u
benign_other id (completes i w r) b u = u
benign_other id (fails i w m n) b u = u
benign_other id releases b u = u
benign_other id (logs x) b u = u

interfere_inert :
    (id now : ℕ) (acts : List Action) (db : Db) (t : Task)
    → All (λ a. IsIssued a × IsBenign a) acts
    → IsInert t
    → IsValid db
    → find id db.tasks ≡ some t
    → IsValid (interfere now acts db) × (find id (interfere now acts db).tasks ≡ some t)
unfolding interfere
interfere_inert id now [] db t o i v e = (v, e)
interfere_inert id now (a ∷ rest) db t o i v e =
    interfere_inert id now rest (act now a db) t o.1 i (act-IsValid now a db o.0.0 v)
      (act-IsInert id now a db t v (benign_other id a o.0.1) i e)

module _ (e : Env) (id : ℕ) (calls : List ServiceCall) (P : Task → Type 0) where
  -- A log changes no task.
  log-Ended :
      (level message : Text) (metadata : Metadata)
      → ((n : ℕ) → (e.turn n).fails ≡ false)
      → ((w : World) (t : Task)
          → P t
          → IsValid w.db
          → find id w.db.tasks ≡ some t
          → IsValid (arrive e w) × (find id (arrive e w).tasks ≡ some t))
      → Does (Ended id calls P) (repo_log e id level message metadata) (λ _. Ended id calls P)
  unfolding repo_log perform append_log
  log-Ended level message metadata up stable =
      bind-Does
        (record {
          at = λ w h.
              let (v, f) = stable w h.row h.as_said h.valid h.found in
              rw (up w.steps) (record {
                valid = record { rows = v.rows; below = v.below; distinct = v.distinct };
                row = h.row;
                found = f;
                as_said = h.as_said;
                asked = h.asked;
              });
        })
        (λ _. return-Does tt (λ w s. s))

  pub log_inert :
      (level message : Text) (metadata : Metadata)
      → IsUndisturbed e
      → ((t : Task) → P t → IsInert t)
      → Does (Ended id calls P) (repo_log e id level message metadata) (λ _. Ended id calls P)
  log_inert level message metadata calm inert =
      log-Ended level message metadata calm.up λ w t p v f.
        unfold arrive in
        interfere_inert id (e.turn w.steps).now (e.turn w.steps).others w.db t (calm.benign w.steps)
          (inert t p) v f

  pub log_alone :
      (level message : Text) (metadata : Metadata)
      → IsAlone e
      → Does (Ended id calls P) (repo_log e id level message metadata) (λ _. Ended id calls P)
  log_alone level message metadata a =
      log-Ended level message metadata a.up
        λ w t p v f. unfold arrive interfere in rw (a.alone w.steps) (v, f)

  pub observe-Ended :
      (o : Observation) → Does (Ended id calls P) (observe e o) (λ _. Ended id calls P)
  unfolding observe
  observe-Ended o = record { at = λ w h. go e.has_metrics w h }
    where
      go :
          (b : Bool) (w : World)
          → Ended id calls P w
          → Ended id calls P (if b then record w { observed = o ∷ w.observed } else w)
      go true w h = record {
        valid = h.valid;
        row = h.row;
        found = h.found;
        as_said = h.as_said;
        asked = h.asked;
      }
      go false w h = h

-- The row of a task that succeeded.
pub record IsSuccess (n : ℕ) (t : Task) : Type 0 where
  pub succeeded : t.status ≡ success
  pub full : t.progress ≡ 100
  pub unlocked : t.locked_by ≡ none
  pub attempt_kept : t.attempt ≡ n

-- The row of a task whose worker failed with the text `message`: to be run again at `next`, or
-- failed.
pub record IsFailure (n : ℕ) (message : Text) (next : Option ℕ) (t : Task) : Type 0 where
  pub status_is : t.status ≡ elim next [ none ↦ failed | some at ↦ pending ]
  pub next_is : t.next_run_at ≡ next
  pub message_is : t.error_msg ≡ message
  pub unlocked : t.locked_by ≡ none
  pub attempt_kept : t.attempt ≡ n

module _ (e : Env) (calm : IsUndisturbed e) (id : ℕ) (worker : Text) (n : ℕ) (m : ℤ)
    (calls : List ServiceCall) where
  pub complete-Ended :
      Does
        (Working id worker n m calls)
        (repo_complete e id worker (text "{}"))
        (λ _. Ended id calls (IsSuccess n))
  unfolding repo_complete perform complete_task
  complete-Ended = record {
    at = λ w h.
        let a = arrive-Holds e calm id worker n m calls w h in
        let now : ℕ = (e.turn w.steps).now in
        rw (calm.up w.steps) (record {
          valid =
              unfold act in
              act-IsValid now (completes id worker (text "{}")) (arrive e w) tt a.valid;
          row = complete_row (text "{}") now a.row;
          found =
              subst
                (λ b.
                  find id (
                    update_where (holds_lease id worker) (complete_row (text "{}") now)
                      (arrive e w).tasks)
                  ≡ some (if b then complete_row (text "{}") now a.row else a.row))
                (holds_lease-true id worker n m a.row (find_sound id _ a.row a.found).0 a.held)
                (find-update_where id (holds_lease id worker) (complete_row (text "{}") now) _ a.row
                  (unfold complete_row in record { same_id = λ u. refl; same_key = λ u. refl })
                  a.found);
          as_said =
              unfold complete_row in
              record {
                succeeded = refl;
                full = refl;
                unlocked = refl;
                attempt_kept = a.held.attempt_is;
              };
          asked = h.asked;
        });
  }

  fail_row_lem :
      (message : Text) (next : Option ℕ) (now : ℕ) (t : Task)
      → t.attempt ≡ n
      → IsFailure n message next (fail_row message next now t)
  unfolding fail_row
  fail_row_lem message none now t h = record {
    status_is = refl;
    next_is = refl;
    message_is = refl;
    unlocked = refl;
    attempt_kept = h;
  }
  fail_row_lem message (some at) now t h = record {
    status_is = refl;
    next_is = refl;
    message_is = refl;
    unlocked = refl;
    attempt_kept = h;
  }

  pub fail-Ended :
      (message : Text) (next : Option ℕ)
      → Does
          (Working id worker n m calls)
          (repo_fail e id worker message next)
          (λ _. Ended id calls (IsFailure n message next))
  unfolding repo_fail perform fail_task
  fail-Ended message next = record {
    at = λ w h.
        let a = arrive-Holds e calm id worker n m calls w h in
        let now : ℕ = (e.turn w.steps).now in
        rw (calm.up w.steps) (record {
          valid =
              unfold act in act-IsValid now (fails id worker message next) (arrive e w) tt a.valid;
          row = fail_row message next now a.row;
          found =
              subst
                (λ b.
                  find id (
                    update_where (holds_lease id worker) (fail_row message next now)
                      (arrive e w).tasks)
                  ≡ some (if b then fail_row message next now a.row else a.row))
                (holds_lease-true id worker n m a.row (find_sound id _ a.row a.found).0 a.held)
                (find-update_where id (holds_lease id worker) (fail_row message next now) _ a.row
                  (fail_row_identity message next now) a.found);
          as_said = fail_row_lem message next now a.row a.held.attempt_is;
          asked = h.asked;
        });
  }
