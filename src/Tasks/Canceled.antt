-- ===== src/Tasks/Canceled.antt =====
-- What becomes of a canceled task: the methods of backend/internal/service/task_service.go that
-- run tasks, and a cancellation that comes at the wrong time.
use snow_panel.Prelude.{
  ℕ, suc, ◌≡◌, ◌≢◌, refl, ◌∙◌, ap, Text, text, true, false, some, List, [], ◌∷◌, All,
}
use snow_panel.Errors.{GoError, non_retryable, Result, ok, err}
use snow_panel.Tasks.Model.{Status, running, canceled, status_eq, Task, Payload, Metadata, str}
use snow_panel.Tasks.Repository.{Db, update_status, status_row, append_log, get_by_id}
use snow_panel.Tasks.Repository.Actions.{Action, updates, act}
use snow_panel.Tasks.Repository.Invariant.{IsValid, IsIssued, act-IsValid}
use snow_panel.Tasks.Repository.Lifecycle.{IsUpdate}
use snow_panel.Tasks.Repository.Lookup.{find, get_by_id_lem}
use snow_panel.Tasks.Repository.Stuck.{IsInert, act-IsInert, terminal-IsInert, update_found}
use snow_panel.Tasks.World.{
  Env, World, ServiceCall, ◌>>=◌, return, interfere, arrive, perform, repo_get, repo_log,
  repo_update_status,
}
use snow_panel.Program.Hoare.{Does, return-Does, bind-Does, bind_known}
use snow_panel.Tasks.Payload.{unmarshal_task_payload}
use snow_panel.Tasks.Execute.{is_canceled, set_running_progress}
use snow_panel.Tasks.Run.{run_task}
use snow_panel.Tasks.Worker.{fail_claimed_task, run_payload, run_claimed_task}

-- No statement fails, and no other process writes the status of the task `id`.
pub record IsCalm (e : Env) (id : ℕ) : Type 0 where
  pub up : (n : ℕ) → (e.turn n).fails ≡ false
  pub others_off : (n : ℕ) → All (λ a. IsIssued a × (IsUpdate id a → ⊥)) (e.turn n).others

-- The task `id` is the row `t` of well-formed tables, and the services were asked `calls`.
pub record Stands (id : ℕ) (t : Task) (calls : List ServiceCall) (w : World) : Type 0 where
  pub valid : IsValid w.db
  pub found : find id w.db.tasks ≡ some t
  pub asked : w.calls ≡ calls

interfere_stands :
    (id now : ℕ) (acts : List Action) (db : Db) (t : Task)
    → All (λ a. IsIssued a × (IsUpdate id a → ⊥)) acts
    → IsInert t
    → IsValid db
    → find id db.tasks ≡ some t
    → IsValid (interfere now acts db) × (find id (interfere now acts db).tasks ≡ some t)
unfolding interfere
interfere_stands id now [] db t o i v e = (v, e)
interfere_stands id now (a ∷ rest) db t o i v e =
    interfere_stands id now rest (act now a db) t o.1 i (act-IsValid now a db o.0.0 v)
      (act-IsInert id now a db t v o.0.1 i e)

module _ (e : Env) (id : ℕ) (calm : IsCalm e id) (t : Task) (c : t.status ≡ canceled)
    (calls : List ServiceCall) where
  abbrev Standing : World → Type 0
  Standing = Stands id t calls

  arrive-Stands :
      (w : World) → Standing w → IsValid (arrive e w) × (find id (arrive e w).tasks ≡ some t)
  unfolding arrive
  arrive-Stands w s =
      interfere_stands id (e.turn w.steps).now (e.turn w.steps).others w.db t
        (calm.others_off w.steps) (terminal-IsInert canceled t c tt) s.valid s.found

  get-Stands : Does Standing (repo_get e id) (λ r w. (r ≡ ok (some t)) × Standing w)
  unfolding repo_get perform
  get-Stands = record {
    at = λ w s.
        let (v, f) = arrive-Stands w s in
        rw (calm.up w.steps) (
          ap ok (get_by_id_lem id (arrive e w) ∙ f),
          record { valid = v; found = f; asked = s.asked },
        );
  }

  log-Stands :
      (level message : Text) (metadata : Metadata)
      → Does Standing (repo_log e id level message metadata) (λ _. Standing)
  unfolding repo_log perform append_log
  log-Stands level message metadata =
      bind-Does
        (record {
          at = λ w s.
              let (v, f) = arrive-Stands w s in
              rw (calm.up w.steps) (record {
                valid = record { rows = v.rows; below = v.below; distinct = v.distinct };
                found = f;
                asked = s.asked;
              });
        })
        (λ _. return-Does tt (λ w s. s))

  is_canceled-Stands : Does Standing (is_canceled e id) (λ b w. (b ≡ true) × Standing w)
  unfolding is_canceled
  is_canceled-Stands = bind_known _ (ok (some t)) get-Stands (return-Does _ (λ w s. (rw c refl, s)))

  run_payload-Stands :
      (claimed : Task) (worker : Text) (p : Payload)
      → claimed.id ≡ id
      → Does Standing (run_payload e claimed worker p) (λ _. Standing)
  unfolding run_payload
  run_payload-Stands claimed worker p h =
      rw h
        (bind-Does (log-Stands _ _ _) λ _. bind_known _ true is_canceled-Stands (log-Stands _ _ _))

  fail-Stands :
      (claimed : Task) (worker : Text) (x : GoError) (metadata : Metadata)
      → claimed.id ≡ id
      → Does Standing (fail_claimed_task e claimed worker x metadata) (λ _. Standing)
  unfolding fail_claimed_task
  fail-Stands claimed worker x metadata h =
      rw h (bind_known _ true is_canceled-Stands (log-Stands _ _ _))

  run_claimed-Stands :
      (claimed : Task) (worker : Text)
      → claimed.id ≡ id
      → Does Standing (run_claimed_task e worker claimed) (λ _. Standing)
  unfolding run_claimed_task
  run_claimed-Stands claimed worker h = go (unmarshal_task_payload e.decode claimed.payload)
    where
      go :
          (r : Result Payload)
          → Does Standing
              (elim r [
                | err x ↦
                    fail_claimed_task e claimed worker
                      (non_retryable x)
                      ((text "payload", str claimed.payload) ∷ [])
                | ok p ↦ run_payload e claimed worker p
              ])
              (λ _. Standing)
      go (err x) = fail-Stands claimed worker _ _ h
      go (ok p) = run_payload-Stands claimed worker p h

  run_task-Stands : (p : Payload) → Does Standing (run_task e id p) (λ _. Standing)
  unfolding run_task
  run_task-Stands p = bind_known _ true is_canceled-Stands (log-Stands _ _ _)

-- If a task is canceled before a worker that has claimed it, or the goroutine of the task, looks at
-- it, no statement fails and no other process writes its status, then no service is asked to do
-- anything and the task stays as it is, in every column.
pub canceled_not_run :
    (e : Env) (id : ℕ) (t claimed : Task) (worker : Text) (p : Payload) (w : World)
    → IsCalm e id
    → t.status ≡ canceled
    → claimed.id ≡ id
    → IsValid w.db
    → find id w.db.tasks ≡ some t
    → let w' = (run_claimed_task e worker claimed w).1 in
      let w'' = (run_task e id p w).1 in
      (w'.calls ≡ w.calls)
      × (find id w'.db.tasks ≡ some t)
      × (w''.calls ≡ w.calls)
      × (find id w''.db.tasks ≡ some t)
canceled_not_run e id t claimed worker p w calm c h v f =
    let before : Stands id t w.calls w = record { valid = v; found = f; asked = refl } in
    let a = (run_claimed-Stands e id calm t c w.calls claimed worker h).at w before in
    let b = (run_task-Stands e id calm t c w.calls p).at w before in
    (a.asked, a.found, b.asked, b.found)

module _ (e : Env) (w : World) (up : (e.turn w.steps).fails ≡ false) where
  -- Two statements in a turn in which they do not fail.
  get_up :
      (id : ℕ)
      → repo_get e id w
        ≡ (ok (get_by_id id (arrive e w)), record w { db = arrive e w; steps = suc w.steps })
  unfolding repo_get perform
  get_up id = rw up

  update_up :
      (id progress : ℕ) (status : Status) (message : Text)
      → repo_update_status e id status progress message w ≡ (
        ok tt,
        record w {
          db = update_status id status progress message (e.turn w.steps).now (arrive e w);
          steps = suc w.steps;
        },
      )
  unfolding repo_update_status perform
  update_up id progress status message = rw up

  arrive_quiet : (e.turn w.steps).others ≡ [] → arrive e w ≡ w.db
  unfolding arrive interfere
  arrive_quiet quiet = rw quiet

  arrive_one :
      (a : Action) → (e.turn w.steps).others ≡ a ∷ [] → arrive e w ≡ act (e.turn w.steps).now a w.db
  unfolding arrive interfere
  arrive_one a late = rw late

not_canceled : (t : Task) → t.status ≢ canceled → status_eq t.status canceled ≡ false
not_canceled t n = go t.status n
  where
    go : (s : Status) → s ≢ canceled → status_eq s canceled ≡ false
    go canceled h = absurd (h refl)
    go _ h = refl

-- A cancellation that is written between the two statements of `setRunningProgress` is lost: the
-- method says that the task goes on, and the task is running.
pub set_running_progress_loses_cancel :
    (e : Env) (id progress shown : ℕ) (message : Text) (w : World) (t : Task)
    → find id w.db.tasks ≡ some t
    → t.status ≢ canceled
    → (e.turn w.steps).fails ≡ false
    → (e.turn w.steps).others ≡ []
    → (e.turn (suc w.steps)).fails ≡ false
    → (e.turn (suc w.steps)).others ≡ updates id canceled shown message ∷ []
    → ((set_running_progress e id progress w).0 ≡ true)
      × ((u : Task) × (find id (set_running_progress e id progress w).1.db.tasks ≡ some u)
          × (u.status ≡ running))
unfolding set_running_progress ◌>>=◌ return
set_running_progress_loses_cancel e id progress shown message w t f n up quiet up' late =
    let w' : World = record w { steps = suc w.steps } in
    let now : ℕ = (e.turn (suc w.steps)).now in
    let u : Task = status_row canceled shown message now t in
    rw
      (
        get_up e w up id,
        arrive_quiet e w up quiet,
        get_by_id_lem id w.db,
        f,
        not_canceled t n,
        update_up e w' up' id progress running (text ""),
        arrive_one e w' up' (updates id canceled shown message) late,
      )
      (
        refl,
        (
          status_row running progress (text "") now u,
          update_found id now progress running (text "") _ u
              (unfold act in update_found id now shown canceled message w.db t f),
          unfold status_row in refl,
        ),
      )
