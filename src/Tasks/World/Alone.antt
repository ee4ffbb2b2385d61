-- ===== src/Tasks/World/Alone.antt =====
-- The statements of a process when no other process writes and none fails.
use snow_panel.Prelude.{ℕ, suc, ◌≡◌, false, List, [], Text}
use snow_panel.Errors.{ok}
use snow_panel.Tasks.Model.{Status, Task, Metadata}
use snow_panel.Tasks.Repository.{
  Db, create, get_by_id, get_by_idempotency_key, update_status, append_log,
}
use snow_panel.Tasks.World.{
  Env, World, ◌>>=◌, return, arrive, interfere, perform, repo_get, repo_get_by_key, repo_create,
  repo_update_status, repo_log, spawn, Spawned,
}
use snow_panel.Program.Hoare.{Does}

-- No statement fails, and no other process writes.
pub record IsAlone (e : Env) : Type 0 where
  pub up : (n : ℕ) → (e.turn n).fails ≡ false
  pub alone : (n : ℕ) → (e.turn n).others ≡ []

module _ (e : Env) (a : IsAlone e) (w : World) where
  abbrev pub next : Db → World
  next db = record w { db = db; steps = suc w.steps }

  pub arrive_alone : arrive e w ≡ w.db
  unfolding arrive interfere
  arrive_alone = rw (a.alone w.steps)

  pub get_alone : (id : ℕ) → repo_get e id w ≡ (ok (get_by_id id w.db), next w.db)
  unfolding repo_get perform
  get_alone id = rw (a.up w.steps, arrive_alone)

  pub get_by_key_alone :
      (key : Text) → repo_get_by_key e key w ≡ (ok (get_by_idempotency_key key w.db), next w.db)
  unfolding repo_get_by_key perform
  get_by_key_alone key = rw (a.up w.steps, arrive_alone)

  pub create_alone :
      (t : Task)
      → repo_create e t w
        ≡ ((create t (e.turn w.steps).now w.db).0, next (create t (e.turn w.steps).now w.db).1)
  unfolding repo_create perform
  create_alone t = rw (a.up w.steps, arrive_alone)

  pub update_alone :
      (id progress : ℕ) (status : Status) (message : Text)
      → repo_update_status e id status progress message w
        ≡ (ok tt, next (update_status id status progress message (e.turn w.steps).now w.db))
  unfolding repo_update_status perform
  update_alone id progress status message = rw (a.up w.steps, arrive_alone)

  pub log_alone :
      (id : ℕ) (level message : Text) (metadata : Metadata)
      → repo_log e id level message metadata w ≡ (
        tt,
        next (
            append_log
              (record { task_id = id; level = level; message = message; metadata = metadata })
              (e.turn w.steps).now
              w.db),
      )
  unfolding repo_log perform ◌>>=◌ return
  log_alone id level message metadata = rw (a.up w.steps, arrive_alone)

-- A log and a started goroutine leave the table of tasks alone.
module _ (e : Env) (a : IsAlone e) (ts : List Task) where
  pub log_tasks :
      (id : ℕ) (level message : Text) (metadata : Metadata)
      → Does (λ w. w.db.tasks ≡ ts) (repo_log e id level message metadata) (λ _ w. w.db.tasks ≡ ts)
  unfolding append_log
  log_tasks id level message metadata = record {
    at = λ w h. rw (log_alone e a w id level message metadata) h;
  }

pub spawn_tasks :
    (ts : List Task) (g : Spawned) → Does (λ w. w.db.tasks ≡ ts) (spawn g) (λ _ w. w.db.tasks ≡ ts)
unfolding spawn
spawn_tasks ts g = record { at = λ w h. h }
