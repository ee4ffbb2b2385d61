-- ===== src/Tasks/Outcome/Held.antt =====
-- A task that a worker holds, through the statements of backend/internal/service/task_service.go.
use snow_panel.Prelude.{
  ℕ, ℤ, ◌≤◌, ◌≡◌, refl, ◌∙◌, ap, Text, text, text_eq_refl, true, false, some, List, [], ◌∷◌, All,
  arith,
}
use snow_panel.Errors.{ok}
use snow_panel.Tasks.Model.{running, Task, Metadata}
use snow_panel.Tasks.Repository.{Db, status_row, append_log, heartbeat_row, holds_lease, claimable}
use snow_panel.Tasks.Repository.Actions.{
  Action, creates, claims, heartbeats, completes, fails, releases, updates, logs, act,
}
use snow_panel.Tasks.Repository.Invariant.{IsValid, IsIssued, act-IsValid}
use snow_panel.Tasks.Repository.Lookup.{find, get_by_id_lem}
use snow_panel.Tasks.Repository.Change.{
  Change, kept, claimed, renewed, completed, gave_up, released, updated, act-Change,
}
use snow_panel.Tasks.Repository.Stuck.{update_found}
use snow_panel.Tasks.World.{
  Env, World, ServiceCall, interfere, arrive, perform, repo_get, repo_log, repo_update_status,
}
use snow_panel.Program.Hoare.{Does, return-Does, bind-Does, bind_known}
use snow_panel.Tasks.Execute.{is_canceled, set_running_progress}

-- What others may do meanwhile: create and claim tasks, renew leases and write logs.
abbrev pub IsBenign : Action → Type 0
IsBenign (creates t) = Unit
IsBenign (claims worker lease) = Unit
IsBenign (heartbeats id worker lease) = Unit
IsBenign (logs entry) = Unit
IsBenign (completes id worker result) = ⊥
IsBenign (fails id worker message next) = ⊥
IsBenign releases = ⊥
IsBenign (updates id status progress message) = ⊥

pub record IsUndisturbed (e : Env) : Type 0 where
  pub up : (n : ℕ) → (e.turn n).fails ≡ false
  pub benign : (n : ℕ) → All (λ a. IsIssued a × IsBenign a) (e.turn n).others

-- The row is running under the lease of `worker`, as attempt `n` of `m`.
pub record IsHeld (worker : Text) (n : ℕ) (m : ℤ) (t : Task) : Type 0 where
  pub runs : t.status ≡ running
  pub held_by : t.locked_by ≡ some worker
  pub attempt_is : t.attempt ≡ n
  pub max_is : t.max_attempts ≡ m

Change-IsHeld :
    (worker : Text) (n now : ℕ) (m : ℤ) (a : Action) (t u : Task)
    → IsBenign a
    → IsHeld worker n m t
    → Change now t a u
    → IsHeld worker n m u
Change-IsHeld worker n now m a t u b h kept = h
Change-IsHeld worker n now m a t u b h (claimed c) = absurd (unfold claimable in ground arith)
Change-IsHeld worker n now m a t u b h (renewed c) =
    unfold heartbeat_row in
    record { runs = h.runs; held_by = h.held_by; attempt_is = h.attempt_is; max_is = h.max_is }
Change-IsHeld worker n now m a t u b h (completed c) = absurd b
Change-IsHeld worker n now m a t u b h (gave_up c) = absurd b
Change-IsHeld worker n now m a t u b h (released c) = absurd b
Change-IsHeld worker n now m a t u b h (updated c) = absurd b

-- The task `id` is such a row of well-formed tables.
pub record Holds (id : ℕ) (worker : Text) (n : ℕ) (m : ℤ) (db : Db) : Type 0 where
  pub valid : IsValid db
  pub row : Task
  pub found : find id db.tasks ≡ some row
  pub held : IsHeld worker n m row

act-Holds :
    (id now : ℕ) (worker : Text) (n : ℕ) (m : ℤ) (a : Action) (db : Db)
    → IsIssued a
    → IsBenign a
    → Holds id worker n m db
    → Holds id worker n m (act now a db)
act-Holds id now worker n m a db i b h =
    let (u, found, change) = act-Change id now a db h.row h.valid.distinct h.found in
    record {
      valid = act-IsValid now a db i h.valid;
      row = u;
      found = found;
      held = Change-IsHeld worker n now m a h.row u b h.held change;
    }

interfere-Holds :
    (id now : ℕ) (worker : Text) (n : ℕ) (m : ℤ) (acts : List Action) (db : Db)
    → All (λ a. IsIssued a × IsBenign a) acts
    → Holds id worker n m db
    → Holds id worker n m (interfere now acts db)
unfolding interfere
interfere-Holds id now worker n m [] db b h = h
interfere-Holds id now worker n m (a ∷ rest) db b h =
    interfere-Holds id now worker n m rest (act now a db) b.1
      (act-Holds id now worker n m a db b.0.0 b.0.1 h)

-- The task is held, and the services were asked `calls`.
pub record Working (id : ℕ) (worker : Text) (n : ℕ) (m : ℤ) (calls : List ServiceCall) (w : World)
    : Type 0 where
  pub holds : Holds id worker n m w.db
  pub asked : w.calls ≡ calls

pub holds_lease-true :
    (id : ℕ) (worker : Text) (n : ℕ) (m : ℤ) (t : Task)
    → t.id ≡ id
    → IsHeld worker n m t
    → holds_lease id worker t ≡ true
unfolding holds_lease
holds_lease-true id worker n m t i h =
    rw (h.runs, h.held_by, i) (ground (arith, text_eq_refl worker))

module _ (e : Env) (calm : IsUndisturbed e) (id : ℕ) (worker : Text) (n : ℕ) (m : ℤ)
    (calls : List ServiceCall) where
  abbrev AtWork : World → Type 0
  AtWork = Working id worker n m calls

  pub arrive-Holds : (w : World) → AtWork w → Holds id worker n m (arrive e w)
  unfolding arrive
  arrive-Holds w h =
      interfere-Holds id (e.turn w.steps).now worker n m (e.turn w.steps).others w.db
        (calm.benign w.steps) h.holds

  get-Working :
      Does AtWork
        (repo_get e id)
        (λ r w. (t : Task) × (r ≡ ok (some t)) × (t.status ≡ running) × AtWork w)
  unfolding repo_get perform
  get-Working = record {
    at = λ w h.
        let a = arrive-Holds w h in
        rw (calm.up w.steps) (
          a.row,
          ap ok (get_by_id_lem id (arrive e w) ∙ a.found),
          a.held.runs,
          record { holds = a; asked = h.asked },
        );
  }

  pub log-Working :
      (level message : Text) (metadata : Metadata)
      → Does AtWork (repo_log e id level message metadata) (λ _. AtWork)
  unfolding repo_log perform append_log
  log-Working level message metadata =
      bind-Does
        (record {
          at = λ w h.
              let a = arrive-Holds w h in
              rw (calm.up w.steps) (record {
                holds = record {
                  valid = record {
                    rows = a.valid.rows;
                    below = a.valid.below;
                    distinct = a.valid.distinct;
                  };
                  row = a.row;
                  found = a.found;
                  held = a.held;
                };
                asked = h.asked;
              });
        })
        (λ _. return-Does tt (λ w s. s))

  update-Working :
      (progress : ℕ) (message : Text)
      → progress ≤ 100
      → Does AtWork
          (repo_update_status e id running progress message)
          (λ r w. (r ≡ ok tt) × AtWork w)
  unfolding repo_update_status perform
  update-Working progress message p = record {
    at = λ w h.
        let a = arrive-Holds w h in
        let now : ℕ = (e.turn w.steps).now in
        rw (calm.up w.steps) (
          refl,
          record {
            holds = record {
              valid =
                  unfold act in
                  act-IsValid now (updates id running progress message) (arrive e w) ((λ q. cc), p)
                    a.valid;
              row = status_row running progress message now a.row;
              found = update_found id now progress running message (arrive e w) a.row a.found;
              held =
                  unfold status_row in
                  record {
                    runs = refl;
                    held_by = a.held.held_by;
                    attempt_is = a.held.attempt_is;
                    max_is = a.held.max_is;
                  };
            };
            asked = h.asked;
          },
        );
  }

  pub is_canceled-Working : Does AtWork (is_canceled e id) (λ c w. (c ≡ false) × AtWork w)
  unfolding is_canceled
  is_canceled-Working = bind-Does get-Working λ r. return-Does _ λ w (t, q, s, h). (rw (q, s), h)

  pub progress-Working :
      (progress : ℕ)
      → progress ≤ 100
      → Does AtWork (set_running_progress e id progress) (λ b w. (b ≡ true) × AtWork w)
  unfolding set_running_progress
  progress-Working progress p = bind_known _ false is_canceled-Working (
      bind_known _ (ok tt) (update-Working progress (text "") p) (return-Does _ (λ w h. (refl, h))))
