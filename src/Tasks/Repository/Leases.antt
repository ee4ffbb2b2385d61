-- ===== src/Tasks/Repository/Leases.antt =====
-- Leases: who may claim a task, and that only the worker that holds it can change it.
use snow_panel.Prelude.{
  ℕ, ◌≤◌, ◌+◌, ◌≡◌, ◌≢◌, refl, Text, text_eq_sound, true, Option, none, some, List, All, arith, ◌⊎◌,
  subst,
}
use mathlib.Core.List.{Memᴰ}
use snow_panel.Tasks.Model.{Task, running}
use snow_panel.Tasks.Repository.{Db, holds_lease}
use snow_panel.Tasks.Repository.Actions.{
  Action, creates, claims, heartbeats, completes, fails, releases, updates, logs, act,
}
use snow_panel.Tasks.Repository.Lookup.{find}
use snow_panel.Tasks.Repository.Due.{MayStart}
use snow_panel.Tasks.Repository.Invariant.{IsValid}
use snow_panel.Tasks.Repository.Change.{
  Change, kept, claimed, renewed, completed, gave_up, released, updated, act-Change,
}

-- A statement by which a worker keeps, completes or fails what it has claimed.
abbrev pub IsCallOf : Text → Action → Type 0
IsCallOf w (heartbeats id worker lease) = worker ≡ w
IsCallOf w (completes id worker result) = worker ≡ w
IsCallOf w (fails id worker message next) = worker ≡ w
IsCallOf w (creates t) = ⊥
IsCallOf w (claims worker lease) = ⊥
IsCallOf w releases = ⊥
IsCallOf w (updates id status progress message) = ⊥
IsCallOf w (logs entry) = ⊥

pub holder :
    (id : ℕ) (worker : Text) (t : Task) → holds_lease id worker t ≡ true → t.locked_by ≡ some worker
unfolding holds_lease
holder id worker t h = held t.locked_by refl
  where
    held : (o : Option Text) → t.locked_by ≡ o → t.locked_by ≡ some worker
    held none e = ground arith
    held (some w) e = ground (arith, text_eq_sound w worker)

Change-foreign :
    (now : ℕ) (a : Action) (t u : Task) (w : Text)
    → IsCallOf w a
    → t.locked_by ≢ some w
    → Change now t a u
    → u ≡ t
Change-foreign now a t u w c n kept = refl
Change-foreign now a t u w c n (claimed p) = absurd c
Change-foreign now a t u w c n (renewed {id} {worker} h) =
    absurd (n (rw (← c) (holder id worker t h)))
Change-foreign now a t u w c n (completed {id} {worker} h) =
    absurd (n (rw (← c) (holder id worker t h)))
Change-foreign now a t u w c n (gave_up {id} {worker} h) =
    absurd (n (rw (← c) (holder id worker t h)))
Change-foreign now a t u w c n (released p) = absurd c
Change-foreign now a t u w c n (updated p) = absurd c

-- No heartbeat, completion or failure of a worker changes a task whose lease it does not hold.
pub lease_exclusive :
    (id now : ℕ) (a : Action) (w : Text) (db : Db) (t : Task)
    → IsValid db
    → IsCallOf w a
    → find id db.tasks ≡ some t
    → t.locked_by ≢ some w
    → find id (act now a db).tasks ≡ some t
lease_exclusive id now a w db t v c e n =
    let (u, found, change) = act-Change id now a db t v.distinct e in
    subst (λ x. find id (act now a db).tasks ≡ some x) (Change-foreign now a t u w c n change) found

-- The row `u` of the task `w` once it has started under the lease of `worker`.
pub record IsStarted (worker : Text) (lease now : ℕ) (w u : Task) : Type 0 where
  pub status : u.status ≡ running
  pub locked_by : u.locked_by ≡ some worker
  pub locked_until : u.locked_until ≡ some (now + lease)
  pub attempt : u.attempt ≡ w.attempt + 1
  pub first_start : w.started_at ≡ none → u.started_at ≡ some now
  pub later_start : (at : ℕ) → w.started_at ≡ some at → u.started_at ≡ some at
  pub id : u.id ≡ w.id
  pub type : u.type ≡ w.type
  pub payload : u.payload ≡ w.payload
  pub progress : u.progress ≡ w.progress
  pub max_attempts : u.max_attempts ≡ w.max_attempts
  pub created_at : u.created_at ≡ w.created_at

-- What a claim gives: nothing, with the tables unchanged, exactly when no task may be claimed;
-- else the oldest of those that may, which alone is changed, to be run by the worker.
abbrev pub ClaimSpec : Text → ℕ → ℕ → Db → Option Task × Db → Type 0
ClaimSpec worker lease now db r =
    ((r ≡ (none, db)) × All (λ t. MayStart now t → ⊥) db.tasks)
    ⊎ ((w : Task) × MayStart now w
        × Memᴰ w db.tasks
        × All (λ t. MayStart now t → w.created_at ≤ t.created_at) db.tasks
        × ((u : Task) × IsStarted worker lease now w u
            × (r.0 ≡ some u)
            × (find w.id r.1.tasks ≡ some u))
        × ((id : ℕ) (t : Task)
            → id ≢ w.id
            → find id db.tasks ≡ some t
            → find id r.1.tasks ≡ some t))
