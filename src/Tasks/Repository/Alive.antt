-- ===== src/Tasks/Repository/Alive.antt =====
-- A worker that renews its lease in time keeps the task: the heartbeats of `startTaskHeartbeat` of
-- backend/internal/service/task_service.go, and `ReleaseStaleTasks`.
use snow_panel.Prelude.{
  ℕ, pos, ◌+◌, ◌*◌, ◌≤◌, ◌≡◌, ◌≢◌, refl, sym, ◌∙◌, Text, text_eq_refl, if◌then◌else◌, true, some,
  List, [], ◌∷◌, arith, subst,
}
use mathlib.Core.Option.{some-injective}
use snow_panel.Tasks.Model.{running, Task}
use snow_panel.Tasks.Retry.{task_heartbeat_interval, millisecond}
use snow_panel.Tasks.Retry.Backoff.{task_heartbeat_interval-third}
use snow_panel.Tasks.Repository.{
  Db, heartbeat_task, update_where, claimable, heartbeat_row, status_row, holds_lease, is_stale,
}
use snow_panel.Tasks.Repository.Actions.{
  Action, creates, claims, heartbeats, completes, fails, releases, updates, logs, act, act_all,
}
use snow_panel.Tasks.Repository.Lookup.{find, find_sound, find-update_where}
use snow_panel.Tasks.Repository.Invariant.{IsValid, IsIssued, act-IsValid}
use snow_panel.Tasks.Repository.Leases.{holder}
use snow_panel.Tasks.Repository.Change.{
  Change, kept, claimed, renewed, completed, gave_up, released, updated, act-Change,
}

-- A statement that is not one by which the worker `w` itself renews or ends the run of the task `id`;
-- the progress of a run may be written.
abbrev pub LeavesRun : ℕ → Text → Action → Type 0
LeavesRun id w (heartbeats i x lease) = i ≡ id → x ≢ w
LeavesRun id w (completes i x result) = i ≡ id → x ≢ w
LeavesRun id w (fails i x message next) = i ≡ id → x ≢ w
LeavesRun id w (updates i status progress message) = i ≡ id → status ≡ running
LeavesRun id w (creates t) = Unit
LeavesRun id w (claims x lease) = Unit
LeavesRun id w releases = Unit
LeavesRun id w (logs entry) = Unit

-- Statements with their times, in which the worker's heartbeats go on: none of the others comes later
-- than three intervals after the last heartbeat, which was at `last`.
pub data Beats (id : ℕ) (w : Text) (lease : ℕ) : ℕ → List (ℕ × Action) → Type 0 where
  ends : {last : ℕ} → Beats id w lease last []
  beat :
      {last now : ℕ} {rest : List (ℕ × Action)}
      → Beats id w lease now rest
      → Beats id w lease last ((now, heartbeats id w lease) ∷ rest)
  other :
      {last now : ℕ} {a : Action} {rest : List (ℕ × Action)}
      → now ≤ last + 3 * task_heartbeat_interval (pos lease)
      → IsIssued a
      → LeavesRun id w a
      → Beats id w lease last rest
      → Beats id w lease last ((now, a) ∷ rest)

-- The row of a task that the worker runs, with a lease that was renewed at `last`.
pub record IsHeld (w : Text) (lease last tries : ℕ) (t : Task) : Type 0 where
  pub status : t.status ≡ running
  pub locked_by : t.locked_by ≡ some w
  pub locked_until : t.locked_until ≡ some (last + lease)
  pub attempt : t.attempt ≡ tries

-- The condition of the worker's own statements.
own_holds :
    (id last lease attempt : ℕ) (w : Text) (t : Task)
    → t.id ≡ id
    → IsHeld w lease last attempt t
    → holds_lease id w t ≡ true
unfolding holds_lease
own_holds id last lease attempt w t e h =
    rw (e, h.locked_by, h.status) (ground (arith, text_eq_refl w))

-- A heartbeat of the worker.
beat-IsHeld :
    (id now last lease attempt : ℕ) (w : Text) (db : Db) (t : Task)
    → IsHeld w lease last attempt t
    → find id db.tasks ≡ some t
    → (u : Task) × (find id (act now (heartbeats id w lease) db).tasks ≡ some u)
      × IsHeld w lease now attempt u
unfolding act heartbeat_task
beat-IsHeld id now last lease attempt w db t h e = (
  heartbeat_row lease now t,
  subst
      (λ b.
        find id (update_where (holds_lease id w) (heartbeat_row lease now) db.tasks)
        ≡ some (if b then heartbeat_row lease now t else t))
      (own_holds id last lease attempt w t (find_sound id db.tasks t e).0 h)
      (find-update_where id (holds_lease id w) (heartbeat_row lease now) db.tasks t
        (unfold heartbeat_row in record { same_id = λ u. refl; same_key = λ u. refl }) e),
  unfold heartbeat_row in
      record {
        status = h.status;
        locked_by = h.locked_by;
        locked_until = refl;
        attempt = h.attempt;
      },
)

-- Only the worker itself meets the condition of the statements of a run.
own :
    (id last lease attempt : ℕ) (w : Text) (t : Task) (i : ℕ) (x : Text)
    → t.id ≡ id
    → IsHeld w lease last attempt t
    → (i ≡ id → x ≢ w)
    → holds_lease i x t ≡ true
    → ⊥
unfolding holds_lease
own id last lease attempt w t i x e h o p =
    let held : some x ≡ some w = sym (holder i x t p) ∙ h.locked_by in
    o (ground (arith, p, e)) (some-injective _ _ held)

-- A statement of others while the lease runs.
other-IsHeld :
    (id now last lease attempt : ℕ) (w : Text) (a : Action) (t u : Task)
    → now ≤ last + lease
    → LeavesRun id w a
    → t.id ≡ id
    → IsHeld w lease last attempt t
    → Change now t a u
    → IsHeld w lease last attempt u
unfolding claimable holds_lease is_stale status_row
other-IsHeld id now last lease attempt w a t u fresh o e h kept = h
other-IsHeld id now last lease attempt w a t u fresh o e h (claimed p) =
    absurd (ground (arith, rw h.status at p))
other-IsHeld id now last lease attempt w a t u fresh o e h (renewed {id = i} {worker = x} p) =
    absurd (own id last lease attempt w t i x e h o p)
other-IsHeld id now last lease attempt w a t u fresh o e h (completed {id = i} {worker = x} p) =
    absurd (own id last lease attempt w t i x e h o p)
other-IsHeld id now last lease attempt w a t u fresh o e h (gave_up {id = i} {worker = x} p) =
    absurd (own id last lease attempt w t i x e h o p)
other-IsHeld id now last lease attempt w a t u fresh o e h (released p) =
    absurd (ground (arith, rw (h.status, h.locked_until) at p, fresh))
other-IsHeld id now last lease attempt w a t u fresh o e h (updated p) = record {
  status = o (sym p ∙ e);
  locked_by = h.locked_by;
  locked_until = h.locked_until;
  attempt = h.attempt;
}

-- A task that a worker runs stays running under its lease, in the same attempt, as long as the worker's
-- heartbeats go on, whatever other statements the service issues. None of these comes later than three
-- intervals of heartbeats after the last one, so that two heartbeats in a row may be lost; none writes
-- another status than running for the task; and none but the heartbeats renews or ends its run in the
-- worker's name. The lease has at least 150 milliseconds.
pub heartbeats_keep_lease :
    (id last lease attempt : ℕ) (w : Text) (acts : List (ℕ × Action)) (db : Db) (t : Task)
    → IsValid db
    → 150 * millisecond ≤ lease
    → Beats id w lease last acts
    → find id db.tasks ≡ some t
    → IsHeld w lease last attempt t
    → (u : Task) × (find id (act_all acts db).tasks ≡ some u)
      × (u.status ≡ running)
      × (u.locked_by ≡ some w)
      × (u.attempt ≡ attempt)
unfolding act_all
heartbeats_keep_lease id last lease attempt w [] db t v long ends e h =
    (t, e, h.status, h.locked_by, h.attempt)
heartbeats_keep_lease id last lease attempt w ((now, a) ∷ rest) db t v long (beat b) e h =
    let (u, found, held) = beat-IsHeld id now last lease attempt w db t h e in
    heartbeats_keep_lease id now lease attempt w rest (act now (heartbeats id w lease) db) u
      (act-IsValid now (heartbeats id w lease) db tt v) long b found held
heartbeats_keep_lease id last lease attempt w ((now, a) ∷ rest) db t v long (other near i o b) e h =
    let (u, found, change) = act-Change id now a db t v.distinct e in
    let fresh : now ≤ last + lease =
      omega (arith, near, (task_heartbeat_interval-third lease long).1) in
    heartbeats_keep_lease id last lease attempt w rest (act now a db) u (act-IsValid now a db i v)
      long b found
      (other-IsHeld id now last lease attempt w a t u fresh o (find_sound id db.tasks t e).0 h
        change)
