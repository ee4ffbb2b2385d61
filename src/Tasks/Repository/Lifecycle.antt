-- ===== src/Tasks/Repository/Lifecycle.antt =====
-- The life of a task under any sequence of statements: which statuses follow which, what attempts
-- count, and which tasks no statement of a worker can move any more.
use snow_panel.Prelude.{ℕ, ◌+◌, ◌≡◌, refl, Text, true, Option, none, some, arith}
use snow_panel.Tasks.Model.{Status, pending, running, success, failed, Task}
use snow_panel.Tasks.Repository.{
  Db, claimable, claim_row, heartbeat_row, complete_row, fail_row, release_row, holds_lease,
  is_stale,
}
use snow_panel.Tasks.Repository.Actions.{
  Action, creates, claims, heartbeats, completes, fails, releases, updates, logs, act,
}
use snow_panel.Tasks.Repository.Lookup.{find, find_sound}
use snow_panel.Tasks.Repository.Invariant.{IsValid}
use snow_panel.Tasks.Repository.Change.{
  Change, kept, claimed, renewed, completed, gave_up, released, updated, act-Change,
}

-- The statuses that a statement other than `UpdateStatus` may put in the place of another.
pub data Edge : Status → Status → Type 0 where
  stay : {s : Status} → Edge s s
  start : Edge pending running
  finish : Edge running success
  give_up : Edge running failed
  put_back : Edge running pending

abbrev pub IsUpdate : ℕ → Action → Type 0
IsUpdate i (updates id status progress message) = i ≡ id
IsUpdate i (creates t) = ⊥
IsUpdate i (claims worker lease) = ⊥
IsUpdate i (heartbeats id worker lease) = ⊥
IsUpdate i (completes id worker result) = ⊥
IsUpdate i (fails id worker message next) = ⊥
IsUpdate i releases = ⊥
IsUpdate i (logs entry) = ⊥

-- One step of a task: the status follows an edge, the attempts grow by one if the task starts, and
-- stay as they are if it does not.
pub record Follows (t u : Task) : Type 0 where
  pub edge : Edge t.status u.status
  pub started : t.status ≡ pending → u.status ≡ running → u.attempt ≡ t.attempt + 1
  pub not_started : (t.status ≡ pending → u.status ≡ running → ⊥) → u.attempt ≡ t.attempt

-- The status cannot be both pending and running.
one_status : {s : Status} {T : Type 0} → s ≡ pending → s ≡ running → T
one_status p r = absurd (cc)

-- A statement that keeps the attempts, and does not start the task.
unmoved :
    {t u : Task}
    → Edge t.status u.status
    → (t.status ≡ pending → u.status ≡ running → ⊥)
    → u.attempt ≡ t.attempt
    → Follows t u
unmoved edge n same = record {
  edge = edge;
  started = λ p r. absurd (n p r);
  not_started = λ m. same;
}

status_holds :
    (id : ℕ) (worker : Text) (t : Task) → holds_lease id worker t ≡ true → t.status ≡ running
unfolding holds_lease
status_holds id worker t h = ground arith

Edge-subst : {s s' t : Status} → s ≡ s' → Edge s' t → Edge s t
Edge-subst e x = rw e x

fail_row-Follows :
    (message : Text) (next : Option ℕ) (now : ℕ) (t : Task)
    → t.status ≡ running
    → Follows t (fail_row message next now t)
unfolding fail_row
fail_row-Follows message none now t h = unmoved (Edge-subst h give_up) (λ p r. one_status p h) refl
fail_row-Follows message (some at) now t h =
    unmoved (Edge-subst h put_back) (λ p r. one_status p h) refl

Change-Follows :
    (now : ℕ) (t u : Task) (a : Action) → (IsUpdate t.id a → ⊥) → Change now t a u → Follows t u
Change-Follows now t u a n kept = unmoved stay one_status refl
Change-Follows now t u a n (claimed c) =
    unfold claimable claim_row in
    let p : t.status ≡ pending = ground arith in
    record {
      edge = Edge-subst p start;
      started = λ p r. refl;
      not_started = λ m. absurd (m p refl);
    }
Change-Follows now t u a n (renewed h) = unfold heartbeat_row in unmoved stay one_status refl
Change-Follows now t u a n (completed {id} {worker} h) =
    let r = status_holds id worker t h in
    unfold complete_row in unmoved (Edge-subst r finish) (λ p q. one_status p r) refl
Change-Follows now t u a n (gave_up {id} {worker} {message} {next} h) =
    fail_row-Follows message next now t (status_holds id worker t h)
Change-Follows now t u a n (released c) =
    unfold is_stale release_row in
    let r : t.status ≡ running = ground arith in
    unmoved (Edge-subst r put_back) (λ p q. one_status p r) refl
Change-Follows now t u a n (updated e) = absurd (n e)

-- In well-formed tables, a statement other than `UpdateStatus` on the task moves it along an edge
-- of the status diagram. Its attempts grow by one if it goes from pending to running, and stay as
-- they are if it does not.
pub act-Follows :
    (id now : ℕ) (a : Action) (db : Db) (t : Task)
    → IsValid db
    → (IsUpdate id a → ⊥)
    → find id db.tasks ≡ some t
    → (u : Task) × (find id (act now a db).tasks ≡ some u) × Follows t u
act-Follows id now a db t v n e =
    let (u, found, change) = act-Change id now a db t v.distinct e in
    (u, found, Change-Follows now t u a (rw (find_sound id db.tasks t e).0 n) change)
