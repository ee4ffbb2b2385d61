-- ===== src/Tasks/Repository/Stuck.antt =====
-- Tasks that no worker's statement can move: the finished ones, as intended, and two kinds of
-- unfinished ones.
use snow_panel.Prelude.{
  ℕ, ◌≤◌, ◌≡◌, refl, Text, pos_part, true, false, none, some, List, [], ◌∷◌, All, arith, subst,
  if◌then◌else◌, ==_iff,
}
use snow_panel.Tasks.Model.{Status, pending, running, success, failed, canceled, Task}
use snow_panel.Tasks.Repository.{
  Db, claimable, release_row, status_row, holds_lease, is_stale, has_id, release_stale_tasks,
  update_status, update_where,
}
use snow_panel.Tasks.Repository.Actions.{Action, releases, updates, act, act_all}
use snow_panel.Tasks.Repository.Lookup.{find, find_sound, find-update_where}
use snow_panel.Tasks.Repository.Rows.{IsRow}
use snow_panel.Tasks.Repository.Updates.{All-Mem}
use snow_panel.Tasks.Repository.Invariant.{IsValid, IsIssued, act-IsValid}
use snow_panel.Tasks.Repository.Change.{
  Change, kept, claimed, renewed, completed, gave_up, released, updated, act-Change,
}
use snow_panel.Tasks.Repository.Lifecycle.{IsUpdate}

-- No condition of a worker's statement holds of the row, at any time.
pub record IsInert (t : Task) : Type 0 where
  pub unclaimable : (now : ℕ) → claimable now t ≡ false
  pub unleased : (id : ℕ) (worker : Text) → holds_lease id worker t ≡ false
  pub not_stale : (now : ℕ) → is_stale now t ≡ false

Change-IsInert :
    (now : ℕ) (t u : Task) (a : Action)
    → IsInert t
    → (IsUpdate t.id a → ⊥)
    → Change now t a u
    → u ≡ t
Change-IsInert now t u a i n kept = refl
Change-IsInert now t u a i n (claimed c) = cc (i.unclaimable now)
Change-IsInert now t u a i n (renewed {id} {worker} h) = cc (i.unleased id worker)
Change-IsInert now t u a i n (completed {id} {worker} h) = cc (i.unleased id worker)
Change-IsInert now t u a i n (gave_up {id} {worker} h) = cc (i.unleased id worker)
Change-IsInert now t u a i n (released c) = cc (i.not_stale now)
Change-IsInert now t u a i n (updated e) = absurd (n e)

-- Statements that the service issues, none of them `UpdateStatus` on the task `id`.
abbrev pub Others : ℕ → List (ℕ × Action) → Type 0
Others id acts = All (λ p. IsIssued p.1 × (IsUpdate id p.1 → ⊥)) acts

pub act-IsInert :
    (id now : ℕ) (a : Action) (db : Db) (t : Task)
    → IsValid db
    → (IsUpdate id a → ⊥)
    → IsInert t
    → find id db.tasks ≡ some t
    → find id (act now a db).tasks ≡ some t
act-IsInert id now a db t v n i e =
    let (u, found, change) = act-Change id now a db t v.distinct e in
    let same : u ≡ t = Change-IsInert now t u a i (rw (find_sound id db.tasks t e).0 n) change in
    subst (λ x. find id (act now a db).tasks ≡ some x) same found

pub act_all-IsInert :
    (id : ℕ) (acts : List (ℕ × Action)) (db : Db) (t : Task)
    → IsValid db
    → Others id acts
    → IsInert t
    → find id db.tasks ≡ some t
    → find id (act_all acts db).tasks ≡ some t
unfolding act_all
act_all-IsInert id [] db t v o i e = e
act_all-IsInert id ((now, a) ∷ rest) db t v o i e =
    act_all-IsInert id rest (act now a db) t (act-IsValid now a db o.0.0 v) o.1 i
      (act-IsInert id now a db t v o.0.1 i e)

abbrev pub IsTerminal : Status → Type 0
IsTerminal pending = ⊥
IsTerminal running = ⊥
IsTerminal success = Unit
IsTerminal failed = Unit
IsTerminal canceled = Unit

pub terminal-IsInert : (s : Status) (t : Task) → t.status ≡ s → IsTerminal s → IsInert t
unfolding claimable holds_lease is_stale
terminal-IsInert pending t e h = absurd h
terminal-IsInert running t e h = absurd h
terminal-IsInert success t e h = record {
  unclaimable = λ now. ground arith;
  unleased = λ id worker. ground arith;
  not_stale = λ now. ground arith;
}
terminal-IsInert failed t e h = record {
  unclaimable = λ now. ground arith;
  unleased = λ id worker. ground arith;
  not_stale = λ now. ground arith;
}
terminal-IsInert canceled t e h = record {
  unclaimable = λ now. ground arith;
  unleased = λ id worker. ground arith;
  not_stale = λ now. ground arith;
}

-- A task that has succeeded, failed or been canceled is left as it is, in every column, by any
-- statements that the service issues but `UpdateStatus` on that task.
pub terminal_kept :
    (id : ℕ) (acts : List (ℕ × Action)) (db : Db) (t : Task)
    → IsValid db
    → Others id acts
    → IsTerminal t.status
    → find id db.tasks ≡ some t
    → find id (act_all acts db).tasks ≡ some t
terminal_kept id acts db t v o h e =
    act_all-IsInert id acts db t v o (terminal-IsInert t.status t refl h) e

exhausted-IsInert :
    (t : Task) → t.status ≡ pending → pos_part t.max_attempts ≤ t.attempt → IsInert t
unfolding claimable holds_lease is_stale
exhausted-IsInert t p h = record {
  unclaimable = λ now. ground arith;
  unleased = λ id worker. ground arith;
  not_stale = λ now. ground arith;
}

release_found :
    (id now : ℕ) (db : Db) (t : Task)
    → find id db.tasks ≡ some t
    → is_stale now t ≡ true
    → find id (release_stale_tasks now db).1.tasks ≡ some (release_row now t)
unfolding release_stale_tasks
release_found id now db t e s =
    subst
      (λ b.
        find id (update_where (is_stale now) (release_row now) db.tasks)
        ≡ some (if b then release_row now t else t))
      s
      (find-update_where id (is_stale now) (release_row now) db.tasks t
        (unfold release_row in record { same_id = λ u. refl; same_key = λ u. refl }) e)

-- A task whose lease runs out during its last attempt is put back as pending by
-- `ReleaseStaleTasks`, and stays pending, with no worker claiming it, under any further statements
-- but `UpdateStatus` on it.
pub release_strands_last_attempt :
    (id now : ℕ) (acts : List (ℕ × Action)) (db : Db) (t : Task)
    → IsValid db
    → find id db.tasks ≡ some t
    → is_stale now t ≡ true
    → pos_part t.max_attempts ≤ t.attempt
    → Others id acts
    → (find id (act_all acts (release_stale_tasks now db).1).tasks ≡ some (release_row now t))
      × ((release_row now t).status ≡ pending)
release_strands_last_attempt id now acts db t v e s last o = (
  act_all-IsInert id acts (release_stale_tasks now db).1 (release_row now t)
      (unfold act in act-IsValid now releases db tt v) o
      (unfold release_row in exhausted-IsInert (release_row now t) refl last)
      (release_found id now db t e s),
  unfold release_row in refl,
)

orphaned-IsInert :
    (t : Task) → t.status ≡ running → t.locked_by ≡ none → t.locked_until ≡ none → IsInert t
unfolding claimable holds_lease is_stale
orphaned-IsInert t r b u = record {
  unclaimable = λ now. ground arith;
  unleased = λ id worker. ground arith;
  not_stale = λ now. ground arith;
}

pub update_found :
    (id now progress : ℕ) (status : Status) (message : Text) (db : Db) (t : Task)
    → find id db.tasks ≡ some t
    → find id (update_status id status progress message now db).tasks
      ≡ some (status_row status progress message now t)
unfolding update_status
update_found id now progress status message db t e =
    subst
      (λ b.
        find id (update_where (has_id id) (status_row status progress message now) db.tasks)
        ≡ some (if b then status_row status progress message now t else t))
      ((==_iff t.id id).1 (find_sound id db.tasks t e).0)
      (find-update_where id (has_id id) (status_row status progress message now) db.tasks t
        (unfold status_row in record { same_id = λ u. refl; same_key = λ u. refl }) e)

orphan_row :
    (now progress : ℕ) (message : Text) (t : Task)
    → t.status ≡ pending
    → IsRow t
    → IsInert (status_row running progress message now t)
orphan_row now progress message t w r =
    unfold status_row in
    orphaned-IsInert (status_row running progress message now t) refl (r.unlocked w)
      (ground (arith, r.unlocked w, r.paired))

-- When `UpdateStatus` writes progress on a task that is pending, as a worker does that has lost its
-- lease, the task is running with the columns of its lease as they were, which are NULL in
-- well-formed tables, and stays so for good under any further statements but `UpdateStatus` on it.
pub late_progress_strands_task :
    (id now progress : ℕ) (message : Text) (acts : List (ℕ × Action)) (db : Db) (t : Task)
    → IsValid db
    → progress ≤ 100
    → find id db.tasks ≡ some t
    → t.status ≡ pending
    → Others id acts
    → find id (act_all acts (update_status id running progress message now db)).tasks
      ≡ some (status_row running progress message now t)
late_progress_strands_task id now progress message acts db t v p e w o =
    act_all-IsInert id acts (update_status id running progress message now db)
      (status_row running progress message now t)
      (unfold act in act-IsValid now (updates id running progress message) db ((λ q. cc), p) v) o
      (orphan_row now progress message t w
        (All-Mem IsRow db.tasks t v.rows (find_sound id db.tasks t e).1))
      (update_found id now progress running message db t e)
