-- ===== src/Tasks/Control/Canceled.antt =====
-- The table of tasks after `CancelTask` of backend/internal/service/task_service.go.
use snow_panel.Prelude.{
  ◌≢◌, subst, if◌then◌else◌, List, ℕ, ◌≡◌, ◌⊎◌, refl, ◌∙◌, Text, text, true, false, some, arith,
}
use snow_panel.Tasks.Model.{Status, pending, running, success, failed, canceled, Task}
use snow_panel.Tasks.Repository.{Db, update_status, status_row, has_id, update_where}
use snow_panel.Tasks.Repository.Lookup.{find, find_sound, find-update_where}
use snow_panel.Tasks.Repository.Stuck.{update_found}
use snow_panel.Tasks.Control.{is_terminal}

-- The task has ended, or is still to be run or running.
abbrev pub HasEnded : Task → Type 0
HasEnded t = (t.status ≡ success) ⊎ (t.status ≡ failed) ⊎ (t.status ≡ canceled)

abbrev pub IsOpen : Task → Type 0
IsOpen t = (t.status ≡ pending) ⊎ (t.status ≡ running)

-- The tasks after `id` has been canceled at the time `now`: its row is as it was but for its status,
-- its message and the time of its change, and all others are as they were.
pub record IsCanceled (id now : ℕ) (t : Task) (before after : List Task) : Type 0 where
  pub canceled_row :
      find id after
      ≡ some (record t {
        status = canceled;
        error_msg = text "canceled by operator";
        updated_at = now;
      })
  pub others_kept : (i : ℕ) (u : Task) → i ≢ id → find i before ≡ some u → find i after ≡ some u

pub ended : (t : Task) → is_terminal t.status ≡ true → HasEnded t
ended t h = ground arith

pub not_ended : (t : Task) → is_terminal t.status ≡ false → IsOpen t
not_ended t h = open_status t.status refl
  where
    open_status : (s : Status) → t.status ≡ s → IsOpen t
    open_status s q = elim s [
      | pending ↦ ground arith
      | running ↦ ground arith
      | success ↦ ground arith
      | failed ↦ ground arith
      | canceled ↦ ground arith
    ]

-- `UpdateStatus` for another task.
update_missed :
    (id now progress : ℕ) (status : Status) (message : Text) (db : Db) (i : ℕ) (u : Task)
    → i ≢ id
    → find i db.tasks ≡ some u
    → find i (update_status id status progress message now db).tasks ≡ some u
unfolding update_status
update_missed id now progress status message db i u n e =
    let j : u.id ≡ i = (find_sound i db.tasks u e).0 in
    let miss : has_id id u ≡ false = ground arith in
    subst
      (λ b.
        find i (update_where (has_id id) (status_row status progress message now) db.tasks)
        ≡ some (if b then status_row status progress message now u else u))
      miss
      (find-update_where i (has_id id) (status_row status progress message now) db.tasks u
        (unfold status_row in record { same_id = λ v. refl; same_key = λ v. refl }) e)

pub update-IsCanceled :
    (id now : ℕ) (db : Db) (t : Task)
    → find id db.tasks ≡ some t
    → IsCanceled id now t db.tasks
        (update_status id canceled t.progress (text "canceled by operator") now db).tasks
update-IsCanceled id now db t e = record {
  canceled_row =
      update_found id now t.progress canceled (text "canceled by operator") db t e
      ∙ unfold status_row in refl;
  others_kept = update_missed id now t.progress canceled (text "canceled by operator") db;
}
