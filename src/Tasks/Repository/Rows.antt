-- ===== src/Tasks/Repository/Rows.antt =====
-- What holds of every row of `tasks`, and that the `SET` clauses of
-- backend/internal/repository/task_repository.go keep it.
use snow_panel.Prelude.{
  ℕ, ◌≤◌, ◌<◌, ◌≡◌, ◌≢◌, Text, pos_part, true, Option, none, some, is_some, arith,
}
use snow_panel.Tasks.Model.{Status, pending, Task}
use snow_panel.Tasks.Repository.{
  claimable, claim_row, heartbeat_row, complete_row, fail_row, release_row, status_row,
}

pub record IsRow (t : Task) : Type 0 where
  pub unlocked : t.status ≡ pending → t.locked_by ≡ none
  pub paired : is_some t.locked_by ≡ is_some t.locked_until
  pub attempts_left : t.attempt ≤ pos_part t.max_attempts
  pub attempts_allowed : 0 < pos_part t.max_attempts
  pub started : 0 < t.attempt → is_some t.started_at ≡ true
  pub progress_capped : t.progress ≤ 100

pub claim_row-IsRow :
    (worker : Text) (lease now : ℕ) (t : Task)
    → claimable now t ≡ true
    → IsRow t
    → IsRow (claim_row worker lease now t)
unfolding claimable claim_row
claim_row-IsRow worker lease now t c v = ground arith

pub heartbeat_row-IsRow :
    (lease now : ℕ) (t : Task) → t.locked_by ≢ none → IsRow t → IsRow (heartbeat_row lease now t)
unfolding heartbeat_row
heartbeat_row-IsRow lease now t c v = ground arith

pub complete_row-IsRow :
    (result : Text) (now : ℕ) (t : Task) → IsRow t → IsRow (complete_row result now t)
unfolding complete_row
complete_row-IsRow result now t v = ground arith

pub fail_row-IsRow :
    (message : Text) (next : Option ℕ) (now : ℕ) (t : Task)
    → IsRow t
    → IsRow (fail_row message next now t)
unfolding fail_row
fail_row-IsRow message none now t v = ground arith
fail_row-IsRow message (some at) now t v = ground arith

pub release_row-IsRow : (now : ℕ) (t : Task) → IsRow t → IsRow (release_row now t)
unfolding release_row
release_row-IsRow now t v = ground arith

pub status_row-IsRow :
    (status : Status) (progress : ℕ) (message : Text) (now : ℕ) (t : Task)
    → status ≢ pending
    → progress ≤ 100
    → IsRow t
    → IsRow (status_row status progress message now t)
unfolding status_row
status_row-IsRow status progress message now t c p v = ground arith
