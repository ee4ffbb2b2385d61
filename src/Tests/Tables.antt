-- ===== src/Tests/Tables.antt =====
-- The theorems on the tables at concrete rows.
use snow_panel.Prelude.{◌≡◌, ◌≢◌, refl, text, some, [], ◌∷◌, arith}
use snow_panel.Tasks.Model.{Task, pending, running}
use snow_panel.Tasks.Repository.{
  release_stale_tasks, update_status, release_row, status_row, is_stale,
}
use snow_panel.Tasks.Repository.Actions.{claims, heartbeats, releases, completes, act, act_all}
use snow_panel.Tasks.Repository.Lookup.{find}
use snow_panel.Tasks.Repository.Leases.{lease_exclusive}
use snow_panel.Tasks.Repository.Lifecycle.{Follows, act-Follows}
use snow_panel.Tasks.Retry.{task_heartbeat_interval}
use snow_panel.Tasks.Repository.Rows.{IsRow}
use snow_panel.Tasks.Repository.Alive.{Beats, ends, beat, other, heartbeats_keep_lease}
use snow_panel.Tasks.Repository.Stuck.{
  terminal_kept, release_strands_last_attempt, late_progress_strands_task,
}
use snow_panel.Tests.Data.{
  row, worker_a, worker_b, pending_row, held_row, last_row, canceled_row, table, table-IsValid,
  pending_row-IsRow, held_row-IsRow, last_row-IsRow, canceled_row-IsRow,
}

a_not_b : held_row.locked_by ≢ some worker_b
unfolding text
a_not_b e = ground arith

lease_exclusive_example :
    find 1 (act 1000 (completes 1 worker_b (text "{}")) (table held_row)).tasks ≡ some held_row
lease_exclusive_example =
    lease_exclusive 1 1000 (completes 1 worker_b (text "{}")) worker_b (table held_row) held_row
      (table-IsValid held_row held_row-IsRow refl) refl refl a_not_b

act-Follows_example :
    (u : Task) × (find 1 (act 1000 (claims worker_b 30) (table pending_row)).tasks ≡ some u)
    × Follows pending_row u
act-Follows_example =
    act-Follows 1 1000 (claims worker_b 30) (table pending_row) pending_row
      (table-IsValid pending_row pending_row-IsRow refl) (λ x. x) refl

terminal_kept_example :
    find 1 (act_all ((1000, releases) ∷ (1001, claims worker_b 30) ∷ []) (table canceled_row)).tasks
    ≡ some canceled_row
terminal_kept_example =
    terminal_kept 1 ((1000, releases) ∷ (1001, claims worker_b 30) ∷ []) (table canceled_row)
      canceled_row (table-IsValid canceled_row canceled_row-IsRow refl)
      ((tt, λ x. x), ((tt, λ x. x), tt)) tt refl

release_strands_last_attempt_example :
    (find 1
        (act_all
          ((1001, claims worker_b 30) ∷ [])
          (release_stale_tasks 1000 (table last_row)).1).tasks
      ≡ some (release_row 1000 last_row))
    × ((release_row 1000 last_row).status ≡ pending)
release_strands_last_attempt_example =
    release_strands_last_attempt 1 1000 ((1001, claims worker_b 30) ∷ []) (table last_row) last_row
      (table-IsValid last_row last_row-IsRow refl) refl (unfold is_stale in refl) (omega arith)
      ((tt, λ x. x), tt)

late_progress_strands_task_example :
    find 1
      (act_all
        ((1001, releases) ∷ [])
        (update_status 1 running 85 (text "") 1000 (table pending_row))).tasks
    ≡ some (status_row running 85 (text "") 1000 pending_row)
late_progress_strands_task_example =
    late_progress_strands_task 1 1000 85 (text "") ((1001, releases) ∷ []) (table pending_row)
      pending_row (table-IsValid pending_row pending_row-IsRow refl) (omega arith) refl refl
      ((tt, λ x. x), tt)

abbrev beating_row : Task
beating_row = row running (some worker_a) (some 150_000_005) 1

beating_row-IsRow : IsRow beating_row
beating_row-IsRow = ground arith

beats :
    Beats 1 worker_a 150_000_000 5
      ((100_000_000, heartbeats 1 worker_a 150_000_000) ∷ (200_000_000, releases) ∷ [])
unfolding task_heartbeat_interval
beats = beat (other (omega arith) tt tt ends)

heartbeats_keep_lease_example :
    (u : Task) × (find 1
        (act_all
          ((100_000_000, heartbeats 1 worker_a 150_000_000) ∷ (200_000_000, releases) ∷ [])
          (table beating_row)).tasks
      ≡ some u)
    × (u.status ≡ running)
    × (u.locked_by ≡ some worker_a)
    × (u.attempt ≡ 1)
heartbeats_keep_lease_example =
    heartbeats_keep_lease 1 5 150_000_000 1 worker_a
      ((100_000_000, heartbeats 1 worker_a 150_000_000) ∷ (200_000_000, releases) ∷ [])
      (table beating_row) beating_row (table-IsValid beating_row beating_row-IsRow refl)
      (omega arith) beats refl
      (record { status = refl; locked_by = refl; locked_until = refl; attempt = refl })
