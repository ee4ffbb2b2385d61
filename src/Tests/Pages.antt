-- ===== src/Tests/Pages.antt =====
-- The theorems on pages of tasks at a concrete table.
use snow_panel.Prelude.{refl, pos, ◌*◌, ◌≤◌, trim_space, [], keep_if, arith}
use mathlib.Core.List.{Permᴰ}
use snow_panel.Tasks.Pages.{TaskListFilter, matches, capped_size, count_matching}
use snow_panel.Tasks.Pages.Order.{IsNewestFirst, newest_first, newest_first-IsOrder}
use snow_panel.Tasks.Pages.Walk.{first_pages, first_pages-all}
use snow_panel.Tasks.Pages.Unique.{HaveOwnTimes}
use snow_panel.Tests.Data.{pending_row, table}

abbrev any_task : TaskListFilter
any_task = record { page = pos 1; size = pos 1; status = []; type = [] }

one_matches : count_matching any_task (table pending_row) ≤ 1 * capped_size any_task.size
unfolding count_matching matches trim_space
one_matches = omega arith

pending_row-OwnTimes :
    HaveOwnTimes
      (keep_if (matches any_task) (table pending_row).tasks)
      (keep_if (matches any_task) (table pending_row).tasks)
unfolding matches trim_space
pending_row-OwnTimes = ((λ q. refl, tt), tt)

first_pages-all_example :
    Permᴰ
      (first_pages (λ k. newest_first) any_task 1 (table pending_row))
      (keep_if (matches any_task) (table pending_row).tasks)
    × IsNewestFirst (first_pages (λ k. newest_first) any_task 1 (table pending_row))
first_pages-all_example =
    first_pages-all (λ k. newest_first) any_task 1 (table pending_row) (λ k. newest_first-IsOrder)
      pending_row-OwnTimes one_matches
