-- ===== src/Tasks/Pages/Walk.antt =====
-- Going through the pages of `List` of backend/internal/repository/task_repository.go, one after the
-- other, on tables that stay as they are.
use snow_panel.Prelude.{
  ℕ, pos, zero, suc, ◌-◌, ◌*◌, ◌≤◌, ◌≡◌, ap, sym, ◌∙◌, subst, List, [], ◌++◌, take, drop, keep_if,
  take-drop, take_all, arith,
}
use mathlib.Core.List.{Permᴰ}
use native.Mathlib.Nat.{suc-mul}
use snow_panel.Tasks.Model.{Task}
use snow_panel.Tasks.Repository.{Db}
use snow_panel.Tasks.Pages.{
  TaskListFilter, matches, capped_size, page_or_first, count_matching, find_page,
}
use snow_panel.Tasks.Pages.Order.{IsNewestFirst, IsOrder}
use snow_panel.Tasks.Pages.Unique.{HaveOwnTimes, newest_first_unique, Perm-length}

-- The rows of the first `n` pages; page `k` + 1 is read by a statement that gives the rows in the
-- order `newest k`.
unfoldable pub first_pages : (ℕ → List Task → List Task) → TaskListFilter → ℕ → Db → List Task
first_pages newest f zero db = []
first_pages newest f (suc n) db =
    first_pages newest f n db ++ find_page (newest n) (record f { page = pos (suc n) }) db

find_page_at :
    (newest : List Task → List Task) (f : TaskListFilter) (n : ℕ) (db : Db)
    → find_page newest (record f { page = pos (suc n) }) db
      ≡ take
          (capped_size f.size)
          (drop (n * capped_size f.size) (newest (keep_if (matches f) db.tasks)))
unfolding find_page matches
find_page_at newest f n db =
    ap
      (λ k.
        take (capped_size f.size)
          (drop (k * capped_size f.size) (newest (keep_if (matches f) db.tasks))))
      before
  where
    before : page_or_first (pos (suc n)) - 1 ≡ n
    before = ground arith

-- All pages are cut from the same list, if all statements give the rows in its order.
first_pages-take :
    (newest : ℕ → List Task → List Task) (f : TaskListFilter) (n : ℕ) (db : Db) (rows : List Task)
    → ((k : ℕ) → newest k (keep_if (matches f) db.tasks) ≡ rows)
    → first_pages newest f n db ≡ take (n * capped_size f.size) rows
unfolding first_pages
first_pages-take newest f zero db rows h =
    ap (λ k. take k rows) {x = 0} {y = 0 * capped_size f.size} (omega arith)
first_pages-take newest f (suc n) db rows h =
    rw
      (
        first_pages-take newest f n db rows h,
        find_page_at (newest n) f n db,
        h n,
        suc-mul n (capped_size f.size),
      )
      (take-drop (n * capped_size f.size) (capped_size f.size) rows)

-- The first pages of a query, as many as hold all rows that match it, show each of these rows once
-- and no other row, and newer rows first. Each page is read by a statement of its own, which may give
-- rows of the same time in an order of its own; no two of the rows that match have the same time.
pub first_pages-all :
    (newest : ℕ → List Task → List Task) (f : TaskListFilter) (n : ℕ) (db : Db)
    → ((k : ℕ) → IsOrder (newest k))
    → HaveOwnTimes (keep_if (matches f) db.tasks) (keep_if (matches f) db.tasks)
    → count_matching f db ≤ n * capped_size f.size
    → Permᴰ (first_pages newest f n db) (keep_if (matches f) db.tasks)
      × IsNewestFirst (first_pages newest f n db)
unfolding count_matching
first_pages-all newest f n db order own h =
    let found = keep_if (matches f) db.tasks in
    let rows = newest 0 found in
    let same : (k : ℕ) → newest k found ≡ rows =
      λ k. newest_first_unique found (newest k found) rows own (order k found) (order 0 found) in
    subst (λ ts. Permᴰ ts found × IsNewestFirst ts)
      (sym (
        first_pages-take newest f n db rows same
        ∙ take_all (n * capped_size f.size) rows
            (omega (arith, h, Perm-length rows found (order 0 found).0))))
      (order 0 found)
