-- ===== src/Tasks/Pages/Order.antt =====
-- What `ORDER BY created_at DESC` in backend/internal/repository/task_repository.go promises of the
-- rows, and an order that does so.
use snow_panel.Prelude.{
  ℕ, ◌≤◌, refl, inl, inr, List, [], ◌∷◌, leb, arith, if◌then◌else◌, All, Bool-cases,
}
use mathlib.Core.List.{Permᴰ}
use mathlib.Core.List.Permᴰ
use mathlib.Core.List.Permᴰ.{nil, cons, swap, trans}
use snow_panel.Tasks.Model.{Task}

-- The order of a database that gives rows of the same time as the table has them.
unfoldable insert_newest : Task → List Task → List Task
insert_newest t [] = t ∷ []
insert_newest t (s ∷ rest) =
    let later = insert_newest t rest in
    if leb s.created_at t.created_at then t ∷ s ∷ rest else s ∷ later

unfoldable pub newest_first : List Task → List Task
unfolding insert_newest
newest_first [] = []
newest_first (t ∷ rest) = insert_newest t (newest_first rest)

-- No row is older than one after it.
abbrev pub IsNewestFirst : List Task → Type 0
IsNewestFirst [] = Unit
IsNewestFirst (t ∷ rest) = All (λ s. s.created_at ≤ t.created_at) rest × IsNewestFirst rest

insert_newest-Perm : (t : Task) (ts : List Task) → Permᴰ (insert_newest t ts) (t ∷ ts)
unfolding insert_newest
insert_newest-Perm t [] = cons refl nil
insert_newest-Perm t (s ∷ ts) = elim (Bool-cases (leb s.created_at t.created_at)) [
  | inl e ↦ rw e (Permᴰ.refl (t ∷ s ∷ ts))
  | inr e ↦ rw e (trans (cons refl (insert_newest-Perm t ts)) (swap refl refl))
]

newest_first-Perm : (ts : List Task) → Permᴰ (newest_first ts) ts
unfolding newest_first
newest_first-Perm [] = nil
newest_first-Perm (t ∷ ts) =
    trans (insert_newest-Perm t (newest_first ts)) (cons refl (newest_first-Perm ts))

insert_newest-All :
    (bound : ℕ) (t : Task) (ts : List Task)
    → t.created_at ≤ bound
    → All (λ s. s.created_at ≤ bound) ts
    → All (λ s. s.created_at ≤ bound) (insert_newest t ts)
unfolding insert_newest
insert_newest-All bound t [] h k = (h, tt)
insert_newest-All bound t (s ∷ ts) h (a, k) = elim (Bool-cases (leb s.created_at t.created_at)) [
  | inl e ↦ rw e (h, (a, k))
  | inr e ↦ rw e (a, insert_newest-All bound t ts h k)
]

weaken :
    (a b : ℕ) (ts : List Task)
    → a ≤ b
    → All (λ s. s.created_at ≤ a) ts
    → All (λ s. s.created_at ≤ b) ts
weaken a b [] h k = tt
weaken a b (t ∷ ts) h (x, k) = (omega (arith, h, x), weaken a b ts h k)

insert_newest-IsNewestFirst :
    (t : Task) (ts : List Task) → IsNewestFirst ts → IsNewestFirst (insert_newest t ts)
unfolding insert_newest
insert_newest-IsNewestFirst t [] h = (tt, tt)
insert_newest-IsNewestFirst t (s ∷ ts) (a, h) = elim (Bool-cases (leb s.created_at t.created_at)) [
  | inl e ↦
      let newer : s.created_at ≤ t.created_at = ground (arith, e) in
      rw e ((newer, weaken _ _ ts newer a), (a, h))
  | inr e ↦
      let older : t.created_at ≤ s.created_at = ground (arith, e) in
      rw e (insert_newest-All s.created_at t ts older a, insert_newest-IsNewestFirst t ts h)
]

newest_first-IsNewestFirst : (ts : List Task) → IsNewestFirst (newest_first ts)
unfolding newest_first
newest_first-IsNewestFirst [] = tt
newest_first-IsNewestFirst (t ∷ ts) =
    insert_newest-IsNewestFirst t (newest_first ts) (newest_first-IsNewestFirst ts)

-- A way to order rows that keeps them all, newest first.
abbrev pub IsOrder : (List Task → List Task) → Type 0
IsOrder newest = (ts : List Task) → Permᴰ (newest ts) ts × IsNewestFirst (newest ts)

pub newest_first-IsOrder : IsOrder newest_first
newest_first-IsOrder ts = (newest_first-Perm ts, newest_first-IsNewestFirst ts)
