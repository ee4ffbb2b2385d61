-- ===== src/Tasks/Repository/Lookup.antt =====
-- Reading one row by its id after a statement.
use snow_panel.Prelude.{
  ℕ, ◌≡◌, refl, sym, ap, subst, Bool, Option, none, some, List, [], ◌∷◌, ◌++◌, All, arith,
  Bool-cases, inl, inr, if◌then◌else◌, ==_iff, first_of_list,
}
use mathlib.Core.List.{Memᴰ}
use snow_panel.Tasks.Model.{Task}
use snow_panel.Tasks.Repository.{Db, update_where, has_id, get_by_id}
use snow_panel.Tasks.Repository.Updates.{Distinct, KeepsIdentity, ids_determine}

abbrev pub find : ℕ → List Task → Option Task
find id ts = first_of_list (has_id id) ts

-- `get_by_id` is `find` on the table.
pub get_by_id_lem : (id : ℕ) (db : Db) → get_by_id id db ≡ find id db.tasks
unfolding get_by_id
get_by_id_lem id db = refl

-- A row that is found has the id and stands in the table.
pub find_sound :
    (id : ℕ) (ts : List Task) (t : Task) → find id ts ≡ some t → (t.id ≡ id) × Memᴰ t ts
find_sound id [] t e = cc
find_sound id (u ∷ ts) t e = elim (Bool-cases (has_id id u)) [
  | inl hit ↦
      let p : u ≡ t = ground arith in
      (subst (λ x. x.id ≡ id) p ((==_iff u.id id).0 hit), Memᴰ.head (sym p))
  | inr miss ↦ let r = find_sound id ts t (rw miss at e) in (r.0, Memᴰ.tail r.1)
]

-- A row of the table is found by its id.
pub find_complete : (ts : List Task) (t : Task) → Distinct ts → Memᴰ t ts → find t.id ts ≡ some t
find_complete [] t d m = elim m [ ]
find_complete (u ∷ ts) t d (Memᴰ.head e) =
    ground (arith, ap (λ (x : Task). x.id) e, ap (λ (x : Task). some x) e)
find_complete (u ∷ ts) t d (Memᴰ.tail m) = elim (Bool-cases (has_id t.id u)) [
  | inl hit ↦
      rw hit (ap some (determined (ids_determine (u ∷ ts) t d (Memᴰ.tail m)) ((==_iff _ _).0 hit)))
  | inr miss ↦ rw miss (find_complete ts t d.1 m)
]
  where
    determined : All (λ x. x.id ≡ t.id → x ≡ t) (u ∷ ts) → u.id ≡ t.id → u ≡ t
    determined h p = h.0 p

-- After an `UPDATE` the row is what it was, changed if the condition held of it.
pub find-update_where :
    (id : ℕ) (c : Task → Bool) (f : Task → Task) (ts : List Task) (t : Task)
    → KeepsIdentity f
    → find id ts ≡ some t
    → find id (update_where c f ts) ≡ some (if c t then f t else t)
unfolding update_where
find-update_where id c f [] t k e = cc
find-update_where id c f (u ∷ ts) t k e = elim (Bool-cases (has_id id u)) [
  | inl hit ↦
      let p : u ≡ t = ground arith in
      subst
        (λ x.
          find id ((if c u then f u else u) ∷ update_where c f ts) ≡ some (if c x then f x else x))
        p (rw (same_test hit))
  | inr miss ↦ rw (same_test miss) (find-update_where id c f ts t k (rw miss at e))
]
  where
    same_test : {b : Bool} → has_id id u ≡ b → has_id id (if c u then f u else u) ≡ b
    same_test h = elim (Bool-cases (c u)) [ inl p ↦ rw (p, k.same_id u) h | inr p ↦ rw p h ]

-- An `UPDATE` adds no row and removes none.
pub find-update_where-none :
    (id : ℕ) (c : Task → Bool) (f : Task → Task) (ts : List Task)
    → KeepsIdentity f
    → find id ts ≡ none
    → find id (update_where c f ts) ≡ none
unfolding update_where
find-update_where-none id c f [] k e = refl
find-update_where-none id c f (u ∷ ts) k e =
    ground (arith, k.same_id u, find-update_where-none id c f ts k)

pub find-append :
    (id : ℕ) (ts us : List Task) (t : Task) → find id ts ≡ some t → find id (ts ++ us) ≡ some t
find-append id [] us t e = cc
find-append id (u ∷ ts) us t e = ground (arith, find-append id ts us t)
