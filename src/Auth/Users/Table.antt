-- ===== src/Auth/Users/Table.antt =====
-- Lookups in the table of users of backend/internal/repository/user_repository.go, and what an
-- update does to them.
use snow_panel.Prelude.{
  ◌+◌, ◌≤◌, ℕ, suc, ◌≡◌, ◌≢◌, ◌<◌, inl, inr, refl, ap, subst, ◌∙◌, Bool, true, false, Option, none,
  some, List, [], ◌∷◌, ◌++◌, first_of_list, ◌==◌, ==_refl, All, arith, Bool-cases, All-append,
}
use mathlib.Core.Option.{some-injective}
use snow_panel.Auth.Users.{User, to_micros, has_user_id, update_users}

abbrev pub find_user : ℕ → List User → Option User
find_user id us = first_of_list (has_user_id id) us

-- The time is one that the column `last_login_at` can have.
abbrev pub IsStored : Option ℕ → Type 0
IsStored none = Unit
IsStored (some at) = to_micros at ≡ at

-- No two users have the same id, all ids are below the next one, and the times of the last logins are
-- whole microseconds.
abbrev DistinctIds : List User → Type 0
DistinctIds [] = Unit
DistinctIds (u ∷ us) = All (λ v. v.id ≢ u.id) us × DistinctIds us

pub record IsTable (us : List User) (next : ℕ) : Type 0 where
  pub distinct : DistinctIds us
  pub below : All (λ u. u.id < next) us
  pub stored : All (λ u. IsStored u.last_login_at) us

pub to_micros-again : (at : ℕ) → to_micros (to_micros at) ≡ to_micros at
unfolding to_micros
to_micros-again at = omega arith

-- A stored time is not set back by what is stored of a later one.
pub to_micros-later : (p at : ℕ) → to_micros p ≡ p → p ≤ at → p ≤ to_micros at
unfolding to_micros
to_micros-later p at h k = omega (arith, h, k)

-- What is stored of a time is a microsecond or more after a stored one, if the time is so.
pub to_micros-after : (p at : ℕ) → to_micros p ≡ p → p + 1000 ≤ at → p + 1000 ≤ to_micros at
unfolding to_micros
to_micros-after p at w h = omega (arith, w, h)

-- An update that keeps ids.
abbrev pub KeepsId : (User → User) → Type 0
KeepsId f = (u : User) → (f u).id ≡ u.id

pub find_user-id : (id : ℕ) (us : List User) (u : User) → find_user id us ≡ some u → u.id ≡ id
find_user-id id [] u h = cc
find_user-id id (v ∷ us) u h = elim (Bool-cases (v.id == id)) [
  | inl e ↦ ground (arith, rw e at h, e)
  | inr e ↦ find_user-id id us u (rw e at h)
]

module _ (f : User → User) (keeps : KeepsId f) where
  pub find-update_users :
      (id : ℕ) (us : List User) (u : User)
      → find_user id us ≡ some u
      → find_user id (update_users id f us) ≡ some (f u)
  unfolding update_users
  find-update_users id [] u h = cc
  find-update_users id (v ∷ us) u h = elim (Bool-cases (v.id == id)) [
    | inl e ↦
        let same : ((f v).id == id) ≡ true = ap (λ i. i == id) (keeps v) ∙ e in
        rw (e, same) (ap f' (rw e at h))
    | inr e ↦ rw (e, e) (find-update_users id us u (rw e at h))
  ]
    where
      f' : Option User → Option User
      f' o = elim o [ none ↦ none | some x ↦ some (f x) ]

  pub find-update_users-other :
      (id k : ℕ) (us : List User) → id ≢ k → find_user id (update_users k f us) ≡ find_user id us
  unfolding update_users
  find-update_users-other id k [] n = refl
  find-update_users-other id k (v ∷ us) n = elim (Bool-cases (v.id == k)) [
    | inl e ↦
        let other : (v.id == id) ≡ false = ground (arith, e, n) in
        let kept : ((f v).id == id) ≡ false = ap (λ i. i == id) (keeps v) ∙ other in
        rw (e, kept, other) (find-update_users-other id k us n)
    | inr e ↦ rw (e, find-update_users-other id k us n) refl
  ]

  All-update_users :
      (P : ℕ → Type 0) (k : ℕ) (us : List User)
      → All (λ u. P u.id) us
      → All (λ u. P u.id) (update_users k f us)
  unfolding update_users
  All-update_users P k [] h = tt
  All-update_users P k (v ∷ us) (p, h) = elim (Bool-cases (v.id == k)) [
    | inl e ↦ rw (e, keeps v) (p, All-update_users P k us h)
    | inr e ↦ rw e (p, All-update_users P k us h)
  ]

  update_users-Distinct :
      (k : ℕ) (us : List User) → DistinctIds us → DistinctIds (update_users k f us)
  unfolding update_users
  update_users-Distinct k [] h = tt
  update_users-Distinct k (v ∷ us) (p, h) = elim (Bool-cases (v.id == k)) [
    | inl e ↦
        rw (e, keeps v) (All-update_users (λ i. i ≢ v.id) k us p, update_users-Distinct k us h)
    | inr e ↦ rw e (All-update_users (λ i. i ≢ v.id) k us p, update_users-Distinct k us h)
  ]

  update_users-Stored :
      (k : ℕ) (us : List User)
      → ((u : User) → IsStored u.last_login_at → IsStored (f u).last_login_at)
      → All (λ u. IsStored u.last_login_at) us
      → All (λ u. IsStored u.last_login_at) (update_users k f us)
  unfolding update_users
  update_users-Stored k [] m h = tt
  update_users-Stored k (v ∷ us) m (p, h) = elim (Bool-cases (v.id == k)) [
    | inl e ↦ rw e (m v p, update_users-Stored k us m h)
    | inr e ↦ rw e (p, update_users-Stored k us m h)
  ]

  pub update_users-IsTable :
      (k next : ℕ) (us : List User)
      → ((u : User) → IsStored u.last_login_at → IsStored (f u).last_login_at)
      → IsTable us next
      → IsTable (update_users k f us) next
  update_users-IsTable k next us m t = record {
    distinct = update_users-Distinct k us t.distinct;
    below = All-update_users (λ i. i < next) k us t.below;
    stored = update_users-Stored k us m t.stored;
  }

-- A new row behind the others.
pub find-append :
    (id : ℕ) (us : List User) (u v : User)
    → find_user id us ≡ some u
    → find_user id (us ++ v ∷ []) ≡ some u
find-append id [] u v h = cc
find-append id (x ∷ us) u v h = elim (Bool-cases (x.id == id)) [
  | inl e ↦ rw e (rw e at h)
  | inr e ↦ rw e (find-append id us u v (rw e at h))
]

raise : (next : ℕ) (us : List User) → All (λ u. u.id < next) us → All (λ u. u.id < suc next) us
raise next [] h = tt
raise next (u ∷ us) (p, h) = (omega (arith, p), raise next us h)

append-Distinct :
    (us : List User) (v : User)
    → All (λ u. u.id < v.id) us
    → DistinctIds us
    → DistinctIds (us ++ v ∷ [])
append-Distinct [] v h d = (tt, tt)
append-Distinct (u ∷ us) v (p, h) (q, d) = (
  All-append (λ x. x.id ≢ u.id) us (v ∷ []) q ((λ e. omega (arith, p, e)), tt),
  append-Distinct us v h d,
)

pub append-IsTable :
    (us : List User) (v : User)
    → IsStored v.last_login_at
    → IsTable us v.id
    → IsTable (us ++ v ∷ []) (suc v.id)
append-IsTable us v s t = record {
  distinct = append-Distinct us v t.below t.distinct;
  below = All-append (λ u. u.id < suc v.id) us (v ∷ []) (raise v.id us t.below) (omega arith, tt);
  stored = All-append (λ u. IsStored u.last_login_at) us (v ∷ []) t.stored (s, tt);
}

pub found-All :
    (P : User → Type 0) (p : User → Bool) (us : List User) (u : User)
    → first_of_list p us ≡ some u
    → All P us
    → P u
found-All P p [] u h a = cc
found-All P p (v ∷ us) u h (a, rest) = elim (Bool-cases (p v)) [
  | inl e ↦ subst P (some-injective v u (rw e at h)) a
  | inr e ↦ found-All P p us u (rw e at h) rest
]

-- The row that a lookup by another column finds is that of its id.
pub found-by_id :
    (p : User → Bool) (us : List User) (u : User)
    → DistinctIds us
    → first_of_list p us ≡ some u
    → find_user u.id us ≡ some u
found-by_id p [] u d h = cc
found-by_id p (v ∷ us) u (n, d) h = elim (Bool-cases (p v)) [
  | inl e ↦ rw (← some-injective v u (rw e at h), ==_refl v.id) refl
  | inr e ↦
      let later = rw e at h in
      let other : (v.id == u.id) ≡ false =
        ground (arith, found-All (λ x. x.id ≢ v.id) p us u later n) in
      rw other (found-by_id p us u d later)
]
