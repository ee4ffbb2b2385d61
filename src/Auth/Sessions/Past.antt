-- ===== src/Auth/Sessions/Past.antt =====
-- No call of backend/internal/service/auth_service.go sets the session of a user back.
use snow_panel.Prelude.{
  ◌+◌, ℕ, ◌≤◌, ◌<◌, ◌≡◌, inl, inr, refl, sym, ap, subst, ◌∙◌, Text, Option, none, some, List, ◌==◌,
  arith, Bool-cases,
}
use snow_panel.Auth.Users.{
  User, UserDb, to_micros, has_user_id, login_row, password_row, update_last_login_at,
  update_password_hash,
}
use snow_panel.Auth.Users.Table.{
  find_user, IsTable, find-update_users, find-update_users-other, update_users-IsTable, IsStored,
  to_micros-again, to_micros-later, to_micros-after, found-All,
}
use snow_panel.Auth.Env.Steps.{OnUsers}
use snow_panel.Auth.Sessions.{next_session_time}

-- The user `id` has a session that started at `s` or later.
pub record Past (id s : ℕ) (us : List User) (next : ℕ) : Type 0 where
  pub table : IsTable us next
  pub row : User
  pub found : find_user id us ≡ some row
  pub last : ℕ
  pub last_is : row.last_login_at ≡ some last
  pub later : s ≤ last

-- The row of `u` has the session that `u` says.
abbrev pub Current : User → List User → ℕ → Type 0
Current u us next =
    IsTable us next
    × ((x : User) × (find_user u.id us ≡ some x) × (x.last_login_at ≡ u.last_login_at))

pub next_session_later : (now p : ℕ) → p < next_session_time now (some p)
unfolding next_session_time
next_session_later now p = ground arith

next_session_after : (now p : ℕ) → p + 1000 ≤ now → p + 1000 ≤ next_session_time now (some p)
unfolding next_session_time
next_session_after now p h = ground (arith, h)

not_set_back :
    {id s : ℕ} {us : List User} {next : ℕ} (now : ℕ) (h : Past id s us next)
    → s ≤ to_micros (next_session_time now (some h.last))
not_set_back {id} {s} {us} now h =
    let whole : to_micros h.last ≡ h.last = subst IsStored h.last_is (
      found-All (λ u. IsStored u.last_login_at) (has_user_id id) us h.row h.found h.table.stored) in
    let kept : h.last ≤ to_micros (next_session_time now (some h.last)) =
      to_micros-later h.last _ whole (omega (arith, next_session_later now h.last)) in
    omega (arith, kept, h.later)

-- A new session of a user whose row is current does not set back the time that is stored.
pub update-Past :
    (id s now clk : ℕ) (v : User) (db : UserDb)
    → OnUsers (Past id s) db
    → OnUsers (Current v) db
    → OnUsers (Past id s) (update_last_login_at v.id (next_session_time now v.last_login_at) clk db)
unfolding update_last_login_at
update-Past id s now clk v db h (t, (x, found, same)) = elim (Bool-cases (id == v.id)) [
  | inl e ↦
      let at : id ≡ v.id = ground (arith, e) in
      let row_is : x.last_login_at ≡ some h.last =
        ap (λ (o : Option User). elim o [ none ↦ none | some y ↦ y.last_login_at ])
          (sym found ∙ subst (λ i. find_user i db.users ≡ some h.row) at h.found)
        ∙ h.last_is in
      record {
        table =
            update_users-IsTable (login_row _ clk) (λ u. refl) v.id db.next_user_id db.users
              (λ u m. to_micros-again _) t;
        row = login_row (next_session_time now v.last_login_at) clk h.row;
        found =
            rw (← at) (find-update_users (login_row _ clk) (λ u. refl) id db.users h.row h.found);
        last = to_micros (next_session_time now v.last_login_at);
        last_is = refl;
        later = rw (← same, row_is) (not_set_back now h);
      }
  | inr n ↦ record {
    table =
        update_users-IsTable (login_row _ clk) (λ u. refl) v.id db.next_user_id db.users
          (λ u m. to_micros-again _) t;
    row = h.row;
    found =
        find-update_users-other (login_row _ clk) (λ u. refl) id v.id db.users
          (λ q. ground (arith, n, q))
        ∙ h.found;
    last = h.last;
    last_is = h.last_is;
    later = h.later;
  }
]

-- A new session of a user ends those of the microsecond of the last one, and those before, if it
-- starts a microsecond later.
pub update-Renewed :
    (u : User) (p now clk : ℕ) (db : UserDb)
    → u.last_login_at ≡ some p
    → p + 1000 ≤ now
    → OnUsers (Current u) db
    → OnUsers
        (Past u.id (p + 1000))
        (update_last_login_at u.id (next_session_time now u.last_login_at) clk db)
unfolding update_last_login_at
update-Renewed u p now clk db last late (t, (x, found, same)) =
    let whole : to_micros p ≡ p =
      subst IsStored (same ∙ last)
        (found-All (λ v. IsStored v.last_login_at) (has_user_id u.id) db.users x found t.stored) in
    record {
      table =
          update_users-IsTable (login_row _ clk) (λ v. refl) u.id db.next_user_id db.users
            (λ v m. to_micros-again _) t;
      row = login_row (next_session_time now u.last_login_at) clk x;
      found = find-update_users (login_row _ clk) (λ v. refl) u.id db.users x found;
      last = to_micros (next_session_time now u.last_login_at);
      last_is = refl;
      later = rw last (to_micros-after p _ whole (next_session_after now p late));
    }

pub password-Past :
    (id s clk k : ℕ) (hash : Text) (db : UserDb)
    → OnUsers (Past id s) db
    → OnUsers (Past id s) (update_password_hash k hash clk db)
unfolding update_password_hash
password-Past id s clk k hash db h = elim (Bool-cases (id == k)) [
  | inl e ↦
      let at : id ≡ k = ground (arith, e) in
      record {
        table =
            update_users-IsTable (password_row hash clk) (λ u. refl) k db.next_user_id db.users
              (λ u m. m) h.table;
        row = password_row hash clk h.row;
        found =
            rw (← at)
              (find-update_users (password_row hash clk) (λ u. refl) id db.users h.row h.found);
        last = h.last;
        last_is = h.last_is;
        later = h.later;
      }
  | inr n ↦ record {
    table =
        update_users-IsTable (password_row hash clk) (λ u. refl) k db.next_user_id db.users
          (λ u m. m) h.table;
    row = h.row;
    found =
        find-update_users-other (password_row hash clk) (λ u. refl) id k db.users
          (λ q. ground (arith, n, q))
        ∙ h.found;
    last = h.last;
    last_is = h.last_is;
    later = h.later;
  }
]

pub password-Current :
    (clk : ℕ) (hash : Text) (v : User) (db : UserDb)
    → OnUsers (Current v) db
    → OnUsers (Current v) (update_password_hash v.id hash clk db)
unfolding update_password_hash
password-Current clk hash v db (t, (x, found, same)) = (
  update_users-IsTable (password_row hash clk) (λ u. refl) v.id db.next_user_id db.users (λ u m. m)
      t,
  (
    password_row hash clk x,
    find-update_users (password_row hash clk) (λ u. refl) v.id db.users x found,
    same,
  ),
)
