-- ===== src/Auth/Users.antt =====
-- The tables of backend/internal/repository/user_repository.go, and its statements on users. Times
-- are nanoseconds since the Unix epoch; only that of the last login is compared, and kept as its column
-- does. `now` is the clock of the statement.
pub mod Table
use snow_panel.Prelude.{
  ◌*◌, ◌/◌, ℕ, suc, Text, text, text_eq, Bool, true, false, ◌||◌, Option, none, some, List, [], ◌∷◌,
  ◌++◌, any_of, first_of_list, length, ◌==◌, if◌then◌else◌,
}
use mathlib.Core.Option.{map}
use snow_panel.Errors.{plain, Result, ok, err}

-- The time that the column `last_login_at`, a TIMESTAMPTZ, keeps: whole microseconds.
unfoldable pub to_micros : ℕ → ℕ
to_micros at = at / 1000 * 1000

-- `model.User`; the status 1 is that of a user who may log in.
pub record User : Type 0 where
  pub id : ℕ
  pub username : Text
  pub email : Text
  pub password_hash : Text
  pub status : ℕ
  pub last_login_at : Option ℕ
  pub created_at : ℕ
  pub updated_at : ℕ
  pub deleted_at : Option ℕ

-- `model.Role`.
pub record Role : Type 0 where
  pub id : ℕ
  pub name : Text
  pub slug : Text
  pub description : Text
  pub created_at : ℕ
  pub updated_at : ℕ

-- `model.Permission`.
pub record Permission : Type 0 where
  pub id : ℕ
  pub name : Text
  pub description : Text
  pub created_at : ℕ
  pub updated_at : ℕ

-- `model.RolePermission`.
pub record RolePermission : Type 0 where
  pub role_id : ℕ
  pub permission_id : ℕ
  pub created_at : ℕ

-- `model.UserRole`.
pub record UserRole : Type 0 where
  pub user_id : ℕ
  pub role_id : ℕ
  pub created_at : ℕ

-- The tables of roles and permissions, in the order of insertion, with the sequences of their ids.
pub record Rbac : Type 0 where
  pub roles : List Role
  pub next_role_id : ℕ
  pub permissions : List Permission
  pub next_permission_id : ℕ
  pub role_permissions : List RolePermission
  pub user_roles : List UserRole

pub record UserDb : Type 0 where
  pub users : List User
  pub next_user_id : ℕ
  pub rbac : Rbac

-- `Count`.
unfoldable pub count_users : UserDb → ℕ
count_users db = length db.users

abbrev pub has_username : Text → User → Bool
has_username name u = text_eq u.username name

abbrev pub has_user_id : ℕ → User → Bool
has_user_id id u = u.id == id

-- `Create`: the new row, or the violation of one of the two unique indexes.
unfoldable pub create_user : User → ℕ → UserDb → Result User × UserDb
create_user u now db =
    let row = record u {
      id = db.next_user_id;
      last_login_at = map to_micros u.last_login_at;
      created_at = now;
      updated_at = now;
    } in
    if any_of (λ v. has_username u.username v || text_eq v.email u.email) db.users
    then (err (plain (text "duplicate key value violates unique constraint")), db)
    else (ok row, record db { users = db.users ++ row ∷ []; next_user_id = suc db.next_user_id })

-- `GetByUsername` and `GetByID`: the row, or nil.
unfoldable pub get_by_username : Text → UserDb → Option User
get_by_username name db = first_of_list (has_username name) db.users

unfoldable pub get_user : ℕ → UserDb → Option User
get_user id db = first_of_list (has_user_id id) db.users

-- `UPDATE users SET ... WHERE id = ?`.
unfoldable pub update_users : ℕ → (User → User) → List User → List User
update_users id f [] = []
update_users id f (u ∷ us) = (if has_user_id id u then f u else u) ∷ update_users id f us

abbrev pub login_row : ℕ → ℕ → User → User
login_row at now u = record u { last_login_at = some (to_micros at); updated_at = now }

abbrev pub password_row : Text → ℕ → User → User
password_row hash now u = record u { password_hash = hash; updated_at = now }

-- `UpdateLastLoginAt` and `UpdatePasswordHash`.
unfoldable pub update_last_login_at : ℕ → ℕ → ℕ → UserDb → UserDb
unfolding update_users
update_last_login_at id at now db = record db {
  users = update_users id (login_row at now) db.users;
}

unfoldable pub update_password_hash : ℕ → Text → ℕ → UserDb → UserDb
unfolding update_users
update_password_hash id hash now db = record db {
  users = update_users id (password_row hash now) db.users;
}
