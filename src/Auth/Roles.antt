-- ===== src/Auth/Roles.antt =====
-- The statements of backend/internal/repository/user_repository.go on roles and permissions.
-- `EnsureRBACDefaults` is one transaction, and taken to be atomic.
use snow_panel.Prelude.{
  ℕ, suc, Text, text, text_eq, Bool, ◌&&◌, not, Option, none, some, List, [], ◌∷◌, ◌++◌, map,
  any_of, keep_if, first_of_list, ◌==◌, if◌then◌else◌,
}
use snow_panel.Errors.{plain, Result, ok, err}
use snow_panel.Auth.Users.{Role, Permission, RolePermission, UserRole, Rbac, UserDb, has_user_id}

abbrev pub role_super_admin : Text
role_super_admin = text "super_admin"

abbrev pub role_operator : Text
role_operator = text "operator"

abbrev pub has_slug : Text → Role → Bool
has_slug slug r = text_eq r.slug slug

abbrev pub has_name : Text → Permission → Bool
has_name name p = text_eq p.name name

-- The roles that `EnsureRBACDefaults` makes: name, slug and description.
abbrev pub role_seeds : List (Text × Text × Text)
role_seeds =
    (text "Super Admin", role_super_admin, text "Full access to all resources")
    ∷ (text "Operator", role_operator, text "Limited operations access")
    ∷ []

abbrev pub permission_seeds : List (Text × Text)
permission_seeds =
    (text "dashboard.read", text "Read dashboard overview")
    ∷ (text "files.read", text "Read files")
    ∷ (text "files.write", text "Write files")
    ∷ (text "services.read", text "Read service states")
    ∷ (text "services.manage", text "Manage services")
    ∷ (text "docker.read", text "Read docker resources")
    ∷ (text "docker.manage", text "Manage docker resources")
    ∷ (text "cron.read", text "Read cron jobs")
    ∷ (text "cron.manage", text "Manage cron jobs")
    ∷ (text "audit.read", text "Read audit logs")
    ∷ (text "audit.export", text "Export audit logs")
    ∷ (text "audit.manage", text "Manage audit retention")
    ∷ (text "tasks.read", text "Read tasks")
    ∷ (text "tasks.manage", text "Manage tasks")
    ∷ (text "backup.read", text "Read backup metadata")
    ∷ (text "backup.manage", text "Manage backups")
    ∷ []

abbrev pub super_admin_permissions : List Text
super_admin_permissions = map (λ seed. seed.0) permission_seeds

abbrev pub operator_permissions : List Text
operator_permissions = text "dashboard.read" ∷ text "files.read" ∷ []

-- The insertion of roles, ON CONFLICT (slug) DO NOTHING; names are unique too.
unfoldable pub insert_roles : List (Text × Text × Text) → ℕ → Rbac → Result Rbac
insert_roles [] now db = ok db
insert_roles ((name, slug, description) ∷ seeds) now db =
    let row : Role = record {
      id = db.next_role_id;
      name = name;
      slug = slug;
      description = description;
      created_at = now;
      updated_at = now;
    } in
    let skipped = insert_roles seeds now (record db { next_role_id = suc db.next_role_id }) in
    let inserted =
      insert_roles seeds now
        (record db { roles = db.roles ++ row ∷ []; next_role_id = suc db.next_role_id }) in
    if any_of (has_slug slug) db.roles
    then skipped
    else if any_of (λ r. text_eq r.name name) db.roles
    then err (plain (text "duplicate key value violates unique constraint"))
    else inserted

-- The insertion of permissions, ON CONFLICT (name) DO NOTHING.
unfoldable pub insert_permissions : List (Text × Text) → ℕ → Rbac → Rbac
insert_permissions [] now db = db
insert_permissions ((name, description) ∷ seeds) now db =
    let row : Permission = record {
      id = db.next_permission_id;
      name = name;
      description = description;
      created_at = now;
      updated_at = now;
    } in
    let skipped =
      insert_permissions seeds now (record db { next_permission_id = suc db.next_permission_id }) in
    let inserted = insert_permissions seeds now (record db {
      permissions = db.permissions ++ row ∷ [];
      next_permission_id = suc db.next_permission_id;
    }) in
    if any_of (has_name name) db.permissions then skipped else inserted

abbrev pub links : ℕ → ℕ → RolePermission → Bool
links role permission l = l.role_id == role && l.permission_id == permission

abbrev pub grant : ℕ → ℕ → ℕ → Rbac → Rbac
grant role permission now db =
    if any_of (links role permission) db.role_permissions then db else record db {
      role_permissions =
          db.role_permissions
          ++ record { role_id = role; permission_id = permission; created_at = now } ∷ [];
    }

-- The rows of `role_permissions` for a role, ON CONFLICT DO NOTHING, where the role and the
-- permission are found by their slug and name.
unfoldable pub grant_all : Text → List Text → ℕ → Rbac → Rbac
grant_all slug [] now db = db
grant_all slug (name ∷ names) now db = elim (first_of_list (has_slug slug) db.roles) [
  | none ↦ grant_all slug names now db
  | some r ↦ elim (first_of_list (has_name name) db.permissions) [
    | none ↦ grant_all slug names now db
    | some p ↦ grant_all slug names now (grant r.id p.id now db)
  ]
]

-- `EnsureRBACDefaults`.
unfoldable pub ensure_rbac_defaults : ℕ → UserDb → Result (Unit {0}) × UserDb
unfolding insert_roles insert_permissions grant_all
ensure_rbac_defaults now db = elim (insert_roles role_seeds now db.rbac) [
  | err x ↦ (err x, db)
  | ok with_roles ↦
      let seeded = insert_permissions permission_seeds now with_roles in
      let granted = grant_all role_super_admin super_admin_permissions now seeded in
      (ok tt, record db { rbac = grant_all role_operator operator_permissions now granted })
]

abbrev pub is_member : ℕ → ℕ → UserRole → Bool
is_member user role m = m.user_id == user && m.role_id == role

-- The two statements of `EnsureUserRoleBySlug`. The second keeps the foreign key on users.
unfoldable pub role_by_slug : Text → UserDb → Option Role
role_by_slug slug db = first_of_list (has_slug slug) db.rbac.roles

unfoldable pub add_user_role : ℕ → ℕ → ℕ → UserDb → Result (Unit {0}) × UserDb
add_user_role user role now db =
    if not (any_of (has_user_id user) db.users)
    then (err (plain (text "insert violates foreign key constraint")), db)
    else if any_of (is_member user role) db.rbac.user_roles
    then (ok tt, db)
    else (
      ok tt,
      record db {
        rbac = record db.rbac {
          user_roles =
              db.rbac.user_roles
              ++ record { user_id = user; role_id = role; created_at = now } ∷ [];
        };
      },
    )

-- `SELECT DISTINCT ... ORDER BY ...`, where `le` is the order of the database.
unfoldable pub distinct : List Text → List Text
distinct [] = []
distinct (t ∷ ts) = let rest = distinct ts in if any_of (text_eq t) ts then rest else t ∷ rest

unfoldable pub insert_text : (Text → Text → Bool) → Text → List Text → List Text
insert_text le t [] = t ∷ []
insert_text le t (s ∷ rest) =
    let later = insert_text le t rest in if le t s then t ∷ s ∷ rest else s ∷ later

unfoldable pub sort_texts : (Text → Text → Bool) → List Text → List Text
unfolding insert_text
sort_texts le [] = []
sort_texts le (t ∷ ts) = insert_text le t (sort_texts le ts)

abbrev pub holds_role : Rbac → ℕ → ℕ → Bool
holds_role db user role = any_of (is_member user role) db.user_roles

abbrev pub is_granted : Rbac → ℕ → Permission → Bool
is_granted db user p =
    any_of (λ l. l.permission_id == p.id && holds_role db user l.role_id) db.role_permissions

-- The two statements of `GetRolesAndPermissions`.
unfoldable pub roles_of : (Text → Text → Bool) → ℕ → UserDb → List Text
unfolding distinct sort_texts
roles_of le user db =
    sort_texts le
      (distinct (map (λ r. r.slug) (keep_if (λ r. holds_role db.rbac user r.id) db.rbac.roles)))

unfoldable pub permissions_of : (Text → Text → Bool) → ℕ → UserDb → List Text
unfolding distinct sort_texts
permissions_of le user db =
    sort_texts le
      (distinct (map (λ p. p.name) (keep_if (is_granted db.rbac user) db.rbac.permissions)))
