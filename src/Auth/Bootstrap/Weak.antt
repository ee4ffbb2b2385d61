-- ===== src/Auth/Bootstrap/Weak.antt =====
-- What `EnsureDefaultAdmin` of backend/internal/service/auth_service.go does with a weak password in
-- production.
use snow_panel.Prelude.{
  ℕ, ◌≡◌, ◌⊎◌, refl, inl, inr, trim_space, is_empty, true, false, not, Option, none, some, List,
  ◌==◌,
}
use snow_panel.Errors.{GoError, Result, ok, err}
use snow_panel.Program.Keeps.{Keeps, return-Keeps, bind-Keeps, if-Keeps}
use snow_panel.Program.Hoare.{Does, bind-Does, return-Does, if-Does}
use snow_panel.Auth.Users.{User}
use snow_panel.Auth.Env.{AuthEnv, AuthWorld, return, repo_count, repo_get_by_username}
use snow_panel.Auth.Env.Steps.{
  IsSingle, OnUsers, perform-Keeps, defaults-Keeps, role-Keeps, Does-Keeps,
}
use snow_panel.Auth.Password.{is_strong_password, is_production_env}
use snow_panel.Auth.Bootstrap.{
  resolve_bootstrap_password, create_admin, promote_admin, ensure_admin, ensure_default_admin,
}

-- The environment is that of production, and the password for the administrator is missing or weak.
abbrev pub IsWeak : AuthEnv → Type 0
IsWeak e =
    let password = trim_space e.cfg.default_admin_password in
    (is_production_env e.equal_fold e.cfg.app_env ≡ true)
    × ((is_empty password ≡ true)
        ⊎ ((is_empty password ≡ false) × (is_strong_password password ≡ false)))

abbrev IsError : {R : Type 0} → Result R → Type 0
IsError (err x) = Unit
IsError (ok a) = ⊥

module _ (e : AuthEnv) (single : IsSingle e) (weak : IsWeak e) (users : List User) where
  abbrev Has : List User → ℕ → Type 0
  Has us next = us ≡ users

  abbrev Same : AuthWorld → Type 0
  Same w = OnUsers Has w.db

  refused :
      {R : Type 0} (x : GoError)
      → Does Same (return (err x)) (λ (r : Result R) w. IsError r × Same w)
  refused x = return-Does _ (λ w h. (tt, h))

  password-Does : Does Same (resolve_bootstrap_password e) (λ r w. IsError r × Same w)
  unfolding resolve_bootstrap_password
  password-Does = if-Does (is_empty (trim_space e.cfg.default_admin_username)) (refused _) (
      if-Does (is_empty (trim_space e.cfg.default_admin_email)) (refused _) (elim weak.1 [
        | inl missing ↦ rw (missing, weak.0) (refused _)
        | inr (given, simple) ↦ rw (given, weak.0, simple) (refused _)
      ]))

  create-Keeps : Keeps Same (create_admin e)
  unfolding create_admin
  create-Keeps = Does-Keeps (
      bind-Does password-Does (elim [
        | err x ↦ return-Does _ (λ w h. h.1)
        | ok password ↦ record { at = λ w h. absurd h.0 }
      ]))

  promote-Keeps : (o : Option User) → Keeps Same (promote_admin e o)
  unfolding promote_admin
  promote-Keeps none = return-Keeps _
  promote-Keeps (some u) = bind-Keeps (role-Keeps e single Has u.id _) λ r. return-Keeps _

  admin-Keeps : Keeps Same (ensure_admin e)
  unfolding ensure_admin repo_count repo_get_by_username
  admin-Keeps = bind-Keeps (perform-Keeps e single (OnUsers Has) _ (λ now db h. h)) (elim [
    | err x ↦ return-Keeps _
    | ok count ↦
        if-Keeps (count == 0)
          (bind-Keeps create-Keeps
            (elim [ err x ↦ return-Keeps _ | ok u ↦ promote-Keeps (some u) ]))
          (bind-Keeps (perform-Keeps e single (OnUsers Has) _ (λ now db h. h))
            (elim [ err x ↦ return-Keeps _ | ok existing ↦ promote-Keeps existing ]))
  ])

  default-Keeps : Keeps Same (ensure_default_admin e)
  unfolding ensure_default_admin
  default-Keeps = bind-Keeps (defaults-Keeps e single Has) (elim [
    | err x ↦ return-Keeps _
    | ok _ ↦ if-Keeps (not e.cfg.bootstrap_admin) (return-Keeps _) admin-Keeps
  ])

-- In production, `EnsureDefaultAdmin` makes and changes no user if the password for the administrator
-- is missing or weak, whichever statements fail, as long as no other process writes.
pub weak_password_makes_no_user :
    (e : AuthEnv) (w : AuthWorld)
    → IsSingle e
    → IsWeak e
    → (ensure_default_admin e w).1.db.users ≡ w.db.users
weak_password_makes_no_user e w single weak = (default-Keeps e single weak w.db.users).at w refl
