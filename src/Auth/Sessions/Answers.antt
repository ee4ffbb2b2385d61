-- ===== src/Auth/Sessions/Answers.antt =====
-- What the answers of backend/internal/service/auth_service.go to a user leave alone, whichever
-- statements fail.
use snow_panel.Prelude.{ℕ, ℤ, Text, Bool, false, List, [], ◌∷◌}
use snow_panel.Errors.{ok, err}
use snow_panel.Program.Keeps.{Keeps, return-Keeps, bind-Keeps}
use snow_panel.Auth.Users.{User, UserDb}
use snow_panel.Auth.Env.{AuthEnv}
use snow_panel.Auth.Env.Steps.{IsSingle, OnUsers, clock-Keeps, random-Keeps, role-Keeps, rbac-Keeps}
use snow_panel.Auth.Tokens.{generate_token, generate_token_pair}
use snow_panel.Auth.Sessions.{resolve_user_rbac, respond}
use snow_panel.Auth.Sessions.Change.{answer_changed}

module _ (e : AuthEnv) (single : IsSingle e) where
  pub resolve-Keeps :
      (Q : List User → ℕ → Type 0) (u : User) → Keeps (λ w. OnUsers Q w.db) (resolve_user_rbac e u)
  unfolding resolve_user_rbac
  resolve-Keeps Q u = bind-Keeps (rbac-Keeps e single Q u.id) (elim [
    | err x ↦ return-Keeps _
    | ok (_ ∷ _, _) ↦ return-Keeps _
    | ok ([], _) ↦
        bind-Keeps (role-Keeps e single Q u.id _)
          (elim [ err x ↦ return-Keeps _ | ok _ ↦ rbac-Keeps e single Q u.id ])
  ])

  generate-Keeps :
      (P : UserDb → Type 0) (u : User) (roles permissions : List Text) (must : Bool)
      (purpose checksum : Text) (expire : ℕ) (session : ℤ)
      → Keeps
          (λ w. P w.db)
          (generate_token e u roles permissions must purpose checksum expire session)
  unfolding generate_token
  generate-Keeps P u roles permissions must purpose checksum expire session =
      bind-Keeps (clock-Keeps e single P) λ now.
        bind-Keeps (random-Keeps e single P 16)
          (elim [ err x ↦ return-Keeps _ | ok token_id ↦ return-Keeps _ ])

  pub respond-Keeps :
      (P : UserDb → Type 0) (u : User) (roles permissions : List Text) (must : Bool) (session : ℕ)
      → Keeps (λ w. P w.db) (respond e u roles permissions must session)
  unfolding respond generate_token_pair
  respond-Keeps P u roles permissions must session =
      bind-Keeps
        (bind-Keeps (clock-Keeps e single P) λ now.
          bind-Keeps (generate-Keeps P u roles permissions must _ _ _ _) (elim [
            | err x ↦ return-Keeps _
            | ok access ↦
                bind-Keeps (generate-Keeps P u roles permissions must _ _ _ _)
                  (elim [ err x ↦ return-Keeps _ | ok r ↦ return-Keeps _ ])
          ]))
        λ r. return-Keeps _

  pub answer-Keeps :
      (Q : List User → ℕ → Type 0) (u : User) (session : ℕ)
      → Keeps (λ w. OnUsers Q w.db) (answer_changed e u session)
  unfolding answer_changed
  answer-Keeps Q u session = bind-Keeps (resolve-Keeps Q u) (elim [
    | err x ↦ return-Keeps _
    | ok rbac ↦ respond-Keeps (OnUsers Q) u rbac.0 rbac.1 false session
  ])
