-- ===== src/Auth/Env/Steps.antt =====
-- What the steps of backend/internal/service/auth_service.go keep and read, when no other process
-- writes.
use snow_panel.Prelude.{
  ℕ, ◌≡◌, refl, sym, subst, ◌∙◌, Text, Bool, inl, inr, Bool-cases, Option, none, some, List, any_of,
  not, first_of_list,
}
use mathlib.Core.Option.{some-injective}
use snow_panel.Errors.{GoError, Result, ok, err, Result-cases}
use snow_panel.Program.Keeps.{Keeps, return-Keeps, bind-Keeps}
use snow_panel.Program.Hoare.{Does, bind-Does}
use snow_panel.Auth.Users.{User, UserDb, has_user_id}
use snow_panel.Auth.Roles.{insert_roles, ensure_rbac_defaults, add_user_role, role_seeds, is_member}
use snow_panel.Auth.Env.{
  AuthEnv, A, ◌>>=◌, perform, reads, writes, clock, draw_random, hash_password,
  repo_ensure_rbac_defaults, repo_ensure_user_role_by_slug, repo_get_roles_and_permissions,
}

-- No other process writes.
abbrev pub IsSingle : AuthEnv → Type 0
IsSingle e = (n : ℕ) (db : UserDb) → (e.turn n).others db ≡ db

-- What a statement that reads `f` gives, if it does not fail.
abbrev pub IsRead : {R : Type 0} → (UserDb → R) → Result R → UserDb → Type 0
IsRead f (ok r) db = r ≡ f db
IsRead f (err x) db = Unit

-- What holds if a method gives no error.
abbrev pub IfOk : {R : Type 0} → (UserDb → Type 0) → Result R → UserDb → Type 0
IfOk Q (ok r) db = Q db
IfOk Q (err x) db = Unit

pub to_IfOk : {R : Type 0} (Q : UserDb → Type 0) (r : Result R) (db : UserDb) → Q db → IfOk Q r db
to_IfOk Q (ok r) db q = q
to_IfOk Q (err x) db q = tt

pub Keeps-IfOk :
    {R : Type 0} {Q : UserDb → Type 0} {m : A (Result R)}
    → Keeps (λ w. Q w.db) m
    → Does (λ w. Q w.db) m (λ r w. IfOk Q r w.db)
Keeps-IfOk {Q = Q} {m = m} k = record { at = λ w q. to_IfOk Q (m w).0 (m w).1.db (k.at w q) }

pub Keeps-Does : {W R : Type 0} {P : W → Type 0} {m : W → R × W} → Keeps P m → Does P m (λ _. P)
Keeps-Does k = record { at = λ w p. k.at w p }

pub Does-Keeps : {W R : Type 0} {P : W → Type 0} {m : W → R × W} → Does P m (λ _. P) → Keeps P m
Does-Keeps d = record { at = λ w p. d.at w p }

module _ (e : AuthEnv) (single : IsSingle e) where
  pub perform-Keeps :
      {R : Type 0} (P : UserDb → Type 0) (op : ℕ → UserDb → Result R × UserDb)
      → ((now : ℕ) (db : UserDb) → P db → P (op now db).1)
      → Keeps (λ w. P w.db) (perform e op)
  unfolding perform
  perform-Keeps P op keep = record {
    at = λ w p. elim (Bool-cases (e.turn w.steps).fails) [
      | inl down ↦ rw (down, single w.steps w.db) p
      | inr up ↦ rw (up, single w.steps w.db) (keep (e.turn w.steps).now w.db p)
    ];
  }

  pub perform-Does :
      {R : Type 0} (P Q : UserDb → Type 0) (op : ℕ → UserDb → Result R × UserDb)
      → ((db : UserDb) → P db → Q db)
      → ((now : ℕ) (db : UserDb) → P db → Q (op now db).1)
      → Does (λ w. P w.db) (perform e op) (λ _ w. Q w.db)
  unfolding perform
  perform-Does P Q op stay go = record {
    at = λ w p. elim (Bool-cases (e.turn w.steps).fails) [
      | inl down ↦ rw (down, single w.steps w.db) (stay w.db p)
      | inr up ↦ rw (up, single w.steps w.db) (go (e.turn w.steps).now w.db p)
    ];
  }

  pub reads-Does :
      {R : Type 0} (P : UserDb → Type 0) (f : UserDb → R)
      → Does (λ w. P w.db) (reads e f) (λ r w. P w.db × IsRead f r w.db)
  unfolding perform
  reads-Does P f = record {
    at = λ w p. elim (Bool-cases (e.turn w.steps).fails) [
      | inl down ↦ rw (down, single w.steps w.db) (p, tt)
      | inr up ↦ rw (up, single w.steps w.db) (p, refl)
    ];
  }

  pub writes-Does :
      (P Q : UserDb → Type 0) (f : ℕ → UserDb → UserDb)
      → ((now : ℕ) (db : UserDb) → P db → Q (f now db))
      → Does (λ w. P w.db) (writes e f) (λ r w. IfOk Q r w.db)
  unfolding perform
  writes-Does P Q f go = record {
    at = λ w p. elim (Bool-cases (e.turn w.steps).fails) [
      | inl down ↦ rw down tt
      | inr up ↦ rw (up, single w.steps w.db) (go (e.turn w.steps).now w.db p)
    ];
  }

  pub clock-Keeps : (P : UserDb → Type 0) → Keeps (λ w. P w.db) (clock e)
  unfolding clock
  clock-Keeps P = record { at = λ w p. p }

  pub random-Keeps : (P : UserDb → Type 0) (n : ℕ) → Keeps (λ w. P w.db) (draw_random e n)
  unfolding draw_random
  random-Keeps P n = record { at = λ w p. p }

  pub hash-Keeps :
      (P : UserDb → Type 0) (password : Text) → Keeps (λ w. P w.db) (hash_password e password)
  unfolding hash_password
  hash-Keeps P password = record { at = λ w p. p }

-- A property of the table of users alone, and methods that do not touch it.
abbrev pub OnUsers : (List User → ℕ → Type 0) → UserDb → Type 0
OnUsers Q db = Q db.users db.next_user_id

module _ (e : AuthEnv) (single : IsSingle e) (Q : List User → ℕ → Type 0) where
  ensure-OnUsers :
      (now : ℕ) (db : UserDb) → OnUsers Q db → OnUsers Q (ensure_rbac_defaults now db).1
  unfolding ensure_rbac_defaults
  ensure-OnUsers now db q = elim (Result-cases (insert_roles role_seeds now db.rbac)) [
    | inl (x, h) ↦ rw (h, ensure_rbac_defaults) q
    | inr (r, h) ↦ rw (h, ensure_rbac_defaults) q
  ]

  pub defaults-Keeps : Keeps (λ w. OnUsers Q w.db) (repo_ensure_rbac_defaults e)
  unfolding repo_ensure_rbac_defaults
  defaults-Keeps = perform-Keeps e single (OnUsers Q) _ ensure-OnUsers

  add_user_role-OnUsers :
      (user role now : ℕ) (db : UserDb)
      → OnUsers Q db
      → OnUsers Q (add_user_role user role now db).1
  unfolding add_user_role
  add_user_role-OnUsers user role now db q =
      elim (Bool-cases (not (any_of (has_user_id user) db.users))) [
        | inl a ↦ rw a q
        | inr a ↦ rw a (elim (Bool-cases (any_of (is_member user role) db.rbac.user_roles)) [
          | inl b ↦ rw b q
          | inr b ↦ rw b q
        ])
      ]

  pub role-Keeps :
      (user : ℕ) (slug : Text)
      → Keeps (λ w. OnUsers Q w.db) (repo_ensure_user_role_by_slug e user slug)
  unfolding repo_ensure_user_role_by_slug
  role-Keeps user slug = bind-Keeps (perform-Keeps e single (OnUsers Q) _ (λ now db q. q)) (elim [
    | err x ↦ return-Keeps _
    | ok none ↦ return-Keeps _
    | ok (some r) ↦ perform-Keeps e single (OnUsers Q) _ (add_user_role-OnUsers user r.id)
  ])

  pub rbac-Keeps : (user : ℕ) → Keeps (λ w. OnUsers Q w.db) (repo_get_roles_and_permissions e user)
  unfolding repo_get_roles_and_permissions
  rbac-Keeps user = bind-Keeps (perform-Keeps e single (OnUsers Q) _ (λ now db q. q)) (elim [
    | err x ↦ return-Keeps _
    | ok roles ↦
        bind-Keeps (perform-Keeps e single (OnUsers Q) _ (λ now db q. q))
          (elim [ err x ↦ return-Keeps _ | ok permissions ↦ return-Keeps _ ])
  ])

-- A lookup in the table of users finds `u`.
abbrev pub Finds : (List User → ℕ → Type 0) → (User → Bool) → User → List User → ℕ → Type 0
Finds Q test u us next = Q us next × (first_of_list test us ≡ some u)

pub lookup-Does :
    (e : AuthEnv)
    → IsSingle e
    → {R : Type 0} (Q : List User → ℕ → Type 0) (Z : UserDb → Type 0) (test : User → Bool)
      (u : User) (f : Result (Option User) → A (Result R))
    → ((x : GoError) → Does (λ w. OnUsers Q w.db) (f (err x)) (λ r w. IfOk Z r w.db))
    → Does (λ w. OnUsers Q w.db) (f (ok (some u))) (λ r w. IfOk Z r w.db)
    → Does
        (λ w. OnUsers (Finds Q test u) w.db)
        (reads e (λ db. first_of_list test db.users) >>= f)
        (λ r w. IfOk Z r w.db)
lookup-Does e single Q Z test u f bad good =
    bind-Does (reads-Does e single (OnUsers (Finds Q test u)) (λ db. first_of_list test db.users))
      (elim [
        | err x ↦ record { at = λ w h. (bad x).at w h.0.0 }
        | ok none ↦ record { at = λ w h. absurd (missing (h.1 ∙ h.0.1)) }
        | ok (some v) ↦ record {
          at = λ w h.
              let same : u ≡ v = sym (some-injective v u (h.1 ∙ h.0.1)) in
              subst (λ x. IfOk Z (f (ok (some x)) w).0 (f (ok (some x)) w).1.db) same
                (good.at w h.0.0);
        }
      ])
  where
    missing : none ≡ some u → ⊥
    missing q = cc
