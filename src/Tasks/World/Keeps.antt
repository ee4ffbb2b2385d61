-- ===== src/Tasks/World/Keeps.antt =====
-- A property of the tables that every statement of a method and every write of others keeps holds
-- after the method, whichever statements fail.
use snow_panel.Prelude.{
  ℕ, ◌≡◌, ◌≤◌, refl, Text, Option, none, some, List, [], ◌∷◌, All, arith, Bool-cases, inl, inr, ◌≢◌,
  sym, ◌∙◌,
}
use snow_panel.Errors.{Result, ok, err}
use snow_panel.Tasks.Model.{Status, pending, Task, Metadata}
use snow_panel.Tasks.Repository.{Db, create, get_by_id}
use snow_panel.Tasks.Repository.Actions.{
  Action, creates, claims, completes, fails, releases, updates, logs, act,
}
use snow_panel.Tasks.Repository.Invariant.{IsValid, IsIssued, IsNew, act-IsValid}
use snow_panel.Tasks.Repository.Rows.{IsRow}
use snow_panel.Tasks.Repository.Updates.{All-Mem}
use snow_panel.Tasks.Repository.Lookup.{find_sound, get_by_id_lem}
use snow_panel.Tasks.World.{
  Env, World, M, ◌>>=◌, interfere, arrive, perform, clock, repo_create, repo_claim, repo_complete,
  repo_fail, repo_release, repo_update_status, repo_count, repo_get, repo_get_by_key, repo_log,
  ask_container, ask_service, ask_backup, observe, spawn, ServiceCall, Observation, Spawned,
}
pub use snow_panel.Program.Keeps.{
  Keeps, return-Keeps, bind-Keeps, if-Keeps, option-Keeps, result-Keeps,
}

-- The other processes issue what the service issues.
abbrev pub IsFair : Env → Type 0
IsFair e = (n : ℕ) → All IsIssued (e.turn n).others

abbrev pub Valid : World → Type 0
Valid w = IsValid w.db

interfere-IsValid :
    (now : ℕ) (acts : List Action) (db : Db)
    → All IsIssued acts
    → IsValid db
    → IsValid (interfere now acts db)
unfolding interfere
interfere-IsValid now [] db i v = v
interfere-IsValid now (a ∷ rest) db i v =
    interfere-IsValid now rest (act now a db) i.1 (act-IsValid now a db i.0 v)

module _ (e : Env) (fair : IsFair e) where
  pub arrive-IsValid : (w : World) → IsValid w.db → IsValid (arrive e w)
  unfolding arrive
  arrive-IsValid w v =
      interfere-IsValid (e.turn w.steps).now (e.turn w.steps).others w.db (fair w.steps) v

  pub perform-Keeps :
      {A : Type 0} (op : ℕ → Db → Result A × Db)
      → ((now : ℕ) (db : Db) → IsValid db → IsValid (op now db).1)
      → Keeps Valid (perform e op)
  unfolding perform
  perform-Keeps op keep = record {
    at = λ w v. elim (Bool-cases (e.turn w.steps).fails) [
      | inl down ↦ rw down (arrive-IsValid w v)
      | inr up ↦ rw up (keep (e.turn w.steps).now (arrive e w) (arrive-IsValid w v))
    ];
  }

  pub create-Keeps : (t : Task) → IsNew t → Keeps Valid (repo_create e t)
  unfolding repo_create act
  create-Keeps t n = perform-Keeps (create t) (λ now db. act-IsValid now (creates t) db n)

  pub claim-Keeps : (worker : Text) (lease : ℕ) → Keeps Valid (repo_claim e worker lease)
  unfolding repo_claim act
  claim-Keeps worker lease = perform-Keeps _ (λ now db. act-IsValid now (claims worker lease) db tt)

  pub complete-Keeps :
      (id : ℕ) (worker result : Text) → Keeps Valid (repo_complete e id worker result)
  unfolding repo_complete act
  complete-Keeps id worker result =
      perform-Keeps _ (λ now db. act-IsValid now (completes id worker result) db tt)

  pub fail-Keeps :
      (id : ℕ) (worker message : Text) (next : Option ℕ)
      → Keeps Valid (repo_fail e id worker message next)
  unfolding repo_fail act
  fail-Keeps id worker message next =
      perform-Keeps _ (λ now db. act-IsValid now (fails id worker message next) db tt)

  pub release-Keeps : (now : ℕ) → Keeps Valid (repo_release e now)
  unfolding repo_release act
  release-Keeps now = perform-Keeps _ (λ _ db. act-IsValid now releases db tt)

  pub update-Keeps :
      (id : ℕ) (status : Status) (progress : ℕ) (message : Text)
      → status ≢ pending
      → progress ≤ 100
      → Keeps Valid (repo_update_status e id status progress message)
  unfolding repo_update_status act
  update-Keeps id status progress message s p =
      perform-Keeps _ (λ now db. act-IsValid now (updates id status progress message) db (s, p))

  pub count-Keeps : (s : Status) → Keeps Valid (repo_count e s)
  unfolding repo_count
  count-Keeps s = perform-Keeps _ (λ now db v. v)

  pub get-Keeps : (id : ℕ) → Keeps Valid (repo_get e id)
  unfolding repo_get
  get-Keeps id = perform-Keeps _ (λ now db v. v)

  pub get_by_key-Keeps : (key : Text) → Keeps Valid (repo_get_by_key e key)
  unfolding repo_get_by_key
  get_by_key-Keeps key = perform-Keeps _ (λ now db v. v)

  pub log-Keeps :
      (id : ℕ) (level message : Text) (metadata : Metadata)
      → Keeps Valid (repo_log e id level message metadata)
  unfolding repo_log act
  log-Keeps id level message metadata =
      bind-Keeps (perform-Keeps _ (λ now db. act-IsValid now (logs _) db tt)) (λ _. return-Keeps tt)

  pub clock-Keeps : Keeps Valid (clock e)
  unfolding clock
  clock-Keeps = record { at = λ w v. v }

  pub ask_container-Keeps : (id : Text) → Keeps Valid (ask_container e id)
  unfolding ask_container
  ask_container-Keeps id = record { at = λ w v. v }

  pub ask_service-Keeps : (name : Text) → Keeps Valid (ask_service e name)
  unfolding ask_service
  ask_service-Keeps name = record { at = λ w v. v }

  pub ask_backup-Keeps : (c : ServiceCall) → Keeps Valid (ask_backup e c)
  unfolding ask_backup
  ask_backup-Keeps c = record { at = λ w v. v }

  pub observe-Keeps : (o : Observation) → Keeps Valid (observe e o)
  unfolding observe
  observe-Keeps o = record { at = λ w v. ground arith }

pub spawn-Keeps : (g : Spawned) → Keeps Valid (spawn g)
unfolding spawn
spawn-Keeps g = record { at = λ w v. v }

-- A row that `GetByID` gives is one of a well-formed table.
abbrev pub RowFound : Result (Option Task) → Type 0
RowFound (ok (some t)) = IsRow t
RowFound (ok none) = Unit
RowFound (err x) = Unit

found_row :
    (o : Option Task) (id : ℕ) (db : Db) → IsValid db → get_by_id id db ≡ o → RowFound (ok o)
found_row none id db v p = tt
found_row (some t) id db v p =
    All-Mem IsRow db.tasks t v.rows (find_sound id db.tasks t (sym (get_by_id_lem id db) ∙ p)).1

module _ (e : Env) (fair : IsFair e) (id : ℕ) where
  repo_get-RowFound : (w : World) → IsValid w.db → RowFound (repo_get e id w).0
  unfolding repo_get perform
  repo_get-RowFound w v = elim (Bool-cases (e.turn w.steps).fails) [
    | inl down ↦ rw down tt
    | inr up ↦ rw up (found_row _ id (arrive e w) (arrive-IsValid e fair w v) refl)
  ]

  pub bind-get-Keeps :
      {A : Type 0} {f : Result (Option Task) → M A}
      → ((r : Result (Option Task)) → RowFound r → Keeps Valid (f r))
      → Keeps Valid (repo_get e id >>= f)
  unfolding ◌>>=◌
  bind-get-Keeps h = record {
    at = λ w v.
        (h (repo_get e id w).0 (repo_get-RowFound w v)).at (repo_get e id w).1
          ((get-Keeps e fair id).at w v);
  }
