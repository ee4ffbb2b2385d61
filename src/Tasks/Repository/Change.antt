-- ===== src/Tasks/Repository/Change.antt =====
-- What a statement does to one row: the writes of the repository as steps of a task.
use snow_panel.Prelude.{
  ℕ, ◌≡◌, refl, Text, Bool, true, Option, some, List, [], ◌∷◌, Bool-cases, inl, inr, any_of,
  if◌then◌else◌, ==_iff, subst, sym, ap, All,
}
use mathlib.Core.List.{Memᴰ}
use mathlib.Core.Path.{◌∙◌}
use snow_panel.Tasks.Model.{Status, Task}
use snow_panel.Tasks.Repository.{
  Db, create, claim_next_task, heartbeat_task, complete_task, fail_task, release_stale_tasks,
  update_status, append_log, claimable, claim_row, heartbeat_row, complete_row, fail_row,
  release_row, status_row, has_id, has_key, holds_lease, is_stale, update_where,
}
use snow_panel.Tasks.Repository.Actions.{
  Action, creates, claims, heartbeats, completes, fails, releases, updates, logs, act,
}
use snow_panel.Tasks.Repository.Updates.{KeepsIdentity, Distinct, ids_determine}
use snow_panel.Tasks.Repository.Claim.{oldest_found}
use snow_panel.Tasks.Repository.Lookup.{find, find_sound, find-update_where, find-append}
use snow_panel.Tasks.Repository.Invariant.{claim_row_identity, fail_row_identity}

-- `Change now t a t'`: the action `a` at the time `now` may turn the row `t` into `t'`.
pub data Change (now : ℕ) (t : Task) : Action → Task → Type 0 where
  kept : {a : Action} → Change now t a t
  claimed :
      {worker : Text} {lease : ℕ}
      → claimable now t ≡ true
      → Change now t (claims worker lease) (claim_row worker lease now t)
  renewed :
      {id : ℕ} {worker : Text} {lease : ℕ}
      → holds_lease id worker t ≡ true
      → Change now t (heartbeats id worker lease) (heartbeat_row lease now t)
  completed :
      {id : ℕ} {worker result : Text}
      → holds_lease id worker t ≡ true
      → Change now t (completes id worker result) (complete_row result now t)
  gave_up :
      {id : ℕ} {worker message : Text} {next : Option ℕ}
      → holds_lease id worker t ≡ true
      → Change now t (fails id worker message next) (fail_row message next now t)
  released : is_stale now t ≡ true → Change now t releases (release_row now t)
  updated :
      {id : ℕ} {status : Status} {progress : ℕ} {message : Text}
      → t.id ≡ id
      → Change now t (updates id status progress message) (status_row status progress message now t)

abbrev pub Changes : ℕ → ℕ → Task → Action → List Task → Type 0
Changes id now t a ts = (u : Task) × (find id ts ≡ some u) × Change now t a u

updated_row :
    (id now : ℕ) (a : Action) (c : Task → Bool) (f : Task → Task) (ts : List Task) (t : Task)
    → KeepsIdentity f
    → find id ts ≡ some t
    → (c t ≡ true → Change now t a (f t))
    → Changes id now t a (update_where c f ts)
updated_row id now a c f ts t k e change = elim (Bool-cases (c t)) [
  | inl hit ↦ (
    f t,
    subst (λ b. find id (update_where c f ts) ≡ some (if b then f t else t)) hit
        (find-update_where id c f ts t k e),
    change hit,
  )
  | inr miss ↦ (
    t,
    subst (λ b. find id (update_where c f ts) ≡ some (if b then f t else t)) miss
        (find-update_where id c f ts t k e),
    kept,
  )
]

claim-Changes :
    (id now : ℕ) (worker : Text) (lease : ℕ) (db : Db) (t : Task)
    → Distinct db.tasks
    → find id db.tasks ≡ some t
    → Changes id now t (claims worker lease) (claim_next_task worker lease now db).1.tasks
unfolding claim_next_task
claim-Changes id now worker lease db t d e = elim (oldest_found (claimable now) db.tasks) [
  | inl (n, _) ↦ rw (n, claim_next_task) (t, e, kept)
  | inr (w, n, c, m, _) ↦
      rw (n, claim_next_task)
        (updated_row id now (claims worker lease) (has_id w.id) (claim_row worker lease now)
          db.tasks t (claim_row_identity worker lease now) e
          (λ hit. claimed (subst (λ u. claimable now u ≡ true) (sym (same w m hit)) c)))
]
  where
    same : (w : Task) → Memᴰ w db.tasks → has_id w.id t ≡ true → t ≡ w
    same w m hit =
        found db.tasks (ids_determine db.tasks w d m) (find_sound id db.tasks t e).1
          ((==_iff t.id w.id).0 hit)
      where
        found :
            (ts : List Task) → All (λ u. u.id ≡ w.id → u ≡ w) ts → Memᴰ t ts → t.id ≡ w.id → t ≡ w
        found [] h m p = elim m [ ]
        found (u ∷ ts) h (Memᴰ.head q) p = q ∙ h.0 (ap (λ (x : Task). x.id) (sym q) ∙ p)
        found (u ∷ ts) h (Memᴰ.tail n) p = found ts h.1 n p

create-Changes :
    (id now : ℕ) (new : Task) (db : Db) (t : Task)
    → find id db.tasks ≡ some t
    → Changes id now t (creates new) (create new now db).1.tasks
unfolding create
create-Changes id now new db t e =
    elim (Bool-cases (any_of (has_key new.idempotency_key) db.tasks)) [
      | inl clash ↦ rw clash (t, e, kept)
      | inr free ↦ rw free (t, find-append id db.tasks _ t e, kept)
    ]

-- Every statement turns each row into at most one next row, by the step of that statement, and
-- loses none.
pub act-Change :
    (id now : ℕ) (a : Action) (db : Db) (t : Task)
    → Distinct db.tasks
    → find id db.tasks ≡ some t
    → Changes id now t a (act now a db).tasks
unfolding act
act-Change id now (creates new) db t d e = create-Changes id now new db t e
act-Change id now (claims worker lease) db t d e = claim-Changes id now worker lease db t d e
act-Change id now (heartbeats i worker lease) db t d e =
    unfold heartbeat_task in
    updated_row id now (heartbeats i worker lease) (holds_lease i worker) (heartbeat_row lease now)
      db.tasks t (unfold heartbeat_row in record { same_id = λ u. refl; same_key = λ u. refl }) e
      renewed
act-Change id now (completes i worker result) db t d e =
    unfold complete_task in
    updated_row id now (completes i worker result) (holds_lease i worker) (complete_row result now)
      db.tasks t (unfold complete_row in record { same_id = λ u. refl; same_key = λ u. refl }) e
      completed
act-Change id now (fails i worker message next) db t d e =
    unfold fail_task in
    updated_row id now (fails i worker message next) (holds_lease i worker)
      (fail_row message next now) db.tasks t (fail_row_identity message next now) e gave_up
act-Change id now releases db t d e =
    unfold release_stale_tasks in
    updated_row id now releases (is_stale now) (release_row now) db.tasks t
      (unfold release_row in record { same_id = λ u. refl; same_key = λ u. refl }) e released
act-Change id now (updates i status progress message) db t d e =
    unfold update_status in
    updated_row id now (updates i status progress message) (has_id i)
      (status_row status progress message now) db.tasks t
      (unfold status_row in record { same_id = λ u. refl; same_key = λ u. refl }) e
      (λ h. updated ((==_iff t.id i).0 h))
act-Change id now (logs entry) db t d e = unfold append_log in (t, e, kept)
