-- ===== src/Tasks/Repository/Invariant.antt =====
-- The invariant of the tables, and that every statement keeps it.
use snow_panel.Prelude.{
  ℕ, suc, ◌≤◌, ◌≡◌, ◌≢◌, refl, Text, Bool, true, Option, none, some, List, [], ◌∷◌, All, All-append,
  any_of, arith, Bool-cases, inl, inr, subst, sym, ==_iff,
}
use snow_panel.Tasks.Model.{pending, Task}
use snow_panel.Tasks.Repository.{
  Db, create, inserted, claim_next_task, heartbeat_task, complete_task, fail_task,
  release_stale_tasks, update_status, append_log, claimable, claim_row, heartbeat_row, complete_row,
  fail_row, release_row, status_row, update_where, has_id, has_key, holds_lease, is_stale,
}
use snow_panel.Tasks.Repository.Actions.{
  Action, creates, claims, heartbeats, completes, fails, releases, updates, logs, act, act_all,
}
use snow_panel.Tasks.Repository.Claim.{oldest_found}
use snow_panel.Tasks.Repository.Rows.{
  IsRow, claim_row-IsRow, heartbeat_row-IsRow, complete_row-IsRow, fail_row-IsRow,
  release_row-IsRow, status_row-IsRow,
}
use snow_panel.Tasks.Repository.Updates.{
  ids_determine, All-update_where, All-update_where_from, Distinct, KeepsIdentity,
  update_where-Distinct, Below, Distinct-append, any_of-has_key,
}

pub record IsValid (db : Db) : Type 0 where
  pub rows : All IsRow db.tasks
  pub below : All (Below db.next_id) db.tasks
  pub distinct : Distinct db.tasks

-- What the service gives to `Create` and `UpdateStatus`.
pub record IsNew (t : Task) : Type 0 where
  pub unlocked_new : t.locked_by ≡ none
  pub unpaired_new : t.locked_until ≡ none
  pub attempt_new : t.attempt ≡ 0
  pub progress_new : t.progress ≡ 0

abbrev pub IsIssued : Action → Type 0
IsIssued (creates t) = IsNew t
IsIssued (updates id status progress message) = (status ≢ pending) × (progress ≤ 100)
IsIssued (claims worker lease) = Unit
IsIssued (heartbeats id worker lease) = Unit
IsIssued (completes id worker result) = Unit
IsIssued (fails id worker message next) = Unit
IsIssued releases = Unit
IsIssued (logs entry) = Unit

-- An `UPDATE` whose `SET` clause keeps the rows well formed keeps the tables well formed.
pub update-IsValid :
    (c : Task → Bool) (f : Task → Task) (db : Db)
    → KeepsIdentity f
    → ((t : Task) → c t ≡ true → IsRow t → IsRow (f t))
    → IsValid db
    → IsValid (record db { tasks = update_where c f db.tasks })
update-IsValid c f db k keep v = record {
  rows = All-update_where IsRow c f db.tasks keep v.rows;
  below =
      All-update_where (Below db.next_id) c f db.tasks (λ t _ b. omega (arith, k.same_id t, b))
        v.below;
  distinct = update_where-Distinct c f db.tasks k v.distinct;
}

inserted-IsRow : (id now : ℕ) (t : Task) → IsNew t → IsRow (inserted id now t)
unfolding inserted
inserted-IsRow id now t n = ground arith

All-Below-suc : (n : ℕ) (ts : List Task) → All (Below n) ts → All (Below (suc n)) ts
All-Below-suc n [] h = tt
All-Below-suc n (t ∷ ts) h = (omega (arith, h.0), All-Below-suc n ts h.1)

inserted_key : (id now : ℕ) (t : Task) → (inserted id now t).idempotency_key ≡ t.idempotency_key
unfolding inserted
inserted_key id now t = refl

inserted_id : (id now : ℕ) (t : Task) → (inserted id now t).id ≡ id
unfolding inserted
inserted_id id now t = refl

create-IsValid : (t : Task) (now : ℕ) (db : Db) → IsNew t → IsValid db → IsValid (create t now db).1
unfolding create
create-IsValid t now db n v = elim (Bool-cases (any_of (has_key t.idempotency_key) db.tasks)) [
  | inl clash ↦ rw clash v
  | inr free ↦ rw free (record {
    rows = All-append IsRow db.tasks _ v.rows (inserted-IsRow db.next_id now t n, tt);
    below =
        All-append (Below (suc db.next_id)) db.tasks _ (All-Below-suc db.next_id db.tasks v.below)
          (omega (arith, inserted_id db.next_id now t), tt);
    distinct =
        Distinct-append db.tasks (inserted db.next_id now t)
          (any_of-has_key t.idempotency_key db.next_id db.tasks (inserted db.next_id now t) free
            (inserted_key db.next_id now t) (inserted_id db.next_id now t) v.below)
          v.distinct;
  })
]

pub claim_row_identity :
    (worker : Text) (lease now : ℕ) → KeepsIdentity (claim_row worker lease now)
unfolding claim_row
claim_row_identity worker lease now = record { same_id = λ t. refl; same_key = λ t. refl }

pub fail_row_identity :
    (message : Text) (next : Option ℕ) (now : ℕ) → KeepsIdentity (fail_row message next now)
unfolding fail_row
fail_row_identity message none now = record { same_id = λ t. refl; same_key = λ t. refl }
fail_row_identity message (some at) now = record { same_id = λ t. refl; same_key = λ t. refl }

pub holds_lease_locked :
    (id : ℕ) (worker : Text) (t : Task) → holds_lease id worker t ≡ true → t.locked_by ≢ none
unfolding holds_lease
holds_lease_locked id worker t h = ground arith

All-both : (P Q : Task → Type 0) (ts : List Task) → All P ts → All Q ts → All (λ t. P t × Q t) ts
All-both P Q [] h k = tt
All-both P Q (t ∷ ts) h k = ((h.0, k.0), All-both P Q ts h.1 k.1)

claim-IsValid :
    (worker : Text) (lease now : ℕ) (db : Db)
    → IsValid db
    → IsValid (claim_next_task worker lease now db).1
unfolding claim_next_task
claim-IsValid worker lease now db v = elim (oldest_found (claimable now) db.tasks) [
  | inl (e, _) ↦ rw (e, claim_next_task) v
  | inr (w, e, c, m, _) ↦
      rw (e, claim_next_task)
        (record {
          rows =
              All-update_where_from (λ t. IsRow t × (t.id ≡ w.id → t ≡ w)) IsRow (has_id w.id)
                (claim_row worker lease now) db.tasks
                (λ t hit h.
                  claim_row-IsRow worker lease now t
                    (subst (λ u. claimable now u ≡ true) (sym (h.1 ((==_iff t.id w.id).0 hit))) c)
                    h.0)
                (λ t _ h. h.0)
                (All-both _ _ db.tasks v.rows (ids_determine db.tasks w v.distinct m));
          below =
              All-update_where (Below db.next_id) (has_id w.id) (claim_row worker lease now)
                db.tasks
                (λ t _ b. omega (arith, (claim_row_identity worker lease now).same_id t, b))
                v.below;
          distinct =
              update_where-Distinct (has_id w.id) (claim_row worker lease now) db.tasks
                (claim_row_identity worker lease now) v.distinct;
        })
]

-- Every statement that the service issues keeps the tables well formed: ids and idempotency keys
-- stay unique, a pending task has no lease, and no task is attempted more often than it may be.
pub act-IsValid :
    (now : ℕ) (a : Action) (db : Db) → IsIssued a → IsValid db → IsValid (act now a db)
unfolding act
act-IsValid now (creates t) db i v = create-IsValid t now db i v
act-IsValid now (claims worker lease) db i v = claim-IsValid worker lease now db v
act-IsValid now (heartbeats id worker lease) db i v =
    unfold heartbeat_task holds_lease in
    update-IsValid (holds_lease id worker) (heartbeat_row lease now) db
      (unfold heartbeat_row in record { same_id = λ t. refl; same_key = λ t. refl })
      (λ t c r. heartbeat_row-IsRow lease now t (holds_lease_locked id worker t c) r) v
act-IsValid now (completes id worker result) db i v =
    unfold complete_task in
    update-IsValid (holds_lease id worker) (complete_row result now) db
      (unfold complete_row in record { same_id = λ t. refl; same_key = λ t. refl })
      (λ t c r. complete_row-IsRow result now t r) v
act-IsValid now (fails id worker message next) db i v =
    unfold fail_task in
    update-IsValid (holds_lease id worker) (fail_row message next now) db
      (fail_row_identity message next now) (λ t c r. fail_row-IsRow message next now t r) v
act-IsValid now releases db i v =
    unfold release_stale_tasks in
    update-IsValid (is_stale now) (release_row now) db
      (unfold release_row in record { same_id = λ t. refl; same_key = λ t. refl })
      (λ t c r. release_row-IsRow now t r) v
act-IsValid now (updates id status progress message) db i v =
    unfold update_status in
    update-IsValid (has_id id) (status_row status progress message now) db
      (unfold status_row in record { same_id = λ t. refl; same_key = λ t. refl })
      (λ t c r. status_row-IsRow status progress message now t i.0 i.1 r) v
act-IsValid now (logs entry) db i v =
    unfold append_log in record { rows = v.rows; below = v.below; distinct = v.distinct }

pub act_all-IsValid :
    (acts : List (ℕ × Action)) (db : Db)
    → All (λ p. IsIssued p.1) acts
    → IsValid db
    → IsValid (act_all acts db)
unfolding act_all
act_all-IsValid [] db i v = v
act_all-IsValid ((now, a) ∷ rest) db i v =
    act_all-IsValid rest (act now a db) i.1 (act-IsValid now a db i.0 v)
