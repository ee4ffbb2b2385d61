-- ===== src/Tasks/Create/Idempotency.antt =====
-- Requests that are sent twice with one idempotency key, to `createAndRunTask` and
-- `CreateBackupTask` of backend/internal/service/task_service.go.
use snow_panel.Prelude.{
  ℤ, suc, ◌≡◌, refl, sym, ◌∙◌, ap, Text, text_eq_refl, Bool, true, false, Option, none, some, List,
  [], ◌∷◌, ◌++◌, arith, if◌then◌else◌, any_of, first_of_list,
}
use snow_panel.Errors.{Result, ok}
use snow_panel.Tasks.Model.{Task, Payload, type_backup_create}
use snow_panel.Tasks.Repository.{Db, create, inserted, has_key, get_by_idempotency_key}
use snow_panel.Tasks.World.{
  Env, World, ServiceCall, create_metadata, BackupSummary, ask_backup, return, spawn, run_task_of,
}
use snow_panel.Program.Hoare.{Does, return-Does, bind-Does, given, bind_gives, return-Gives}
use snow_panel.Tasks.World.Alone.{
  IsAlone, next, get_by_key_alone, create_alone, log_tasks, spawn_tasks,
}
use snow_panel.Tasks.Payload.{normalize_task_idempotency_key}
use snow_panel.Tasks.Create.{
  CreateTaskResult, created, backup_payload, new_task, service_attempts, after_create, create_new,
  create_and_run_task, with_key, create_backup_task,
}

abbrev by_key : Text → List Task → Option Task
by_key key ts = first_of_list (has_key (some key)) ts

no_clash :
    (key : Text) (ts : List Task) → by_key key ts ≡ none → any_of (has_key (some key)) ts ≡ false
no_clash key [] h = refl
no_clash key (t ∷ ts) h = ground (arith, no_clash key ts)

by_key-append :
    (key : Text) (ts : List Task) (t : Task)
    → by_key key ts ≡ none
    → t.idempotency_key ≡ some key
    → by_key key (ts ++ t ∷ []) ≡ some t
by_key-append key [] t h k = rw (k, text_eq_refl key)
by_key-append key (u ∷ ts) t h k = ground (arith, by_key-append key ts t)

module _ (e : Env) (a : IsAlone e) (type : Text) (p : Payload) (by : Option ℤ)
    (username key : Text) where
  abbrev submit : World → Result CreateTaskResult × World
  submit = create_and_run_task e type p by username (some key)

  -- The key is that of a task that is there.
  submit_known :
      (w : World) (t : Task)
      → by_key key w.db.tasks ≡ some t
      → submit w ≡ (ok (created t), next e a w w.db)
  unfolding create_and_run_task get_by_idempotency_key
  submit_known w t f = given (
      bind_gives _ _ (ok (some t))
        (get_by_key_alone e a w key ∙ ap (λ o. (ok o, next e a w w.db)) f) (return-Gives _))

  -- The row that is made for a new key.
  abbrev made : World → Task
  made w =
      inserted w.db.next_id (e.turn (suc w.steps)).now
        (new_task type (e.encode p) by (some key) (service_attempts e.max_attempts))

  abbrev Made : World → Result CreateTaskResult → World → Type 0
  Made w r w' = (r ≡ ok (created (made w))) × (w'.db.tasks ≡ w.db.tasks ++ made w ∷ [])

  create-made :
      (w : World)
      → by_key key w.db.tasks ≡ none
      → create
          (new_task type (e.encode p) by (some key) (service_attempts e.max_attempts))
          (e.turn (suc w.steps)).now
          w.db
        ≡ (
          ok (made w),
          record w.db { tasks = w.db.tasks ++ made w ∷ []; next_id = suc w.db.next_id },
        )
  unfolding create new_task
  create-made w f = rw (no_clash key w.db.tasks f)

  abbrev Same : World → World → Type 0
  Same w x = x.db.tasks ≡ w.db.tasks ++ made w ∷ []

  start :
      (b : Bool) (w : World)
      → Does (Same w) (if b then spawn (run_task_of (made w).id p) else return tt) (λ _. Same w)
  start true w = spawn_tasks _ _
  start false w = return-Does tt (λ x q. q)

  submit_new : (w : World) → by_key key w.db.tasks ≡ none → Made w (submit w).0 (submit w).1
  unfolding create_and_run_task get_by_idempotency_key create_new after_create
  submit_new w f =
      (bind_gives _ _ (ok none) {R = Made w}
          (get_by_key_alone e a w key ∙ ap (λ o. (ok o, next e a w w.db)) f)
          (bind_gives _ _ (ok (made w)) {R = Made w}
            (create_alone e a (next e a w w.db) _
              ∙ ap (λ (r : Result Task × Db). (r.0, next e a (next e a w w.db) r.1))
                  (create-made w f))
            (bind-Does {Q = λ _. Same w}
              (record {
                at = λ x q.
                    (log_tasks e a (w.db.tasks ++ made w ∷ []) _ _ _ _).at x
                      (ap (λ (y : World). y.db.tasks) q);
              })
              λ _.
                bind-Does {Q = λ _. Same w} (start e.async w)
                  λ _. return-Does _ (λ x q. (refl, q))))).at
        w refl

  made-key : (w : World) → (made w).idempotency_key ≡ some key
  unfolding inserted new_task
  made-key w = refl

  submit_then :
      (w : World) (o : Option Task)
      → by_key key w.db.tasks ≡ o
      → ((submit (submit w).1).0 ≡ (submit w).0)
        × ((submit (submit w).1).1.db.tasks ≡ (submit w).1.db.tasks)
  submit_then w (some t) f =
      rw (submit_known w t f, submit_known (next e a w w.db) t f) (refl, refl)
  submit_then w none f =
      let (r, ts) = submit_new w f in
      let again =
        submit_known (submit w).1 (made w)
          (rw ts (by_key-append key w.db.tasks (made w) f (made-key w))) in
      (
        ap (λ (x : Result CreateTaskResult × World). x.0) again ∙ sym r,
        ap (λ (x : Result CreateTaskResult × World). x.1.db.tasks) again,
      )

-- A request with an idempotency key that is sent again gets the result of the first request, and
-- makes no second task. This holds when no statement fails and no other process writes.
pub create_and_run_task_twice :
    (e : Env) (type : Text) (p : Payload) (by : Option ℤ) (username key : Text) (w : World)
    → IsAlone e
    → let first = create_and_run_task e type p by username (some key) w in
      let again = create_and_run_task e type p by username (some key) first.1 in
      (again.0 ≡ first.0) × (again.1.db.tasks ≡ first.1.db.tasks)
create_and_run_task_twice e type p by username key w a =
    submit_then e a type p by username key w (by_key key w.db.tasks) refl

-- A request for a backup with the key of a task that is there makes no task, but has the backup
-- service make one more backup record all the same, and gives back that new record with the old
-- task. This holds when no statement fails and no other process writes.
pub create_backup_task_again :
    (e : Env) (type id storage path raw key : Text) (by : Option ℤ) (username : Text)
    (b : BackupSummary) (w : World) (t : Task)
    → IsAlone e
    → e.has_backup ≡ true
    → normalize_task_idempotency_key raw ≡ ok (some key)
    → get_by_idempotency_key key w.db ≡ some t
    → e.backup w.calls (create_metadata type id storage path by) ≡ ok b
    → let again = create_backup_task e type id storage path raw by username w in
      (again.0 ≡ ok (b, created t))
      × (again.1.db.tasks ≡ w.db.tasks)
      × (again.1.calls ≡ create_metadata type id storage path by ∷ w.calls)
unfolding create_backup_task
create_backup_task_again e type id storage path raw key by username b w t a on k f record_made =
    let call : ServiceCall = create_metadata type id storage path by in
    let asked : World = record w { calls = call ∷ w.calls } in
    let known =
      submit_known e a type_backup_create (backup_payload b) by username key asked t
        (unfold get_by_idempotency_key in f) in
    let answer : ask_backup e call w ≡ (ok b, asked) =
      unfold ask_backup in ap (λ r. (r, asked)) record_made in
    let out = given (
      bind_gives (ask_backup e call) _ (ok b) answer
        (bind_gives _ _ (ok (created t)) known (return-Gives (ok (b, created t))))) in
    rw (on, k, with_key)
      (
        ap (λ (r : Result (BackupSummary × CreateTaskResult) × World). r.0) out,
        ap (λ (r : Result (BackupSummary × CreateTaskResult) × World). r.1.db.tasks) out,
        ap (λ (r : Result (BackupSummary × CreateTaskResult) × World). r.1.calls) out,
      )
