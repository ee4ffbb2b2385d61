-- ===== src/Tasks/Control/Laws.antt =====
-- What `CancelTask` and `RetryTask` of backend/internal/service/task_service.go promise.
use snow_panel.Prelude.{
  subst, ℕ, ℤ, suc, ◌≡◌, ◌⊎◌, inl, inr, refl, sym, ◌∙◌, ap, Text, text, Bool, true, false, ◌||◌,
  Option, none, some, arith, Bool-cases,
}
use snow_panel.Errors.{GoError, app, app_wrap, Result, ok, err, bad_request, task_not_found}
use snow_panel.Tasks.Model.{Status, failed, canceled, status_eq, Task, Payload}
use snow_panel.Tasks.Repository.{update_status}
use snow_panel.Tasks.Repository.Lookup.{find, get_by_id_lem}
use snow_panel.Tasks.World.{Env, Turn, World, return, repo_get, perform, arrive}
use snow_panel.Program.Hoare.{Does, return-Does, bind-Does, bind_gives}
use snow_panel.Tasks.World.Alone.{IsAlone, next, get_alone, update_alone, log_tasks}
use snow_panel.Tasks.Payload.{unmarshal_task_payload}
use snow_panel.Tasks.Create.{CreateTaskResult}
use snow_panel.Tasks.Control.Canceled.{
  HasEnded, IsOpen, IsCanceled, ended, not_ended, update-IsCanceled,
}
use snow_panel.Tasks.Control.{is_terminal, cancel_found, cancel_task, retry_found, retry_task}

-- The result `r` and the state `w'` of canceling the task `id` in the state `w`. The time is that of
-- the second of the three statements, the clock `turn` of which is given.
abbrev pub CancelSpec : (ℕ → Turn) → ℕ → World → Result (Unit {0}) → World → Type 0
CancelSpec turn id w r w' =
    ((find id w.db.tasks ≡ none) × (r ≡ err (app task_not_found)) × (w'.db.tasks ≡ w.db.tasks))
    ⊎ ((t : Task) × (find id w.db.tasks ≡ some t)
        × HasEnded t
        × ((x : GoError) × (r ≡ err (app_wrap bad_request x)))
        × (w'.db.tasks ≡ w.db.tasks))
    ⊎ ((t : Task) × (find id w.db.tasks ≡ some t)
        × IsOpen t
        × (r ≡ ok tt)
        × IsCanceled id (turn (suc w.steps)).now t w.db.tasks w'.db.tasks)

module _ (e : Env) (a : IsAlone e) (id : ℕ) (username : Text) (w : World) where
  abbrev w' : World
  w' = next e a w w.db

  Spec : Result (Unit {0}) → World → Type 0
  Spec = CancelSpec e.turn id w

  canceling :
      (t : Task)
      → find id w.db.tasks ≡ some t
      → (b : Bool) → is_terminal t.status ≡ b
      → Does (λ x. x ≡ w') (cancel_found e id username t) Spec
  unfolding cancel_found Spec
  canceling t f true h = rw h (
      return-Does _ λ x q. inr (inl (t, f, ended t h, (_, refl), ap (λ (y : World). y.db.tasks) q)))
  canceling t f false h = rw h (
      bind_gives _ _ (ok tt) (update_alone e a w' id t.progress canceled _) (
        bind-Does
          {Q = λ _ x.
            x.db.tasks
            ≡ (update_status id canceled t.progress (text "canceled by operator")
                (e.turn (suc w.steps)).now w.db).tasks}
          (record {
            at = λ x q. (log_tasks e a _ id _ _ _).at x (ap (λ (y : World). y.db.tasks) q);
          })
          λ _. return-Does (ok tt) λ x q. inr (
            inr (
              t,
              f,
              not_ended t h,
              refl,
              subst (IsCanceled id (e.turn (suc w.steps)).now t w.db.tasks) (sym q)
                  (update-IsCanceled id (e.turn (suc w.steps)).now w.db t f),
            ))))

  cancel_cases :
      (o : Option Task)
      → find id w.db.tasks ≡ o
      → Does (λ x. x ≡ w) (cancel_task e id username) Spec
  unfolding cancel_task
  cancel_cases none f =
      bind_gives _ _ (ok none)
        (get_alone e a w id ∙ ap (λ o. (ok o, w')) (get_by_id_lem id w.db ∙ f))
        (return-Does _ (λ x q. unfold Spec in inl (f, refl, ap (λ (y : World). y.db.tasks) q)))
  cancel_cases (some t) f =
      bind_gives _ _ (ok (some t))
        (get_alone e a w id ∙ ap (λ o. (ok o, w')) (get_by_id_lem id w.db ∙ f))
        (canceling t f (is_terminal t.status) refl)

-- Canceling a task that is not there gives the error for that; canceling one that has succeeded,
-- failed or been canceled is a bad request; and the table of tasks stays as it is in both cases. A
-- pending or running task gets the status and the message of a canceled one and the time of that
-- statement, with all its other columns kept, and no other task is changed. This holds when no
-- statement fails and no other process writes.
pub cancel_task-CancelSpec :
    (e : Env) (id : ℕ) (username : Text) (w : World)
    → IsAlone e
    → CancelSpec e.turn id w (cancel_task e id username w).0 (cancel_task e id username w).1
cancel_task-CancelSpec e id username w a =
    unfold Spec in (cancel_cases e a id username w (find id w.db.tasks) refl).at w refl

-- The row may be retried, and its payload can be read.
abbrev pub IsRetriable : (Text → Result Payload) → Task → Type 0
IsRetriable decode t =
    ((t.status ≡ failed) ⊎ (t.status ≡ canceled))
    × ((p : Payload) × (unmarshal_task_payload decode t.payload ≡ ok p))

-- From a result of `RetryTask` that is no error back to the row that it read.
module _ (e : Env) (by : Option ℤ) (username : Text) (made : CreateTaskResult) where
  retriable :
      (s : Status)
      → (status_eq s failed || status_eq s canceled) ≡ true
      → (s ≡ failed) ⊎ (s ≡ canceled)
  retriable s h = ground arith

  readable :
      (t : Task) (w : World) (r : Result Payload)
      → unmarshal_task_payload e.decode t.payload ≡ r
      → (retry_found e by username t w).0 ≡ ok made
      → (status_eq t.status failed || status_eq t.status canceled) ≡ true
      → (p : Payload) × (unmarshal_task_payload e.decode t.payload ≡ ok p)
  unfolding retry_found return
  readable t w (ok p) d h s = (p, d)
  readable t w (err x) d h s = absurd (failing (rw (s, d) at h))
    where
      failing : err (app_wrap bad_request x) ≡ ok made → ⊥
      failing q = cc

  found-IsRetriable :
      (t : Task) (w : World) → (retry_found e by username t w).0 ≡ ok made → IsRetriable e.decode t
  unfolding retry_found return
  found-IsRetriable t w h =
      elim (Bool-cases (status_eq t.status failed || status_eq t.status canceled)) [
        | inl s ↦ (retriable t.status s, readable t w _ refl h s)
        | inr n ↦ absurd (failing _ (rw n at h))
      ]
    where
      failing : (x : GoError) → err (app_wrap bad_request x) ≡ ok made → ⊥
      failing x q = cc

module _ (e : Env) (id : ℕ) (by : Option ℤ) (username : Text) (made : CreateTaskResult)
    (w : World) where
  -- The row that a statement in the state `w` reads.
  abbrev Read : Result (Option Task) → Type 0
  Read (ok o) = find id (arrive e w).tasks ≡ o
  Read (err x) = Unit

  get-Read : Does (λ x. x ≡ w) (repo_get e id) (λ r _. Read r)
  unfolding repo_get perform
  get-Read = record {
    at = λ x q. rw q (elim (Bool-cases (e.turn w.steps).fails) [
      | inl down ↦ rw down tt
      | inr up ↦ rw up (sym (get_by_id_lem id (arrive e w)))
    ]);
  }

  retry-IsRetriable :
      Does
        (λ x. x ≡ w)
        (retry_task e id by username)
        (λ r _.
          r ≡ ok made → (t : Task) × (find id (arrive e w).tasks ≡ some t) × IsRetriable e.decode t)
  unfolding retry_task return
  retry-IsRetriable = bind-Does get-Read (elim [
    | err x ↦ record { at = λ x r q. cc }
    | ok none ↦ record { at = λ x r q. cc }
    | ok (some t) ↦ record { at = λ x r q. (t, r, found-IsRetriable e by username made t x q) }
  ])

-- `RetryTask` makes a new task only from one that has failed or was canceled, as the method reads
-- it, and whose payload a worker can read; whatever other processes write and whichever statements
-- fail.
pub retry_task-IsRetriable :
    (e : Env) (id : ℕ) (by : Option ℤ) (username : Text) (made : CreateTaskResult) (w : World)
    → (retry_task e id by username w).0 ≡ ok made
    → (t : Task) × (find id (arrive e w).tasks ≡ some t) × IsRetriable e.decode t
retry_task-IsRetriable e id by username made w h =
    (retry-IsRetriable e id by username made w).at w refl h
