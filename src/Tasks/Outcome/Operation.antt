-- ===== src/Tasks/Outcome/Operation.antt =====
-- `executeTaskOperation` of backend/internal/service/task_service.go at a restart, for a worker
-- that holds the task.
use snow_panel.Prelude.{
  ℕ, ℤ, ◌≡◌, ◌⊎◌, inl, inr, refl, ap, Text, text, text_eq, text_eq_refl, true, false, List, ◌∷◌,
  arith,
}
use snow_panel.Errors.{Result, ok, err}
use snow_panel.Tasks.Model.{Payload, Metadata, operation_docker_restart, operation_service_restart}
use snow_panel.Tasks.World.{
  Env, World, M, ServiceCall, restart_container, restart_service, ask_container, ask_service,
}
use snow_panel.Program.Hoare.{Does, return-Does, bind-Does, bind_known}
use snow_panel.Tasks.Execute.{
  execute_restart, execute_docker_restart, execute_service_restart, execute_task_operation,
}
use snow_panel.Tasks.Outcome.Held.{IsUndisturbed, Working, log-Working, progress-Working}

-- The payload asks for `call`, a restart that is answered by `answer` after the calls `calls`.
abbrev pub IsRestart :
    Env → List ServiceCall → Payload → ServiceCall → Result (Text × Text) → Type 0
IsRestart e calls p call answer =
    ((p.operation ≡ operation_docker_restart)
      × (call ≡ restart_container p.container_id)
      × (e.container calls p.container_id ≡ answer))
    ⊎ ((p.operation ≡ operation_service_restart)
        × (call ≡ restart_service p.service_name)
        × (e.service calls p.service_name ≡ answer))

abbrev pub outcome : Result (Text × Text) → Result (Unit {0})
outcome (ok a) = ok tt
outcome (err x) = err x

service_not_docker : text_eq operation_service_restart operation_docker_restart ≡ false
unfolding text text_eq
service_not_docker = refl

module _ (e : Env) (calm : IsUndisturbed e) (id : ℕ) (worker : Text) (n : ℕ) (m : ℤ) where
  abbrev pub AtWork : List ServiceCall → World → Type 0
  AtWork calls = Working id worker n m calls

  restart_works :
      (calls calls' : List ServiceCall) (ask : M (Result (Text × Text))) (before starting : Text)
      (meta : Metadata) (after done : Text) (meta_done : Text × Text → Metadata)
      (answer : Result (Text × Text))
      → Does (AtWork calls) ask (λ r w. (r ≡ answer) × AtWork calls' w)
      → Does
          (AtWork calls)
          (execute_restart e id ask before starting meta after done meta_done)
          (λ r w. (r ≡ outcome answer) × AtWork calls' w)
  unfolding execute_restart
  restart_works calls calls' ask before starting meta after done meta_done (ok a) h =
      bind_known _ true (progress-Working e calm id worker n m calls 30 (omega arith)) (
        bind-Does (log-Working e calm id worker n m calls _ _ _) λ _. bind_known _ (ok a) h (
          bind_known _ true (progress-Working e calm id worker n m calls' 85 (omega arith)) (
            bind-Does (log-Working e calm id worker n m calls' _ _ _)
              λ _. return-Does _ (λ w k. (refl, k)))))
  restart_works calls calls' ask before starting meta after done meta_done (err x) h =
      bind_known _ true (progress-Working e calm id worker n m calls 30 (omega arith)) (
        bind-Does (log-Working e calm id worker n m calls _ _ _)
          λ _. bind_known _ (err x) h (return-Does _ (λ w k. (refl, k))))

  container_works :
      (calls : List ServiceCall) (c : Text)
      → Does
          (AtWork calls)
          (ask_container e c)
          (λ r w. (r ≡ e.container calls c) × AtWork (restart_container c ∷ calls) w)
  unfolding ask_container
  container_works calls c = record {
    at = λ w h. (
      ap (λ l. e.container l c) h.asked,
      record { holds = h.holds; asked = ap (λ l. restart_container c ∷ l) h.asked },
    );
  }

  service_works :
      (calls : List ServiceCall) (s : Text)
      → Does
          (AtWork calls)
          (ask_service e s)
          (λ r w. (r ≡ e.service calls s) × AtWork (restart_service s ∷ calls) w)
  unfolding ask_service
  service_works calls s = record {
    at = λ w h. (
      ap (λ l. e.service l s) h.asked,
      record { holds = h.holds; asked = ap (λ l. restart_service s ∷ l) h.asked },
    );
  }

  pub operation_works :
      (calls : List ServiceCall) (p : Payload) (call : ServiceCall) (answer : Result (Text × Text))
      → IsRestart e calls p call answer
      → Does
          (AtWork calls)
          (execute_task_operation e id p worker)
          (λ r w. (r ≡ outcome answer) × AtWork (call ∷ calls) w)
  unfolding execute_task_operation
  operation_works calls p call answer (inl (o, c, a)) =
      rw (o, c, ← a, text_eq_refl operation_docker_restart)
        (unfold execute_docker_restart in
          restart_works calls _ _ _ _ _ _ _ _ _ (container_works calls p.container_id))
  operation_works calls p call answer (inr (o, c, a)) =
      rw (o, c, ← a, service_not_docker, text_eq_refl operation_service_restart)
        (unfold execute_service_restart in
          restart_works calls _ _ _ _ _ _ _ _ _ (service_works calls p.service_name))
