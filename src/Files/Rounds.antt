-- ===== src/Files/Rounds.antt =====
-- A round of a loop of backend/internal/service/file_service.go, and the rule for what follows it.
use snow_panel.Prelude.{◌≡◌, refl}
use snow_panel.Errors.{GoError}
use snow_panel.Program.{Program}
use snow_panel.Program.Hoare.{Does}

-- A round returns an error, breaks or goes on with other values of the variables.
pub data Round (T : Type 0) : Type 0 where
  refused : GoError → Round T
  finished : T → Round T
  again : T → Round T

pub round-Does :
    {W B T : Type 0} {P : W → Type 0} (r : Round T) {f : GoError → Program W B}
    {g h : T → Program W B} {Q : B → W → Type 0}
    → ((x : GoError) → r ≡ refused x → Does P (f x) Q)
    → ((t : T) → r ≡ finished t → Does P (g t) Q)
    → ((t : T) → r ≡ again t → Does P (h t) Q)
    → Does P (elim r [ refused x ↦ f x | finished t ↦ g t | again t ↦ h t ]) Q
round-Does (refused x) a b c = a x refl
round-Does (finished t) a b c = b t refl
round-Does (again t) a b c = c t refl
