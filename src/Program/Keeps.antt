-- ===== src/Program/Keeps.antt =====
-- A property of the state that a method keeps, with one rule for each way to build a method.
use snow_panel.Prelude.{Bool, true, false, Option, none, some, if◌then◌else◌}
use snow_panel.Errors.{GoError, Result, ok, err}
use snow_panel.Program.{Program, ◌>>=◌, return}

-- `m` keeps `P`, whatever it returns.
pub record Keeps {W A : Type 0} (P : W → Type 0) (m : Program W A) : Type 0 where
  pub at : (w : W) → P w → P (m w).1

module _ {W : Type 0} {P : W → Type 0} where
  pub return-Keeps : {A : Type 0} (a : A) → Keeps P (return a)
  unfolding return
  return-Keeps a = record { at = λ w v. v }

  pub bind-Keeps :
      {A B : Type 0} {m : Program W A} {f : A → Program W B}
      → Keeps P m
      → ((a : A) → Keeps P (f a))
      → Keeps P (m >>= f)
  unfolding ◌>>=◌
  bind-Keeps {m = m} h k = record { at = λ w v. (k (m w).0).at (m w).1 (h.at w v) }

  pub if-Keeps :
      {A : Type 0} (b : Bool) {m n : Program W A}
      → Keeps P m
      → Keeps P n
      → Keeps P (if b then m else n)
  if-Keeps true h k = h
  if-Keeps false h k = k

  pub option-Keeps :
      {A B : Type 0} (o : Option A) {m : Program W B} {f : A → Program W B}
      → Keeps P m
      → ((a : A) → Keeps P (f a))
      → Keeps P (elim o [ none ↦ m | some a ↦ f a ])
  option-Keeps none h k = h
  option-Keeps (some a) h k = k a

  pub result-Keeps :
      {A B : Type 0} (r : Result A) {f : GoError → Program W B} {g : A → Program W B}
      → ((x : GoError) → Keeps P (f x))
      → ((a : A) → Keeps P (g a))
      → Keeps P (elim r [ err x ↦ f x | ok a ↦ g a ])
  result-Keeps (err x) h k = h x
  result-Keeps (ok a) h k = k a
