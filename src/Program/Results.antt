-- ===== src/Program/Results.antt =====
-- From the result of a method back to what it has tested and read.
use snow_panel.Prelude.{◌≡◌, refl, Bool, true, false, if◌then◌else◌}
use snow_panel.Program.{Program, ◌>>=◌, return}

-- From the state `w`, the method gives `a` only if `T`.
pub record Tells {W A : Type 0} (w : W) (a : A) (T : Type 0) (m : Program W A) : Type 0 where
  pub tells : (m w).0 ≡ a → T

module _ {W A T : Type 0} {w : W} {a : A} where
  pub if-Tells :
      (b : Bool) {m n : Program W A}
      → (b ≡ true → Tells w a T m)
      → (b ≡ false → Tells w a T n)
      → Tells w a T (if b then m else n)
  if-Tells true h k = h refl
  if-Tells false h k = k refl

  pub return-Tells : (b : A) → (b ≡ a → T) → Tells w a T (return b)
  unfolding return
  return-Tells b h = record { tells = h }

  pub bind-Tells :
      {B : Type 0} (m : Program W B) (f : B → Program W A)
      → ((b : B) → (m w).0 ≡ b → Tells (m w).1 a T (f b))
      → Tells w a T (m >>= f)
  unfolding ◌>>=◌
  bind-Tells m f h = record { tells = λ q. (h (m w).0 refl).tells q }
