-- ===== src/Program/Hoare.antt =====
-- Before and after: what a method gives in a state that meets a condition, with one rule for each
-- way to build a method.
use snow_panel.Prelude.{Bool, true, false, if◌then◌else◌, ◌≡◌, refl, sym, ap, ◌∙◌, subst}
use snow_panel.Errors.{GoError, Result, ok, err}
use snow_panel.Program.{Program, ◌>>=◌, return}

-- From a state in `P`, `m` gives a result and a state in `Q`.
pub record Does {W A : Type 0} (P : W → Type 0) (m : Program W A) (Q : A → W → Type 0)
    : Type 0 where
  pub at : (w : W) → P w → Q (m w).0 (m w).1

module _ {W A : Type 0} {P : W → Type 0} where
  pub return-Does : (a : A) {Q : A → W → Type 0} → ((w : W) → P w → Q a w) → Does P (return a) Q
  unfolding return
  return-Does a h = record { at = h }

  pub bind-Does :
      {B : Type 0} {m : Program W A} {f : A → Program W B} {Q : A → W → Type 0} {R : B → W → Type 0}
      → Does P m Q
      → ((a : A) → Does (Q a) (f a) R)
      → Does P (m >>= f) R
  unfolding ◌>>=◌
  bind-Does {m = m} h k = record { at = λ w p. (k (m w).0).at (m w).1 (h.at w p) }

  -- A method whose result is known.
  pub bind_known :
      {B : Type 0} {m : Program W A} (f : A → Program W B) (a : A) {Q : W → Type 0}
      {R : B → W → Type 0}
      → Does P m (λ b w. (b ≡ a) × Q w)
      → Does Q (f a) R
      → Does P (m >>= f) R
  unfolding ◌>>=◌
  bind_known {m = m} f a {R = R} h k = record {
    at = λ w p.
        let (e, q) = h.at w p in
        subst (λ b. R (f b (m w).1).0 (f b (m w).1).1) (sym e) (k.at (m w).1 q);
  }

pub if-Does :
    {W A : Type 0} {P : W → Type 0} (b : Bool) {m n : Program W A} {Q : A → W → Type 0}
    → Does P m Q
    → Does P n Q
    → Does P (if b then m else n) Q
if-Does true h k = h
if-Does false h k = k

-- The same, where the branches know the outcome of the test.
pub split-Does :
    {W A : Type 0} {P : W → Type 0} (b : Bool) {m n : Program W A} {Q : A → W → Type 0}
    → (b ≡ true → Does P m Q)
    → (b ≡ false → Does P n Q)
    → Does P (if b then m else n) Q
split-Does true h k = h refl
split-Does false h k = k refl

-- A step of which nothing is known, and the two kinds of results.
pub any-Does : {W A : Type 0} {P : W → Type 0} {m : Program W A} → Does P m (λ _ _. Unit)
any-Does = record { at = λ w p. tt }

pub result-Does :
    {W A B : Type 0} {P : W → Type 0} (r : Result A) {f : GoError → Program W B}
    {g : A → Program W B} {Q : B → W → Type 0}
    → ((x : GoError) → r ≡ err x → Does P (f x) Q)
    → ((a : A) → r ≡ ok a → Does P (g a) Q)
    → Does P (elim r [ err x ↦ f x | ok a ↦ g a ]) Q
result-Does (err x) h k = h x refl
result-Does (ok a) h k = k a refl

-- A fact that the state says nothing of.
pub with_fact :
    {W A C : Type 0} {P : W → Type 0} {m : Program W A} {Q : A → W → Type 0}
    → (C → Does P m Q)
    → Does (λ w. C × P w) m Q
with_fact h = record { at = λ w (c, p). (h c).at w p }

-- A method in one state: from an equation, and back.
module _ {W A : Type 0} where
  abbrev pub Gives : W → Program W A → A → W → Type 0
  Gives w m a w' = Does (λ x. x ≡ w) m (λ b x. (b ≡ a) × (x ≡ w'))

  pub gives : {w w' : W} {m : Program W A} {a : A} → m w ≡ (a, w') → Gives w m a w'
  gives {m = m} h = record {
    at = λ x q. (
      ap (λ y. (m y).0) q ∙ ap (λ (r : A × W). r.0) h,
      ap (λ y. (m y).1) q ∙ ap (λ (r : A × W). r.1) h,
    );
  }

  pub given : {w w' : W} {m : Program W A} {a : A} → Gives w m a w' → m w ≡ (a, w')
  given {w} {m = m} g = let (p, q) = g.at w refl in λ i. (p i, q i)

  pub return-Gives : {w : W} (a : A) → Gives w (return a) a w
  return-Gives a = return-Does a (λ x q. (refl, q))

  pub bind_gives :
      {B : Type 0} {w w' : W} (m : Program W A) (f : A → Program W B) (a : A) {R : B → W → Type 0}
      → m w ≡ (a, w')
      → Does (λ x. x ≡ w') (f a) R
      → Does (λ x. x ≡ w) (m >>= f) R
  bind_gives m f a h k = bind_known f a (gives h) k
