-- ===== src/Prelude/Trim.antt =====
-- `strings.TrimSpace` leaves a trimmed text alone.
use mathlib.Core.Path.{◌≡◌, refl, sym, ap, ◌∙◌}
use mathlib.Core.Bool.{false}
use mathlib.Core.List.{[], ◌∷◌, ◌++◌, reverse, reverse-append, reverse-reverse}
use mathlib.Core.Logic.{inl, inr}
use snow_panel.Prelude.Tests.{Bool-cases}
use snow_panel.Prelude.Strings.{Text, is_space, trim_left, trim_space}

-- The first character of a trimmed text is no space.
abbrev NoSpaceFirst : Text → Type 0
NoSpaceFirst [] = Unit
NoSpaceFirst (c ∷ s) = is_space c ≡ false

trim_left-NoSpaceFirst : (s : Text) → NoSpaceFirst (trim_left s)
unfolding trim_left
trim_left-NoSpaceFirst [] = tt
trim_left-NoSpaceFirst (c ∷ s) = elim (Bool-cases (is_space c)) [
  | inl space ↦ rw space (trim_left-NoSpaceFirst s)
  | inr other ↦ rw other other
]

trim_left_fixed : (s : Text) → NoSpaceFirst s → trim_left s ≡ s
unfolding trim_left
trim_left_fixed [] h = refl
trim_left_fixed (c ∷ s) h = rw h

-- What `trim_left` takes away stands in front.
trim_left-append : (s : Text) → (p : Text) × (s ≡ p ++ trim_left s)
unfolding trim_left
trim_left-append [] = ([], refl)
trim_left-append (c ∷ s) = elim (Bool-cases (is_space c)) [
  | inl space ↦ let (p, e) = trim_left-append s in (c ∷ p, rw space (ap (λ t. c ∷ t) e))
  | inr other ↦ ([], rw other refl)
]

prefix-NoSpaceFirst : (v p u : Text) → u ≡ v ++ p → NoSpaceFirst u → NoSpaceFirst v
prefix-NoSpaceFirst [] p u e h = tt
prefix-NoSpaceFirst (c ∷ v) p u e h = rw e at h

pub trim_space_idem : (s : Text) → trim_space (trim_space s) ≡ trim_space s
unfolding trim_space
trim_space_idem s =
    let u : Text = trim_left s in
    let v : Text = reverse (trim_left (reverse u)) in
    let (p, e) = trim_left-append (reverse u) in
    let whole : u ≡ v ++ reverse p =
      sym (reverse-reverse u) ∙ ap reverse e ∙ reverse-append p (trim_left (reverse u)) in
    let front : trim_left v ≡ v =
      trim_left_fixed v (prefix-NoSpaceFirst v (reverse p) u whole (trim_left-NoSpaceFirst s)) in
    let back : trim_left (reverse v) ≡ reverse v =
      rw (reverse-reverse (trim_left (reverse u)))
        (trim_left_fixed (trim_left (reverse u)) (trim_left-NoSpaceFirst (reverse u))) in
    rw (front, back) (reverse-reverse v)
