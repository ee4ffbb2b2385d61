-- ===== src/Tasks/Pages/Unique.antt =====
-- Rows of distinct times have one order that is newest first: `ORDER BY created_at DESC` in
-- backend/internal/repository/task_repository.go.
use snow_panel.Prelude.{
  ◌∙◌, subst, ℕ, suc, ◌+◌, ◌≤◌, ◌≡◌, refl, sym, ap, ap₂, inl, inr, Bool, true, List, [], ◌∷◌, ltb,
  arith, All, Bool-cases, length, keep_if, if◌then◌else◌,
}
use mathlib.Core.List.{Permᴰ}
use mathlib.Core.List.Permᴰ.{nil, cons, swap, trans}
use snow_panel.Tasks.Model.{Task}
use snow_panel.Tasks.Pages.Order.{IsNewestFirst}

-- Rows of `xs` and `ys` that were created at the same time are the same row.
abbrev pub HaveOwnTimes : List Task → List Task → Type 0
HaveOwnTimes xs ys = All (λ s. All (λ t. s.created_at ≡ t.created_at → s ≡ t) ys) xs

-- Both lists have the same number of rows that pass any test.
abbrev SameCounts : List Task → List Task → Type 0
SameCounts xs ys = (p : Task → Bool) → length (keep_if p xs) ≡ length (keep_if p ys)

length-keep_if :
    (p : Task → Bool) (t : Task) (ts : List Task)
    → length (keep_if p (t ∷ ts)) ≡ (if p t then 1 else 0) + length (keep_if p ts)
length-keep_if p t ts = ground arith

Perm-SameCounts : {xs ys : List Task} → Permᴰ xs ys → SameCounts xs ys
Perm-SameCounts nil p = refl
Perm-SameCounts (cons {b = b} {l₁ = l} {l₂ = m} e d) p =
    rw e (omega (arith, length-keep_if p b l, length-keep_if p b m, Perm-SameCounts d p))
Perm-SameCounts (swap {a} {b} {a'} {b'} {l} e f) p =
    rw (e, f)
      (omega (
        arith,
        length-keep_if p a' (b' ∷ l),
        length-keep_if p b' l,
        length-keep_if p b' (a' ∷ l),
        length-keep_if p a' l,
      ))
Perm-SameCounts (trans d e) p = Perm-SameCounts d p ∙ Perm-SameCounts e p

none_newer :
    (bound : ℕ) (ts : List Task)
    → All (λ s. s.created_at ≤ bound) ts
    → length (keep_if (λ s. ltb bound s.created_at) ts) ≡ 0
none_newer bound [] h = refl
none_newer bound (t ∷ ts) (a, h) = ground (arith, none_newer bound ts h)

-- The first row of one list is as new as that of the other.
first_newest :
    (x y : Task) (xs ys : List Task)
    → SameCounts (x ∷ xs) (y ∷ ys)
    → All (λ s. s.created_at ≤ x.created_at) xs
    → y.created_at ≤ x.created_at
first_newest x y xs ys same h =
    let none_x = none_newer x.created_at (x ∷ xs) (omega arith, h) in
    let newer = λ (s : Task). ltb x.created_at s.created_at in
    elim (Bool-cases (ltb x.created_at y.created_at)) [
      | inl e ↦ ground (arith, none_x, same newer, e)
      | inr e ↦ ground (arith, e)
    ]

Own-tail :
    (xs : List Task) (y : Task) (ys : List Task) → HaveOwnTimes xs (y ∷ ys) → HaveOwnTimes xs ys
Own-tail [] y ys h = tt
Own-tail (x ∷ xs) y ys (a, h) = (a.1, Own-tail xs y ys h)

one_order :
    (xs ys : List Task)
    → SameCounts xs ys
    → IsNewestFirst xs
    → IsNewestFirst ys
    → HaveOwnTimes xs ys
    → xs ≡ ys
one_order [] [] same h k own = refl
one_order [] (y ∷ ys) same h k own = absurd (ground (arith, same (λ t. true)))
one_order (x ∷ xs) [] same h k own = absurd (ground (arith, same (λ t. true)))
one_order (x ∷ xs) (y ∷ ys) same h k own =
    let first : x ≡ y = own.0.0 (
      omega
        (arith, first_newest x y xs ys same h.0, first_newest y x ys xs (λ p. sym (same p)) k.0)) in
    let rest : SameCounts xs ys = λ p. omega (
      arith,
      same p,
      length-keep_if p x xs,
      length-keep_if p y ys,
      ap {B = ℕ} (λ t. if p t then 1 else 0) first,
    ) in
    ap₂ (λ t ts. t ∷ ts) first (one_order xs ys rest h.1 k.1 (Own-tail xs y ys own.1))

All-Perm : (P : Task → Type 0) {xs ys : List Task} → Permᴰ xs ys → All P ys → All P xs
All-Perm P nil h = tt
All-Perm P (cons e d) (a, h) = (subst P (sym e) a, All-Perm P d h)
All-Perm P (swap e f) (a, (b, h)) = (subst P (sym e) b, (subst P (sym f) a, h))
All-Perm P (trans d e) h = All-Perm P d (All-Perm P e h)

pub Perm-length : (xs ys : List Task) → Permᴰ xs ys → length xs ≡ length ys
Perm-length xs ys d = sym (all_kept xs) ∙ Perm-SameCounts d (λ t. true) ∙ all_kept ys
  where
    all_kept : (ts : List Task) → length (keep_if (λ t. true) ts) ≡ length ts
    all_kept [] = refl
    all_kept (t ∷ ts) = ap suc (all_kept ts)

Own-Perm :
    (xs : List Task) {ys zs : List Task} → Permᴰ zs ys → HaveOwnTimes xs ys → HaveOwnTimes xs zs
Own-Perm [] d h = tt
Own-Perm (x ∷ xs) d (a, h) = (All-Perm _ d a, Own-Perm xs d h)

-- Two orders of rows with times of their own that are both newest first are the same.
pub newest_first_unique :
    (rows xs ys : List Task)
    → HaveOwnTimes rows rows
    → Permᴰ xs rows × IsNewestFirst xs
    → Permᴰ ys rows × IsNewestFirst ys
    → xs ≡ ys
newest_first_unique rows xs ys own (p, h) (q, k) =
    one_order xs ys (λ t. Perm-SameCounts p t ∙ sym (Perm-SameCounts q t)) h k
      (Own-Perm xs q (All-Perm _ p own))
