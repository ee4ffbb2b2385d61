-- ===== src/Tasks/Repository/Claim.antt =====
-- The claim statement: which row `ORDER BY created_at ASC LIMIT 1` picks.
use snow_panel.Prelude.{
  ◌≤◌, ◌≡◌, refl, ◌⊎◌, Bool, true, false, Option, none, some, List, [], ◌∷◌, All, arith, Bool-cases,
  inl, inr, ltb, if◌then◌else◌,
}
use mathlib.Core.List.{Memᴰ}
use snow_panel.Tasks.Model.{Task}
use snow_panel.Tasks.Repository.{oldest, earlier}

-- What `o` is for the rows `ts` under the condition `c`: nothing if no row passes, and else a
-- row that passes, with the least `created_at` of those that do.
abbrev pub Picks : (Task → Bool) → List Task → Option Task → Type 0
Picks c ts o =
    ((o ≡ none) × All (λ t. c t ≡ false) ts)
    ⊎ ((w : Task) × (o ≡ some w)
        × (c w ≡ true)
        × Memᴰ w ts
        × All (λ t. c t ≡ true → w.created_at ≤ t.created_at) ts)

none_bound :
    (c : Task → Bool) (w : Task) (ts : List Task)
    → All (λ u. c u ≡ false) ts
    → All (λ u. c u ≡ true → w.created_at ≤ u.created_at) ts
none_bound c w [] a = tt
none_bound c w (u ∷ ts) a = (λ h. cc, none_bound c w ts a.1)

lower_bound :
    (c : Task → Bool) (t w : Task) (ts : List Task)
    → t.created_at ≤ w.created_at
    → All (λ u. c u ≡ true → w.created_at ≤ u.created_at) ts
    → All (λ u. c u ≡ true → t.created_at ≤ u.created_at) ts
lower_bound c t w [] h a = tt
lower_bound c t w (u ∷ ts) h a = (λ k. omega (arith, a.0 k), lower_bound c t w ts h a.1)

oldest_first :
    (c : Task → Bool) (t : Task) (ts : List Task)
    → c t ≡ true
    → Picks c ts (oldest c ts)
    → Picks c (t ∷ ts) (some (earlier t (oldest c ts)))
unfolding earlier
oldest_first c t ts hit (inl (e, a)) =
    rw e (inr (t, refl, hit, Memᴰ.head refl, ((λ _. omega arith), none_bound c t ts a)))
oldest_first c t ts hit (inr (w, e, h, m, a)) =
    rw e (elim (Bool-cases (ltb w.created_at t.created_at)) [
      | inl less ↦ rw less (inr (w, refl, h, Memᴰ.tail m, ((λ _. ground arith), a)))
      | inr more ↦ rw more (
          inr (
            t,
            refl,
            hit,
            Memᴰ.head refl,
            ((λ _. omega arith), lower_bound c t w ts (ground arith) a),
          ))
    ])

pub oldest_found : (c : Task → Bool) (ts : List Task) → Picks c ts (oldest c ts)
unfolding oldest
oldest_found c [] = inl (refl, tt)
oldest_found c (t ∷ ts) = go (c t) refl (oldest_found c ts)
  where
    go :
        (b : Bool)
        → c t ≡ b
        → Picks c ts (oldest c ts)
        → Picks c (t ∷ ts) (if b then some (earlier t (oldest c ts)) else oldest c ts)
    go true hit h = oldest_first c t ts hit h
    go false miss (inl (e, a)) = inl (e, (miss, a))
    go false miss (inr (w, e, h, m, a)) = inr (w, e, h, Memᴰ.tail m, ((λ p. cc), a))
