-- ===== src/Tasks/Repository/Updates.antt =====
-- What `UPDATE ... WHERE` keeps: a property of every row, and the identity of the rows.
use snow_panel.Prelude.{
  ℕ, ◌<◌, ◌≡◌, ◌≢◌, sym, Text, text_eq_refl, Bool, true, false, Option, none, some, List, [], ◌∷◌,
  ◌++◌, All, All-append, any_of, arith, Bool-cases, inl, inr, subst, ◌∙◌,
}
use mathlib.Core.List.{Memᴰ}
use snow_panel.Tasks.Model.{Task}
use snow_panel.Tasks.Repository.{update_where, has_key}

-- From a property of the rows before to one of the rows after, on the rows hit and the others.
module _ {ℓ κ} (P : Task → Type ℓ) (Q : Task → Type κ) (c : Task → Bool) (f : Task → Task) where
  pub All-update_where_from :
      (ts : List Task)
      → ((t : Task) → c t ≡ true → P t → Q (f t))
      → ((t : Task) → c t ≡ false → P t → Q t)
      → All P ts
      → All Q (update_where c f ts)
  unfolding update_where
  All-update_where_from [] hits misses h = tt
  All-update_where_from (t ∷ ts) hits misses h = elim (Bool-cases (c t)) [
    | inl hit ↦ rw hit (hits t hit h.0, All-update_where_from ts hits misses h.1)
    | inr miss ↦ rw miss (misses t miss h.0, All-update_where_from ts hits misses h.1)
  ]

module _ {ℓ} (P : Task → Type ℓ) (c : Task → Bool) (f : Task → Task) where
  pub All-update_where :
      (ts : List Task)
      → ((t : Task) → c t ≡ true → P t → P (f t))
      → All P ts
      → All P (update_where c f ts)
  All-update_where ts keep = All-update_where_from P P c f ts keep (λ t _ h. h)

-- Two rows have different ids and no idempotency key in common.
pub record Apart (s t : Task) : Type 0 where
  pub ids : s.id ≢ t.id
  pub keys : (k : Text) → s.idempotency_key ≡ some k → t.idempotency_key ≢ some k

abbrev pub Distinct : List Task → Type 0
Distinct [] = Unit
Distinct (t ∷ ts) = All (Apart t) ts × Distinct ts

-- A `SET` clause leaves the id and the key alone.
pub record KeepsIdentity (f : Task → Task) : Type 0 where
  pub same_id : (t : Task) → (f t).id ≡ t.id
  pub same_key : (t : Task) → (f t).idempotency_key ≡ t.idempotency_key

Apart-left : (f : Task → Task) → KeepsIdentity f → (s t : Task) → Apart s t → Apart (f s) t
Apart-left f k s t a = record {
  ids = λ e. a.ids (sym (k.same_id s) ∙ e);
  keys = λ x p. a.keys x (sym (k.same_key s) ∙ p);
}

Apart-right : (f : Task → Task) → KeepsIdentity f → (s t : Task) → Apart s t → Apart s (f t)
Apart-right f k s t a = record {
  ids = λ e. a.ids (e ∙ k.same_id t);
  keys = λ x p q. a.keys x p (sym (k.same_key t) ∙ q);
}

All-map-Apart :
    (f : Task → Task)
    → KeepsIdentity f
    → (s : Task) (ts : List Task) → All (Apart s) ts
    → All (Apart (f s)) ts
All-map-Apart f k s [] h = tt
All-map-Apart f k s (t ∷ ts) h = (Apart-left f k s t h.0, All-map-Apart f k s ts h.1)

pub update_where-Distinct :
    (c : Task → Bool) (f : Task → Task) (ts : List Task)
    → KeepsIdentity f
    → Distinct ts
    → Distinct (update_where c f ts)
unfolding update_where
update_where-Distinct c f [] k d = tt
update_where-Distinct c f (t ∷ ts) k d = elim (Bool-cases (c t)) [
  | inl hit ↦ rw hit (
    All-update_where (Apart (f t)) c f ts (λ u _. Apart-right f k (f t) u)
        (All-map-Apart f k t ts d.0),
    update_where-Distinct c f ts k d.1,
  )
  | inr miss ↦ rw miss (
    All-update_where (Apart t) c f ts (λ u _. Apart-right f k t u) d.0,
    update_where-Distinct c f ts k d.1,
  )
]

abbrev pub Below : ℕ → Task → Type 0
Below n t = t.id < n

-- A row that `Create` adds is apart from the rows that are there.
pub Distinct-append :
    (ts : List Task) (t : Task) → All (λ s. Apart s t) ts → Distinct ts → Distinct (ts ++ t ∷ [])
Distinct-append [] t a d = (tt, tt)
Distinct-append (s ∷ ts) t a d =
    (All-append (Apart s) ts (t ∷ []) d.0 (a.0, tt), Distinct-append ts t a.1 d.1)

-- The test of the unique index finds every row that has the key.
pub any_of-has_key :
    (o : Option Text) (n : ℕ) (ts : List Task) (t : Task)
    → any_of (has_key o) ts ≡ false
    → t.idempotency_key ≡ o
    → t.id ≡ n
    → All (Below n) ts
    → All (λ s. Apart s t) ts
any_of-has_key o n [] t h e i b = tt
any_of-has_key none n (s ∷ ts) t h e i b = (
  record { ids = λ p. absurd (omega (arith, b.0)); keys = λ k p q. cc },
  any_of-has_key none n ts t h e i b.1,
)
any_of-has_key (some k) n (s ∷ ts) t h e i b = (
  record { ids = λ p. absurd (omega (arith, b.0)); keys = λ j p q. ground (arith, text_eq_refl k) },
  any_of-has_key (some k) n ts t (ground arith) e i b.1,
)

-- Ids are unique: the row of a list that has the id of a row of it is that row.
pub ids_determine :
    (ts : List Task) (w : Task) → Distinct ts → Memᴰ w ts → All (λ t. t.id ≡ w.id → t ≡ w) ts
ids_determine [] w d m = elim m [ ]
ids_determine (t ∷ ts) w d (Memᴰ.head e) = (λ _. sym e, others ts d.0)
  where
    others : (us : List Task) → All (Apart t) us → All (λ u. u.id ≡ w.id → u ≡ w) us
    others [] h = tt
    others (u ∷ us) h = (λ p. absurd (h.0.ids (cc)), others us h.1)
ids_determine (t ∷ ts) w d (Memᴰ.tail m) =
    (λ p. absurd (found ts m d.0 p), ids_determine ts w d.1 m)
  where
    found : (us : List Task) → Memᴰ w us → All (Apart t) us → t.id ≡ w.id → ⊥
    found [] m h p = elim m [ ]
    found (u ∷ us) (Memᴰ.head e) h p = h.0.ids (cc)
    found (u ∷ us) (Memᴰ.tail n) h p = found us n h.1 p

pub All-Mem {ℓ} : (P : Task → Type ℓ) (ts : List Task) (t : Task) → All P ts → Memᴰ t ts → P t
All-Mem P [] t h m = elim m [ ]
All-Mem P (u ∷ ts) t h (Memᴰ.head e) = subst P (sym e) h.0
All-Mem P (u ∷ ts) t h (Memᴰ.tail m) = All-Mem P ts t h.1 m
