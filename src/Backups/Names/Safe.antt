-- ===== src/Backups/Names/Safe.antt =====
-- The name of the file of an artifact in backend/internal/service/backup_service.go names a file of one
-- directory.
use snow_panel.Prelude.{
  ℕ, ◌≡◌, ◌≢◌, refl, inl, inr, Text, text, trim_space, is_empty, byte_len, zero, suc, Bool, true,
  false, any_of, ◌||◌, [], ◌∷◌, ◌++◌, take, ltb, ◌==◌, All, All-append, arith, Bool-cases,
}
use mathlib.Core.List.{reverse_aux}
use snow_panel.Backups.Names.{
  dash, is_name_char, dash_others, trim_dashes_left, trim_dashes, or_backup,
  sanitize_backup_filename_part, artifact_file_name,
}

-- A lower case letter, a digit or a dash.
abbrev pub IsPart : ℕ → Type 0
IsPart c = (is_name_char c || c == dash) ≡ true

dash_others-IsPart : (last : Bool) (s : Text) → All IsPart (dash_others last s)
unfolding dash_others
dash_others-IsPart last [] = tt
dash_others-IsPart last (c ∷ s) = elim (Bool-cases (is_name_char c)) [
  | inl e ↦ rw e (ground (arith, e), dash_others-IsPart false s)
  | inr e ↦ rw e (elim (Bool-cases last) [
    | inl l ↦ rw l (dash_others-IsPart true s)
    | inr l ↦ rw l (refl, dash_others-IsPart true s)
  ])
]

trim_left-All : (P : ℕ → Type 0) (s : Text) → All P s → All P (trim_dashes_left s)
unfolding trim_dashes_left
trim_left-All P [] h = tt
trim_left-All P (c ∷ s) h = elim (Bool-cases (c == dash)) [
  | inl e ↦ rw e (trim_left-All P s h.1)
  | inr e ↦ rw e h
]

reverse_aux-All :
    (P : ℕ → Type 0) (s done : Text) → All P s → All P done → All P (reverse_aux s done)
reverse_aux-All P [] done h d = d
reverse_aux-All P (c ∷ s) done h d = reverse_aux-All P s (c ∷ done) h.1 (h.0, d)

take-All : (P : ℕ → Type 0) (n : ℕ) (s : Text) → All P s → All P (take n s)
take-All P zero s h = tt
take-All P (suc n) [] h = tt
take-All P (suc n) (c ∷ s) h = (h.0, take-All P n s h.1)

trim-All : (P : ℕ → Type 0) (s : Text) → All P s → All P (trim_dashes s)
trim-All P s h =
    reverse_aux-All P _ [] (trim_left-All P _ (reverse_aux-All P _ [] (trim_left-All P s h) tt)) tt

backup-IsPart : All IsPart (text "backup")
unfolding text
backup-IsPart = (refl, (refl, (refl, (refl, (refl, (refl, tt))))))

or_backup-IsPart : (s : Text) → All IsPart s → All IsPart (or_backup s)
or_backup-IsPart [] h = backup-IsPart
or_backup-IsPart (c ∷ s) h = h

pub sanitize-IsPart :
    (lower : Text → Text) (raw : Text) → All IsPart (sanitize_backup_filename_part lower raw)
unfolding sanitize_backup_filename_part
sanitize-IsPart lower raw =
    let result = trim_dashes (dash_others false (lower (trim_space raw))) in
    let parts = trim-All IsPart _ (dash_others-IsPart false (lower (trim_space raw))) in
    elim (Bool-cases (is_empty result)) [
      | inl e ↦ rw e backup-IsPart
      | inr e ↦ rw e (elim (Bool-cases (ltb 64 (byte_len result))) [
        | inl f ↦ rw f (or_backup-IsPart _ (trim-All IsPart _ (take-All IsPart 64 _ parts)))
        | inr f ↦ rw f parts
      ])
    ]

-- No path separator.
abbrev pub IsPlain : ℕ → Type 0
IsPlain c = c ≢ 47

parts-IsPlain : (s : Text) → All IsPart s → All IsPlain s
parts-IsPlain [] h = tt
parts-IsPlain (c ∷ s) h = (ground (arith, h.0), parts-IsPlain s h.1)

no_slash : (s : Text) → any_of (λ c. c == 47) s ≡ false → All IsPlain s
no_slash [] h = tt
no_slash (c ∷ s) h = (ground (arith, h), no_slash s (ground (arith, h)))

constants-IsPlain :
    All IsPlain (text "snowpanel-") × All IsPlain (text "-") × All IsPlain (text ".json")
unfolding text
constants-IsPlain =
    (no_slash (text "snowpanel-") refl, no_slash (text "-") refl, no_slash (text ".json") refl)

-- The name of an artifact's file has no path separator and begins with `snowpanel-`, whatever the type
-- and the id of the resource are: joined to the directory of backups, it names a file directly in it.
-- This relies on decimal numbers having no separator.
pub artifact_file_name-IsPlain :
    (lower : Text → Text) (show : ℕ → Text) (resource_type resource_id : Text) (id seconds : ℕ)
    → ((n : ℕ) → All IsPlain (show n))
    → (rest : Text) × (artifact_file_name lower show resource_type resource_id id seconds
        ≡ text "snowpanel-" ++ rest)
      × All IsPlain (artifact_file_name lower show resource_type resource_id id seconds)
unfolding artifact_file_name
artifact_file_name-IsPlain lower show resource_type resource_id id seconds digits =
    let (a, b, c) = constants-IsPlain in
    let part = λ (raw : Text). parts-IsPlain _ (sanitize-IsPart lower raw) in
    (
      _,
      refl,
      All-append IsPlain _ _ a (
          All-append IsPlain _ _ (part resource_type) (
            All-append IsPlain _ _ b (
              All-append IsPlain _ _ (part resource_id) (
                All-append IsPlain _ _ b (
                  All-append IsPlain _ _ (digits id)
                    (All-append IsPlain _ _ b (All-append IsPlain _ _ (digits seconds) c))))))),
    )
