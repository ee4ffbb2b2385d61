-- ===== src/Backups/Artifact/Checks.antt =====
-- The checks of an artifact in `VerifyArtifact` of backend/internal/service/backup_service.go.
use snow_panel.Prelude.{
  ℕ, ◌≡◌, ◌⊎◌, refl, sym, ap, ◌∙◌, inl, inr, Text, text, text_eq, byte_len, Bool, true, false, not,
  Option, none, some, [], Bool-cases, if◌then◌else◌, arith,
}
use mathlib.Core.Option.{some-injective}
use snow_panel.Errors.{GoError, Result, ok, err, plain}
use snow_panel.Program.Hoare.{Does, bind-Does, return-Does}
use snow_panel.Backups.Store.{Backup, BackupDb, get_backup}
use snow_panel.Backups.Names.{storage_local, status_success}
use snow_panel.Backups.World.{
  BackupEnv, BackupWorld, BackupSummary, Files, B, ◌>>=◌, return, perform, on_disk, clock, repo_get,
  repo_update_verification, bad_backup_request, map_backup_summary,
}
use snow_panel.Backups.Service.{give_up, differs, or_internal}
use snow_panel.Backups.Retention.{or_pass_step}
use snow_panel.Backups.Artifact.{
  read_file, checksum_of, backup_path_within_local_dir, is_json, check_manifest,
  validate_backup_artifact_manifest, verify_content,
}

-- No other process writes a record or a file.
abbrev pub IsQuiet : BackupEnv → Type 0
IsQuiet e =
    ((n : ℕ) (db : BackupDb) → (e.turn n).other_rows db ≡ db)
    × ((n : ℕ) (files : Files) → (e.turn n).other_files files ≡ files)

-- The tests of `VerifyArtifact` that a record and its file have passed.
pub record HasPassed (e : BackupEnv) (id : ℕ) (db : BackupDb) (files : Files) (a : BackupSummary)
    : Type 0 where
  pub backup : Backup
  pub content : Text
  pub found : get_backup id db ≡ some backup
  pub local : text_eq backup.storage_type storage_local ≡ true
  pub inside : backup_path_within_local_dir e files backup.file_path ≡ true
  pub stored : files backup.file_path ≡ some content
  pub agrees : differs e backup (byte_len content) (checksum_of e content) ≡ none
  pub manifest : (is_json e backup.file_path ≡ false) ⊎ (check_manifest e backup content ≡ ok tt)
  pub answered : (a.checksum ≡ checksum_of e content) × (a.size_bytes ≡ byte_len content)

pub is_true : (b : Bool) → not b ≡ false → b ≡ true
is_true b h = ground (arith, h)

pub was_read :
    (o : Option Text) (content : Text)
    → ◌≡◌ {A = Result Text}
        (elim o [ none ↦ err (plain (text "no such file or directory")) | some c ↦ ok c ])
        (ok content)
    → o ≡ some content
was_read none content h = absurd (cc)
was_read (some c) content h = ap (λ (r : Result Text). elim r [ err x ↦ some [] | ok y ↦ some y ]) h

trivial : {R : Type 0} {P : BackupWorld → Type 0} (m : B R) → Does P m (λ r w. Unit {0})
trivial m = record { at = λ w h. tt }

module _ (e : BackupEnv) (quiet : IsQuiet e) (id : ℕ) (db : BackupDb) (files : Files) where
  abbrev pub Same : BackupWorld → Type 0
  Same w = (w.db ≡ db) × (w.files ≡ files)

  abbrev pub Sound : Result BackupSummary → BackupWorld → Type 0
  Sound (ok a) w = HasPassed e id db files a
  Sound (err x) w = Unit

  abbrev IsRead : {S R : Type 0} → (S → Result R) → S → Result R → Type 0
  IsRead f s (ok r) = f s ≡ ok r
  IsRead f s (err x) = Unit

  is_read : {R : Type 0} (f : Files → Result R) (r : Result R) → f files ≡ r → IsRead f files r
  is_read f (ok r) h = h
  is_read f (err x) h = tt

  pub disk-Same :
      {R : Type 0} (f : Files → Result R)
      → Does Same (on_disk e (λ fs. (f fs, fs))) (λ r w. IsRead f files r × Same w)
  unfolding on_disk
  disk-Same f = record {
    at = λ w (h, k). elim (Bool-cases (e.turn w.steps).fails) [
      | inl g ↦ rw g (tt, (quiet.0 w.steps w.db ∙ h, quiet.1 w.steps w.files ∙ k))
      | inr g ↦ rw g (
        is_read f _ (sym (ap f (quiet.1 w.steps w.files ∙ k))),
        (quiet.0 w.steps w.db ∙ h, quiet.1 w.steps w.files ∙ k),
      )
    ];
  }

  pub reads-Same :
      Does Same (repo_get e id) (λ r w. IsRead (λ d. ok (get_backup id d)) db r × Same w)
  unfolding perform repo_get
  reads-Same = record {
    at = λ w (h, k). elim (Bool-cases (e.turn w.steps).fails) [
      | inl g ↦ rw g (tt, (quiet.0 w.steps w.db ∙ h, quiet.1 w.steps w.files ∙ k))
      | inr g ↦ rw g (
        ap (λ (d : BackupDb). ok (get_backup id d)) (sym (quiet.0 w.steps w.db ∙ h)),
        (quiet.0 w.steps w.db ∙ h, quiet.1 w.steps w.files ∙ k),
      )
    ];
  }

  pub no : {P : BackupWorld → Type 0} (x : GoError) → Does P (return (err x)) Sound
  no x = return-Does _ (λ w h. tt)

  pub given_up :
      {P : BackupWorld → Type 0} (k : ℕ) (x : GoError) → Does P (give_up e k (err x)) Sound
  unfolding give_up ◌>>=◌ return
  given_up k x = record { at = λ w h. tt }

  -- The end of `VerifyArtifact`, for the record `b` and the content `c` of its file.
  module _ (b : Backup) (c : Text) (found : get_backup id db ≡ some b)
      (local : text_eq b.storage_type storage_local ≡ true)
      (inside : backup_path_within_local_dir e files b.file_path ≡ true)
      (stored : files b.file_path ≡ some c) where
    abbrev IsChecked : Result (Unit {0}) → Type 0
    IsChecked (ok u) = (is_json e b.file_path ≡ false) ⊎ (check_manifest e b c ≡ ok tt)
    IsChecked (err x) = Unit

    to_checked : (r : Result (Unit {0})) → check_manifest e b c ≡ r → IsChecked r
    to_checked (ok u) h = inr h
    to_checked (err x) h = tt

    json-Does :
        (json : Bool)
        → is_json e b.file_path ≡ json
        → Does Same
            (if not json
              then return (ok tt)
              else or_pass_step
                  (on_disk e (read_file b.file_path))
                  λ content. return (check_manifest e b content))
            (λ r w. IsChecked r × Same w)
    json-Does false eq = return-Does (ok tt) (λ w h. (inl eq, h))
    json-Does true eq = bind-Does (disk-Same (λ fs. (read_file b.file_path fs).0)) (elim [
      | err x ↦ return-Does _ (λ w h. (tt, h.1))
      | ok content ↦ return-Does _ λ w (r, h). (
        to_checked _ (
            ap (check_manifest e b)
              (some-injective c content (sym stored ∙ was_read (files b.file_path) content r))),
        h,
      )
    ])

    manifest-Does : Does Same (validate_backup_artifact_manifest e b) (λ r w. IsChecked r × Same w)
    unfolding validate_backup_artifact_manifest
    manifest-Does = json-Does (is_json e b.file_path) refl

    finished :
        differs e b (byte_len c) (checksum_of e c) ≡ none
        → (is_json e b.file_path ≡ false) ⊎ (check_manifest e b c ≡ ok tt)
        → Does Same
            (or_internal
              (repo_update_verification e b.id status_success
                (byte_len c)
                (checksum_of e c)
                b.file_path)
              (λ _. (do
                now ← clock e
                return (
                    ok (
                      map_backup_summary e (record b {
                        status = status_success;
                        size_bytes = byte_len c;
                        checksum = checksum_of e c;
                        updated_at = now;
                      }))))))
            Sound
    finished agrees manifest = bind-Does (trivial _) (elim [
      | err x ↦ no _
      | ok u ↦ bind-Does (trivial _) λ now. return-Does _ λ w h. record {
        backup = b;
        content = c;
        found = found;
        local = local;
        inside = inside;
        stored = stored;
        agrees = agrees;
        manifest = manifest;
        answered = (refl, refl);
      }
    ])

    compared-Does :
        (o : Option GoError)
        → differs e b (byte_len c) (checksum_of e c) ≡ o
        → Does Same
            (elim o as (λ _. B (Result BackupSummary)) [
              | some x ↦ give_up e b.id (bad_backup_request x)
              | none ↦ do
                m ← validate_backup_artifact_manifest e b
                elim m [
                  | err x ↦ give_up e b.id (bad_backup_request x)
                  | ok u ↦
                      or_internal
                        (repo_update_verification e b.id status_success
                          (byte_len c)
                          (checksum_of e c)
                          b.file_path)
                        (λ _. (do
                          now ← clock e
                          return (
                              ok (
                                map_backup_summary e (record b {
                                  status = status_success;
                                  size_bytes = byte_len c;
                                  checksum = checksum_of e c;
                                  updated_at = now;
                                })))))
                ]
            ])
            Sound
    compared-Does (some x) agrees = given_up b.id _
    compared-Does none agrees = bind-Does manifest-Does (elim [
      | err x ↦ given_up b.id _
      | ok u ↦ record { at = λ w (m, h). (finished agrees m).at w h }
    ])

    pub content-Does : Does Same (verify_content e b c) Sound
    unfolding verify_content
    content-Does = compared-Does (differs e b (byte_len c) (checksum_of e c)) refl
