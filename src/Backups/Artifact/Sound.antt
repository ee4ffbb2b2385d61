-- ===== src/Backups/Artifact/Sound.antt =====
-- What `VerifyArtifact` of backend/internal/service/backup_service.go has checked of an artifact that it
-- accepts.
use snow_panel.Prelude.{
  ℕ, ℤ, pos_part, ◌≡◌, refl, ap, subst, ◌∙◌, text_eq, trim_space, is_empty, is_nonpos, Bool, false,
  not, Option, none, some,
}
use snow_panel.Errors.{GoError, Result, ok, err}
use snow_panel.Program.Hoare.{Does, bind-Does, if-Does, split-Does, with_fact}
use snow_panel.Backups.Store.{Backup, BackupDb, get_backup}
use snow_panel.Backups.Names.{storage_local}
use snow_panel.Backups.World.{BackupEnv, BackupWorld, BackupSummary, Files}
use snow_panel.Backups.Service.{give_up}
use snow_panel.Backups.Artifact.{read_file, backup_path_within_local_dir, verify_artifact}
use snow_panel.Backups.Artifact.Genuine.{IsArtifact, passed-IsArtifact}
use snow_panel.Backups.Artifact.Checks.{
  IsQuiet, Same, Sound, disk-Same, reads-Same, no, given_up, content-Does, is_true, was_read,
}

module _ (e : BackupEnv) (quiet : IsQuiet e) (raw : ℤ) (db : BackupDb) (files : Files) where
  abbrev At : BackupWorld → Type 0
  At = Same e quiet (pos_part raw) db files

  abbrev Right : Result BackupSummary → BackupWorld → Type 0
  Right = Sound e quiet (pos_part raw) db files

  up : {P : BackupWorld → Type 0} (k : ℕ) (x : GoError) → Does P (give_up e k (err x)) Right
  up = given_up e quiet (pos_part raw) db files

  verify-Does : Does At (verify_artifact e raw) Right
  unfolding verify_artifact
  verify-Does = if-Does (is_nonpos raw) (no e quiet (pos_part raw) db files _) (
      bind-Does (reads-Same e quiet (pos_part raw) db files) (elim [
        | err x ↦ no e quiet (pos_part raw) db files _
        | ok none ↦ no e quiet (pos_part raw) db files _
        | ok (some b) ↦ with_fact λ r.
            let found : get_backup (pos_part raw) db ≡ some b =
              ap (λ (o : Result (Option Backup)). elim o [ err x ↦ none | ok y ↦ y ]) r in
            split-Does (not (text_eq b.storage_type storage_local)) (λ l. up b.id _)
              λ l. if-Does (is_empty (trim_space b.file_path)) (up b.id _) (
                bind-Does
                  (disk-Same e quiet (pos_part raw) db files
                    (λ fs. ok (backup_path_within_local_dir e fs b.file_path)))
                  (elim [
                    | err x ↦ up b.id _
                    | ok inside ↦ with_fact λ i.
                        split-Does (not inside) (λ n. up b.id _)
                          λ n.
                            bind-Does
                              (disk-Same e quiet (pos_part raw) db files
                                (λ fs. (read_file b.file_path fs).0))
                              (elim [
                                | err x ↦ up b.id _
                                | ok content ↦ with_fact λ c.
                                    content-Does e quiet (pos_part raw) db files b content found
                                      (is_true _ l)
                                      (ap (λ (o : Result Bool). elim o [ err x ↦ false | ok y ↦ y ])
                                          i
                                        ∙ is_true inside n)
                                      (was_read (files b.file_path) content c)
                              ])
                  ]))
      ]))

-- `VerifyArtifact` accepts a record only if it is a local backup, the path of the record, without
-- spaces at its ends, leads inside the directory of backups when symbolic links are followed, and the
-- file at the path of the record has the size and the checksum that are answered, which are those of
-- the record, if the record has any; and if the path ends in .json, the file is a manifest that has
-- the id, the resource and the storage of the record. This holds whichever steps fail, when no other
-- process writes.
pub verify_artifact-IsArtifact :
    (e : BackupEnv) (raw : ℤ) (w : BackupWorld) (a : BackupSummary)
    → IsQuiet e
    → (verify_artifact e raw w).0 ≡ ok a
    → IsArtifact e (pos_part raw) w.db w.files a
verify_artifact-IsArtifact e raw w a quiet done = passed-IsArtifact (
    subst (λ r. Sound e quiet (pos_part raw) w.db w.files r (verify_artifact e raw w).1) done
      ((verify-Does e quiet raw w.db w.files).at w (refl, refl)))
