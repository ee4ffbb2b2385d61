-- ===== src/Backups/Retention.antt =====
-- `CleanupRetention` and `writeRetentionArchive` of backend/internal/service/backup_service.go.
pub mod Kept
use snow_panel.Prelude.{
  ℕ, ℤ, pos_part, ◌-◌, ◌*◌, Text, text, text_eq, trim_space, is_nonpos, Bool, true, false, ◌&&◌,
  ◌||◌, not, Option, none, some, List, [], ◌∷◌, ◌++◌, is_some, ltb, if◌then◌else◌,
}
use snow_panel.Errors.{GoError, plain, Result, ok, err}
use snow_panel.Login.{minute}
use snow_panel.Backups.Store.{Backup}
use snow_panel.Backups.Names.{after_prefix}
use snow_panel.Backups.World.{
  BackupEnv, Files, B, ◌>>=◌, return, on_disk, clock, repo_count_deletable, repo_list_deletable,
  repo_delete_deletable, map_backup_summary, wrap_backup_internal,
}
use snow_panel.Backups.Service.{CleanupRequest, CleanupResult, or_internal}

abbrev pub day : ℕ
day = 1440 * minute

-- A step whose error is passed on as it is.
abbrev pub or_pass : {R S : Type 0} → Result R → (R → B (Result S)) → B (Result S)
or_pass r f = elim r [ err x ↦ return (err x) | ok a ↦ f a ]

abbrev pub or_pass_step : {R S : Type 0} → B (Result R) → (R → B (Result S)) → B (Result S)
or_pass_step m f = do r ← m; or_pass r f

-- The content of a file, and no longer any other.
unfoldable pub put_file : Text → Text → Files → Files
put_file path content files = λ p. if text_eq p path then some content else files p

-- The file is created, unless there is one.
abbrev pub create_exclusive : Text → Files → Result (Unit {0}) × Files
create_exclusive path files =
    if is_some (files path)
    then (err (plain (text "file exists")), files)
    else (ok tt, put_file path [] files)

abbrev pub append_file : Text → Text → Files → Result (Unit {0}) × Files
append_file path content files = elim (files path) [
  | none ↦ (ok tt, files)
  | some before ↦ (ok tt, put_file path (before ++ content) files)
]

module _ (e : BackupEnv) where
  -- The test for a path that leaves the directory.
  abbrev pub escapes : Text → Bool
  escapes rel = text_eq rel (text "..") || is_some (after_prefix (text "../") rel) || e.is_abs rel

  -- The lines of the archive.
  unfoldable pub write_lines : Text → ℕ → List Backup → B (Result (Unit {0}))
  write_lines path cutoff [] = return (ok tt)
  write_lines path cutoff (b ∷ rest) = do
    now ← clock e
    or_pass (e.marshal_line (e.rfc3339 now) (e.rfc3339 cutoff) (map_backup_summary e b)) λ line.
        or_pass_step (on_disk e (append_file path (line ++ text "\n")))
          λ _. write_lines path cutoff rest

  -- `writeRetentionArchive`.
  unfoldable pub write_retention_archive : List Backup → ℕ → B (Result Text)
  unfolding write_lines put_file
  write_retention_archive [] cutoff = return (ok [])
  write_retention_archive (b ∷ bs) cutoff = or_pass (e.abs (trim_space e.local_dir)) λ local.
      or_pass_step (on_disk e (λ files. (ok tt, files))) λ _. (do
        now ← clock e
        let path =
            e.join local
              (text "snowpanel-backup-metadata-archive-" ++ (e.show now ++ text ".jsonl"))
        or_pass (e.rel local path) λ rel.
            if escapes rel
            then return (err (plain (text "backup retention archive path escapes local directory")))
            else or_pass_step (on_disk e (create_exclusive path))
                λ _. or_pass_step (write_lines path cutoff (b ∷ bs)) λ _. return (ok path))

  abbrev pub cleanup_days : ℤ → ℕ
  cleanup_days asked =
      if not (is_nonpos asked)
      then pos_part asked
      else if not (is_nonpos e.retention_days)
      then pos_part e.retention_days
      else 30

  abbrev pub cleanup_result : CleanupRequest → ℕ → ℕ → ℕ → Text → CleanupResult
  cleanup_result q cutoff matched deleted path = record {
    dry_run = q.dry_run;
    retention_days = cleanup_days q.retention_days;
    cutoff = e.rfc3339 cutoff;
    matched_rows = matched;
    deleted_rows = deleted;
    archive_before_delete = q.archive_before_delete;
    archive_path = path;
  }

  -- The archive of `CleanupRetention`, if one is made.
  unfoldable pub archive_deletable : CleanupRequest → ℕ → ℕ → B (Result Text)
  unfolding write_retention_archive
  archive_deletable q cutoff matched =
      if q.archive_before_delete && ltb 0 matched
      then (or_internal (repo_list_deletable e cutoff)
          λ items. or_internal (write_retention_archive items cutoff) λ path. return (ok path))
      else return (ok [])

  -- `CleanupRetention` for a time before which records are old.
  unfoldable pub cleanup_before : CleanupRequest → ℕ → B (Result CleanupResult)
  unfolding archive_deletable
  cleanup_before q cutoff = or_internal (repo_count_deletable e cutoff) λ matched.
      if q.dry_run
      then return (ok (cleanup_result q cutoff matched 0 []))
      else or_pass_step (archive_deletable q cutoff matched) λ path.
        or_internal (repo_delete_deletable e cutoff)
          λ deleted. return (ok (cleanup_result q cutoff matched deleted path))

  -- `CleanupRetention`; `AddDate` of days in UTC takes whole days off, and no record is older than the
  -- epoch.
  unfoldable pub cleanup_retention : CleanupRequest → B (Result CleanupResult)
  unfolding cleanup_before
  cleanup_retention q = do
    now ← clock e
    cleanup_before q (now - cleanup_days q.retention_days * day)
