-- ===== src/Backups/Service.antt =====
-- Records of backups in backend/internal/service/backup_service.go: `CreateMetadata`, `Verify`,
-- `MarkStatus`, `List` and `CleanupRetention`.
use snow_panel.Prelude.{
  ℕ, ℤ, pos, pos_part, Text, text, text_eq, trim_space, is_empty, is_nonpos, Bool, true, false,
  ◌&&◌, not, Option, none, some, List, [], map, ltb, ◌==◌, if◌then◌else◌,
}
use snow_panel.Errors.{GoError, AppError, new, app, plain, Result, ok, err}
use snow_panel.Tasks.Pages.{page_or_first, size_or_default}
use snow_panel.Backups.Store.{Backup, BackupListFilter}
use snow_panel.Backups.Names.{
  status_pending, status_failed, status_success, normalize_backup_resource_type,
  normalize_backup_storage_type, normalize_backup_status_filter, normalize_backup_text,
  normalize_backup_checksum,
}
use snow_panel.Backups.World.{
  BackupEnv, BackupSummary, B, ◌>>=◌, ◌>>◌, return, clock, repo_create, repo_get,
  repo_update_status, repo_update_verification, repo_list, map_backup_summary, bad_backup_request,
  wrap_backup_internal,
}

abbrev pub backup_not_found : AppError
backup_not_found = new 2014 404 (text "backup not found")

-- `dto.CreateBackupMetadataRequest`.
pub record CreateBackupMetadataRequest : Type 0 where
  pub resource_type : Text
  pub resource_id : Text
  pub storage_type : Text
  pub file_path : Text

-- `dto.VerifyBackupRequest`.
pub record VerifyBackupRequest : Type 0 where
  pub size_bytes : ℤ
  pub checksum : Text
  pub file_path : Text

-- `dto.ListBackupsResult`.
pub record ListBackupsResult : Type 0 where
  pub page : ℕ
  pub size : ℕ
  pub total : ℕ
  pub items : List BackupSummary

-- `dto.BackupRetentionCleanupRequest` and `dto.BackupRetentionCleanupResult`.
pub record CleanupRequest : Type 0 where
  pub dry_run : Bool
  pub retention_days : ℤ
  pub archive_before_delete : Bool

pub record CleanupResult : Type 0 where
  pub dry_run : Bool
  pub retention_days : ℕ
  pub cutoff : Text
  pub matched_rows : ℕ
  pub deleted_rows : ℕ
  pub archive_before_delete : Bool
  pub archive_path : Text

-- The chain of `if err != nil` of a request that is refused.
abbrev pub or_refuse : {R S : Type 0} → Result R → (R → B (Result S)) → B (Result S)
or_refuse r f = elim r [ err x ↦ return (bad_backup_request x) | ok a ↦ f a ]

-- The same for a statement.
abbrev pub or_internal : {R S : Type 0} → B (Result R) → (R → B (Result S)) → B (Result S)
or_internal m f = do r ← m; elim r [ err x ↦ return (wrap_backup_internal x) | ok a ↦ f a ]

abbrev pub new_backup : Text → Text → Text → Text → Option ℕ → Backup
new_backup resource_type resource_id storage_type file_path created_by = record {
  id = 0;
  resource_type = resource_type;
  resource_id = resource_id;
  storage_type = storage_type;
  file_path = file_path;
  size_bytes = 0;
  checksum = [];
  status = status_pending;
  created_by = created_by;
  created_at = 0;
  updated_at = 0;
}

abbrev pub id_not_positive : GoError
id_not_positive = plain (text "backup id must be positive")

module _ (e : BackupEnv) where
  -- `CreateMetadata`.
  unfoldable pub create_metadata : CreateBackupMetadataRequest → Option ℕ → B (Result BackupSummary)
  create_metadata q created_by =
      or_refuse (normalize_backup_resource_type e.lower e.quote q.resource_type) λ resource_type.
        or_refuse (normalize_backup_text e.show q.resource_id (text "resource_id") 128 true)
          λ resource_id.
            or_refuse (normalize_backup_storage_type e.lower q.storage_type) λ storage_type.
              or_refuse (normalize_backup_text e.show q.file_path (text "file_path") 1024 false)
                λ file_path.
                  or_internal
                    (repo_create e
                      (new_backup resource_type resource_id storage_type file_path created_by))
                    λ b. return (ok (map_backup_summary e b))

  -- A method's end at a record that it marks as failed, where a failing mark is ignored.
  unfoldable pub give_up : {R : Type 0} → ℕ → Result R → B (Result R)
  give_up id answer = repo_update_status e id status_failed >> return answer

  -- The lookup of the methods on one record.
  abbrev pub with_backup : {R : Type 0} → ℤ → (Backup → B (Result R)) → B (Result R)
  with_backup id f =
      or_internal (repo_get e (pos_part id))
        λ found. elim found [ none ↦ return (err (app backup_not_found)) | some b ↦ f b ]

  -- The comparison with a record that has a checksum and a size.
  abbrev pub differs : Backup → ℕ → Text → Option GoError
  differs b size checksum =
      if not (is_empty b.checksum) && not (text_eq b.checksum checksum)
      then some (plain (text "backup checksum mismatch"))
      else if ltb 0 b.size_bytes && not (b.size_bytes == size)
      then some (plain (text "backup size mismatch"))
      else none

  -- `Verify` for the record that was found.
  unfoldable pub verify_found : Backup → ℕ → Text → Text → B (Result BackupSummary)
  unfolding give_up
  verify_found b size checksum path = elim (differs b size checksum) [
    | some x ↦ give_up b.id (bad_backup_request x)
    | none ↦ or_internal (repo_update_verification e b.id status_success size checksum path) λ _.
        (do
          now ← clock e
          return (
              ok (
                map_backup_summary e (record b {
                  size_bytes = size;
                  checksum = checksum;
                  status = status_success;
                  file_path = if is_empty path then b.file_path else path;
                  updated_at = now;
                }))))
  ]

  -- `Verify`.
  unfoldable pub verify : ℤ → VerifyBackupRequest → B (Result BackupSummary)
  unfolding verify_found
  verify id q =
      if is_nonpos id
      then return (bad_backup_request id_not_positive)
      else if is_nonpos q.size_bytes
      then return (bad_backup_request (plain (text "size_bytes must be positive")))
      else or_refuse (normalize_backup_checksum e.lower q.checksum) λ checksum.
        or_refuse (normalize_backup_text e.show q.file_path (text "file_path") 1024 false)
          λ path. with_backup id λ b. verify_found b (pos_part q.size_bytes) checksum path

  -- `MarkStatus` for a status that was accepted.
  unfoldable pub mark_accepted : ℤ → Text → B (Result BackupSummary)
  mark_accepted id status = with_backup id λ b. or_internal (repo_update_status e b.id status) λ _.
      (do
        now ← clock e
        return (ok (map_backup_summary e (record b { status = status; updated_at = now }))))

  -- `MarkStatus`.
  unfoldable pub mark_status : ℤ → Text → B (Result BackupSummary)
  unfolding mark_accepted
  mark_status id raw =
      if is_nonpos id
      then return (bad_backup_request id_not_positive)
      else or_refuse (normalize_backup_status_filter e.lower e.quote raw) λ status.
        if is_empty status
        then return (bad_backup_request (plain (text "backup status is required")))
        else mark_accepted id status

  abbrev pub resource_filter : Text → Result Text
  resource_filter raw =
      if is_empty (trim_space raw)
      then ok []
      else normalize_backup_resource_type e.lower e.quote raw

  -- `List`, where the query is a filter before it is normalized.
  unfoldable pub list : BackupListFilter → B (Result ListBackupsResult)
  list q = or_refuse (normalize_backup_status_filter e.lower e.quote q.status) λ status.
      or_refuse (resource_filter q.resource_type) λ resource_type.
        or_internal
          (repo_list e (record q {
            page = pos (page_or_first q.page);
            size = pos (size_or_default q.size);
            status = status;
            resource_type = resource_type;
            resource_id = trim_space q.resource_id;
          }))
          λ found. return (
            ok (record {
              page = page_or_first q.page;
              size = size_or_default q.size;
              total = found.1;
              items = map (map_backup_summary e) found.0;
            }))
