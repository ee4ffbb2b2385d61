-- ===== src/Backups/Artifact.antt =====
-- Artifacts of backups: `CreateArtifact` and `VerifyArtifact` of
-- backend/internal/service/backup_service.go.
pub mod Checks
pub mod Genuine
pub mod Sound
use snow_panel.Prelude.{
  ℕ, ℤ, ◌/◌, Text, text, text_eq, trim_space, is_empty, is_nonpos, byte_len, Bool, false, ◌&&◌, not,
  none, some, ◌++◌, is_some, ◌==◌, if◌then◌else◌,
}
use snow_panel.Errors.{plain, Result, ok, err}
use snow_panel.Login.{second}
use snow_panel.Backups.Store.{Backup}
use snow_panel.Backups.Names.{
  storage_local, status_running, status_success, artifact_file_name, backup_artifact_scope,
  backup_artifact_note,
}
use snow_panel.Backups.World.{
  BackupEnv, BackupSummary, Manifest, Files, B, ◌>>=◌, ◌>>◌, return, on_disk, clock,
  repo_update_status, repo_update_verification, map_backup_summary, bad_backup_request,
  wrap_backup_internal,
}
use snow_panel.Backups.Service.{or_internal, with_backup, give_up, differs, id_not_positive}
use snow_panel.Backups.Retention.{or_pass_step, put_file, escapes}

-- `os.Rename` and `os.Remove`.
unfoldable pub move_file : Text → Text → Files → Result (Unit {0}) × Files
unfolding put_file
move_file from to files = elim (files from) [
  | none ↦ (err (plain (text "no such file or directory")), files)
  | some content ↦ (
    ok tt,
    λ p. if text_eq p from && not (text_eq from to) then none else put_file to content files p,
  )
]

abbrev pub remove_file : Text → Files → Result (Unit {0}) × Files
remove_file path files = (
  if is_some (files path) then ok tt else err (plain (text "no such file or directory")),
  λ p. if text_eq p path then none else files p,
)

abbrev pub read_file : Text → Files → Result Text × Files
read_file path files = (
  elim (files path) [
    | none ↦ err (plain (text "no such file or directory"))
    | some content ↦ ok content
  ],
  files,
)

module _ (e : BackupEnv) where
  -- The manifest that `CreateArtifact` writes.
  unfoldable pub artifact_manifest : Backup → ℕ → Manifest
  artifact_manifest b now = record {
    version = 1;
    kind = text "snowpanel.backup.artifact";
    backup_id = b.id;
    resource_type = b.resource_type;
    resource_id = b.resource_id;
    storage_type = b.storage_type;
    created_at = e.rfc3339 now;
    scope = backup_artifact_scope b.resource_type;
    note = backup_artifact_note b.resource_type;
  }

  -- `safeBackupArtifactPath`.
  unfoldable pub safe_backup_artifact_path : Backup → ℕ → Result Text
  safe_backup_artifact_path b now =
      let dir = trim_space e.local_dir in
      if is_empty dir
      then err (plain (text "backup local directory is required"))
      else elim (e.abs dir) [
        | err x ↦ err x
        | ok local ↦
            let path = e.join local (
              artifact_file_name e.lower e.show b.resource_type b.resource_id b.id
                (now / second)) in
            elim (e.rel local path) [
              | err x ↦ err x
              | ok rel ↦
                  if escapes e rel
                  then err (plain (text "backup artifact path escapes local directory"))
                  else ok path
            ]
      ]

  -- A step of `CreateArtifact`; where it fails, so has the backup.
  abbrev pub or_fail : {R S : Type 0} → ℕ → Result R → (R → B (Result S)) → B (Result S)
  or_fail id r f = elim r [ err x ↦ give_up e id (wrap_backup_internal x) | ok a ↦ f a ]

  abbrev pub or_fail_step : {R S : Type 0} → ℕ → B (Result R) → (R → B (Result S)) → B (Result S)
  or_fail_step id m f = do r ← m; or_fail id r f

  -- `os.WriteFile` to a temporary file, and `os.Rename`.
  unfoldable pub write_artifact : {R : Type 0} → ℕ → Text → Text → B (Result R) → B (Result R)
  unfolding put_file move_file
  write_artifact id path content rest =
      let temp = path ++ text ".tmp" in
      or_fail_step id (on_disk e (λ files. (ok tt, put_file temp content files))) λ _. (do
        r ← on_disk e (move_file temp path)
        elim r [
          | err x ↦ on_disk e (remove_file temp) >> give_up e id (wrap_backup_internal x)
          | ok _ ↦ rest
        ])

  abbrev pub checksum_of : Text → Text
  checksum_of content = text "sha256:" ++ e.digest content

  -- `CreateArtifact` for a record that is now running, from the path on.
  unfoldable pub create_artifact_at : Backup → ℕ → B (Result BackupSummary)
  unfolding write_artifact artifact_manifest safe_backup_artifact_path
  create_artifact_at b now = or_fail b.id (safe_backup_artifact_path b now) λ path.
      or_fail_step b.id (on_disk e (λ files. (ok tt, files))) λ _.
        or_fail b.id (e.marshal (artifact_manifest b now)) λ json.
          let content = json ++ text "\n" in
          write_artifact b.id path content (
            or_fail_step b.id
              (repo_update_verification e b.id status_success (byte_len content)
                (checksum_of content) path)
              λ _. (do
                updated ← clock e
                return (
                    ok (
                      map_backup_summary e (record b {
                        status = status_success;
                        size_bytes = byte_len content;
                        checksum = checksum_of content;
                        file_path = path;
                        updated_at = updated;
                      })))))

  -- `CreateArtifact`.
  unfoldable pub create_artifact : ℤ → B (Result BackupSummary)
  unfolding create_artifact_at
  create_artifact id =
      if is_nonpos id
      then return (bad_backup_request id_not_positive)
      else with_backup e id λ b.
        if not (text_eq b.storage_type storage_local)
        then give_up e b.id (
            bad_backup_request
              (plain (text "only local backup storage can create artifacts in P3")))
        else or_internal (repo_update_status e b.id status_running)
            λ _. (do now ← clock e; create_artifact_at b now)

  -- `backupPathWithinLocalDir`, with the files as they are.
  unfoldable pub backup_path_within_local_dir : Files → Text → Bool
  backup_path_within_local_dir files path = elim (e.abs (trim_space e.local_dir)) [
    | err x ↦ false
    | ok local ↦ elim (e.abs (trim_space path)) [
      | err x ↦ false
      | ok abs_path ↦
          let dir : Text = elim (e.eval_symlinks files local) [ err x ↦ local | ok real ↦ real ] in
          elim (e.eval_symlinks files abs_path) [
            | err x ↦ false
            | ok real ↦ elim (e.rel dir real) [ err x ↦ false | ok rel ↦ not (escapes e rel) ]
          ]
    ]
  ]

  -- `validateBackupArtifactManifest`, for a file that is no JSON and for the content of one.
  abbrev pub is_json : Text → Bool
  is_json path = text_eq (e.lower (e.ext path)) (text ".json")

  unfoldable pub check_manifest : Backup → Text → Result (Unit {0})
  check_manifest b content = elim (e.unmarshal content) [
    | err x ↦ err (plain (text "backup artifact manifest is invalid"))
    | ok m ↦
        if not (text_eq m.kind (text "snowpanel.backup.artifact"))
        then err (plain (text "backup artifact manifest kind mismatch"))
        else if not (m.backup_id == b.id)
        then err (plain (text "backup artifact manifest backup_id mismatch"))
        else if not (text_eq m.resource_type b.resource_type)
        then err (plain (text "backup artifact manifest resource_type mismatch"))
        else if not (text_eq m.resource_id b.resource_id)
        then err (plain (text "backup artifact manifest resource_id mismatch"))
        else if not (text_eq m.storage_type b.storage_type)
        then err (plain (text "backup artifact manifest storage_type mismatch"))
        else ok tt
  ]

  unfoldable pub validate_backup_artifact_manifest : Backup → B (Result (Unit {0}))
  unfolding check_manifest
  validate_backup_artifact_manifest b =
      if not (is_json b.file_path)
      then return (ok tt)
      else or_pass_step (on_disk e (read_file b.file_path))
          λ content. return (check_manifest b content)

  -- `VerifyArtifact` once the content of the file is read, which gives its size and checksum.
  unfoldable pub verify_content : Backup → Text → B (Result BackupSummary)
  unfolding validate_backup_artifact_manifest
  verify_content b content = elim (differs e b (byte_len content) (checksum_of content)) [
    | some x ↦ give_up e b.id (bad_backup_request x)
    | none ↦ do
      m ← validate_backup_artifact_manifest b
      elim m [
        | err x ↦ give_up e b.id (bad_backup_request x)
        | ok _ ↦
            or_internal
              (repo_update_verification e b.id status_success (byte_len content)
                (checksum_of content) b.file_path)
              λ _. (do
                now ← clock e
                return (
                    ok (
                      map_backup_summary e (record b {
                        status = status_success;
                        size_bytes = byte_len content;
                        checksum = checksum_of content;
                        updated_at = now;
                      }))))
      ]
  ]

  -- `VerifyArtifact`.
  unfoldable pub verify_artifact : ℤ → B (Result BackupSummary)
  unfolding verify_content backup_path_within_local_dir
  verify_artifact id =
      if is_nonpos id
      then return (bad_backup_request id_not_positive)
      else with_backup e id λ b.
        if not (text_eq b.storage_type storage_local)
        then give_up e b.id (
            bad_backup_request
              (plain (text "only local backup storage can verify artifacts in P3")))
        else if is_empty (trim_space b.file_path)
        then give_up e b.id (
            bad_backup_request
              (plain (text "backup file_path is required for artifact verification")))
        else (do
          within ← on_disk e (λ files. (ok (backup_path_within_local_dir files b.file_path), files))
          elim within [
            | err x ↦ give_up e b.id (
                bad_backup_request
                  (plain (text "backup artifact path must be inside BACKUP_LOCAL_DIR")))
            | ok inside ↦
                if not inside
                then give_up e b.id (
                    bad_backup_request
                      (plain (text "backup artifact path must be inside BACKUP_LOCAL_DIR")))
                else do
                  r ← on_disk e (read_file b.file_path)
                  elim r [
                    | err x ↦ give_up e b.id (wrap_backup_internal x)
                    | ok content ↦ verify_content b content
                  ]
          ])
