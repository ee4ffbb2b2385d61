-- ===== src/Tests/Backups.antt =====
-- The theorems on backups at concrete records.
use snow_panel.Prelude.{
  byte_len, some, ℕ, pos, ◌-◌, ◌*◌, ◌≡◌, refl, Text, text, text_eq, true, false, none, [], ◌∷◌,
  ◌++◌, All, arith, trim_space,
}
use snow_panel.Errors.{plain, ok, err}
use snow_panel.Backups.Store.{get_backup, Backup, count_deletable, list_deletable, delete_deletable}
use snow_panel.Backups.Names.{artifact_file_name, after_prefix}
use snow_panel.Backups.Names.Safe.{IsPlain, artifact_file_name-IsPlain}
use snow_panel.Backups.Artifact.{verify_artifact}
use snow_panel.Backups.Artifact.Checks.{IsQuiet}
use snow_panel.Backups.Artifact.Genuine.{IsArtifact}
use snow_panel.Backups.Artifact.Sound.{verify_artifact-IsArtifact}
use snow_panel.Backups.World.{
  repo_get, repo_update_verification, BackupSummary, Manifest, map_backup_summary, BackupEnv,
  BackupWorld, ◌>>=◌, return, perform, on_disk, clock, repo_count_deletable, repo_list_deletable,
  repo_delete_deletable,
}
use snow_panel.Backups.Service.{CleanupRequest}
use snow_panel.Backups.Retention.{day, cleanup_days, cleanup_retention}
use snow_panel.Backups.Retention.Kept.{IsSingle, CleanupSpec, cleanup_retention-CleanupSpec}

abbrev show : ℕ → Text
show n = text "7"

seven-IsPlain : (n : ℕ) → All IsPlain (show n)
unfolding text
seven-IsPlain n = ((λ q. ground arith), tt)

-- A resource id that tries to leave the directory.
artifact_file_name-IsPlain_example :
    (rest : Text) × (artifact_file_name (λ t. t) show (text "postgres") (text "../../etc") 3 100
      ≡ text "snowpanel-" ++ rest)
    × All IsPlain (artifact_file_name (λ t. t) show (text "postgres") (text "../../etc") 3 100)
artifact_file_name-IsPlain_example =
    artifact_file_name-IsPlain (λ t. t) show (text "postgres") (text "../../etc") 3 100
      seven-IsPlain

-- Nobody else writes, nothing fails, and the clock shows day 40.
abbrev env : BackupEnv
env = record {
  turn = λ n. record {
    other_rows = λ db. db;
    other_files = λ files. files;
    now = 40 * day;
    fails = false;
  };
  retention_days = pos 30;
  local_dir = text "/backups";
  lower = λ t. t;
  quote = λ t. t;
  show = show;
  rfc3339 = show;
  abs = λ path. ok path;
  eval_symlinks = λ files path. ok path;
  join = λ a b. a ++ (text "/" ++ b);
  rel = λ a b. ok b;
  is_abs = λ path. false;
  dir = λ path. path;
  ext = λ path. text ".json";
  marshal = λ m. ok (text "{}");
  unmarshal = λ t. err (plain (text "bad"));
  marshal_line = λ at cutoff b. ok (text "{}");
  digest = λ t. t;
}

abbrev row : ℕ → Text → ℕ → Backup
row id status at = record {
  id = id;
  resource_type = text "postgres";
  resource_id = text "main";
  storage_type = text "local";
  file_path = [];
  size_bytes = 0;
  checksum = [];
  status = status;
  created_by = none;
  created_at = at;
  updated_at = at;
}

abbrev start : BackupWorld
start = record {
  db = record {
    backups =
        row 1 (text "success") day
        ∷ row 2 (text "pending") day
        ∷ row 3 (text "failed") (39 * day)
        ∷ [];
    next_id = 4;
  };
  files = λ path. none;
  steps = 0;
}

single : IsSingle env
single n db = refl

abbrev request : CleanupRequest
request = record { dry_run = false; retention_days = pos 0; archive_before_delete = true }

cleanup_retention-CleanupSpec_example :
    CleanupSpec start.db request
      (40 * day - cleanup_days env (pos 0) * day)
      (cleanup_retention env request start).0
      (cleanup_retention env request start).1.db
cleanup_retention-CleanupSpec_example = cleanup_retention-CleanupSpec env request start single

deleted :
    (cleanup_retention env request start).1.db.backups
    ≡ row 2 (text "pending") day ∷ row 3 (text "failed") (39 * day) ∷ []
unfolding cleanup_retention ◌>>=◌ repo_count_deletable perform count_deletable clock text_eq text
    repo_list_deletable list_deletable on_disk trim_space after_prefix return repo_delete_deletable
    delete_deletable
deleted = refl

abbrev stored_row : Backup
stored_row = record (row 5 (text "running") day) {
  file_path = text "/backups/a.json";
  size_bytes = 2;
}

abbrev manifest : Manifest
manifest = record {
  version = 1;
  kind = text "snowpanel.backup.artifact";
  backup_id = 5;
  resource_type = text "postgres";
  resource_id = text "main";
  storage_type = text "local";
  created_at = [];
  scope = [];
  note = [];
}

abbrev artifact_env : BackupEnv
artifact_env = record env { unmarshal = λ t. ok manifest }

abbrev disk : BackupWorld
disk = record {
  db = record { backups = stored_row ∷ []; next_id = 6 };
  files = λ path. some (text "{}");
  steps = 0;
}

abbrev summary : BackupSummary
summary = map_backup_summary env (record stored_row {
  status = text "success";
  checksum = text "sha256:{}";
  updated_at = 40 * day;
})

quiet : IsQuiet artifact_env
quiet = ((λ n db. refl), (λ n files. refl))

accepted : (verify_artifact artifact_env (pos 5) disk).0 ≡ ok summary
unfolding verify_artifact ◌>>=◌ repo_get perform get_backup text_eq text trim_space on_disk
    after_prefix byte_len return repo_update_verification
accepted = refl

verify_artifact-IsArtifact_example : IsArtifact artifact_env 5 disk.db disk.files summary
verify_artifact-IsArtifact_example =
    verify_artifact-IsArtifact artifact_env (pos 5) disk summary quiet accepted
