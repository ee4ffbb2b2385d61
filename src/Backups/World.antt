-- ===== src/Backups/World.antt =====
-- What a method of backend/internal/service/backup_service.go runs in: the table and the files, which
-- others may change between its steps, the clock, steps that fail, and the libraries that it calls. A
-- step is a statement or a call of the operating system; what a failed one leaves is a write of others.
use snow_panel.Prelude.{ℕ, ℤ, suc, Text, text, Bool, Option, List, if◌then◌else◌}
use snow_panel.Errors.{GoError, plain, wrap, Result, ok, err, bad_request, internal}
use snow_panel.Program.{Program}
unfoldable pub use snow_panel.Program.{◌>>=◌, ◌>>◌, return}
use snow_panel.Backups.Store.{
  Backup, BackupDb, create_backup, get_backup, update_verification, update_backup_status,
  count_deletable, list_deletable, delete_deletable, BackupListFilter, count_backups, find_backups,
}

-- `dto.BackupSummary`.
pub record BackupSummary : Type 0 where
  pub id : ℕ
  pub resource_type : Text
  pub resource_id : Text
  pub storage_type : Text
  pub file_path : Text
  pub size_bytes : ℕ
  pub checksum : Text
  pub status : Text
  pub created_by : Option ℕ
  pub created_at : Text
  pub updated_at : Text

-- `backupArtifactManifest`.
pub record Manifest : Type 0 where
  pub version : ℕ
  pub kind : Text
  pub backup_id : ℕ
  pub resource_type : Text
  pub resource_id : Text
  pub storage_type : Text
  pub created_at : Text
  pub scope : List Text
  pub note : Text

-- The contents of files by their paths.
abbrev pub Files : Type 0
Files = Text → Option Text

pub record Turn : Type 0 where
  pub other_rows : BackupDb → BackupDb
  pub other_files : Files → Files
  pub now : ℕ
  pub fails : Bool

-- The surroundings: the settings of the service, and the functions of `strings`, `strconv`, `time`,
-- `path/filepath`, `encoding/json` and `crypto/sha256` that it calls.
pub record BackupEnv : Type 0 where
  pub turn : ℕ → Turn
  pub retention_days : ℤ
  pub local_dir : Text
  pub lower : Text → Text
  pub quote : Text → Text
  pub show : ℕ → Text
  pub rfc3339 : ℕ → Text
  pub abs : Text → Result Text
  pub eval_symlinks : Files → Text → Result Text
  pub join : Text → Text → Text
  pub rel : Text → Text → Result Text
  pub is_abs : Text → Bool
  pub dir : Text → Text
  pub ext : Text → Text
  pub marshal : Manifest → Result Text
  pub unmarshal : Text → Result Manifest
  pub marshal_line : Text → Text → BackupSummary → Result Text
  pub digest : Text → Text

pub record BackupWorld : Type 0 where
  pub db : BackupDb
  pub files : Files
  pub steps : ℕ

abbrev pub B : Type 0 → Type 0
B R = Program BackupWorld R

module _ (e : BackupEnv) where
  -- A statement.
  unfoldable pub perform : {R : Type 0} → (ℕ → BackupDb → R × BackupDb) → B (Result R)
  perform op w =
      let t = e.turn w.steps in
      let db = t.other_rows w.db in
      let files = t.other_files w.files in
      let (r, db') = op t.now db in
      if t.fails
      then (
        err (plain (text "database error")),
        record { db = db; files = files; steps = suc w.steps },
      )
      else (ok r, record { db = db'; files = files; steps = suc w.steps })

  -- A call of the operating system.
  unfoldable pub on_disk : {R : Type 0} → (Files → Result R × Files) → B (Result R)
  on_disk op w =
      let t = e.turn w.steps in
      let db = t.other_rows w.db in
      let files = t.other_files w.files in
      let (r, files') = op files in
      if t.fails
      then (
        err (plain (text "input/output error")),
        record { db = db; files = files; steps = suc w.steps },
      )
      else (r, record { db = db; files = files'; steps = suc w.steps })

  -- `time.Now()`.
  unfoldable pub clock : B ℕ
  clock w = ((e.turn w.steps).now, w)

  abbrev pub reads : {R : Type 0} → (BackupDb → R) → B (Result R)
  reads f = perform (λ now db. (f db, db))

  abbrev pub writes : (ℕ → BackupDb → BackupDb) → B (Result (Unit {0}))
  writes f = perform (λ now db. (tt, f now db))

  unfoldable pub repo_create : Backup → B (Result Backup)
  repo_create b = perform (create_backup b)

  unfoldable pub repo_get : ℕ → B (Result (Option Backup))
  repo_get id = reads (get_backup id)

  unfoldable pub repo_update_status : ℕ → Text → B (Result (Unit {0}))
  repo_update_status id status = writes (update_backup_status id status)

  unfoldable pub repo_update_verification : ℕ → Text → ℕ → Text → Text → B (Result (Unit {0}))
  repo_update_verification id status size checksum path =
      writes (update_verification id status size checksum path)

  unfoldable pub repo_count_deletable : ℕ → B (Result ℕ)
  repo_count_deletable cutoff = reads (count_deletable cutoff)

  unfoldable pub repo_list_deletable : ℕ → B (Result (List Backup))
  repo_list_deletable cutoff = reads (list_deletable cutoff)

  unfoldable pub repo_delete_deletable : ℕ → B (Result ℕ)
  repo_delete_deletable cutoff = perform (λ now db. delete_deletable cutoff db)

  -- `List` of the repository.
  unfoldable pub repo_list : BackupListFilter → B (Result (List Backup × ℕ))
  repo_list f = do
    c ← reads (count_backups f)
    elim c [
      | err x ↦ return (err x)
      | ok total ↦ do
        i ← reads (find_backups f)
        return (elim i [ err x ↦ err x | ok items ↦ ok (items, total) ])
    ]

  -- `mapBackupSummary`.
  abbrev pub map_backup_summary : Backup → BackupSummary
  map_backup_summary b = record {
    id = b.id;
    resource_type = b.resource_type;
    resource_id = b.resource_id;
    storage_type = b.storage_type;
    file_path = b.file_path;
    size_bytes = b.size_bytes;
    checksum = b.checksum;
    status = b.status;
    created_by = b.created_by;
    created_at = e.rfc3339 b.created_at;
    updated_at = e.rfc3339 b.updated_at;
  }

-- `badBackupRequest` and `wrapBackupInternal`.
abbrev pub bad_backup_request : {R : Type 0} → GoError → Result R
bad_backup_request x = err (wrap bad_request x)

abbrev pub wrap_backup_internal : {R : Type 0} → GoError → Result R
wrap_backup_internal x = err (wrap internal x)
