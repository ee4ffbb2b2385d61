-- ===== src/Backups/Store.antt =====
-- The table of backups, and the statements of backend/internal/repository/backup_repository.go. Times
-- are nanoseconds since the Unix epoch, and `now` is the clock of a statement. Rows of the same time
-- are given in the order of the table, as PostgreSQL may do.
use snow_panel.Prelude.{
  ℕ, ℤ, suc, ◌-◌, ◌*◌, Text, text, text_eq, trim_space, is_empty, Bool, ◌&&◌, ◌||◌, not, Option,
  List, [], ◌∷◌, ◌++◌, take, drop, keep_if, first_of_list, length, leb, ltb, ◌==◌, if◌then◌else◌,
}
use snow_panel.Tasks.Pages.{page_or_first, capped_size, passes}

-- `model.Backup`.
pub record Backup : Type 0 where
  pub id : ℕ
  pub resource_type : Text
  pub resource_id : Text
  pub storage_type : Text
  pub file_path : Text
  pub size_bytes : ℕ
  pub checksum : Text
  pub status : Text
  pub created_by : Option ℕ
  pub created_at : ℕ
  pub updated_at : ℕ

pub record BackupDb : Type 0 where
  pub backups : List Backup
  pub next_id : ℕ

-- `Create`, which sets the id and the times.
unfoldable pub create_backup : Backup → ℕ → BackupDb → Backup × BackupDb
create_backup b now db =
    let row = record b { id = db.next_id; created_at = now; updated_at = now } in
    (row, record { backups = db.backups ++ row ∷ []; next_id = suc db.next_id })

abbrev pub has_backup_id : ℕ → Backup → Bool
has_backup_id id b = b.id == id

-- `GetByID`.
unfoldable pub get_backup : ℕ → BackupDb → Option Backup
get_backup id db = first_of_list (has_backup_id id) db.backups

unfoldable pub update_backups : ℕ → (Backup → Backup) → List Backup → List Backup
update_backups id f [] = []
update_backups id f (b ∷ bs) = (if has_backup_id id b then f b else b) ∷ update_backups id f bs

abbrev pub verified_row : Text → ℕ → Text → Text → ℕ → Backup → Backup
verified_row status size checksum path now b = record b {
  status = status;
  size_bytes = size;
  checksum = checksum;
  file_path = if is_empty (trim_space path) then b.file_path else path;
  updated_at = now;
}

-- `UpdateVerification`.
unfoldable pub update_verification : ℕ → Text → ℕ → Text → Text → ℕ → BackupDb → BackupDb
unfolding update_backups
update_verification id status size checksum path now db = record db {
  backups = update_backups id (verified_row status size checksum path now) db.backups;
}

-- `UpdateStatus`.
unfoldable pub update_backup_status : ℕ → Text → ℕ → BackupDb → BackupDb
unfolding update_backups
update_backup_status id status now db = record db {
  backups = update_backups id (λ b. record b { status = status; updated_at = now }) db.backups;
}

-- The condition of the three statements on old backups.
abbrev pub is_deletable : ℕ → Backup → Bool
is_deletable cutoff b =
    ltb b.created_at cutoff
    && (text_eq b.status (text "success") || text_eq b.status (text "failed"))

-- `CountDeletableBefore`.
unfoldable pub count_deletable : ℕ → BackupDb → ℕ
count_deletable cutoff db = length (keep_if (is_deletable cutoff) db.backups)

-- `ORDER BY created_at ASC, id ASC`.
abbrev pub is_older : Backup → Backup → Bool
is_older a b = ltb a.created_at b.created_at || (a.created_at == b.created_at && leb a.id b.id)

unfoldable pub insert_oldest : Backup → List Backup → List Backup
insert_oldest b [] = b ∷ []
insert_oldest b (c ∷ rest) =
    let later = insert_oldest b rest in if is_older b c then b ∷ c ∷ rest else c ∷ later

unfoldable pub oldest_first : List Backup → List Backup
unfolding insert_oldest
oldest_first [] = []
oldest_first (b ∷ rest) = insert_oldest b (oldest_first rest)

-- `ListDeletableBefore`.
unfoldable pub list_deletable : ℕ → BackupDb → List Backup
unfolding oldest_first
list_deletable cutoff db = oldest_first (keep_if (is_deletable cutoff) db.backups)

-- `DeleteDeletableBefore`: the number of the rows, and the table without them.
unfoldable pub delete_deletable : ℕ → BackupDb → ℕ × BackupDb
delete_deletable cutoff db = (
  length (keep_if (is_deletable cutoff) db.backups),
  record db { backups = keep_if (λ b. not (is_deletable cutoff b)) db.backups },
)

-- `BackupListFilter`.
pub record BackupListFilter : Type 0 where
  pub page : ℤ
  pub size : ℤ
  pub status : Text
  pub resource_type : Text
  pub resource_id : Text

unfoldable pub matches_backup : BackupListFilter → Backup → Bool
matches_backup f b =
    passes f.status b.status
    && passes f.resource_type b.resource_type
    && passes f.resource_id b.resource_id

unfoldable pub insert_newest_backup : Backup → List Backup → List Backup
insert_newest_backup b [] = b ∷ []
insert_newest_backup b (c ∷ rest) =
    let later = insert_newest_backup b rest in
    if leb c.created_at b.created_at then b ∷ c ∷ rest else c ∷ later

unfoldable pub newest_backups : List Backup → List Backup
unfolding insert_newest_backup
newest_backups [] = []
newest_backups (b ∷ rest) = insert_newest_backup b (newest_backups rest)

-- The two statements of `List`.
unfoldable pub count_backups : BackupListFilter → BackupDb → ℕ
unfolding matches_backup
count_backups f db = length (keep_if (matches_backup f) db.backups)

unfoldable pub find_backups : BackupListFilter → BackupDb → List Backup
unfolding matches_backup newest_backups
find_backups f db = take (capped_size f.size) (
    drop ((page_or_first f.page - 1) * capped_size f.size)
      (newest_backups (keep_if (matches_backup f) db.backups)))
