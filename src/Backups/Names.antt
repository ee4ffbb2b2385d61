-- ===== src/Backups/Names.antt =====
-- The texts of backend/internal/service/backup_service.go: how a request is normalized, and the names
-- of files. `lower` is `strings.ToLower`, `quote` the verb %q, and `show` the decimal text of a number.
pub mod Safe
use snow_panel.Prelude.{
  ℕ, Text, text, text_eq, trim_space, is_empty, is_control, byte_len, reverse, Bool, true, false,
  ◌&&◌, ◌||◌, not, Option, none, some, List, [], ◌∷◌, ◌++◌, take, any_of, ltb, leb, ◌==◌,
  if◌then◌else◌,
}
use snow_panel.Errors.{GoError, plain, Result, ok, err}

abbrev pub status_pending : Text
status_pending = text "pending"

abbrev pub status_running : Text
status_running = text "running"

abbrev pub status_success : Text
status_success = text "success"

abbrev pub status_failed : Text
status_failed = text "failed"

abbrev pub storage_local : Text
storage_local = text "local"

abbrev pub resource_postgres : Text
resource_postgres = text "postgres"

abbrev pub resource_app_metadata : Text
resource_app_metadata = text "app_metadata"

abbrev pub resource_observability : Text
resource_observability = text "observability_config"

abbrev pub resource_core_agent : Text
resource_core_agent = text "core_agent_config"

-- `normalizeBackupResourceType`.
unfoldable pub normalize_backup_resource_type : (Text → Text) → (Text → Text) → Text → Result Text
normalize_backup_resource_type lower quote raw =
    let value = lower (trim_space raw) in
    if text_eq value resource_postgres
      || text_eq value resource_app_metadata
      || text_eq value resource_observability
      || text_eq value resource_core_agent
    then ok value
    else err
        (plain (text "resource_type " ++ (quote raw ++ text " is outside the P3 backup scope")))

-- `normalizeBackupStorageType`.
unfoldable pub normalize_backup_storage_type : (Text → Text) → Text → Result Text
normalize_backup_storage_type lower raw =
    let value = lower (trim_space raw) in
    if is_empty value
    then ok storage_local
    else if not (text_eq value storage_local)
    then err (plain (text "only local backup storage is supported in P3"))
    else ok value

-- `normalizeBackupStatusFilter`.
unfoldable pub normalize_backup_status_filter : (Text → Text) → (Text → Text) → Text → Result Text
normalize_backup_status_filter lower quote raw =
    let value = lower (trim_space raw) in
    if is_empty value
    then ok []
    else if text_eq value status_pending
        || text_eq value status_running
        || text_eq value status_success
        || text_eq value status_failed
    then ok value
    else err (plain (text "unsupported backup status " ++ quote raw))

-- `normalizeBackupText`.
unfoldable pub normalize_backup_text : (ℕ → Text) → Text → Text → ℕ → Bool → Result Text
normalize_backup_text show raw field max_length required =
    let value = trim_space raw in
    if required && is_empty value
    then err (plain (field ++ text " is required"))
    else if ltb max_length (byte_len value)
    then err (plain (field ++ (text " must be at most " ++ (show max_length ++ text " bytes"))))
    else if any_of is_control value
    then err (plain (field ++ text " cannot contain control characters"))
    else ok value

-- `strings.TrimPrefix`.
unfoldable pub after_prefix : Text → Text → Option Text
after_prefix [] s = some s
after_prefix (a ∷ p) [] = none
after_prefix (a ∷ p) (b ∷ s) = let rest = after_prefix p s in if a == b then rest else none

abbrev pub trim_prefix : Text → Text → Text
trim_prefix p s = elim (after_prefix p s) [ none ↦ s | some rest ↦ rest ]

abbrev pub is_hex_digit : ℕ → Bool
is_hex_digit c = (leb 48 c && leb c 57) || (leb 97 c && leb c 102)

-- `normalizeBackupChecksum`.
unfoldable pub normalize_backup_checksum : (Text → Text) → Text → Result Text
unfolding after_prefix
normalize_backup_checksum lower raw =
    let value = trim_prefix (text "sha256:") (lower (trim_space raw)) in
    if not (byte_len value == 64) || any_of (λ c. not (is_hex_digit c)) value
    then err (plain (text "checksum must be a sha256 hex digest"))
    else ok (text "sha256:" ++ value)

abbrev pub dash : ℕ
dash = 45

abbrev pub is_name_char : ℕ → Bool
is_name_char c = (leb 97 c && leb c 122) || (leb 48 c && leb c 57)

-- The loop of `sanitizeBackupFilenamePart`, where `last` is `lastDash`.
unfoldable pub dash_others : Bool → Text → Text
dash_others last [] = []
dash_others last (c ∷ s) =
    let kept = dash_others false s in
    let dashed = dash_others true s in
    if is_name_char c then c ∷ kept else if last then dashed else dash ∷ dashed

-- `strings.Trim(..., "-")`.
unfoldable pub trim_dashes_left : Text → Text
trim_dashes_left [] = []
trim_dashes_left (c ∷ s) = let rest = trim_dashes_left s in if c == dash then rest else c ∷ s

abbrev pub trim_dashes : Text → Text
trim_dashes s = reverse (trim_dashes_left (reverse (trim_dashes_left s)))

abbrev pub or_backup : Text → Text
or_backup s = if is_empty s then text "backup" else s

-- `sanitizeBackupFilenamePart`; the text that is cut has one byte for each character.
unfoldable pub sanitize_backup_filename_part : (Text → Text) → Text → Text
unfolding dash_others trim_dashes_left
sanitize_backup_filename_part lower raw =
    let result = trim_dashes (dash_others false (lower (trim_space raw))) in
    if is_empty result
    then text "backup"
    else if ltb 64 (byte_len result)
    then or_backup (trim_dashes (take 64 result))
    else result

-- The name of the file in `safeBackupArtifactPath`.
unfoldable pub artifact_file_name : (Text → Text) → (ℕ → Text) → Text → Text → ℕ → ℕ → Text
unfolding sanitize_backup_filename_part
artifact_file_name lower show resource_type resource_id id seconds =
    text "snowpanel-"
    ++ (sanitize_backup_filename_part lower resource_type
        ++ (text "-"
            ++ (sanitize_backup_filename_part lower resource_id
                ++ (text "-" ++ (show id ++ (text "-" ++ (show seconds ++ text ".json")))))))

-- `backupArtifactScope`.
unfoldable pub backup_artifact_scope : Text → List Text
backup_artifact_scope t =
    if text_eq t resource_postgres
    then text "postgres.metadata" ∷ []
    else if text_eq t resource_app_metadata
    then text "application.metadata" ∷ []
    else if text_eq t resource_observability
    then text "observability.config" ∷ []
    else if text_eq t resource_core_agent
    then text "core_agent.config" ∷ []
    else text "unknown" ∷ []

-- `backupArtifactNote`.
unfoldable pub backup_artifact_note : Text → Text
backup_artifact_note t =
    if text_eq t resource_postgres
    then text
        "This P3 artifact is a controlled manifest. Full pg_dump generation remains a follow-up."
    else []
