-- ===== src/Tasks/Payload.antt =====
-- `unmarshalTaskPayload` and `normalizeTaskIdempotencyKey` of
-- backend/internal/service/task_service.go.
pub mod Laws
use snow_panel.Prelude.{
  ℕ, ℤ, Text, text, text_eq, trim_space, is_empty, is_control, byte_len, is_nonpos, ltb, Bool, true,
  false, not, ◌&&◌, ◌||◌, Option, none, some, any_of, if◌then◌else◌, ◌++◌,
}
use snow_panel.Errors.{GoError, plain, wrapped, Result, ok, err}
use snow_panel.Tasks.Model.{
  Payload, operation_docker_restart, operation_service_restart, operation_backup_create,
  operation_backup_verify,
}

abbrev pub is_blank : Text → Bool
is_blank s = is_empty (trim_space s)

-- `hasManualVerification`.
unfoldable pub has_manual_verification : ℤ → Text → Text → Bool
has_manual_verification size checksum path =
    not (is_nonpos size) || not (is_blank checksum) || not (is_blank path)

-- The switch of `unmarshalTaskPayload`.
unfoldable pub check_payload : Payload → Result Payload
unfolding has_manual_verification
check_payload p =
    if text_eq p.operation operation_docker_restart
    then (if is_blank p.container_id
        then err (plain (text "container_id is required in task payload"))
        else ok p)
    else if text_eq p.operation operation_service_restart
    then (if is_blank p.service_name
        then err (plain (text "service_name is required in task payload"))
        else ok p)
    else if text_eq p.operation operation_backup_create
    then (if is_nonpos p.backup_id
        then err (plain (text "backup_id is required in task payload"))
        else ok p)
    else if text_eq p.operation operation_backup_verify
    then (if is_nonpos p.backup_id
        then err (plain (text "backup_id is required in task payload"))
        else if has_manual_verification p.size_bytes p.checksum p.file_path
        then (if is_nonpos p.size_bytes
            then err (plain (text "size_bytes is required when overriding backup verification"))
            else if is_blank p.checksum
            then err (plain (text "checksum is required when overriding backup verification"))
            else ok p)
        else ok p)
    else err (plain (text "unsupported operation '" ++ (p.operation ++ text "'")))

-- `unmarshalTaskPayload`, over the decoder.
unfoldable pub unmarshal_task_payload : (Text → Result Payload) → Text → Result Payload
unfolding check_payload
unmarshal_task_payload decode raw = elim (decode raw) [
  | err x ↦ err (wrapped (text "invalid task payload: ") x)
  | ok p ↦ check_payload p
]

-- `normalizeTaskIdempotencyKey`; `none` is the nil pointer.
unfoldable pub normalize_task_idempotency_key : Text → Result (Option Text)
normalize_task_idempotency_key raw =
    let key = trim_space raw in
    if is_empty key
    then ok none
    else if ltb 128 (byte_len key)
    then err (plain (text "idempotency_key must be at most 128 bytes"))
    else if any_of is_control key
    then err (plain (text "idempotency_key cannot contain control characters"))
    else ok (some key)
