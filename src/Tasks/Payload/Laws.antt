-- ===== src/Tasks/Payload/Laws.antt =====
-- Idempotency keys and payloads.
use snow_panel.Prelude.{
  ◌≤◌, ◌≡◌, Text, trim_space, trim_space_idem, is_empty, is_control, byte_len, true, false, Option,
  none, some, any_of, arith, ◌⊎◌, inl, inr,
}
use snow_panel.Errors.{ok}
use snow_panel.Tasks.Payload.{normalize_task_idempotency_key}

-- An accepted idempotency key is the given text without the space around it, is not empty, takes
-- at most 128 bytes and holds no control character; a blank text gives no key.
pub normalize_key_sound :
    (raw : Text) (o : Option Text)
    → normalize_task_idempotency_key raw ≡ ok o
    → ((o ≡ none) × (is_empty (trim_space raw) ≡ true))
      ⊎ ((o ≡ some (trim_space raw))
          × (is_empty (trim_space raw) ≡ false)
          × (byte_len (trim_space raw) ≤ 128)
          × (any_of is_control (trim_space raw) ≡ false))
unfolding normalize_task_idempotency_key
normalize_key_sound raw o h = ground arith

-- An accepted key is its own normal form, so that a client may send back the key that is stored.
pub normalize_key_idem :
    (raw key : Text)
    → normalize_task_idempotency_key raw ≡ ok (some key)
    → normalize_task_idempotency_key key ≡ ok (some key)
normalize_key_idem raw key h = elim (normalize_key_sound raw (some key) h) [
  | inl (e, _) ↦ cc
  | inr (e, nonempty, short, printable) ↦
      let same : key ≡ trim_space raw = ground arith in
      unfold normalize_task_idempotency_key in ground (arith, trim_space_idem raw, same)
]
