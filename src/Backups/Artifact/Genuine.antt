-- ===== src/Backups/Artifact/Genuine.antt =====
-- What it means that the tests of `VerifyArtifact` of backend/internal/service/backup_service.go have
-- been passed.
use snow_panel.Prelude.{
  ℕ, ◌≡◌, ◌≢◌, ◌⊎◌, inl, inr, refl, Text, text, text_eq, text_eq_sound, text_eq_refl, trim_space,
  is_empty, byte_len, Bool, true, false, not, ◌&&◌, Option, none, some, is_some, [], ◌∷◌, ◌++◌,
  ◌==◌, ltb, arith, ==_refl, ==_iff, ap, sym, if◌then◌else◌,
}
use snow_panel.Errors.{GoError, Result, ok, err}
use snow_panel.Backups.Store.{Backup, BackupDb, get_backup}
use snow_panel.Backups.Names.{after_prefix}
use snow_panel.Backups.World.{BackupEnv, BackupSummary, Manifest, Files}
use snow_panel.Backups.Service.{differs}
use snow_panel.Backups.Retention.{escapes}
use snow_panel.Backups.Artifact.{backup_path_within_local_dir, is_json, check_manifest}
use snow_panel.Backups.Artifact.Checks.{HasPassed}

-- The path, without spaces at its ends and with symbolic links followed, is below the directory of
-- backups, of which symbolic links are followed if that is possible.
pub record IsInside (e : BackupEnv) (files : Files) (path : Text) : Type 0 where
  pub local : Text
  pub dir : Text
  pub target : Text
  pub real : Text
  pub rel : Text
  pub local_is : e.abs (trim_space e.local_dir) ≡ ok local
  pub dir_is :
      (e.eval_symlinks files local ≡ ok dir)
      ⊎ ((x : GoError) × (e.eval_symlinks files local ≡ err x) × (dir ≡ local))
  pub target_is : e.abs (trim_space path) ≡ ok target
  pub real_is : e.eval_symlinks files target ≡ ok real
  pub rel_is : e.rel dir real ≡ ok rel
  pub not_parent : rel ≢ text ".."
  pub not_below_parent : (rest : Text) → rel ≢ text "../" ++ rest
  pub not_absolute : e.is_abs rel ≡ false

-- The manifest names the record.
pub record IsManifestOf (b : Backup) (m : Manifest) : Type 0 where
  pub kind : m.kind ≡ text "snowpanel.backup.artifact"
  pub backup_id : m.backup_id ≡ b.id
  pub resource_type : m.resource_type ≡ b.resource_type
  pub resource_id : m.resource_id ≡ b.resource_id
  pub storage_type : m.storage_type ≡ b.storage_type

-- The artifact of a record: a file inside the directory of backups whose content has the size and the
-- checksum that are answered, which are those of the record if it has any, and whose manifest is that
-- of the record.
pub record IsArtifact (e : BackupEnv) (id : ℕ) (db : BackupDb) (files : Files) (a : BackupSummary)
    : Type 0 where
  pub backup : Backup
  pub content : Text
  pub found : get_backup id db ≡ some backup
  pub local : backup.storage_type ≡ text "local"
  pub inside : IsInside e files backup.file_path
  pub stored : files backup.file_path ≡ some content
  pub same_size : backup.size_bytes ≢ 0 → byte_len content ≡ backup.size_bytes
  pub same_checksum : backup.checksum ≢ [] → text "sha256:" ++ e.digest content ≡ backup.checksum
  pub manifest :
      e.lower (e.ext backup.file_path) ≡ text ".json"
      → (m : Manifest) × (e.unmarshal content ≡ ok m) × IsManifestOf backup m
  pub answered_size : a.size_bytes ≡ byte_len content
  pub answered_checksum : a.checksum ≡ text "sha256:" ++ e.digest content

after_prefix-append : (p s : Text) → after_prefix p (p ++ s) ≡ some s
unfolding after_prefix
after_prefix-append [] s = refl
after_prefix-append (a ∷ p) s = rw (==_refl a) (after_prefix-append p s)

ok_of :
    {R : Type 0} {f : R → Bool} (r : Result R)
    → elim r [ err x ↦ false | ok a ↦ f a ] ≡ true
    → (a : R) × (r ≡ ok a) × (f a ≡ true)
ok_of (err x) h = absurd (cc)
ok_of (ok a) h = (a, refl, h)

-- A test that was passed, and those after it.
next_test :
    (b : Bool) (x : GoError) {r : Result (Unit {0})}
    → (if not b then err x else r) ≡ ok tt
    → (b ≡ true) × (r ≡ ok tt)
next_test true x h = (refl, h)
next_test false x h = absurd (failing h)
  where
    failing : ◌≡◌ {A = Result (Unit {0})} (err x) (ok tt) → ⊥
    failing q = cc

-- A comparison that found no difference, and the one after it.
no_difference :
    (b : Bool) (x : GoError) {o : Option GoError}
    → (if b then some x else o) ≡ none
    → (b ≡ false) × (o ≡ none)
no_difference true x h = absurd (cc)
no_difference false x h = (refl, h)

same_text : (s t : Text) → (not (is_empty s) && not (text_eq s t)) ≡ false → s ≢ [] → t ≡ s
same_text [] t h n = absurd (n refl)
same_text (a ∷ s) t h n = sym (text_eq_sound (a ∷ s) t (ground (arith, h)))

same_number : (a b : ℕ) → (a == b) ≡ true → a ≡ b
same_number a b h = (==_iff a b).0 h

module _ (e : BackupEnv) where
  stays :
      (rel : Text)
      → not (escapes e rel) ≡ true
      → (rel ≢ text "..") × ((rest : Text) → rel ≢ text "../" ++ rest) × (e.is_abs rel ≡ false)
  stays rel h = (
    λ q. ground (arith, h, ap (λ r. text_eq r (text "..")) q, text_eq_refl (text "..")),
    λ rest q. ground (
      arith,
      h,
      ap (λ r. is_some (after_prefix (text "../") r)) q,
      ap is_some (after_prefix-append (text "../") rest),
    ),
    ground (arith, h),
  )

  -- The directory whose symbolic links are followed if that is possible.
  followed :
      (r : Result Text) (local : Text)
      → let dir : Text = elim r [ err x ↦ local | ok real ↦ real ] in
        (r ≡ ok dir) ⊎ ((x : GoError) × (r ≡ err x) × (dir ≡ local))
  followed (ok real) local = inl refl
  followed (err x) local = inr (x, refl, refl)

  within :
      (files : Files) (path : Text)
      → backup_path_within_local_dir e files path ≡ true
      → IsInside e files path
  unfolding backup_path_within_local_dir
  within files path h =
      let (local, p, h1) = ok_of (e.abs (trim_space e.local_dir)) h in
      let (target, q, h2) = ok_of (e.abs (trim_space path)) h1 in
      let (real, r, h3) = ok_of (e.eval_symlinks files target) h2 in
      let (rel, s, h4) = ok_of (e.rel _ real) h3 in
      let (a, b, c) = stays rel h4 in
      record {
        local = local;
        dir = _;
        target = target;
        real = real;
        rel = rel;
        local_is = p;
        dir_is = followed (e.eval_symlinks files local) local;
        target_is = q;
        real_is = r;
        rel_is = s;
        not_parent = a;
        not_below_parent = b;
        not_absolute = c;
      }

  named :
      (b : Backup) (content : Text)
      → check_manifest e b content ≡ ok tt
      → (m : Manifest) × (e.unmarshal content ≡ ok m) × IsManifestOf b m
  unfolding check_manifest
  named b content h = from (e.unmarshal content) refl
    where
      failing : (x : GoError) → ◌≡◌ {A = Result (Unit {0})} (err x) (ok tt) → ⊥
      failing x q = cc

      from :
          (r : Result Manifest)
          → e.unmarshal content ≡ r
          → (m : Manifest) × (e.unmarshal content ≡ ok m) × IsManifestOf b m
      from (err x) p = absurd (failing _ (rw (p, check_manifest) at h))
      from (ok m) p =
          let (kind, h1) =
            next_test (text_eq m.kind (text "snowpanel.backup.artifact")) _
              (rw (p, check_manifest) at h) in
          let (id, h2) = next_test (m.backup_id == b.id) _ h1 in
          let (type, h3) = next_test (text_eq m.resource_type b.resource_type) _ h2 in
          let (resource, h4) = next_test (text_eq m.resource_id b.resource_id) _ h3 in
          let (storage, h5) = next_test (text_eq m.storage_type b.storage_type) _ h4 in
          (
            m,
            p,
            record {
              kind = text_eq_sound _ _ kind;
              backup_id = same_number _ _ id;
              resource_type = text_eq_sound _ _ type;
              resource_id = text_eq_sound _ _ resource;
              storage_type = text_eq_sound _ _ storage;
            },
          )

  -- The record has the size and the checksum, if it has any.
  agreed :
      (b : Backup) (size : ℕ) (checksum : Text)
      → differs e b size checksum ≡ none
      → (b.size_bytes ≢ 0 → size ≡ b.size_bytes) × (b.checksum ≢ [] → checksum ≡ b.checksum)
  agreed b size checksum h =
      let (c, h1) =
        no_difference (not (is_empty b.checksum) && not (text_eq b.checksum checksum)) _ h in
      let (s, h2) = no_difference (ltb 0 b.size_bytes && not (b.size_bytes == size)) _ h1 in
      (λ n. ground (arith, s, n), same_text b.checksum checksum c)

  manifest_of :
      (b : Backup) (content : Text)
      → (is_json e b.file_path ≡ false) ⊎ (check_manifest e b content ≡ ok tt)
      → e.lower (e.ext b.file_path) ≡ text ".json"
      → (m : Manifest) × (e.unmarshal content ≡ ok m) × IsManifestOf b m
  manifest_of b content (inl other) j =
      absurd
        (ground (arith, other, ap (λ t. text_eq t (text ".json")) j, text_eq_refl (text ".json")))
  manifest_of b content (inr passed) j = named b content passed

pub passed-IsArtifact :
    {e : BackupEnv} {id : ℕ} {db : BackupDb} {files : Files} {a : BackupSummary}
    → HasPassed e id db files a
    → IsArtifact e id db files a
passed-IsArtifact {e} {files = files} h =
    let (size, checksum) = agreed e h.backup _ _ h.agrees in
    record {
      backup = h.backup;
      content = h.content;
      found = h.found;
      local = text_eq_sound _ _ h.local;
      inside = within e files h.backup.file_path h.inside;
      stored = h.stored;
      same_size = size;
      same_checksum = checksum;
      manifest = manifest_of e h.backup h.content h.manifest;
      answered_size = h.answered.1;
      answered_checksum = h.answered.0;
    }
