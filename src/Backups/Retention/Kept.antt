-- ===== src/Backups/Retention/Kept.antt =====
-- Which records `CleanupRetention` of backend/internal/service/backup_service.go deletes.
use snow_panel.Prelude.{
  ℕ, ◌-◌, ◌*◌, ◌≡◌, refl, ap, ◌∙◌, inl, inr, Text, Bool, true, false, ◌&&◌, not, List, [], ◌∷◌,
  length, keep_if, ltb, Bool-cases, if◌then◌else◌,
}
use snow_panel.Errors.{Result, ok, err}
use snow_panel.Program.Hoare.{Does, bind-Does, return-Does, if-Does}
use snow_panel.Backups.Store.{
  Backup, BackupDb, is_deletable, count_deletable, list_deletable, delete_deletable,
}
use snow_panel.Backups.World.{
  BackupEnv, BackupWorld, Files, B, ◌>>=◌, return, perform, on_disk, clock, reads,
  repo_count_deletable, repo_list_deletable, repo_delete_deletable,
}
use snow_panel.Backups.Service.{CleanupRequest, CleanupResult, or_internal}
use snow_panel.Backups.Retention.{
  or_pass, or_pass_step, escapes, day, cleanup_days, cleanup_result, write_lines,
  write_retention_archive, archive_deletable, cleanup_before, cleanup_retention,
}

-- No other process writes.
abbrev pub IsSingle : BackupEnv → Type 0
IsSingle e = (n : ℕ) (db : BackupDb) → (e.turn n).other_rows db ≡ db

-- What `CleanupRetention` promises of the table `db`: an error leaves it alone. Otherwise the number of
-- the finished records from before `cutoff` is answered, and unless it is a dry run these are deleted,
-- and no others.
abbrev pub CleanupSpec : BackupDb → CleanupRequest → ℕ → Result CleanupResult → BackupDb → Type 0
CleanupSpec db q cutoff (err x) db' = db' ≡ db
CleanupSpec db q cutoff (ok a) db' =
    let old = length (keep_if (is_deletable cutoff) db.backups) in
    let kept = record db { backups = keep_if (λ b. not (is_deletable cutoff b)) db.backups } in
    (a.matched_rows ≡ old)
    × (a.deleted_rows ≡ (if q.dry_run then 0 else old))
    × (db' ≡ (if q.dry_run then db else kept))

module _ (e : BackupEnv) (single : IsSingle e) (db : BackupDb) where
  -- The table is `db`.
  abbrev Same : BackupWorld → Type 0
  Same w = w.db ≡ db

  abbrev Keeps : {R : Type 0} → B R → Type 0
  Keeps {R} m = Does Same m (λ r w. Same w)

  disk-Same : {R : Type 0} (op : Files → Result R × Files) → Keeps (on_disk e op)
  unfolding on_disk
  disk-Same op = record {
    at = λ w h. elim (Bool-cases (e.turn w.steps).fails) [
      | inl f ↦ rw f (single w.steps w.db ∙ h)
      | inr f ↦ rw f (single w.steps w.db ∙ h)
    ];
  }

  -- What a statement that reads gives, if it does not fail.
  abbrev IsRead : {R : Type 0} → (BackupDb → R) → Result R → Type 0
  IsRead f (ok r) = r ≡ f db
  IsRead f (err x) = Unit

  reads-Same : {R : Type 0} (f : BackupDb → R) → Does Same (reads e f) (λ r w. IsRead f r × Same w)
  unfolding perform
  reads-Same f = record {
    at = λ w h. elim (Bool-cases (e.turn w.steps).fails) [
      | inl g ↦ rw g (tt, single w.steps w.db ∙ h)
      | inr g ↦ rw g (ap f (single w.steps w.db ∙ h), single w.steps w.db ∙ h)
    ];
  }

  same : {R : Type 0} (r : R) → Keeps (return r)
  same r = return-Does r (λ w h. h)

  clock-Same : Keeps (clock e)
  unfolding clock
  clock-Same = record { at = λ w h. h }

  pass-Same :
      {R S : Type 0} (r : Result R) (f : R → B (Result S))
      → ((a : R) → Keeps (f a))
      → Keeps (or_pass r f)
  pass-Same (err x) f h = same _
  pass-Same (ok a) f h = h a

  step-Same :
      {R S : Type 0} {m : B (Result R)} (f : R → B (Result S))
      → Keeps m
      → ((a : R) → Keeps (f a))
      → Keeps (or_pass_step m f)
  step-Same f k h = bind-Does k λ r. pass-Same r f h

  lines-Same : (path : Text) (cutoff : ℕ) (bs : List Backup) → Keeps (write_lines e path cutoff bs)
  unfolding write_lines
  lines-Same path cutoff [] = same _
  lines-Same path cutoff (b ∷ bs) =
      bind-Does clock-Same
        λ now. pass-Same _ _ λ line. step-Same _ (disk-Same _) λ _. lines-Same path cutoff bs

  archive-Same : (bs : List Backup) (cutoff : ℕ) → Keeps (write_retention_archive e bs cutoff)
  unfolding write_retention_archive
  archive-Same [] cutoff = same _
  archive-Same (b ∷ bs) cutoff = pass-Same _ _ λ local. step-Same _ (disk-Same _) λ _.
      bind-Does clock-Same λ now. pass-Same _ _ λ rel.
        if-Does (escapes e rel) (same _)
          (step-Same _ (disk-Same _) λ _. step-Same _ (lines-Same _ cutoff (b ∷ bs)) λ _. same _)

  deletable-Same :
      (q : CleanupRequest) (cutoff matched : ℕ) → Keeps (archive_deletable e q cutoff matched)
  unfolding archive_deletable repo_list_deletable
  deletable-Same q cutoff matched =
      if-Does (q.archive_before_delete && ltb 0 matched)
        (bind-Does (reads-Same (list_deletable cutoff)) (elim [
          | err x ↦ return-Does _ (λ w h. h.1)
          | ok items ↦ record {
            at = λ w h.
                (bind-Does (archive-Same items cutoff)
                    (elim [ err x ↦ same _ | ok path ↦ same _ ])).at
                  w h.1;
          }
        ]))
        (same _)

  abbrev old : ℕ → ℕ
  old cutoff = length (keep_if (is_deletable cutoff) db.backups)

  abbrev kept : ℕ → BackupDb
  kept cutoff = record db { backups = keep_if (λ b. not (is_deletable cutoff b)) db.backups }

  abbrev IsDeleted : ℕ → Result ℕ → BackupDb → Type 0
  IsDeleted cutoff (err x) db' = db' ≡ db
  IsDeleted cutoff (ok n) db' = (n ≡ old cutoff) × (db' ≡ kept cutoff)

  delete-Does :
      (cutoff : ℕ) → Does Same (repo_delete_deletable e cutoff) (λ r w. IsDeleted cutoff r w.db)
  unfolding repo_delete_deletable perform delete_deletable
  delete-Does cutoff = record {
    at = λ w h. elim (Bool-cases (e.turn w.steps).fails) [
      | inl g ↦ rw g (single w.steps w.db ∙ h)
      | inr g ↦ rw (g, single w.steps w.db, h) (refl, refl)
    ];
  }

  finish-Does :
      (q : CleanupRequest) (cutoff matched : ℕ) (dry : Bool)
      → q.dry_run ≡ dry
      → matched ≡ old cutoff
      → Does Same
          (if dry
            then return (ok (cleanup_result e q cutoff matched 0 []))
            else or_pass_step (archive_deletable e q cutoff matched) λ path.
              or_internal
                (repo_delete_deletable e cutoff)
                λ deleted. return (ok (cleanup_result e q cutoff matched deleted path)))
          (λ r w. CleanupSpec db q cutoff r w.db)
  finish-Does q cutoff matched true eq m = return-Does _ (λ w h. (m, rw eq refl, rw eq h))
  finish-Does q cutoff matched false eq m = bind-Does (deletable-Same q cutoff matched) (elim [
    | err x ↦ return-Does _ (λ w h. h)
    | ok path ↦ bind-Does (delete-Does cutoff) (elim [
      | err x ↦ return-Does _ (λ w h. h)
      | ok n ↦ return-Does _ (λ w (c, h). (m, rw eq c, rw eq h))
    ])
  ])

  cleanup-Does :
      (q : CleanupRequest) (cutoff : ℕ)
      → Does Same (cleanup_before e q cutoff) (λ r w. CleanupSpec db q cutoff r w.db)
  unfolding cleanup_before repo_count_deletable count_deletable
  cleanup-Does q cutoff = bind-Does (reads-Same (count_deletable cutoff)) (elim [
    | err x ↦ return-Does _ (λ w h. h.1)
    | ok matched ↦ record {
      at = λ w (m, h). (finish-Does q cutoff matched q.dry_run refl m).at w h;
    }
  ])

-- `CleanupRetention` deletes the finished records from more days ago than are kept, and no others,
-- and answers how many; a dry run deletes nothing and answers how many it would be; at an error, also
-- one in the archive, nothing is deleted. This holds when no other process writes records.
pub cleanup_retention-CleanupSpec :
    (e : BackupEnv) (q : CleanupRequest) (w : BackupWorld)
    → IsSingle e
    → CleanupSpec w.db q
        ((e.turn w.steps).now - cleanup_days e q.retention_days * day)
        (cleanup_retention e q w).0
        (cleanup_retention e q w).1.db
unfolding cleanup_retention clock ◌>>=◌
cleanup_retention-CleanupSpec e q w single = (cleanup-Does e single w.db q _).at w refl
