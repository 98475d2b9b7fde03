-- ===== src/Retention/Tests.antt =====
-- A concrete clean-up of backups.
use deploypilot.Base.{ℕ, ◌≡◌, refl, true, false, [], ◌∷◌, some, Text, codes, arith, inl}
use deploypilot.Retention.{
  RetentionConfig, DirEntry, BackupFile, Files, apply_retention, collect, entries_in, sweep,
  is_backup_name,
}
use deploypilot.Retention.Newest.{IsTrimmed, apply_retention-IsTrimmed}

abbrev keep_two : RetentionConfig
keep_two = record { retention_count = 2; retention_days = 0 }

abbrev entry : Text → ℕ → DirEntry
entry name time = record { is_dir = false; name = name; mod_time = some time }

-- The files happen to be read in the order of their times, so the sorting changes nothing.
abbrev four_files : Files
four_files = record {
  read_dir = some (
      entry (codes "db-1.bak") 10
      ∷ entry (codes "notes.txt") 11
      ∷ entry (codes "db-2.bak") 20
      ∷ entry (codes "db-3.bak") 30
      ∷ []);
  sort_slice = λ files. files;
  remove = λ path. true;
}

abbrev backup : Text → ℕ → BackupFile
backup path time = record { path = path; mod_time = time }

four_files_kept : apply_retention keep_two four_files 0 ≡ (
  backup (codes "db-2.bak") 20 ∷ backup (codes "db-3.bak") 30 ∷ [],
  backup (codes "db-1.bak") 10 ∷ [],
)
unfolding apply_retention sweep collect is_backup_name
four_files_kept = refl

apply_retention-IsTrimmed_example :
    let (kept, gone) = apply_retention keep_two four_files 0 in
    IsTrimmed keep_two four_files.remove 0
      (λ path. refl)
      (four_files.sort_slice (collect (entries_in four_files.read_dir)))
      kept
      gone
unfolding collect is_backup_name
apply_retention-IsTrimmed_example =
    apply_retention-IsTrimmed keep_two four_files 0 (λ path. refl) (ground arith)
      (inl (omega arith))
