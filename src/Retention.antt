-- ===== src/Retention.antt =====
-- internal/backup/retention.go. A limit that is not positive is 0. What the package os answers is a
-- parameter: the entries of the directory, and whether a removal succeeds, as is the time before
-- which a file is too old. `sort.Slice` orders files of one time as it likes, so it is one too.
pub mod Newest
mod Tests
use deploypilot.Base.{
  ℕ, suc, ◌-◌, Bool, true, false, not, ◌&&◌, ◌||◌, List, [], ◌∷◌, ◌++◌, Option, none, some, Text,
  codes, is_empty, length, ltb, if◌then◌else◌,
}
use mathlib.Core.List.{reverse}

pub record RetentionConfig : Type 0 where
  pub retention_count : ℕ
  pub retention_days : ℕ

pub record DirEntry : Type 0 where
  pub is_dir : Bool
  pub name : Text
  pub mod_time : Option ℕ

pub record BackupFile : Type 0 where
  pub path : Text
  pub mod_time : ℕ

pub record Files : Type 0 where
  pub read_dir : Option (List DirEntry)
  pub sort_slice : List BackupFile → List BackupFile
  pub remove : Text → Bool

-- `strings.HasPrefix`
has_prefix : Text → Text → Bool
has_prefix [] s = true
has_prefix (c ∷ p) [] = false
has_prefix (c ∷ p) (d ∷ s) = not (ltb c d) && not (ltb d c) && has_prefix p s

-- `strings.HasSuffix`
has_suffix : Text → Text → Bool
unfolding has_prefix
has_suffix p s = has_prefix (reverse p) (reverse s)

-- Whether a name is that of a backup or of its metadata.
unfoldable pub is_backup_name : Text → Bool
unfolding has_prefix has_suffix
is_backup_name name =
    has_prefix (codes "db-") name
    && (has_suffix (codes ".bak") name || has_suffix (codes ".meta.json") name)

-- The file of an entry, if it counts.
unfoldable pub backup_of : Bool → Text → Option ℕ → List BackupFile
unfolding is_backup_name
backup_of is_dir name none = []
backup_of is_dir name (some t) =
    if not is_dir && is_backup_name name then record { path = name; mod_time = t } ∷ [] else []

-- The loop that collects the files.
unfoldable pub collect : List DirEntry → List BackupFile
unfolding backup_of
collect [] = []
collect (e ∷ es) = backup_of e.is_dir e.name e.mod_time ++ collect es

-- Whether a file goes, of as many as are left.
unfoldable pub should_remove : RetentionConfig → ℕ → ℕ → BackupFile → Bool
should_remove cfg cutoff left b =
    (ltb 0 cfg.retention_count && ltb cfg.retention_count left)
    || (ltb 0 cfg.retention_days && ltb b.mod_time cutoff)

-- The loop over the sorted files: those that stay, and those that are removed.
unfoldable pub sweep :
    RetentionConfig
    → (Text → Bool)
    → ℕ
    → ℕ
    → ℕ
    → List BackupFile
    → List BackupFile × List BackupFile
unfolding should_remove
sweep cfg remove cutoff total removed [] = ([], [])
sweep cfg remove cutoff total removed (b ∷ bs) =
    let taken = should_remove cfg cutoff (total - removed) b && remove b.path in
    let (kept, gone) = sweep cfg remove cutoff total (if taken then suc removed else removed) bs in
    if taken then (kept, b ∷ gone) else (b ∷ kept, gone)

-- `ApplyRetention` for a directory that is read.
unfoldable pub apply_sorted :
    RetentionConfig → (Text → Bool) → ℕ → List BackupFile → List BackupFile × List BackupFile
unfolding sweep
apply_sorted cfg remove cutoff files = sweep cfg remove cutoff (length files) 0 files

abbrev pub entries_in : Option (List DirEntry) → List DirEntry
entries_in none = []
entries_in (some es) = es

-- `ApplyRetention`: the backups that stay, and those that are removed.
unfoldable pub apply_retention : RetentionConfig → Files → ℕ → List BackupFile × List BackupFile
unfolding collect apply_sorted
apply_retention cfg files cutoff =
    let backups = collect (entries_in files.read_dir) in
    if not (ltb 0 cfg.retention_count) && not (ltb 0 cfg.retention_days)
    then (backups, [])
    else apply_sorted cfg files.remove cutoff (files.sort_slice backups)
